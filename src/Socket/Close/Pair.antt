-- ===== src/Socket/Close/Pair.antt =====
-- Closing a socket together with its peer, by each close function.
use adb_src.Base.{
  ℕ, suc, false, Option, none, some, ◌==◌, ◌≡◌, ◌≢◌, ◌⊎◌, inr, refl, sym, ap, subst, ◌∙◌, arith,
  ==_refl,
}
use adb_src.Socket.Store.{Os, Socket, State, update, member, erase}
use adb_src.Socket.Close.{
  close, local_socket_close, remote_socket_close, close_peer, leave_peer, call_shutdown, clear_peer,
}
use adb_src.Socket.Close.Finish.{
  Ends, Ends-mono, Ends-bind, IsLocalClose, IsSound, IsQuiet, freed, Ended, Released, gone, waits,
  Released-as, Released-at, Released-after, erase_absent, member-erase_absent,
  finish_local_close-Ended,
}
use adb_src.Socket.Close.Lone.{SendFailReturns, drop_peer, shutdown-Ends}

-- From `st` to `st'` the socket at `p` was closed, and the peer that it had with it: both are
-- released, both cells are quiet, every other cell is as it was, and both left the local list.
pub record Closed {O : Os} (p : ℕ) (st st' : State O) : Type 0 where
  pub partner : Option ℕ
  pub partner_lem : (s : Socket) → st.heap p ≡ some s → s.peer ≡ partner
  pub others : (r : ℕ) → r ≢ p → some r ≢ partner → st'.heap r ≡ st.heap r
  pub self_released : (s : Socket) → st.heap p ≡ some s → Released p s st'
  pub partner_released :
      (q : ℕ) (t : Socket) → partner ≡ some q → st.heap q ≡ some t → Released q t st'
  pub self_quiet : IsQuiet (st'.heap p)
  pub partner_quiet : (q : ℕ) → partner ≡ some q → IsQuiet (st'.heap q)
  pub list :
      ((partner ≡ none) × (st'.local_socket_list ≡ erase p st.local_socket_list))
      ⊎ ((q : ℕ) × (partner ≡ some q)
          × (st'.local_socket_list ≡ erase p (erase q st.local_socket_list)))
  pub fresh : st'.next_address ≡ st.next_address

unfoldable pub peer_of : Option Socket → Option ℕ
peer_of none = none
peer_of (some u) = u.peer

-- A socket at `p`, and its peer at `q`, as a well-formed store has them.
pub record IsPair {O : Os} (st : State O) (p q : ℕ) (s t : Socket) : Type 0 where
  pub here : st.heap p ≡ some s
  pub there : st.heap q ≡ some t
  pub forth : s.peer ≡ some q
  pub back : t.peer ≡ some p
  pub distinct : q ≢ p
  pub here_sound : IsSound s
  pub there_sound : IsSound t
  pub there_listed : IsLocalClose t.close ⊎ (member q st.local_socket_list ≡ false)

-- The peer at `q` is closed, and the socket at `p` has forgotten it.
record Dropped {O : Os} (p q : ℕ) (s t : Socket) (st st' : State O) : Type 0 where
  released : Released q t st'
  others : (r : ℕ) → r ≢ p → r ≢ q → st'.heap r ≡ st.heap r
  self : st'.heap p ≡ some (record s { peer = none })
  quiet : IsQuiet (st'.heap q)
  list : st'.local_socket_list ≡ erase q st.local_socket_list
  fresh : st'.next_address ≡ st.next_address

-- A write to another cell leaves it so.
Released-elsewhere :
    {O : Os} (q : ℕ) (t : Socket) (st st' : State O)
    → st'.heap q ≡ st.heap q
    → st'.closed_fds ≡ st.closed_fds
    → st'.local_socket_closing_list ≡ st.local_socket_closing_list
    → Released q t st
    → Released q t st'
Released-elsewhere q t st st' same fds list (gone e h) =
    gone (same ∙ e) (λ isl. let (closed, why) = h isl in (ap (member t.fd) fds ∙ closed, why))
Released-elsewhere q t st st' same fds list (waits u e w m) =
    waits u (same ∙ e) w (ap (member q) list ∙ m)

module _ {O : Os} (send_fuel : ℕ) (returns : SendFailReturns O send_fuel) (fuel : ℕ) where
  close_peer-Dropped :
      (p q : ℕ) (s t : Socket) (st : State O)
      → IsPair st p q s t
      → Ends (Dropped p q s t st) (close_peer (close send_fuel (suc (suc fuel))) p (some q) st)
  unfolding close_peer
  close_peer-Dropped p q s t st w = rw w.there (
      Ends-bind _ (Dropped p q s t st) (call_shutdown t.shutdown q st) _
        (shutdown-Ends send_fuel returns t.shutdown q t st s p w.there w.back w.here refl
          w.there_sound)
        (λ st₁ same.
          Ends-bind (Ended q st₁) (Dropped p q s t st)
            (leave_peer (close send_fuel (suc (suc fuel))) (some q) st₁) _
            (drop_peer send_fuel returns fuel q t st₁ (ap (λ h. h q) same.0 ∙ w.there) w.there_sound
              (rw same.1 w.there_listed))
            (λ st₂ d. forget st₁ st₂ same.0 same.1 same.3 d)))
    where
      forget :
          (st₁ st₂ : State O)
          → st₁.heap ≡ st.heap
          → st₁.local_socket_list ≡ st.local_socket_list
          → st₁.next_address ≡ st.next_address
          → Ended q st₁ st₂
          → Ends (Dropped p q s t st) (clear_peer p st₂)
      forget st₁ st₂ same_heap same_list same_next d =
          let at : st₂.heap p ≡ some s =
            d.others p (λ e. w.distinct (sym e)) ∙ ap (λ h. h p) same_heap ∙ w.here in
          rw at (record {
            released =
                let x : (q == p) ≡ false = ground (arith, w.distinct) in
                Released-elsewhere q t st₂ _ (rw x refl) refl refl
                  (d.released t (ap (λ h. h q) same_heap ∙ w.there));
            others = λ r np nq.
                let t : (r == p) ≡ false = ground arith in
                rw t (d.others r nq ∙ ap (λ h. h r) same_heap);
            self = rw (==_refl p) refl;
            quiet = let t : (q == p) ≡ false = ground (arith, w.distinct) in rw t d.quiet;
            list = d.list ∙ ap (erase q) same_list;
            fresh = d.fresh ∙ same_next;
          })

  pub local_pair :
      (p q : ℕ) (s t : Socket) (st : State O)
      → IsPair st p q s t
      → IsLocalClose s.close
      → Ends (Closed p st) (local_socket_close (close send_fuel (suc (suc fuel))) p st)
  unfolding local_socket_close peer_of
  local_pair p q s t st w isl =
      rw (w.here, w.forth)
        (Ends-bind (Dropped p q s t st) (Closed p st)
          (close_peer (close send_fuel (suc (suc fuel))) p (some q) st) _
          (close_peer-Dropped p q s t st w)
          (λ st₁ d.
            Ends-mono (Ended p st₁) (Closed p st) _
              (λ st₂ e. record {
                partner = some q;
                partner_lem = λ u at. ap peer_of (sym at ∙ w.here) ∙ w.forth;
                self_released = Released-at p s st st₂ w.here (
                    Released-as p s (record s { peer = none }) st₂ (refl, refl, refl, refl) (λ h. h)
                      (λ h. h) (e.released (record s { peer = none }) d.self));
                partner_released = λ r u x at.
                    let is : r ≡ q = cc in
                    subst (λ y. Released y u st₂) (sym is)
                      (Released-at q t st st₂ w.there
                        (Released-after p q t st₁ st₂ w.distinct e d.released) u
                        (ap st.heap (sym is) ∙ at));
                others = λ r np nq. e.others r np ∙ d.others r np (λ x. nq (ap some x));
                self_quiet = e.quiet;
                partner_quiet = λ r x.
                    let at : r ≡ q = cc in
                    rw at (subst IsQuiet (sym (e.others q w.distinct)) d.quiet);
                list = inr (q, refl, e.list ∙ ap (erase p) d.list);
                fresh = e.fresh ∙ d.fresh;
              })
              (finish_local_close-Ended p (record s { peer = none }) st₁ d.self refl
                (record {
                  watched = w.here_sound.watched;
                  bound = w.here_sound.bound;
                  kind = w.here_sound.kind;
                  talks = w.here_sound.talks;
                })
                isl)))

  pub remote_pair :
      (p q : ℕ) (s t : Socket) (st : State O)
      → IsPair st p q s t
      → (IsLocalClose s.close → ⊥)
      → member p st.local_socket_list ≡ false
      → Ends (Closed p st) (remote_socket_close (close send_fuel (suc (suc fuel))) p st)
  unfolding remote_socket_close peer_of
  remote_pair p q s t st w not_local out =
      rw (w.here, w.forth)
        (Ends-bind (Ended q st) (Closed p st)
          (leave_peer (close send_fuel (suc (suc fuel))) (some q) st) _
          (drop_peer send_fuel returns fuel q t st w.there w.there_sound w.there_listed)
          (λ st₁ d. record {
            partner = some q;
            partner_lem = λ u at. ap peer_of (sym at ∙ w.here) ∙ w.forth;
            self_released =
                Released-at p s st (record st₁ { heap = update st₁.heap p none }) w.here
                  (gone (rw (==_refl p) refl) (λ h. absurd (not_local h)));
            partner_released = λ r u x at.
                let is : r ≡ q = cc in
                let y : (q == p) ≡ false = ground (arith, w.distinct) in
                subst (λ z. Released z u (record st₁ { heap = update st₁.heap p none })) (sym is)
                  (Released-elsewhere q u st₁ (record st₁ { heap = update st₁.heap p none })
                    (rw y refl) refl refl (d.released u (ap st.heap (sym is) ∙ at)));
            others = λ r np nq.
                let x : (r == p) ≡ false = ground arith in rw x (d.others r (λ y. nq (ap some y)));
            self_quiet = freed (rw (==_refl p) refl);
            partner_quiet = λ r x.
                let at : r ≡ q = cc in
                let y : (q == p) ≡ false = ground (arith, w.distinct) in rw at (rw y d.quiet);
            list = inr (
              q,
              refl,
              d.list
                  ∙ sym (
                      erase_absent p (erase q st.local_socket_list)
                        (member-erase_absent p q st.local_socket_list out)),
            );
            fresh = d.fresh;
          }))
