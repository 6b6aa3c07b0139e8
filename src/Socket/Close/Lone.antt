-- ===== src/Socket/Close/Lone.antt =====
-- Closing a socket that has no peer, by each close function, and the peer half of a close.
use adb_src.Base.{
  ℕ, suc, ◌≤◌, Bool, true, false, none, some, ◌==◌, ◌≡◌, ◌≢◌, ◌⊎◌, inl, inr, refl, sym, subst, ◌∙◌,
  arith, ==_refl, codes,
}
use adb_src.Io.Protocol.{send_fail}
use adb_src.Socket.Store.{
  Os, writer, Socket, State, M, update, CloseFunction, local_close, local_close_notify,
  remote_close, smart_close, ShutdownFunction, no_shutdown, remote_shutdown, member,
}
use adb_src.Socket.Remote.{remote_socket_shutdown}
use adb_src.Socket.Close.{
  close, call_close, local_socket_close, local_socket_close_notify, remote_socket_close, close_peer,
  leave_peer, call_shutdown, restore_local,
}
use adb_src.Socket.Close.Finish.{
  Ends, Ends-mono, restore_local-IsSound, IsLocalClose, IsSound, freed, Ended, Released-as,
  Released-at, gone, erase_absent, finish_local_close-Ended,
}

-- `SendFail(fd, "closed")` returns on every descriptor: no socket answers `EAGAIN` for ever.
abbrev pub SendFailReturns : Os → ℕ → Type 0
SendFailReturns O send_fuel =
    (fd : ℕ) (w : O.World)
    → (b : Bool) × (w' : O.World) × (send_fail (writer O fd) send_fuel w (codes "closed")
        ≡ some (b, w'))

-- Peers point at one another, sockets are sound, the local list holds live local sockets, and no
-- address from the next one on is in use.
pub record IsWellFormed {O : Os} (st : State O) : Type 0 where
  pub paired :
      (p q : ℕ) (s : Socket)
      → st.heap p ≡ some s
      → s.peer ≡ some q
      → (q ≢ p) × ((t : Socket) × (st.heap q ≡ some t) × (t.peer ≡ some p))
  pub sound : (p : ℕ) (s : Socket) → st.heap p ≡ some s → IsSound s
  pub listed :
      (p : ℕ)
      → member p st.local_socket_list ≡ true
      → (s : Socket) × (st.heap p ≡ some s) × IsLocalClose s.close
  pub unused : (p : ℕ) → st.next_address ≤ p → st.heap p ≡ none

module _ {O : Os} (send_fuel : ℕ) (returns : SendFailReturns O send_fuel) where
  local_lone :
      (f : ℕ → M O (Unit {0})) (p : ℕ) (s : Socket) (st : State O)
      → st.heap p ≡ some s
      → s.peer ≡ none
      → IsSound s
      → IsLocalClose s.close
      → Ends (Ended p st) (local_socket_close f p st)
  unfolding local_socket_close close_peer
  local_lone f p s st e lone sound isl =
      rw (e, lone) (finish_local_close-Ended p s st e lone sound isl)

  free_lone :
      (f : ℕ → M O (Unit {0})) (p : ℕ) (s : Socket) (st : State O)
      → st.heap p ≡ some s
      → s.peer ≡ none
      → (IsLocalClose s.close → ⊥)
      → member p st.local_socket_list ≡ false
      → Ends (Ended p st) (remote_socket_close f p st)
  unfolding remote_socket_close leave_peer
  free_lone f p s st e lone not_local out =
      rw (e, lone)
        (record {
          released =
              Released-at p s st _ e (gone (rw (==_refl p) refl) (λ h. absurd (not_local h)));
          kept_fds = λ d h. h;
          kept_waiting = λ r ne h. h;
          others = λ r ne. let t : (r == p) ≡ false = ground arith in rw t refl;
          quiet = freed (rw (==_refl p) refl);
          list = sym (erase_absent p st.local_socket_list out);
          fresh = refl;
        })

  -- The restored socket of local_socket_close_notify is closed as a local one.
  pub notify_lone :
      (fuel p : ℕ) (s : Socket) (st : State O)
      → st.heap p ≡ some s
      → s.peer ≡ none
      → IsSound s
      → IsLocalClose s.close
      → Ends (Ended p st) (local_socket_close_notify send_fuel (close send_fuel (suc fuel)) p st)
  unfolding local_socket_close_notify close call_close
  notify_lone fuel p s st e lone sound isl =
      let s₁ = restore_local s in
      let st₁ = record st { heap = update st.heap p (some s₁) } in
      let (b, w, sent) = returns s.fd st.world in
      let st₂ = record st₁ { world = w } in
      rw (e, sent, ==_refl p)
        (Ends-mono (Ended p st₂) (Ended p st) _
          (λ st₃ d. record {
            released = Released-at p s st st₃ e (
                Released-as p s s₁ st₃ (refl, refl, refl, refl) (λ _. tt) (λ _. isl)
                  (d.released s₁ (rw (==_refl p) refl)));
            kept_fds = d.kept_fds;
            kept_waiting = d.kept_waiting;
            others = λ r ne. d.others r ne ∙ (let t : (r == p) ≡ false = ground arith in rw t refl);
            quiet = d.quiet;
            list = d.list;
            fresh = d.fresh;
          })
          (local_lone (close send_fuel fuel) p s₁ st₂ (rw (==_refl p) refl) lone
            (restore_local-IsSound s sound isl) tt))

  -- Closing a socket that has no peer.
  pub call_lone :
      (fuel : ℕ) (c : CloseFunction) (p : ℕ) (s : Socket) (st : State O)
      → st.heap p ≡ some s
      → s.peer ≡ none
      → IsSound s
      → s.close ≡ c
      → IsLocalClose c ⊎ (member p st.local_socket_list ≡ false)
      → Ends (Ended p st) (call_close send_fuel (close send_fuel (suc fuel)) c p st)
  unfolding call_close
  call_lone fuel local_close p s st e lone sound k w =
      local_lone (close send_fuel (suc fuel)) p s st e lone sound (subst IsLocalClose (sym k) tt)
  call_lone fuel local_close_notify p s st e lone sound k w =
      notify_lone fuel p s st e lone sound (subst IsLocalClose (sym k) tt)
  call_lone fuel remote_close p s st e lone sound k (inl h) = elim h [ ]
  call_lone fuel remote_close p s st e lone sound k (inr out) =
      free_lone (close send_fuel (suc fuel)) p s st e lone (subst IsLocalClose k) out
  call_lone fuel smart_close p s st e lone sound k (inl h) = elim h [ ]
  call_lone fuel smart_close p s st e lone sound k (inr out) =
      free_lone (close send_fuel (suc fuel)) p s st e lone (subst IsLocalClose k) out

  pub close_lone :
      (fuel p : ℕ) (s : Socket) (st : State O)
      → st.heap p ≡ some s
      → s.peer ≡ none
      → IsSound s
      → IsLocalClose s.close ⊎ (member p st.local_socket_list ≡ false)
      → Ends (Ended p st) (close send_fuel (suc (suc fuel)) p st)
  unfolding close
  close_lone fuel p s st e lone sound w = rw e (call_lone fuel s.close p s st e lone sound refl w)

module _ {O : Os} (send_fuel : ℕ) (returns : SendFailReturns O send_fuel) where
  -- The peer half of a close: the peer's pointer back is cleared, and the peer is closed.
  pub drop_peer :
      (fuel q : ℕ) (t : Socket) (st : State O)
      → st.heap q ≡ some t
      → IsSound t
      → IsLocalClose t.close ⊎ (member q st.local_socket_list ≡ false)
      → Ends (Ended q st) (leave_peer (close send_fuel (suc (suc fuel))) (some q) st)
  unfolding leave_peer
  drop_peer fuel q t st e sound w =
      let t₁ : Socket = record t { peer = none } in
      let st₁ = record st { heap = update st.heap q (some t₁) } in
      rw e (
        Ends-mono (Ended q st₁) (Ended q st) _
          (λ st₂ d. record {
            released = Released-at q t st st₂ e (
                Released-as q t t₁ st₂ (refl, refl, refl, refl) (λ h. h) (λ h. h)
                  (d.released t₁ (rw (==_refl q) refl)));
            kept_fds = d.kept_fds;
            kept_waiting = d.kept_waiting;
            others = λ r ne. d.others r ne ∙ (let x : (r == q) ≡ false = ground arith in rw x refl);
            quiet = d.quiet;
            list = d.list;
            fresh = d.fresh;
          })
          (close_lone send_fuel returns fuel q t₁ st₁ (rw (==_refl q) refl) refl
            (record {
              watched = sound.watched;
              bound = sound.bound;
              kind = sound.kind;
              talks = sound.talks;
            })
            w))

  pub shutdown-Ends :
      (f : ShutdownFunction) (q : ℕ) (t : Socket) (st : State O) (s : Socket) (p : ℕ)
      → st.heap q ≡ some t
      → t.peer ≡ some p
      → st.heap p ≡ some s
      → t.shutdown ≡ f
      → IsSound t
      → Ends
          (λ st'.
            (st'.heap ≡ st.heap)
            × (st'.local_socket_list ≡ st.local_socket_list)
            × (st'.world ≡ st.world)
            × (st'.next_address ≡ st.next_address))
          (call_shutdown f q st)
  unfolding call_shutdown remote_socket_shutdown
  shutdown-Ends no_shutdown q t st s p e back ep k sound = (refl, refl, refl, refl)
  shutdown-Ends remote_shutdown q t st s p e back ep k sound =
      let (u, b) = sound.bound k in rw (e, back, ep, b) (refl, refl, refl, refl)
