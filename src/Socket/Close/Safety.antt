-- ===== src/Socket/Close/Safety.antt =====
-- Closing is safe: from a well-formed store no close reads a freed or null socket, aborts, or runs
-- out of its fuel, and the store stays well-formed.
use adb_src.Base.{
  ℕ, false, none, some, ◌==◌, ◌≡◌, ◌≢◌, ◌⊎◌, inl, inr, refl, sym, ap, subst, ◌∙◌, arith, Bool-cases,
  Option-cases, ==_refl,
}
use mathlib.Core.Option.{some-injective}
use adb_src.Socket.Store.{
  Os, Socket, State, update, CloseFunction, local_close, local_close_notify, remote_close,
  smart_close, member,
}
use adb_src.Socket.Close.{close, call_close, local_socket_close_notify, restore_local}
use adb_src.Socket.Close.Finish.{
  Ends, Ends-mono, restore_local-IsSound, IsLocalClose, Ended, Released-as, Released-at,
}
use adb_src.Socket.Close.Lone.{SendFailReturns, IsWellFormed, close_lone}
use adb_src.Socket.Close.Pair.{peer_of, Closed, IsPair, local_pair, remote_pair}

-- A close that began with a write to the socket itself, which kept all but its functions.
Closed-restore :
    {O : Os} (p : ℕ) (s : Socket) (st : State O) (world : O.World) (st₃ : State O)
    → st.heap p ≡ some s
    → IsLocalClose s.close
    → ((q : ℕ) → s.peer ≡ some q → q ≢ p)
    → Closed p (record st { heap = update st.heap p (some (restore_local s)); world = world }) st₃
    → Closed p st st₃
unfolding peer_of
Closed-restore p s st world st₃ e isl apart d = record {
  partner = d.partner;
  partner_lem = λ u at. ap peer_of (sym at ∙ e) ∙ d.partner_lem (restore_local s) here;
  self_released = Released-at p s st st₃ e (
      Released-as p s (restore_local s) st₃ (refl, refl, refl, refl) (λ _. tt) (λ _. isl)
        (d.self_released (restore_local s) here));
  partner_released = λ q t is at.
      let differ : q ≢ p = apart q (d.partner_lem (restore_local s) here ∙ is) in
      let x : (q == p) ≡ false = ground (arith, differ) in d.partner_released q t is (rw x at);
  others = λ r np nq. d.others r np nq ∙ (let x : (r == p) ≡ false = ground arith in rw x refl);
  self_quiet = d.self_quiet;
  partner_quiet = d.partner_quiet;
  list = d.list;
  fresh = d.fresh;
}
  where
    here : update st.heap p (some (restore_local s)) p ≡ some (restore_local s)
    here = rw (==_refl p) refl

module _ {O : Os} (send_fuel : ℕ) (returns : SendFailReturns O send_fuel) where
  call_pair :
      (c : CloseFunction) (p q : ℕ) (s t : Socket) (st : State O)
      → IsPair st p q s t
      → s.close ≡ c
      → IsLocalClose c ⊎ (member p st.local_socket_list ≡ false)
      → Ends (Closed p st) (call_close send_fuel (close send_fuel 3) c p st)
  unfolding call_close local_socket_close_notify close
  call_pair local_close p q s t st w k l =
      local_pair send_fuel returns 1 p q s t st w (subst IsLocalClose (sym k) tt)
  call_pair local_close_notify p q s t st w k l =
      let s₁ = restore_local s in
      let st₁ = record st { heap = update st.heap p (some s₁) } in
      let (b, world, sent) = returns s.fd st.world in
      let st₂ = record st₁ { world = world } in
      let here : update st.heap p (some s₁) p ≡ some s₁ = rw (==_refl p) refl in
      let apart : (q == p) ≡ false = ground (arith, w.distinct) in
      let pair : IsPair st₂ p q s₁ t = record {
        here = here;
        there = rw apart w.there;
        forth = w.forth;
        back = w.back;
        distinct = w.distinct;
        here_sound = restore_local-IsSound s w.here_sound (subst IsLocalClose (sym k) tt);
        there_sound = w.there_sound;
        there_listed = w.there_listed;
      } in
      rw (w.here, sent, here)
        (Ends-mono (Closed p st₂) (Closed p st) _
          (λ st₃ d.
            Closed-restore p s st world st₃ w.here (subst IsLocalClose (sym k) tt)
              (λ r x is. w.distinct (some-injective _ _ (sym w.forth ∙ x) ∙ is)) d)
          (local_pair send_fuel returns 0 p q s₁ t st₂ pair tt))
  call_pair remote_close p q s t st w k (inl h) = elim h [ ]
  call_pair remote_close p q s t st w k (inr out) =
      remote_pair send_fuel returns 1 p q s t st w (subst IsLocalClose k) out
  call_pair smart_close p q s t st w k (inl h) = elim h [ ]
  call_pair smart_close p q s t st w k (inr out) =
      remote_pair send_fuel returns 1 p q s t st w (subst IsLocalClose k) out

  -- From a well-formed store, and where SendFail returns, every close of a live socket
  -- returns or exits, and no other socket is touched. The socket and its peer have left the local
  -- list, and each of them has no peer and is freed, or waits: a local one is freed, and its
  -- descriptor closed, only if it was closing before, a write failed, or no packet waits; one that
  -- waits is local, marked as closing, on the closing list and not watched for reading, and has its
  -- packets and its descriptor.
  pub close-Closed :
      (p : ℕ) (s : Socket) (st : State O)
      → IsWellFormed st
      → st.heap p ≡ some s
      → Ends (Closed p st) (close send_fuel 4 p st)
  unfolding close peer_of
  close-Closed p s st w e = elim (Option-cases s.peer) [
    | inl lone ↦
        Ends-mono (Ended p st) (Closed p st) _
          (λ st' d. record {
            partner = none;
            partner_lem = λ u at. ap peer_of (sym at ∙ e) ∙ lone;
            self_released = d.released;
            partner_released = λ q t x. cc;
            others = λ r np nq. d.others r np;
            self_quiet = d.quiet;
            partner_quiet = λ q x. cc;
            list = inl (refl, d.list);
            fresh = d.fresh;
          })
          (close_lone send_fuel returns 2 p s st e lone (w.sound p s e) (listed_or_not p s e))
    | inr (q, joined) ↦
        let (apart, (t, there, back)) = w.paired p q s e joined in
        rw e (
          call_pair s.close p q s t st
            (record {
              here = e;
              there = there;
              forth = joined;
              back = back;
              distinct = apart;
              here_sound = w.sound p s e;
              there_sound = w.sound q t there;
              there_listed = listed_or_not q t there;
            })
            refl (listed_or_not p s e))
  ]
    where
      listed_or_not :
          (r : ℕ) (u : Socket)
          → st.heap r ≡ some u
          → IsLocalClose u.close ⊎ (member r st.local_socket_list ≡ false)
      listed_or_not r u at = elim (Bool-cases (member r st.local_socket_list)) [
        | inr out ↦ inr out
        | inl inside ↦
            let (v, there, local) = w.listed r inside in
            let same : v ≡ u = some-injective _ _ (sym there ∙ at) in
            inl (subst (λ x. IsLocalClose x.close) same local)
      ]
