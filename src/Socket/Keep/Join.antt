-- ===== src/Socket/Keep/Join.antt =====
-- A new remote socket and its peer, as handle_packet of adb.cpp joins them, keep the store
-- well-formed.
use mathlib.Core.Option.{some-injective}
use native.Mathlib.Decide.{ℕ_discrete}
use adb_src.Base.{ℕ, suc, ◌≤◌, true, none, some, ◌≡◌, ◌≢◌, sym, ap, subst, ◌∙◌, arith}
use adb_src.Socket.Store.{Os, Socket, State, member}
use adb_src.Socket.Close.Finish.{IsLocalClose, IsSound}
use adb_src.Socket.Close.Lone.{IsWellFormed}

-- From `st` to `st'` the live socket at `p`, which had no peer, was joined to a new one at `q`.
pub record Joined {O : Os} (p q : ℕ) (s t : Socket) (st st' : State O) : Type 0 where
  pub at : st.heap p ≡ some s
  pub lone : s.peer ≡ none
  pub new : q ≡ st.next_address
  pub here :
      (u : Socket) × (st'.heap p ≡ some u)
      × (u.peer ≡ some q)
      × IsSound u
      × (IsLocalClose s.close → IsLocalClose u.close)
  pub there : st'.heap q ≡ some t
  pub back : t.peer ≡ some p
  pub sound : IsSound t
  pub others : (r : ℕ) → r ≢ p → r ≢ q → st'.heap r ≡ st.heap r
  pub list : st'.local_socket_list ≡ st.local_socket_list
  pub next : st'.next_address ≡ suc st.next_address

module _ {O : Os} (p q : ℕ) (s t : Socket) (st st' : State O) (w : IsWellFormed st)
    (j : Joined p q s t st st') where
  used : (a : ℕ) (u : Socket) → st.heap a ≡ some u → a ≢ q
  used a u e is = let x : none ≡ some u = sym (w.unused a (omega (arith, is, j.new))) ∙ e in cc

  old : (a : ℕ) (u : Socket) → a ≢ p → a ≢ q → st'.heap a ≡ some u → st.heap a ≡ some u
  old a u np nq e = sym (j.others a np nq) ∙ e

  -- A socket with a peer is none of the two, and neither is its peer.
  bystander :
      (a b : ℕ) (u : Socket)
      → st.heap a ≡ some u
      → u.peer ≡ some b
      → (b ≢ a) × ((v : Socket) × (st'.heap b ≡ some v) × (v.peer ≡ some a))
  bystander a b u e forth =
      let (apart, (v, there, back)) = w.paired a b u e forth in
      (
        apart,
        (
          v,
          j.others b
                (λ is.
                  let x : none ≡ some a =
                    sym j.lone
                    ∙ ap (λ z. z.peer) (some-injective _ _ (sym j.at ∙ ap st.heap (sym is) ∙ there))
                    ∙ back in
                  cc)
                (used b v there)
              ∙ there,
          back,
        ),
      )

  pub Joined-IsWellFormed : IsWellFormed st'
  Joined-IsWellFormed = record { paired = paired; sound = sound; listed = listed; unused = unused }
    where
      paired :
          (a b : ℕ) (u : Socket)
          → st'.heap a ≡ some u
          → u.peer ≡ some b
          → (b ≢ a) × ((v : Socket) × (st'.heap b ≡ some v) × (v.peer ≡ some a))
      paired a b u e forth = elim (ℕ_discrete a p) [
        | yes is ↦
            let (x, here, forth', good, keeps) = j.here in
            let same : x ≡ u = some-injective _ _ (sym here ∙ ap st'.heap (sym is) ∙ e) in
            let b_is : q ≡ b = some-injective _ _ (sym forth' ∙ ap (λ z. z.peer) same ∙ forth) in
            (
              (λ y. used p s j.at (sym is ∙ sym y ∙ sym b_is)),
              (t, ap st'.heap (sym b_is) ∙ j.there, j.back ∙ ap some (sym is)),
            )
        | no np ↦ elim (ℕ_discrete a q) [
          | yes is ↦
              let (x, here, forth', good, keeps) = j.here in
              let same : t ≡ u = some-injective _ _ (sym j.there ∙ ap st'.heap (sym is) ∙ e) in
              let b_is : p ≡ b = some-injective _ _ (sym j.back ∙ ap (λ z. z.peer) same ∙ forth) in
              (
                (λ y. np (sym y ∙ sym b_is)),
                (x, ap st'.heap (sym b_is) ∙ here, forth' ∙ ap some (sym is)),
              )
          | no nq ↦ bystander a b u (old a u np nq e) forth
        ]
      ]

      sound : (a : ℕ) (u : Socket) → st'.heap a ≡ some u → IsSound u
      sound a u e = elim (ℕ_discrete a p) [
        | yes is ↦
            let (x, here, _, good, keeps) = j.here in
            subst IsSound (some-injective _ _ (sym here ∙ ap st'.heap (sym is) ∙ e)) good
        | no np ↦ elim (ℕ_discrete a q) [
          | yes is ↦
              subst IsSound (some-injective _ _ (sym j.there ∙ ap st'.heap (sym is) ∙ e)) j.sound
          | no nq ↦ w.sound a u (old a u np nq e)
        ]
      ]

      listed :
          (a : ℕ)
          → member a st'.local_socket_list ≡ true
          → (u : Socket) × (st'.heap a ≡ some u) × IsLocalClose u.close
      listed a m =
          let (u, e, loc) = w.listed a (ap (member a) (sym j.list) ∙ m) in
          elim (ℕ_discrete a p) [
            | yes is ↦
                let (x, here, forth, good, keeps) = j.here in
                let same : u ≡ s = some-injective _ _ (sym e ∙ ap st.heap is ∙ j.at) in
                (x, ap st'.heap is ∙ here, keeps (subst (λ v. IsLocalClose v.close) same loc))
            | no np ↦ (u, j.others a np (used a u e) ∙ e, loc)
          ]

      unused : (a : ℕ) → st'.next_address ≤ a → st'.heap a ≡ none
      unused a n =
          let beyond : st.next_address ≤ a = omega (arith, j.next) in
          let np : a ≢ p =
            λ is. let x : none ≡ some s = sym (w.unused a beyond) ∙ ap st.heap is ∙ j.at in cc in
          j.others a np (λ is. absurd (omega (arith, j.next, j.new, is))) ∙ w.unused a beyond
