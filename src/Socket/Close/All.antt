-- ===== src/Socket/Close/All.antt =====
-- close_all_sockets and the property that it is there for: when it returns, no socket of the local
-- list belongs to the transport or to a peer on it.
use mathlib.Core.Option.{some-injective}
use adb_src.Base.{
  ℕ, suc, zero, ◌<◌, true, false, none, some, List, [], ◌∷◌, ◌==◌, ◌≡◌, ◌⊎◌, inl, inr, refl, sym,
  ap, subst, ◌∙◌, arith, Bool-cases, Option-cases, length, ==_refl,
}
use adb_src.Socket.Store.{Os, Socket, State, ok, member}
use adb_src.Socket.Close.{
  close, same_transport, uses_transport, choose, choose_cell, first_using, close_then,
  close_all_sockets,
}
use adb_src.Socket.Close.Finish.{Ends, Ends-bind}
use adb_src.Socket.Close.Lone.{SendFailReturns, IsWellFormed}
use adb_src.Socket.Close.Pair.{Closed}
use adb_src.Socket.Close.Safety.{close-Closed}
use adb_src.Socket.Close.Preserve.{Closed-IsWellFormed, Closed-shorter}

-- No socket of the list `l` uses the transport.
abbrev pub NoneUses : {O : Os} → State O → ℕ → List ℕ → Type 0
NoneUses st t l =
    (r : ℕ)
    → member r l ≡ true
    → (s : Socket) → st.heap r ≡ some s
    → uses_transport st t s ≡ ok false

module _ {O : Os} (t : ℕ) (st : State O) (w : IsWellFormed st) where
  uses_transport-total :
      (r : ℕ) (s : Socket)
      → st.heap r ≡ some s
      → (uses_transport st t s ≡ ok true) ⊎ (uses_transport st t s ≡ ok false)
  unfolding uses_transport
  uses_transport-total r s e = elim (Bool-cases (same_transport s.transport t)) [
    | inl own ↦ inl (rw own refl)
    | inr foreign ↦ elim (Option-cases s.peer) [
      | inl lone ↦ inr (rw (foreign, lone) refl)
      | inr (q, joined) ↦
          let (_, (u, there, _)) = w.paired r q s e joined in
          elim (Bool-cases (same_transport u.transport t)) [
            | inl yes' ↦ inl (rw (foreign, joined, there, yes') refl)
            | inr no' ↦ inr (rw (foreign, joined, there, no') refl)
          ]
    ]
  ]

  first_using-cases :
      (l : List ℕ)
      → ((r : ℕ) → member r l ≡ true → member r st.local_socket_list ≡ true)
      → ((first_using st t l ≡ ok none) × NoneUses st t l)
        ⊎ ((p : ℕ) × (first_using st t l ≡ ok (some p)) × (member p l ≡ true))
  unfolding first_using choose_cell choose member
  first_using-cases [] inside = inl (refl, λ r h s e. cc)
  first_using-cases (p ∷ l) inside =
      let (s, at, _) = w.listed p (inside p (ground (arith, ==_refl p))) in
      elim (uses_transport-total p s at) [
        | inl hit ↦ inr (
          p,
          ap (λ c. choose_cell st t p c (first_using st t l)) at
              ∙ ap (λ b. choose p b (first_using st t l)) hit,
          ground (arith, ==_refl p),
        )
        | inr miss ↦
            let step : first_using st t (p ∷ l) ≡ first_using st t l =
              ap (λ c. choose_cell st t p c (first_using st t l)) at
              ∙ ap (λ b. choose p b (first_using st t l)) miss in
            elim (first_using-cases l (λ r h. inside r (ground arith))) [
              | inl (stops, clear) ↦
                  inl (step ∙ stops, λ r h u e. clear_cons p l s at miss clear r h u e)
              | inr (q, hit, m) ↦ inr (q, step ∙ hit, ground arith)
            ]
      ]
    where
      clear_cons :
          (p : ℕ) (l : List ℕ) (s : Socket)
          → st.heap p ≡ some s
          → uses_transport st t s ≡ ok false
          → NoneUses st t l
          → NoneUses st t (p ∷ l)
      clear_cons p l s at miss clear r h u e = elim (Bool-cases (r == p)) [
        | inl same ↦
            let here : r ≡ p = ground arith in
            subst (λ v. uses_transport st t v ≡ ok false)
              (some-injective _ _ (sym at ∙ ap st.heap (sym here) ∙ e)) miss
        | inr differ ↦ clear r (ground arith) u e
      ]

module _ {O : Os} (send_fuel : ℕ) (returns : SendFailReturns O send_fuel) (t : ℕ) where
  pub close_all_sockets-NoneUses :
      (fuel : ℕ) (st : State O)
      → IsWellFormed st
      → length st.local_socket_list < fuel
      → Ends
          (λ st'. IsWellFormed st' × NoneUses st' t st'.local_socket_list)
          (close_all_sockets send_fuel fuel t st)
  unfolding close_all_sockets close_then
  close_all_sockets-NoneUses zero st w h = elim h [ ]
  close_all_sockets-NoneUses (suc fuel) st w h =
      elim (first_using-cases t st w st.local_socket_list (λ r m. m)) [
        | inl (stops, clear) ↦ rw (stops, close_then) (w, clear)
        | inr (p, hit, m) ↦
            let (s, at, _) = w.listed p m in
            rw (hit, close_then)
              (Ends-bind (Closed p st) _ (close send_fuel 4 p st) _
                (close-Closed send_fuel returns p s st w at)
                (λ st₁ d.
                  close_all_sockets-NoneUses fuel st₁ (Closed-IsWellFormed p st st₁ d s at w)
                    (let shorter = Closed-shorter p st st₁ d m in omega arith)))
      ]
