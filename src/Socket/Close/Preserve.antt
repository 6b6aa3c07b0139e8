-- ===== src/Socket/Close/Preserve.antt =====
-- Closing keeps the store well-formed and takes the socket out of the local list; closing all the
-- sockets of a transport ends with none of them listed.
use mathlib.Core.Option.{some-injective}
use native.Mathlib.Decide.{ℕ_discrete}
use adb_src.Base.{
  ℕ, ◌<◌, ◌≤◌, true, Option, none, some, List, ◌≡◌, ◌≢◌, ◌⊎◌, inl, inr, sym, ap, subst, ◌∙◌, arith,
  Option-cases, length,
}
use adb_src.Socket.Store.{Os, Socket, State, member, erase}
use adb_src.Socket.Close.{close}
use adb_src.Socket.Close.Finish.{
  Ends, Ends-mono, IsLocalClose, IsSound, IsQuiet, freed, alone, member-erase, length-erase,
  length-erase-member, erase_comm,
}
use adb_src.Socket.Close.Lone.{SendFailReturns, IsWellFormed}
use adb_src.Socket.Close.Pair.{Closed}
use adb_src.Socket.Close.Safety.{close-Closed}

IsQuiet-no_peer :
    (c : Option Socket) (s : Socket) (q : ℕ) → IsQuiet c → c ≡ some s → s.peer ≡ some q → ⊥
IsQuiet-no_peer c s q (freed e) at forth = let x : none ≡ some s = sym e ∙ at in cc
IsQuiet-no_peer c s q (alone u e lone sound) at forth =
    let same : u ≡ s = some-injective _ _ (sym e ∙ at) in
    let x : none ≡ some q = sym lone ∙ ap (λ v. v.peer) same ∙ forth in cc

IsQuiet-IsSound : (c : Option Socket) (s : Socket) → IsQuiet c → c ≡ some s → IsSound s
IsQuiet-IsSound c s (freed e) at = let x : none ≡ some s = sym e ∙ at in cc
IsQuiet-IsSound c s (alone u e lone sound) at =
    subst IsSound (some-injective _ _ (sym e ∙ at)) sound

-- A cell after a close: one of the two that were closed, or as it was.
data Fate {O : Os} (p : ℕ) (st st' : State O) (d : Closed p st st') (r : ℕ) : Type 0 where
  self : r ≡ p → Fate p st st' d r
  partner : d.partner ≡ some r → Fate p st st' d r
  other : r ≢ p → some r ≢ d.partner → st'.heap r ≡ st.heap r → Fate p st st' d r

module _ {O : Os} (p : ℕ) (st st' : State O) (d : Closed p st st') where
  fate : (r : ℕ) → Fate p st st' d r
  fate r = elim (ℕ_discrete r p) [
    | yes same ↦ self same
    | no apart ↦ elim (Option-cases d.partner) [
      | inl lone ↦ unshared r apart (λ e. let x : some r ≡ none = e ∙ lone in cc)
      | inr (q, is) ↦ elim (ℕ_discrete r q) [
        | yes same ↦ partner (is ∙ ap some (sym same))
        | no differ ↦ unshared r apart (λ e. differ (some-injective _ _ (e ∙ is)))
      ]
    ]
  ]
    where
      unshared : (r : ℕ) → r ≢ p → some r ≢ d.partner → Fate p st st' d r
      unshared r np nq = other np nq (d.others r np nq)

  Fate-IsQuiet : (r : ℕ) → Fate p st st' d r → IsQuiet (st'.heap r) ⊎ (st'.heap r ≡ st.heap r)
  Fate-IsQuiet r (self e) = inl (subst (λ x. IsQuiet (st'.heap x)) (sym e) d.self_quiet)
  Fate-IsQuiet r (partner e) = inl (d.partner_quiet r e)
  Fate-IsQuiet r (other np nq same) = inr same

  -- The two sockets that were closed have left the local list, and nothing has joined it.
  pub Closed-listed :
      (r : ℕ)
      → member r st'.local_socket_list ≡ true
      → (member r st.local_socket_list ≡ true) × (r ≢ p) × (some r ≢ d.partner)
  Closed-listed r h = go d.list
    where
      go :
          ((d.partner ≡ none) × (st'.local_socket_list ≡ erase p st.local_socket_list))
            ⊎ ((q : ℕ) × (d.partner ≡ some q)
                × (st'.local_socket_list ≡ erase p (erase q st.local_socket_list)))
          → (member r st.local_socket_list ≡ true) × (r ≢ p) × (some r ≢ d.partner)
      go (inl (lone, e)) =
          let m = member-erase r p st.local_socket_list (sym (ap (member r) e) ∙ h) in
          (m.0, m.1, λ x. let y : some r ≡ none = x ∙ lone in cc)
      go (inr (q, is, e)) =
          let m = member-erase r p (erase q st.local_socket_list) (sym (ap (member r) e) ∙ h) in
          let n = member-erase r q st.local_socket_list m.0 in
          (n.0, m.1, λ x. n.1 (some-injective _ _ (x ∙ is)))

  pub Closed-shorter :
      member p st.local_socket_list ≡ true
      → length st'.local_socket_list < length st.local_socket_list
  Closed-shorter h = go d.list
    where
      l : List ℕ
      l = st.local_socket_list

      go :
          ((d.partner ≡ none) × (st'.local_socket_list ≡ erase p l))
            ⊎ ((q : ℕ) × (d.partner ≡ some q) × (st'.local_socket_list ≡ erase p (erase q l)))
          → length st'.local_socket_list < length l
      go (inl (lone, e)) = omega (arith, ap length e, length-erase-member p l h)
      go (inr (q, is, e)) = omega (
        arith,
        ap length (e ∙ erase_comm p q l),
        length-erase-member p l h,
        length-erase q (erase p l),
      )

  pub Closed-IsWellFormed : (s : Socket) → st.heap p ≡ some s → IsWellFormed st → IsWellFormed st'
  Closed-IsWellFormed s e w = record {
    paired = λ a b u at forth. paired a b u at forth (fate a);
    sound = λ a u at. sound a u at (Fate-IsQuiet a (fate a));
    listed = λ a h. listed a (Closed-listed a h);
    unused = λ a h. unused a (subst (λ n. n ≤ a) d.fresh h) (fate a);
  }
    where
      live : (a : ℕ) (u : Socket) → st.next_address ≤ a → st.heap a ≡ some u → ⊥
      live a u h at = let x : none ≡ some u = sym (w.unused a h) ∙ at in cc

      unused : (a : ℕ) → st.next_address ≤ a → Fate p st st' d a → st'.heap a ≡ none
      unused a h (self is) = absurd (live a s h (ap st.heap is ∙ e))
      unused a h (partner is) =
          let (_, (t, there, _)) = w.paired p a s e (d.partner_lem s e ∙ is) in
          absurd (live a t h there)
      unused a h (other np nq same) = same ∙ w.unused a h

      listed :
          (a : ℕ)
          → (member a st.local_socket_list ≡ true) × (a ≢ p) × (some a ≢ d.partner)
          → (u : Socket) × (st'.heap a ≡ some u) × IsLocalClose u.close
      listed a (m, np, nq) = let (u, at, loc) = w.listed a m in (u, d.others a np nq ∙ at, loc)

      sound :
          (a : ℕ) (u : Socket)
          → st'.heap a ≡ some u
          → IsQuiet (st'.heap a) ⊎ (st'.heap a ≡ st.heap a)
          → IsSound u
      sound a u at (inl quiet) = IsQuiet-IsSound _ u quiet at
      sound a u at (inr same) = w.sound a u (sym same ∙ at)

      untouched :
          (a b : ℕ) (u : Socket)
          → st.heap a ≡ some u
          → u.peer ≡ some b
          → a ≢ p
          → some a ≢ d.partner
          → st'.heap b ≡ st.heap b
      untouched a b u at forth np nq =
          let (apart, (t, there, back)) = w.paired a b u at forth in
          d.others b
            (λ is_p. nq (
              sym back
              ∙ ap (λ v. v.peer) (some-injective _ _ (sym there ∙ ap st.heap is_p ∙ e))
              ∙ d.partner_lem s e))
            (λ is_q.
              let (_, (t', there', back')) = w.paired p b s e (d.partner_lem s e ∙ sym is_q) in
              np (
                some-injective _ _
                  (sym back ∙ ap (λ v. v.peer) (some-injective _ _ (sym there ∙ there')) ∙ back')))

      paired :
          (a b : ℕ) (u : Socket)
          → st'.heap a ≡ some u
          → u.peer ≡ some b
          → Fate p st st' d a
          → (b ≢ a) × ((t : Socket) × (st'.heap b ≡ some t) × (t.peer ≡ some a))
      paired a b u at forth (self is) =
          absurd (
            IsQuiet-no_peer _ u b (subst (λ x. IsQuiet (st'.heap x)) (sym is) d.self_quiet) at
              forth)
      paired a b u at forth (partner is) =
          absurd (IsQuiet-no_peer _ u b (d.partner_quiet a is) at forth)
      paired a b u at forth (other np nq same) =
          let before : st.heap a ≡ some u = sym same ∙ at in
          let (apart, (t, there, back)) = w.paired a b u before forth in
          (apart, (t, untouched a b u before forth np nq ∙ there, back))

pub close-IsWellFormed :
    {O : Os} (send_fuel : ℕ)
    → SendFailReturns O send_fuel
    → (p : ℕ) (s : Socket) (st : State O) → IsWellFormed st
    → st.heap p ≡ some s
    → Ends IsWellFormed (close send_fuel 4 p st)
close-IsWellFormed send_fuel returns p s st w e =
    Ends-mono (Closed p st) IsWellFormed (close send_fuel 4 p st)
      (λ st' d. Closed-IsWellFormed p st st' d s e w) (close-Closed send_fuel returns p s st w e)
