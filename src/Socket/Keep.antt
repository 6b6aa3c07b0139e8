-- ===== src/Socket/Keep.antt =====
-- What handling a packet does to single sockets keeps the store well-formed: writes to a cell, new
-- sockets and their peers, local_socket_enqueue, and the ready functions.
pub mod Join
pub mod Calls
pub mod Open
use mathlib.Core.Option.{some-injective}
use native.Mathlib.Decide.{ℕ_discrete}
use adb_src.Base.{
  ℕ, ◌≤◌, true, false, Option, none, some, List, ◌==◌, ◌≡◌, ◌≢◌, refl, sym, ap, subst, ◌∙◌, arith,
  ==_refl,
}
use adb_src.Packet.{Packet}
use adb_src.Socket.Store.{
  Os, Socket, State, M, Result, ok, fatal, exited, fault, out_of_fuel, bind_result, update, member,
}
use adb_src.Socket.Close.{close}
use adb_src.Socket.Close.Finish.{Ends, IsLocalClose, IsSound}
use adb_src.Socket.Close.Lone.{IsWellFormed}

-- As Ends, for calls with a value.
abbrev pub Returns : {O : Os} {A : Type 0} → (A → State O → Type 0) → Result (A × State O) → Type 0
Returns P (ok (a, st)) = P a st
Returns P exited = Unit {0}
Returns P fatal = ⊥
Returns P fault = ⊥
Returns P out_of_fuel = ⊥

pub Returns-bind :
    {O : Os} {A B : Type 0} (P : A → State O → Type 0) (Q : B → State O → Type 0)
    (r : Result (A × State O)) (k : A → M O B)
    → Returns P r
    → ((a : A) (st : State O) → P a st → Returns Q (k a st))
    → Returns Q (bind_result r k)
Returns-bind P Q (ok (a, st)) k h f = f a st h
Returns-bind P Q exited k h f = tt
Returns-bind P Q fatal k h f = h
Returns-bind P Q fault k h f = h
Returns-bind P Q out_of_fuel k h f = h

pub Ends-Returns :
    {O : Os} (P : State O → Type 0) (r : Result (Unit {0} × State O))
    → Ends P r
    → Returns (λ _. P) r
Ends-Returns P (ok (a, st)) h = h
Ends-Returns P exited h = tt
Ends-Returns P fatal h = h
Ends-Returns P fault h = h
Ends-Returns P out_of_fuel h = h

pub Returns-Ends :
    {O : Os} (P : State O → Type 0) (r : Result (Unit {0} × State O))
    → Returns (λ _. P) r
    → Ends P r
Returns-Ends P (ok (a, st)) h = h
Returns-Ends P exited h = tt
Returns-Ends P fatal h = h
Returns-Ends P fault h = h
Returns-Ends P out_of_fuel h = h

update_at : (h : ℕ → Option Socket) (p : ℕ) (c : Option Socket) → update h p c p ≡ c
update_at h p c = rw (==_refl p) refl

update_other : (h : ℕ → Option Socket) (p r : ℕ) (c : Option Socket) → r ≢ p → update h p c r ≡ h r
update_other h p r c apart = let x : (r == p) ≡ false = ground arith in rw x refl

module _ {O : Os} where
  -- Only the cells, the list and the next address matter.
  pub same-IsWellFormed :
      (st : State O) (w : IsWellFormed st) (world : O.World) (sent : List (ℕ × Packet))
      → IsWellFormed (record st { world = world; sent = sent })
  same-IsWellFormed st w world sent = record {
    paired = w.paired;
    sound = w.sound;
    listed = w.listed;
    unused = w.unused;
  }

  -- A write to a live cell that keeps the peer.
  module _ (p : ℕ) (s s' : Socket) (st : State O) (w : IsWellFormed st) (at : st.heap p ≡ some s)
      (same : s'.peer ≡ s.peer) (sound : IsSound s')
      (local : IsLocalClose s.close → IsLocalClose s'.close) where
    rewritten : (a : ℕ) (u : Socket) → a ≡ p → update st.heap p (some s') a ≡ some u → s' ≡ u
    rewritten a u is e =
        some-injective _ _
          (sym (update_at st.heap p (some s')) ∙ ap (update st.heap p (some s')) (sym is) ∙ e)

    kept : (a : ℕ) (u : Socket) → a ≢ p → update st.heap p (some s') a ≡ some u → st.heap a ≡ some u
    kept a u apart e = sym (update_other st.heap p a (some s') apart) ∙ e

    points_back :
        (b a : ℕ) (t : Socket)
        → st.heap b ≡ some t
        → t.peer ≡ some a
        → (u : Socket) × (update st.heap p (some s') b ≡ some u) × (u.peer ≡ some a)
    points_back b a t there back = elim (ℕ_discrete b p) [
      | yes is ↦ (
        s',
        ap (update st.heap p (some s')) is ∙ update_at st.heap p (some s'),
        same ∙ ap (λ v. v.peer) (some-injective _ _ (sym at ∙ ap st.heap (sym is) ∙ there)) ∙ back,
      )
      | no apart ↦ (t, update_other st.heap p b (some s') apart ∙ there, back)
    ]

    pub store-IsWellFormed : IsWellFormed (record st { heap = update st.heap p (some s') })
    store-IsWellFormed = record {
      paired = paired;
      sound = sounds;
      listed = listed;
      unused = unused;
    }
      where
        joined :
            (a b : ℕ) (v : Socket)
            → st.heap a ≡ some v
            → v.peer ≡ some b
            → (b ≢ a) × ((t : Socket) × (update st.heap p (some s') b ≡ some t) × (t.peer ≡ some a))
        joined a b v e forth =
            let (apart, (t, there, back)) = w.paired a b v e forth in
            (apart, points_back b a t there back)

        paired :
            (a b : ℕ) (u : Socket)
            → update st.heap p (some s') a ≡ some u
            → u.peer ≡ some b
            → (b ≢ a) × ((t : Socket) × (update st.heap p (some s') b ≡ some t) × (t.peer ≡ some a))
        paired a b u e forth = elim (ℕ_discrete a p) [
          | yes is ↦
              joined a b s (ap st.heap is ∙ at)
                (sym same ∙ ap (λ v. v.peer) (rewritten a u is e) ∙ forth)
          | no apart ↦ joined a b u (kept a u apart e) forth
        ]

        sounds : (a : ℕ) (u : Socket) → update st.heap p (some s') a ≡ some u → IsSound u
        sounds a u e = elim (ℕ_discrete a p) [
          | yes is ↦ subst IsSound (rewritten a u is e) sound
          | no apart ↦ w.sound a u (kept a u apart e)
        ]

        listed :
            (a : ℕ)
            → member a st.local_socket_list ≡ true
            → (u : Socket) × (update st.heap p (some s') a ≡ some u) × IsLocalClose u.close
        listed a m =
            let (u, e, loc) = w.listed a m in
            elim (ℕ_discrete a p) [
              | yes is ↦ (
                s',
                ap (update st.heap p (some s')) is ∙ update_at st.heap p (some s'),
                local (
                    subst (λ v. IsLocalClose v.close)
                      (some-injective _ _ (sym e ∙ ap st.heap is ∙ at)) loc),
              )
              | no apart ↦ (u, update_other st.heap p a (some s') apart ∙ e, loc)
            ]

        unused : (a : ℕ) → st.next_address ≤ a → update st.heap p (some s') a ≡ none
        unused a n =
            let apart : a ≢ p =
              λ is. let x : none ≡ some s = sym (w.unused a n) ∙ ap st.heap is ∙ at in cc in
            update_other st.heap p a (some s') apart ∙ w.unused a n
