-- ===== src/Listeners/Smart.antt =====
-- close_smartsockets of adb_listeners.cpp. std::remove_if moves the listeners that stay to the front
-- and returns the place behind them; what stands from there on is not specified, except that it goes
-- where one element is erased and one was removed. `erase` with one iterator erases one element, and
-- is undefined at the end of the list.
use adb_src.Base.{
  ℕ, suc, Bool, true, false, not, List, [], ◌∷◌, All, length, if◌then◌else◌, bytes_eq, codes, ◌≡◌,
  ◌↔◌, refl, arith,
}
use adb_src.Listeners.{Listener, Listeners, destroyed}

-- `several` has the listeners that stay and the number of elements behind them, which are not
-- specified.
pub data Closed : Type 0 where
  undefined : Closed
  closed : Listeners → Closed
  several : List Listener → ℕ → Closed

abbrev pub is_named_smartsocket : Listener → Bool
is_named_smartsocket l = bytes_eq l.local_name (codes "*smartsocket*")

-- The listeners for which the test gives `wanted`.
unfoldable pub with_test : Bool → List Listener → List Listener
with_test wanted [] = []
with_test wanted (l ∷ list) =
    let rest = with_test wanted list in
    if is_wanted wanted (is_named_smartsocket l) then l ∷ rest else rest
  where
    is_wanted : Bool → Bool → Bool
    is_wanted true b = b
    is_wanted false b = not b

unfoldable pub erase_one : Listeners → List Listener → List Listener → Closed
erase_one st stay [] = undefined
erase_one st stay (l ∷ []) = closed (destroyed l (record st { listener_list = stay }))
erase_one st stay (l ∷ m ∷ more) = several stay (suc (length more))

unfoldable pub close_smartsockets : Listeners → Closed
unfolding with_test erase_one
close_smartsockets st =
    erase_one st (with_test false st.listener_list) (with_test true st.listener_list)

abbrev pub NoneNamed : List Listener → Type 0
NoneNamed = All (λ l. is_named_smartsocket l ≡ false)

with_test-none : (list : List Listener) → NoneNamed list → with_test true list ≡ []
unfolding with_test
with_test-none [] h = refl
with_test-none (l ∷ list) (other, rest) = rw other (with_test-none list rest)

with_test-NoneNamed : (list : List Listener) → with_test true list ≡ [] → NoneNamed list
unfolding with_test
with_test-NoneNamed [] h = tt
with_test-NoneNamed (l ∷ list) h = ground (arith, with_test-NoneNamed list)

erase_one-undefined :
    (st : Listeners) (stay gone : List Listener)
    → (erase_one st stay gone ≡ undefined) ↔ (gone ≡ [])
unfolding erase_one
erase_one-undefined st stay [] = ground arith
erase_one-undefined st stay (l ∷ []) = ground arith
erase_one-undefined st stay (l ∷ m ∷ more) = ground arith

-- `close_smartsockets` is undefined exactly when no listener has the local name "*smartsocket*",
-- whatever the addresses that the listeners connect to.
pub close_smartsockets-undefined :
    (st : Listeners) → (close_smartsockets st ≡ undefined) ↔ NoneNamed st.listener_list
unfolding close_smartsockets
close_smartsockets-undefined st =
    let list = st.listener_list in
    let (to, from) = erase_one-undefined st (with_test false list) (with_test true list) in
    ((λ u. with_test-NoneNamed list (to u)), (λ none_named. from (with_test-none list none_named)))
