-- ===== src/Listeners/Lookup.antt =====
-- Which listeners stay.
use adb_src.Base.{
  ℕ, ◌≡◌, ◌≢◌, ◌⊎◌, inl, inr, none, some, List, [], ◌∷◌, ◌++◌, if◌then◌else◌, Bytes, bytes_eq,
  bytes_eq_iff, refl, sym, ap, ◌∙◌, Bool-cases, append-nil, append_assoc,
}
use adb_src.Listeners.{
  Listener, Listeners, InstallStatus, install_ok, listener_not_found, is_special, destroyed,
  extract, remove_found, remove_listener, remove_from, remove_all_listeners,
}

-- The special listeners of a list, in order, and the descriptors of the others.
abbrev pub specials : List Listener → List Listener
specials [] = []
specials (l ∷ list) = if is_special l then l ∷ specials list else specials list

abbrev pub other_fds : List Listener → List ℕ
other_fds [] = []
other_fds (l ∷ list) = if is_special l then other_fds list else l.fd ∷ other_fds list

remove_from-specials :
    (kept list : List Listener) (st : Listeners)
    → ((remove_from kept list st).listener_list ≡ kept ++ specials list)
      × ((remove_from kept list st).closed_fds ≡ st.closed_fds ++ other_fds list)
unfolding remove_from
remove_from-specials kept [] st = (sym (append-nil kept), sym (append-nil st.closed_fds))
remove_from-specials kept (l ∷ list) st = elim (Bool-cases (is_special l)) [
  | inl special ↦
      let (stays, closed) = remove_from-specials (kept ++ (l ∷ [])) list st in
      rw special (stays ∙ append_assoc kept (l ∷ []) (specials list), closed)
  | inr plain ↦
      let (stays, closed) = remove_from-specials kept list (destroyed l st) in
      rw plain (stays, closed ∙ append_assoc st.closed_fds (l.fd ∷ []) (other_fds list))
]

-- `remove_all_listeners` keeps exactly the smartsockets, in order, and closes the descriptor of
-- every other listener, each once and in order.
pub remove_all_listeners-specials :
    (st : Listeners)
    → ((remove_all_listeners st).listener_list ≡ specials st.listener_list)
      × ((remove_all_listeners st).closed_fds ≡ st.closed_fds ++ other_fds st.listener_list)
unfolding remove_all_listeners
remove_all_listeners-specials st = remove_from-specials [] st.listener_list st

-- No listener of the list has the name.
abbrev pub HasNone : Bytes → List Listener → Type 0
HasNone name [] = Unit {0}
HasNone name (l ∷ list) = (name ≢ l.local_name) × HasNone name list

-- The listener is the first of the list with the name.
pub record IsFirst (name : Bytes) (list : List Listener) (l : Listener) (rest : List Listener)
    : Type 0 where
  pub front : List Listener
  pub back : List Listener
  pub whole : list ≡ front ++ (l ∷ back)
  pub left : rest ≡ front ++ back
  pub named : l.local_name ≡ name
  pub first : HasNone name front

-- How a removal by name ends.
abbrev pub RemoveEnds : Bytes → Listeners → InstallStatus × Listeners → Type 0
RemoveEnds name st r =
    ((r ≡ (listener_not_found, st)) × HasNone name st.listener_list)
    ⊎ ((l : Listener) × (rest : List Listener) × IsFirst name st.listener_list l rest
        × (r ≡ (install_ok, destroyed l (record st { listener_list = rest }))))

extract-cases :
    (name : Bytes) (list : List Listener)
    → ((extract name list ≡ none) × HasNone name list)
      ⊎ ((l : Listener) × (rest : List Listener) × (extract name list ≡ some (l, rest))
          × IsFirst name list l rest)
unfolding extract
extract-cases name [] = inl (refl, tt)
extract-cases name (l ∷ list) = elim (Bool-cases (bytes_eq name l.local_name)) [
  | inl same ↦ inr (
    l,
    list,
    rw same refl,
    record {
      front = [];
      back = list;
      whole = refl;
      left = refl;
      named = sym ((bytes_eq_iff name l.local_name).0 same);
      first = tt;
    },
  )
  | inr other ↦
      let apart : name ≢ l.local_name = λ e. let x = (bytes_eq_iff name l.local_name).1 e in cc in
      elim (extract-cases name list) [
        | inl (missing, all) ↦ inl (rw (other, missing) refl, (apart, all))
        | inr (m, rest, found, f) ↦ inr (
          m,
          l ∷ rest,
          rw (other, found) refl,
          record {
            front = l ∷ f.front;
            back = f.back;
            whole = ap (◌∷◌ l) f.whole;
            left = ap (◌∷◌ l) f.left;
            named = f.named;
            first = (apart, f.first);
          },
        )
      ]
]

-- `remove_listener` destroys the first listener with the name and leaves the others as they were,
-- in order; where none has the name it says so and changes nothing.
pub remove_listener-RemoveEnds :
    (name : Bytes) (st : Listeners) → RemoveEnds name st (remove_listener name st)
unfolding remove_listener remove_found
remove_listener-RemoveEnds name st = elim (extract-cases name st.listener_list) [
  | inl (missing, all) ↦ inl (ap (remove_found st) missing, all)
  | inr (l, rest, found, f) ↦ inr (l, rest, f, ap (remove_found st) found)
]
