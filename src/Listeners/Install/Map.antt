-- ===== src/Listeners/Install/Map.antt =====
-- install_listener as an update of a map from names to what they forward to.
use adb_src.Base.{
  ℕ, suc, Bool, true, false, Option, none, some, List, [], ◌∷◌, ◌++◌, if◌then◌else◌, Bytes,
  bytes_eq, bytes_eq_iff, ◌≡◌, ◌≢◌, ◌⊎◌, inl, inr, refl, sym, ap, ◌∙◌, Bool-cases, zero,
  suc-eq-zero,
}
use adb_src.Listeners.{
  remove_disconnect, Listener, Listeners, InstallStatus, install_ok, internal_error, cannot_rebind,
  is_special, begins_with_star,
}
use adb_src.Listeners.Install.{
  Network, Request, Installed, is_same_owner, move_disconnect, rebound, rebind, install_found,
  new_name, new_listener, install_new, past_listener, find_name, install_by, install_listener,
}

-- What a name forwards to.
abbrev pub Forward : Type 0
Forward = Bytes × Option ℕ

-- The view of a list: the first listener with the name.
unfoldable pub lookup : List Listener → Bytes → Option Forward
lookup [] name = none
lookup (l ∷ list) name =
    if bytes_eq name l.local_name then some (l.connect_to, l.transport) else lookup list name

abbrev pub put : Bytes → Forward → (Bytes → Option Forward) → Bytes → Option Forward
put name f view x = if bytes_eq x name then some f else view x

-- The specification, by what the name forwards to before: the status and the view behind it, or
-- `none` for behaviour that is undefined, where a new name cannot be bound.
abbrev pub spec_new :
    Network
    → Request
    → Option (ℕ × ℕ)
    → (Bytes → Option Forward)
    → Option (InstallStatus × (Bytes → Option Forward))
spec_new net q none view = none
spec_new net q (some (fd, resolved)) view =
    some (install_ok, put (new_name net q resolved) (q.connect_to, q.transport) view)

abbrev pub spec_at :
    Network
    → Request
    → Option Forward
    → (Bytes → Option Forward)
    → Option (InstallStatus × (Bytes → Option Forward))
spec_at net q none view = spec_new net q (net.socket_spec_listen q.local_name) view
spec_at net q (some (connect_to, transport)) view =
    if begins_with_star connect_to
    then some (internal_error, view)
    else if q.no_rebind
    then some (cannot_rebind, view)
    else some (install_ok, put q.local_name (q.connect_to, q.transport) view)

abbrev pub spec :
    Network → Request → (Bytes → Option Forward) → Option (InstallStatus × (Bytes → Option Forward))
spec net q view = spec_at net q (view q.local_name) view

-- An install does to the view of the list what the specification says.
abbrev pub Meets : Option (InstallStatus × (Bytes → Option Forward)) → Option Installed → Type 0
Meets none none = Unit
Meets none (some r) = ⊥
Meets (some (status, view)) none = ⊥
Meets (some (status, view)) (some r) =
    (r.status ≡ status) × ((x : Bytes) → lookup r.listeners.listener_list x ≡ view x)

bytes_eq-false : (x y z : Bytes) → bytes_eq x y ≡ true → bytes_eq z y ≡ false → bytes_eq x z ≡ false
bytes_eq-false x y z same other = elim (Bool-cases (bytes_eq x z)) [
  | inr e ↦ e
  | inl e ↦
      let there : z ≡ y = sym ((bytes_eq_iff x z).0 e) ∙ (bytes_eq_iff x y).0 same in
      let clash = (bytes_eq_iff z y).1 there in cc
]

lookup-append :
    (n : Listener) (list : List Listener) (x : Bytes)
    → lookup list n.local_name ≡ none
    → lookup (list ++ (n ∷ [])) x ≡ put n.local_name (n.connect_to, n.transport) (lookup list) x
unfolding lookup
lookup-append n [] x free = refl
lookup-append n (l ∷ list) x free = elim (Bool-cases (bytes_eq n.local_name l.local_name)) [
  | inl taken ↦ let y = rw taken at free in cc
  | inr apart ↦
      let rest = lookup-append n list x (rw apart at free) in
      elim (Bool-cases (bytes_eq x l.local_name)) [
        | inl here ↦ rw (here, bytes_eq-false x l.local_name n.local_name here apart) refl
        | inr there ↦ rw there rest
      ]
]

-- A forward has a transport; a smartsocket needs none.
abbrev pub AreBound : List Listener → Type 0
AreBound [] = Unit
AreBound (l ∷ list) = (is_special l ≡ false → (t : ℕ) × (l.transport ≡ some t)) × AreBound list

-- The two ends of the search for the name.
abbrev pub FindEnds : Request → List Listener → Option (Listener × List Listener) → Type 0
FindEnds q list none = lookup list q.local_name ≡ none
FindEnds q list (some (l, list')) =
    (lookup list q.local_name ≡ some (l.connect_to, l.transport))
    × ((x : Bytes) → lookup list' x ≡ put q.local_name (q.connect_to, q.transport) (lookup list) x)
    × (is_special l ≡ false → (t : ℕ) × (l.transport ≡ some t))

past_listener-FindEnds :
    (q : Request) (l : Listener) (list : List Listener) (o : Option (Listener × List Listener))
    → bytes_eq q.local_name l.local_name ≡ false
    → FindEnds q list o
    → FindEnds q (l ∷ list) (past_listener l o)
unfolding lookup
past_listener-FindEnds q l list none apart h = rw apart h
past_listener-FindEnds q l list (some (m, list')) apart (at, view, bound) =
    (rw apart at, λ x. beside x (Bool-cases (bytes_eq x l.local_name)), bound)
  where
    beside :
        (x : Bytes)
        → (bytes_eq x l.local_name ≡ true) ⊎ (bytes_eq x l.local_name ≡ false)
        → lookup (l ∷ list') x ≡ put q.local_name (q.connect_to, q.transport) (lookup (l ∷ list)) x
    beside x (inl here) = rw (here, bytes_eq-false x l.local_name q.local_name here apart) refl
    beside x (inr there) = rw there (view x)

find_name-FindEnds :
    (q : Request) (list : List Listener) → AreBound list → FindEnds q list (find_name q list)
unfolding find_name lookup
find_name-FindEnds q [] bound = refl
find_name-FindEnds q (l ∷ list) (this, rest) =
    elim (Bool-cases (bytes_eq q.local_name l.local_name)) [
      | inr apart ↦ rw apart (
          past_listener-FindEnds q l list (find_name q list) apart (find_name-FindEnds q list rest))
      | inl same ↦
          let e : q.local_name ≡ l.local_name = (bytes_eq_iff q.local_name l.local_name).0 same in
          rw same (rw same refl, (λ x. again x e (Bool-cases (bytes_eq x l.local_name))), this)
    ]
  where
    again :
        (x : Bytes)
        → q.local_name ≡ l.local_name
        → (bytes_eq x l.local_name ≡ true) ⊎ (bytes_eq x l.local_name ≡ false)
        → lookup (rebound q l ∷ list) x
          ≡ put q.local_name (q.connect_to, q.transport) (lookup (l ∷ list)) x
    again x e (inl here) = let here' = ap (bytes_eq x) e ∙ here in rw (here, here') refl
    again x e (inr there) = let there' = ap (bytes_eq x) e ∙ there in rw (there, there') refl

module _ (net : Network) (q : Request) (t : ℕ) (own : q.transport ≡ some t) (st : Listeners) where
  install_new-Meets :
      (o : Option (ℕ × ℕ))
      → lookup st.listener_list q.local_name ≡ none
      → ((fd r : ℕ) → o ≡ some (fd, suc r) → lookup st.listener_list (net.tcp_name (suc r)) ≡ none)
      → Meets (spec_new net q o (lookup st.listener_list)) (install_new net q st o)
  unfolding install_new
  install_new-Meets none absent fresh = tt
  install_new-Meets (some (fd, zero)) absent fresh =
      (refl, λ x. lookup-append (new_listener net q st.next_address fd 0) st.listener_list x absent)
  install_new-Meets (some (fd, suc r)) absent fresh =
      let free : lookup st.listener_list (new_name net q (suc r)) ≡ none =
        rw (suc-eq-zero r) (fresh fd r refl) in
      (
        refl,
        λ x. lookup-append (new_listener net q st.next_address fd (suc r)) st.listener_list x free,
      )

  moved :
      (u : Option ℕ) (a : ℕ) (d : List (ℕ × ℕ))
      → (s : ℕ) × (u ≡ some s)
      → (d' : List (ℕ × ℕ)) × (move_disconnect a u q.transport d ≡ some d')
  unfolding move_disconnect
  moved u a d (s, e) = (remove_disconnect s a d ++ ((t, a) ∷ []), rw (e, own) refl)

  rebind-Meets :
      (l : Listener) (list' : List Listener) (same : Bool) (o : Option (List (ℕ × ℕ)))
      → o ≢ none
      → ((x : Bytes)
          → lookup list' x
            ≡ put q.local_name (q.connect_to, q.transport) (lookup st.listener_list) x)
      → Meets
          (some
            (install_ok, put q.local_name (q.connect_to, q.transport) (lookup st.listener_list)))
          (rebind q l st list' same o)
  unfolding rebind
  rebind-Meets l list' true o some_list view = (refl, view)
  rebind-Meets l list' false none some_list view = absurd (some_list refl)
  rebind-Meets l list' false (some d) some_list view = (refl, view)

  install_found-Meets :
      (l : Listener) (list' : List Listener)
      → ((x : Bytes)
          → lookup list' x
            ≡ put q.local_name (q.connect_to, q.transport) (lookup st.listener_list) x)
      → (is_special l ≡ false → (s : ℕ) × (l.transport ≡ some s))
      → Meets
          (spec_at net q (some (l.connect_to, l.transport)) (lookup st.listener_list))
          (install_found q l st list')
  unfolding install_found
  install_found-Meets l list' view bound = elim (Bool-cases (begins_with_star l.connect_to)) [
    | inl special ↦ rw special (refl, λ x. refl)
    | inr plain ↦ elim (Bool-cases q.no_rebind) [
      | inl fixed ↦ rw (plain, fixed) (refl, λ x. refl)
      | inr free ↦
          let (d, e) = moved l.transport l.address st.disconnects (bound plain) in
          rw (plain, free)
            (rebind-Meets l list' (is_same_owner l.transport q.transport)
              (move_disconnect l.address l.transport q.transport st.disconnects)
              (λ gone. let x : none ≡ some d = sym gone ∙ e in cc) view)
    ]
  ]

  install_by-Meets :
      (o : Option (Listener × List Listener))
      → FindEnds q st.listener_list o
      → ((fd r : ℕ)
          → net.socket_spec_listen q.local_name ≡ some (fd, suc r)
          → lookup st.listener_list (net.tcp_name (suc r)) ≡ none)
      → Meets (spec net q (lookup st.listener_list)) (install_by net q st o)
  unfolding install_by
  install_by-Meets none absent fresh =
      rw absent (install_new-Meets (net.socket_spec_listen q.local_name) absent fresh)
  install_by-Meets (some (l, list')) (at, view, bound) fresh =
      rw at (install_found-Meets l list' view bound)

  -- install_listener on a transport, where every forward in the list has a transport and no listener
  -- has the name of a port that is resolved anew, returns the status of the specification and leaves
  -- a list that a lookup of any name sees as its map: a name that is in use keeps what it has if it
  -- is a smartsocket or may not be rebound, and is rebound otherwise; a new name is bound, under the
  -- port that was resolved where there is one. If a new name cannot be bound, the behaviour is
  -- undefined.
  pub install_listener-Meets :
      AreBound st.listener_list
      → ((fd r : ℕ)
          → net.socket_spec_listen q.local_name ≡ some (fd, suc r)
          → lookup st.listener_list (net.tcp_name (suc r)) ≡ none)
      → Meets (spec net q (lookup st.listener_list)) (install_listener net q st)
  unfolding install_listener
  install_listener-Meets bound fresh =
      install_by-Meets (find_name q st.listener_list) (find_name-FindEnds q st.listener_list bound)
        fresh
