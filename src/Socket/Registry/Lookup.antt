-- ===== src/Socket/Registry/Lookup.antt =====
-- What find_local_socket finds, and that create_local_socket makes a socket that it finds.
use adb_src.Base.{
  ℕ, ◌≡◌, ◌⊎◌, inl, inr, refl, sym, subst, arith, true, Option, none, some, List, [], ◌∷◌, ◌==◌,
  Bool-cases, Option-cases, ==_refl, ==_iff,
}
use adb_src.Socket.Store.{Os, Socket, State, Result, ok, member}
use adb_src.Socket.Registry.{peer_has_id, find_at, find_in, with_state, find_local_socket}

-- A socket that answers to the ids: its own, and that of its peer where one is asked for.
abbrev pub Answers : {O : Os} → State O → ℕ → ℕ → ℕ → Type 0
Answers st p local_id peer_id =
    (s : Socket) × (st.heap p ≡ some s)
    × (s.id ≡ local_id)
    × ((peer_id ≡ 0)
        ⊎ ((q : ℕ) × (t : Socket) × (s.peer ≡ some q) × (st.heap q ≡ some t) × (t.id ≡ peer_id)))

module _ {O : Os} (st : State O) where
  peer_has_id-Answers :
      (p : ℕ) (s : Socket) (peer : Option ℕ) (local_id peer_id r : ℕ)
      → st.heap p ≡ some s
      → s.peer ≡ peer
      → s.id ≡ local_id
      → peer_has_id st p peer peer_id ≡ ok (some r)
      → (r ≡ p) × Answers st p local_id peer_id
  unfolding peer_has_id
  peer_has_id-Answers p s none i j r at k own h = ground arith
  peer_has_id-Answers p s (some q) i j r at k own h = ground arith

  pub find_in-Answers :
      (l : List ℕ) (local_id peer_id r : ℕ)
      → find_in st l local_id peer_id ≡ ok (some r)
      → (member r l ≡ true) × Answers st r local_id peer_id
  unfolding find_in find_at member
  find_in-Answers [] i j r h = cc
  find_in-Answers (p ∷ l) i j r h = elim (Option-cases (st.heap p)) [
    | inl gone ↦ let x = rw (gone, find_at) at h in cc
    | inr (s, at) ↦ elim (Bool-cases (s.id == i)) [
      | inl own ↦
          let (same, a) =
            peer_has_id-Answers p s s.peer i j r at refl ((==_iff _ _).0 own)
              (rw (at, own, find_at) at h) in
          (rw (same, ==_refl p) refl, subst (λ x. Answers st x i j) (sym same) a)
      | inr other ↦
          let (m, a) = find_in-Answers l i j r (rw (at, other, find_at) at h) in (ground arith, a)
    ]
  ]

  with_state-ok :
      (x : Result (Option ℕ)) (r : ℕ) (st' : State O)
      → with_state st x ≡ ok (some r, st')
      → x ≡ ok (some r)
  with_state-ok (ok o) r st' h = ground arith
  with_state-ok _ r st' h = cc

  -- A search that succeeds returns a member of the local list that has the id, and whose peer has
  -- the peer's id where one is asked for.
  pub find_local_socket-Answers :
      (local_id peer_id r : ℕ) (st' : State O)
      → find_local_socket local_id peer_id st ≡ ok (some r, st')
      → (member r st.local_socket_list ≡ true) × Answers st r local_id peer_id
  unfolding find_local_socket
  find_local_socket-Answers i j r st' h =
      find_in-Answers st.local_socket_list i j r
        (with_state-ok (find_in st st.local_socket_list i j) r st' h)
