-- ===== src/Socket/Registry/Create.antt =====
-- A socket that create_local_socket installs is found under its id, and the others are found as
-- before.
use adb_src.Base.{
  ℕ, suc, ◌+◌, ◌%◌, ◌^◌, ◌≤◌, ◌<◌, ◌≡◌, ◌≢◌, ◌⊎◌, inl, inr, refl, sym, ap, ◌∙◌, arith, true, false,
  Option, none, some, List, [], ◌∷◌, ◌++◌, ◌==◌, ==_refl,
}
use adb_src.Socket.Store.{Os, Socket, State, Result, ok, fatal, member, update}
use adb_src.Socket.Registry.{
  peer_has_id, find_at, find_in, with_state, find_local_socket, create_local_socket,
  new_local_socket,
}

-- The members of the local list are live, their ids are below the next one and not 0, and no cell
-- from the next address on is in use.
pub record IsRegistry {O : Os} (st : State O) : Type 0 where
  pub live :
      (r : ℕ)
      → member r st.local_socket_list ≡ true
      → (s : Socket) × (st.heap r ≡ some s) × (0 < s.id) × (s.id < st.local_socket_next_id)
  pub unused : (r : ℕ) → st.next_address ≤ r → st.heap r ≡ none

find_at_zero :
    {O : Os} (st st' : State O) (p : ℕ) (c : Option Socket) (i : ℕ) (rest : Result (Option ℕ))
    → find_at st p c i 0 rest ≡ find_at st' p c i 0 rest
unfolding find_at peer_has_id
find_at_zero st st' p none i rest = refl
find_at_zero st st' p (some s) i rest = ground arith

-- A search by id alone reads only the cells of the list.
find_in_same :
    {O : Os} (st st' : State O) (l : List ℕ) (i : ℕ)
    → ((r : ℕ) → member r l ≡ true → st'.heap r ≡ st.heap r)
    → find_in st' l i 0 ≡ find_in st l i 0
unfolding find_in member
find_in_same st st' [] i same = refl
find_in_same st st' (p ∷ l) i same =
    ap (λ c. find_at st' p c i 0 (find_in st' l i 0)) (same p (rw (==_refl p) refl))
    ∙ ap (find_at st' p (st.heap p) i 0) (find_in_same st st' l i (λ r m. same r (ground arith)))
    ∙ find_at_zero st' st p (st.heap p) i (find_in st l i 0)

-- Behind a list none of whose members has the id, the search goes on with what follows.
find_in_append :
    {O : Os} (st : State O) (l : List ℕ) (p i : ℕ)
    → ((r : ℕ) → member r l ≡ true → (s : Socket) × (st.heap r ≡ some s) × (s.id ≢ i))
    → find_in st (l ++ (p ∷ [])) i 0 ≡ find_in st (p ∷ []) i 0
unfolding find_in find_at member
find_in_append st [] p i differ = refl
find_in_append st (q ∷ l) p i differ =
    let (s, at, ne) = differ q (rw (==_refl q) refl) in
    let other : (s.id == i) ≡ false = ground arith in
    rw (at, find_at, other) (find_in_append st l p i (λ r m. differ r (ground arith)))

-- In front of a socket with another id, the search ends as it did.
find_in_concat :
    {O : Os} (st : State O) (l : List ℕ) (p i : ℕ) (s : Socket)
    → st.heap p ≡ some s
    → s.id ≢ i
    → find_in st (l ++ (p ∷ [])) i 0 ≡ find_in st l i 0
unfolding find_in find_at
find_in_concat st [] p i s at ne =
    let other : (s.id == i) ≡ false = ground arith in rw (at, find_at, other) refl
find_in_concat st (q ∷ l) p i s at ne =
    ap (find_at st q (st.heap q) i 0) (find_in_concat st l p i s at ne)

member-concat :
    (r p : ℕ) (l : List ℕ) → member r (l ++ (p ∷ [])) ≡ true → (member r l ≡ true) ⊎ (r ≡ p)
unfolding member
member-concat r p [] h = ground arith
member-concat r p (q ∷ l) h = ground (arith, member-concat r p l)

-- The store behind a successful create_local_socket.
abbrev created : {O : Os} → ℕ → State O → State O
created fd st = record st {
  heap =
      update (update st.heap st.next_address (some (new_local_socket fd))) st.next_address
        (some (record (new_local_socket fd) { id = st.local_socket_next_id }));
  next_address = suc st.next_address;
  local_socket_list = st.local_socket_list ++ (st.next_address ∷ []);
  local_socket_next_id = (st.local_socket_next_id + 1) % 2 ^ 32;
}

module _ {O : Os} (fd : ℕ) (st : State O) (g : IsRegistry st) where
  created-new :
      (created fd st).heap st.next_address
      ≡ some (record (new_local_socket fd) { id = st.local_socket_next_id })
  created-new = rw (==_refl st.next_address) refl

  created-old :
      (r : ℕ)
      → member r st.local_socket_list ≡ true
      → (r ≢ st.next_address) × ((created fd st).heap r ≡ st.heap r)
  created-old r m =
      let (s, at, _, _) = g.live r m in
      let apart : r ≢ st.next_address =
        λ e. let x : none ≡ some s = sym (g.unused r (omega arith)) ∙ at in cc in
      let t : (r == st.next_address) ≡ false = ground (arith, apart) in (apart, rw t refl)

  created-IsRegistry :
      0 < st.local_socket_next_id
      → st.local_socket_next_id + 1 < 2 ^ 32
      → IsRegistry (created fd st)
  created-IsRegistry pos room = record {
    live = λ r m. live r (member-concat r st.next_address st.local_socket_list m);
    unused = λ r h.
        let t : (r == st.next_address) ≡ false = ground arith in rw t (g.unused r (omega arith));
  }
    where
      live :
          (r : ℕ)
          → (member r st.local_socket_list ≡ true) ⊎ (r ≡ st.next_address)
          → (s : Socket) × ((created fd st).heap r ≡ some s)
            × (0 < s.id)
            × (s.id < (created fd st).local_socket_next_id)
      live r (inl m) =
          let (s, at, lo, hi) = g.live r m in (s, (created-old r m).1 ∙ at, lo, omega arith)
      live r (inr e) = (
        record (new_local_socket fd) { id = st.local_socket_next_id },
        ap (created fd st).heap e ∙ created-new,
        pos,
        omega arith,
      )

  -- While ids are left, create_local_socket returns the address of a new socket, which the search
  -- finds under the next id; every other id is found, or not found, as before; and the lists stay
  -- in order. The create that would make the next id 0 aborts.
  pub create_local_socket-find :
      0 < st.local_socket_next_id
      → st.local_socket_next_id < 2 ^ 32
      → (st.local_socket_next_id + 1 < 2 ^ 32
          → (st' : State O) × (create_local_socket fd st ≡ ok (st.next_address, st'))
            × (find_local_socket st.local_socket_next_id 0 st' ≡ ok (some st.next_address, st'))
            × ((i : ℕ)
                → i ≢ st.local_socket_next_id
                → find_in st' st'.local_socket_list i 0 ≡ find_in st st.local_socket_list i 0)
            × IsRegistry st')
        × (st.local_socket_next_id + 1 ≡ 2 ^ 32 → create_local_socket fd st ≡ fatal)
  unfolding create_local_socket find_local_socket
  create_local_socket-find pos below = (
    (λ room.
        let next : ((st.local_socket_next_id + 1) % 2 ^ 32 == 0) ≡ false = ground arith in
        (
          created fd st,
          rw (==_refl st.next_address, next) refl,
          ap (with_state (created fd st)) found,
          (λ i ne.
              find_in_concat (created fd st) st.local_socket_list st.next_address i
                (record (new_local_socket fd) { id = st.local_socket_next_id }) created-new
                (λ e. ne (sym e))
              ∙ find_in_same st (created fd st) st.local_socket_list i
                  (λ r m. (created-old r m).1)),
          created-IsRegistry pos room,
        )),
    λ last.
        let wraps : ((st.local_socket_next_id + 1) % 2 ^ 32 == 0) ≡ true = ground arith in
        rw (==_refl st.next_address, wraps) refl,
  )
    where
      alone :
          find_in (created fd st) (st.next_address ∷ []) st.local_socket_next_id 0
          ≡ ok (some st.next_address)
      alone =
          ap (λ c. find_at (created fd st) st.next_address c st.local_socket_next_id 0 (ok none))
            created-new
          ∙ rw (==_refl st.local_socket_next_id, find_at) refl

      found :
          find_in (created fd st) (created fd st).local_socket_list st.local_socket_next_id 0
          ≡ ok (some st.next_address)
      found =
          find_in_append (created fd st) st.local_socket_list st.next_address
            st.local_socket_next_id
            (λ r m.
              let (s, at, lo, hi) = g.live r m in
              (s, (created-old r m).1 ∙ at, λ e. absurd (omega arith)))
          ∙ alone
