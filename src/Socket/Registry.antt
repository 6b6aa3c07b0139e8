-- ===== src/Socket/Registry.antt =====
-- The lists of local sockets in sockets.cpp: find_local_socket, insert_local_socket,
-- install_local_socket, remove_socket and create_local_socket. A socket's `next` and `prev` are
-- non-null exactly while it is in a list. The recursive mutex is left out: the callers run on the
-- main thread.
pub mod Lookup
pub mod Create
use adb_src.Base.{
  ℕ, suc, ◌+◌, ◌%◌, ◌^◌, false, not, ◌||◌, Option, none, some, List, [], ◌∷◌, ◌++◌, ◌==◌,
  if◌then◌else◌,
}
use adb_src.Socket.Store.{
  ◌>>=◌, ◌>>◌, Os, Socket, State, M, Result, ok, fatal, exited, fault, out_of_fuel, return, load,
  store, update, member, erase, local_enqueue, local_ready, no_shutdown, local_close,
}

-- `peer_id == 0 || (s->peer && s->peer->id == peer_id)`, for the socket at `p`.
unfoldable pub peer_has_id : {O : Os} → State O → ℕ → Option ℕ → ℕ → Result (Option ℕ)
peer_has_id st p none peer_id = ok (if peer_id == 0 then some p else none)
peer_has_id st p (some q) peer_id =
    if peer_id == 0
    then ok (some p)
    else elim (st.heap q) [ none ↦ fault | some t ↦ ok (if t.id == peer_id then some p else none) ]

unfoldable pub find_at :
    {O : Os} → State O → ℕ → Option Socket → ℕ → ℕ → Result (Option ℕ) → Result (Option ℕ)
unfolding peer_has_id
find_at st p none local_id peer_id rest = fault
find_at st p (some s) local_id peer_id rest =
    if not (s.id == local_id) then rest else peer_has_id st p s.peer peer_id

-- The search along the list: the first socket with the id decides.
unfoldable pub find_in : {O : Os} → State O → List ℕ → ℕ → ℕ → Result (Option ℕ)
unfolding find_at
find_in st [] local_id peer_id = ok none
find_in st (p ∷ l) local_id peer_id =
    find_at st p (st.heap p) local_id peer_id (find_in st l local_id peer_id)

abbrev pub with_state : {O : Os} → State O → Result (Option ℕ) → Result (Option ℕ × State O)
with_state st (ok r) = ok (r, st)
with_state st fatal = fatal
with_state st exited = exited
with_state st fault = fault
with_state st out_of_fuel = out_of_fuel

unfoldable pub find_local_socket : {O : Os} → ℕ → ℕ → M O (Option ℕ)
unfolding find_in
find_local_socket local_id peer_id st =
    with_state st (find_in st st.local_socket_list local_id peer_id)

-- A new member goes in front of the head, which is the end of the list.
abbrev pub insert_local_socket : {O : Os} → ℕ → M O (Unit {0})
insert_local_socket p st =
    ok (tt, record st { local_socket_list = st.local_socket_list ++ (p ∷ []) })

abbrev pub insert_closing_socket : {O : Os} → ℕ → M O (Unit {0})
insert_closing_socket p st =
    ok (tt, record st { local_socket_closing_list = st.local_socket_closing_list ++ (p ∷ []) })

-- `s->id = local_socket_next_id++`, on an `unsigned`.
abbrev pub next_id : {O : Os} → M O ℕ
next_id st = ok (
  st.local_socket_next_id,
  record st { local_socket_next_id = (st.local_socket_next_id + 1) % 2 ^ 32 },
)

abbrev pub check_next_id : {O : Os} → M O (Unit {0})
check_next_id st = if st.local_socket_next_id == 0 then fatal else ok (tt, st)

unfoldable pub install_local_socket : {O : Os} → ℕ → M O (Unit {0})
install_local_socket p = do
  id ← next_id
  s ← load p
  store p (record s { id = id })
  check_next_id
  insert_local_socket p

unfoldable pub remove_socket : {O : Os} → ℕ → M O (Unit {0})
remove_socket p st =
    if member p st.local_socket_list || member p st.local_socket_closing_list
    then (do
      s ← load p
      store p (record s { id = 0 })
      λ st'. ok (
        tt,
        record st' {
          local_socket_list = erase p st'.local_socket_list;
          local_socket_closing_list = erase p st'.local_socket_closing_list;
        },
      ))
        st
    else ok (tt, st)

-- What calloc returns, with the fields of a local socket.
abbrev pub new_local_socket : ℕ → Socket
new_local_socket fd = record {
  id = 0;
  closing = false;
  has_write_error = false;
  exit_on_close = false;
  peer = none;
  fde_read = false;
  fde_write = false;
  force_eof = false;
  fd = fd;
  packets = [];
  enqueue = local_enqueue;
  ready = local_ready;
  shutdown = no_shutdown;
  close = local_close;
  transport = none;
}

-- A cell of the heap at an address that no socket had before.
abbrev pub allocate : {O : Os} → Socket → M O ℕ
allocate s st = ok (
  st.next_address,
  record st { heap = update st.heap st.next_address (some s); next_address = suc st.next_address },
)

unfoldable pub create_local_socket : {O : Os} → ℕ → M O ℕ
unfolding install_local_socket
create_local_socket fd = do p ← allocate (new_local_socket fd); install_local_socket p; return p
