-- ===== src/Socket/Close.antt =====
-- Closing sockets in sockets.cpp: the functions behind `close`, and close_all_sockets. `close`
-- takes fuel for the calls that close functions make of one another; four is enough, as
-- Close/Safety shows. The `for` and `goto restart` of close_all_sockets takes fuel for the
-- restarts. `send_fuel` is for the `EAGAIN` answers that `SendFail` waits out.
pub mod Finish
pub mod Lone
pub mod Pair
pub mod Safety
pub mod Preserve
pub mod All
use adb_src.Base.{
  ℕ, zero, suc, Bool, true, false, ◌||◌, Option, none, some, List, [], ◌∷◌, ◌++◌, ◌==◌,
  if◌then◌else◌, Bytes, codes,
}
use adb_src.Io.Protocol.{send_fail}
use adb_src.Socket.Store.{
  ◌>>=◌, ◌>>◌, Os, writer, Socket, State, M, Result, ok, fatal, exited, fault, out_of_fuel, return,
  bind_result, load, store, free, local_ready, ShutdownFunction, no_shutdown, remote_shutdown,
  CloseFunction, local_close, local_close_notify, remote_close, smart_close,
}
use adb_src.Socket.Registry.{remove_socket, insert_closing_socket}
use adb_src.Socket.Remote.{remote_socket_shutdown}

abbrev pub close_fd : {O : Os} → ℕ → M O (Unit {0})
close_fd fd st = ok (tt, record st { closed_fds = st.closed_fds ++ (fd ∷ []) })

abbrev pub exit_if : {O : Os} → Bool → M O (Unit {0})
exit_if b st = if b then exited else ok (tt, st)

-- `fdevent_remove` closes the descriptor; the packets that wait are dropped with the socket.
unfoldable pub local_socket_destroy : {O : Os} → ℕ → M O (Unit {0})
unfolding remove_socket
local_socket_destroy p = do
  s ← load p
  close_fd s.fd
  remove_socket p
  free p
  exit_if s.exit_on_close

-- CHECK_EQ(FDE_WRITE, s->fde.state & FDE_WRITE).
abbrev pub check_write : {O : Os} → ℕ → M O (Unit {0})
check_write p = do s ← load p; λ st. if s.fde_write then ok (tt, st) else fatal

abbrev pub is_empty {ℓ} : {A : Type ℓ} → List A → Bool
is_empty [] = true
is_empty (x ∷ xs) = false

unfoldable pub put_on_closing_list : {O : Os} → ℕ → Socket → M O (Unit {0})
unfolding remove_socket
put_on_closing_list p s = do
  store p (record s { closing = true; fde_read = false })
  remove_socket p
  insert_closing_socket p
  check_write p

-- local_socket_close from the end of its first `if`.
unfoldable pub finish_local_close : {O : Os} → ℕ → M O (Unit {0})
finish_local_close p = do
  s ← load p
  if s.closing || s.has_write_error || is_empty s.packets
      then local_socket_destroy p
      else put_on_closing_list p s

unfoldable pub call_shutdown : {O : Os} → ShutdownFunction → ℕ → M O (Unit {0})
call_shutdown no_shutdown q = return tt
call_shutdown remote_shutdown q = remote_socket_shutdown q

abbrev pub clear_peer : {O : Os} → ℕ → M O (Unit {0})
clear_peer p = do s ← load p; store p (record s { peer = none })

-- `s->peer->peer = 0; s->peer->close(s->peer);`, if there is a peer.
unfoldable pub leave_peer : {O : Os} → (ℕ → M O (Unit {0})) → Option ℕ → M O (Unit {0})
leave_peer close none = return tt
leave_peer close (some q) = do clear_peer q; close q

-- The first `if` of local_socket_close, with `close` for the peer's function.
unfoldable pub close_peer : {O : Os} → (ℕ → M O (Unit {0})) → ℕ → Option ℕ → M O (Unit {0})
close_peer close p none = return tt
close_peer close p (some q) = do
  t ← load q
  call_shutdown t.shutdown q
  leave_peer close (some q)
  clear_peer p

unfoldable pub local_socket_close : {O : Os} → (ℕ → M O (Unit {0})) → ℕ → M O (Unit {0})
local_socket_close close p = do s ← load p; close_peer close p s.peer; finish_local_close p

abbrev pub sent_or_fuel : {O : Os} → State O → Option (Bool × O.World) → Result (Unit {0} × State O)
sent_or_fuel st none = out_of_fuel
sent_or_fuel st (some (b, w)) = ok (tt, record st { world = w })

-- SendFail on the descriptor; its result is not looked at.
abbrev pub fail_on : {O : Os} → ℕ → ℕ → Bytes → M O (Unit {0})
fail_on {O} send_fuel fd reason st =
    sent_or_fuel st (send_fail (writer O fd) send_fuel st.world reason)

abbrev pub restore_local : Socket → Socket
restore_local s = record s { ready = local_ready; shutdown = no_shutdown; close = local_close }

-- smart_socket_close also drops its packet and clears `s->peer`, both gone with the socket.
unfoldable pub remote_socket_close : {O : Os} → (ℕ → M O (Unit {0})) → ℕ → M O (Unit {0})
remote_socket_close close p = do s ← load p; leave_peer close s.peer; free p

unfoldable pub local_socket_close_notify : {O : Os} → ℕ → (ℕ → M O (Unit {0})) → ℕ → M O (Unit {0})
local_socket_close_notify send_fuel close p = do
  s ← load p
  store p (restore_local s)
  fail_on send_fuel s.fd (codes "closed")
  close p

-- `s->close(s)`, by the function that the pointer names.
unfoldable pub call_close : {O : Os} → ℕ → (ℕ → M O (Unit {0})) → CloseFunction → ℕ → M O (Unit {0})
call_close send_fuel close local_close p = local_socket_close close p
call_close send_fuel close local_close_notify p = local_socket_close_notify send_fuel close p
call_close send_fuel close remote_close p = remote_socket_close close p
call_close send_fuel close smart_close p = remote_socket_close close p

unfoldable pub close : {O : Os} → ℕ → ℕ → ℕ → M O (Unit {0})
close send_fuel zero p = λ st. out_of_fuel
close send_fuel (suc fuel) p = do s ← load p; call_close send_fuel (close send_fuel fuel) s.close p

abbrev pub same_transport : Option ℕ → ℕ → Bool
same_transport none t = false
same_transport (some u) t = u == t

-- `s->transport == t || (s->peer && s->peer->transport == t)`
unfoldable pub uses_transport : {O : Os} → State O → ℕ → Socket → Result Bool
uses_transport st t s = if same_transport s.transport t then ok true else elim s.peer [
  | none ↦ ok false
  | some q ↦ elim (st.heap q) [ none ↦ fault | some u ↦ ok (same_transport u.transport t) ]
]

unfoldable pub choose : ℕ → Result Bool → Result (Option ℕ) → Result (Option ℕ)
choose p (ok true) rest = ok (some p)
choose p (ok false) rest = rest
choose p _ rest = fault

unfoldable pub choose_cell :
    {O : Os} → State O → ℕ → ℕ → Option Socket → Result (Option ℕ) → Result (Option ℕ)
unfolding choose uses_transport
choose_cell st t p none rest = fault
choose_cell st t p (some s) rest = choose p (uses_transport st t s) rest

-- The next socket of the list that the loop closes.
unfoldable pub first_using : {O : Os} → State O → ℕ → List ℕ → Result (Option ℕ)
unfolding choose_cell
first_using st t [] = ok none
first_using st t (p ∷ l) = choose_cell st t p (st.heap p) (first_using st t l)

-- The end of the loop, or a close and the jump to `restart`.
unfoldable pub close_then :
    {O : Os} → ℕ → M O (Unit {0}) → State O → Result (Option ℕ) → Result (Unit {0} × State O)
close_then send_fuel restart st (ok none) = ok (tt, st)
close_then send_fuel restart st (ok (some p)) = bind_result (close send_fuel 4 p st) (λ _. restart)
close_then send_fuel restart st _ = fault

unfoldable pub close_all_sockets : {O : Os} → ℕ → ℕ → ℕ → M O (Unit {0})
unfolding first_using close_then
close_all_sockets send_fuel zero t st = out_of_fuel
close_all_sockets send_fuel (suc fuel) t st =
    close_then send_fuel (close_all_sockets send_fuel fuel t) st
      (first_using st t st.local_socket_list)
