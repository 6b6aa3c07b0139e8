-- ===== src/Socket/Remote.antt =====
-- The remote sockets of sockets.cpp, which stand for the other end of a transport, and the request
-- that opens one. `send_packet` stamps a packet; writing its address to the transport's socket
-- pair is one step here.
use adb_src.Base.{
  ℕ, ◌+◌, ◌-◌, ◌%◌, ◌^◌, false, Option, none, some, [], ◌∷◌, ◌++◌, ◌==◌, ltb, if◌then◌else◌, Bytes,
  length, min,
}
use adb_src.Packet.{Packet, stamp, get_apacket, a_okay, a_clse, a_wrte, a_open, max_payload}
use adb_src.Socket.Store.{
  ◌>>=◌, ◌>>◌, Os, Socket, State, M, Result, ok, fatal, fault, return, load, emit, remote_enqueue,
  remote_ready, remote_shutdown, remote_close,
}
use adb_src.Socket.Registry.{allocate}

abbrev pub the {ℓ} : {O : Os} {A : Type ℓ} → Option A → State O → Result (A × State O)
the none st = fault
the (some a) st = ok (a, st)

-- A null transport is fatal.
unfoldable pub send_packet : {O : Os} → Packet → Option ℕ → M O (Unit {0})
send_packet p none st = fatal
send_packet p (some t) st = emit t (stamp p) st

abbrev pub message_packet : ℕ → ℕ → ℕ → Packet
message_packet command arg0 arg1 = record get_apacket {
  msg = record m { command = command; arg0 = arg0; arg1 = arg1 };
}
  where
    open get_apacket use {msg as m}

unfoldable pub send_ready : {O : Os} → ℕ → ℕ → Option ℕ → M O (Unit {0})
unfolding send_packet
send_ready loc remote t = send_packet (message_packet a_okay loc remote) t

unfoldable pub send_close : {O : Os} → ℕ → ℕ → Option ℕ → M O (Unit {0})
unfolding send_packet
send_close loc remote t = send_packet (message_packet a_clse loc remote) t

-- Always asks to wait.
unfoldable pub remote_socket_enqueue : {O : Os} → ℕ → Packet → M O ℕ
unfolding send_packet
remote_socket_enqueue p packet = do
  s ← load p
  q ← the s.peer
  t ← load q
  send_packet
      (record packet {
        msg = record m { command = a_wrte; arg0 = t.id; arg1 = s.id; data_length = packet.len };
      })
      s.transport
  return 1
  where
    open packet use {msg as m}

unfoldable pub remote_socket_ready : {O : Os} → ℕ → M O (Unit {0})
unfolding send_packet
remote_socket_ready p = do
  s ← load p
  q ← the s.peer
  t ← load q
  send_packet (message_packet a_okay t.id s.id) s.transport

-- The id of the peer, or the zero of a fresh packet.
abbrev pub peer_id : {O : Os} → Option ℕ → M O ℕ
peer_id none = return 0
peer_id (some q) = do t ← load q; return t.id

unfoldable pub remote_socket_shutdown : {O : Os} → ℕ → M O (Unit {0})
unfolding send_packet
remote_socket_shutdown p = do
  s ← load p
  i ← peer_id s.peer
  send_packet (message_packet a_clse i s.id) s.transport

abbrev pub new_remote_socket : ℕ → ℕ → Socket
new_remote_socket id t = record {
  id = id;
  closing = false;
  has_write_error = false;
  exit_on_close = false;
  peer = none;
  fde_read = false;
  fde_write = false;
  force_eof = false;
  fd = 0;
  packets = [];
  enqueue = remote_enqueue;
  ready = remote_ready;
  shutdown = remote_shutdown;
  close = remote_close;
  transport = some t;
}

unfoldable pub create_remote_socket : {O : Os} → ℕ → ℕ → M O ℕ
create_remote_socket id t st = if id == 0 then fatal else allocate (new_remote_socket id t) st

-- asocket::get_max_payload.
abbrev pub limit_by : {O : Os} → State O → ℕ → Option ℕ → ℕ
limit_by st n none = n
limit_by st n (some t) = min n (st.max_payload_of t)

abbrev pub peer_transport : {O : Os} → Option ℕ → M O (Option ℕ)
peer_transport none = return none
peer_transport (some q) = do t ← load q; return t.transport

unfoldable pub get_max_payload : {O : Os} → ℕ → M O ℕ
get_max_payload p = do
  s ← load p
  other ← peer_transport s.peer
  λ st. ok (limit_by st (limit_by st max_payload s.transport) other, st)

abbrev pub open_request : ℕ → Bytes → Packet
open_request id destination = record get_apacket {
  msg = record m { command = a_open; arg0 = id; data_length = length destination + 1 };
  data_bytes = destination ++ (0 ∷ []);
}
  where
    open get_apacket use {msg as m}

-- A destination that does not fit is fatal; the limit less one is computed on a 64-bit `size_t`.
-- `msg.arg1` keeps the zero of a fresh packet.
unfoldable pub connect_to_remote : {O : Os} → ℕ → Bytes → M O (Unit {0})
unfolding get_max_payload send_packet
connect_to_remote p destination = do
  s ← load p
  limit ← get_max_payload p
  let room = (limit + 2 ^ 64 - 1) % 2 ^ 64
  let request = send_packet (open_request s.id destination) s.transport
  if ltb room (length destination + 1) then (λ st. fatal) else request
