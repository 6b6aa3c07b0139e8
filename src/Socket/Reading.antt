-- ===== src/Socket/Reading.antt =====
-- The read half of local_socket_event_func in sockets.cpp, `enqueue` by its function pointer, and
-- the event function as a whole. The loop takes fuel for the bytes it has room for, since each
-- successful read gives at least one. smart_socket_enqueue is an argument; its `none` is the
-- negative result, by which it says that it closed its peer.
pub mod Forward
use adb_src.Base.{
  ℕ, zero, suc, ◌-◌, Bool, true, false, ◌&&◌, ◌||◌, Option, none, some, [], ◌∷◌, ◌++◌, ◌==◌,
  if◌then◌else◌, Bytes, length,
}
use adb_src.Packet.{Packet, get_apacket}
use adb_src.Socket.Store.{
  ◌>>=◌, ◌>>◌, Os, M, return, load, store, EnqueueFunction, local_enqueue, remote_enqueue,
  smart_enqueue, ReadAnswer, bytes, end_of_file, not_yet, read_error,
}
use adb_src.Socket.Remote.{remote_socket_enqueue, get_max_payload}
use adb_src.Socket.Close.{close}
use adb_src.Socket.Queue.{local_socket_enqueue, local_socket_write_event, set_world}

-- The end of the loop: the bytes read, `is_eof`, and whether `r` is 0.
pub record Reading : Type 0 where
  pub taken : Bytes
  pub is_eof : Bool
  pub is_zero : Bool

abbrev pub packet_of : Bytes → Packet
packet_of taken = record get_apacket { len = length taken; data_bytes = taken }

module _ (O : Os) where
  unfoldable pub after_adb_read :
      (Bytes → O.World → Reading × O.World) → Bytes → ReadAnswer × O.World → Reading × O.World
  after_adb_read rest taken (bytes [], w) =
      (record { taken = taken; is_eof = true; is_zero = true }, w)
  after_adb_read rest taken (bytes (b ∷ bs), w) = rest (taken ++ (b ∷ bs)) w
  after_adb_read rest taken (end_of_file, w) =
      (record { taken = taken; is_eof = true; is_zero = true }, w)
  after_adb_read rest taken (not_yet, w) =
      (record { taken = taken; is_eof = false; is_zero = false }, w)
  after_adb_read rest taken (read_error, w) =
      (record { taken = taken; is_eof = true; is_zero = false }, w)

  -- With no room left; before any read `r` is still 0.
  abbrev pub full : Bytes → Reading
  full taken = record { taken = taken; is_eof = false; is_zero = length taken == 0 }

  unfoldable pub read_in : ℕ → ℕ → ℕ → Bytes → O.World → Reading × O.World
  unfolding after_adb_read
  read_in zero fd room taken w = (full taken, w)
  read_in (suc fuel) fd room taken w =
      if room - length taken == 0
      then (full taken, w)
      else after_adb_read (read_in fuel fd room) taken (O.adb_read w fd (room - length taken))

module _ {O : Os} where
  unfoldable pub call_enqueue :
      ℕ → (ℕ → Packet → M O (Option ℕ)) → EnqueueFunction → ℕ → Packet → M O (Option ℕ)
  call_enqueue send_fuel smart local_enqueue p packet = do
    r ← local_socket_enqueue send_fuel p packet
    return (some r)
  call_enqueue send_fuel smart remote_enqueue p packet = do
    r ← remote_socket_enqueue p packet
    return (some r)
  call_enqueue send_fuel smart smart_enqueue p packet = smart p packet

  -- `s->enqueue(s, p)`.
  unfoldable pub enqueue : ℕ → (ℕ → Packet → M O (Option ℕ)) → ℕ → Packet → M O (Option ℕ)
  unfolding call_enqueue
  enqueue send_fuel smart q packet = do t ← load q; call_enqueue send_fuel smart t.enqueue q packet

  -- The end of the read half, where `r` is 0 or not.
  abbrev pub check_eof : ℕ → ℕ → Reading → Bool → M O (Unit {0})
  check_eof send_fuel p run is_zero = do
    s ← load p
    if (s.force_eof && is_zero) || run.is_eof then close send_fuel 4 p else return tt

  abbrev pub stop_reading : ℕ → M O (Unit {0})
  stop_reading p = do s ← load p; store p (record s { fde_read = false })

  -- After the peer's `enqueue`: it closed the socket, or takes more, or wants it to wait.
  unfoldable pub after_enqueue : ℕ → ℕ → Reading → Option ℕ → M O (Unit {0})
  after_enqueue send_fuel p run none = return tt
  after_enqueue send_fuel p run (some zero) = check_eof send_fuel p run true
  after_enqueue send_fuel p run (some (suc r)) = do stop_reading p; check_eof send_fuel p run false

  -- Without bytes or a peer, the packet is dropped.
  unfoldable pub hand_over :
      ℕ → (ℕ → Packet → M O (Option ℕ)) → ℕ → Reading → Bytes → Option ℕ → M O (Unit {0})
  unfolding enqueue after_enqueue
  hand_over send_fuel smart p run [] peer = check_eof send_fuel p run run.is_zero
  hand_over send_fuel smart p run (b ∷ bs) none = check_eof send_fuel p run run.is_zero
  hand_over send_fuel smart p run (b ∷ bs) (some q) = do
    r ← enqueue send_fuel smart q (packet_of (b ∷ bs))
    after_enqueue send_fuel p run r

  unfoldable pub local_socket_read_event : ℕ → (ℕ → Packet → M O (Option ℕ)) → ℕ → M O (Unit {0})
  unfolding read_in hand_over
  local_socket_read_event send_fuel smart p = do
    s ← load p
    room ← get_max_payload p
    λ st.
        (do
          set_world (read_in O room s.fd room [] st.world).1
          hand_over send_fuel smart p (read_in O room s.fd room [] st.world).0
              (read_in O room s.fd room [] st.world).0.taken s.peer)
          st

  -- The events are FDE_READ and FDE_WRITE; FDE_ERROR alone does nothing.
  unfoldable pub local_socket_event_func :
      ℕ → (ℕ → Packet → M O (Option ℕ)) → Bool → Bool → ℕ → M O (Unit {0})
  unfolding local_socket_read_event
  local_socket_event_func send_fuel smart readable writable p = do
    goes_on ← (if writable then local_socket_write_event send_fuel p else return true)
    if goes_on && readable then local_socket_read_event send_fuel smart p else return tt
