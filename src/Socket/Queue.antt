-- ===== src/Socket/Queue.antt =====
-- Packets on their way to a descriptor, in sockets.cpp: local_socket_enqueue, local_socket_ready,
-- the write half of local_socket_event_func, and the functions behind `ready`. The loop over one
-- packet takes fuel for its bytes, since each successful write takes at least one.
pub mod Conserve
pub mod Enqueue
use adb_src.Base.{
  ℕ, zero, suc, ◌+◌, ◌-◌, Bool, true, false, List, [], ◌∷◌, ◌++◌, ◌==◌, if◌then◌else◌, Bytes, take,
  drop,
}
use adb_src.Packet.{Packet}
use adb_src.Io.{WriteResult, wrote, again, broken}
use adb_src.Io.Protocol.{send_okay}
use adb_src.Socket.Store.{
  ◌>>=◌, ◌>>◌, Os, writer, Socket, M, ok, return, load, store, ReadyFunction, local_ready,
  local_ready_notify, remote_ready, smart_ready,
}
use adb_src.Socket.Remote.{remote_socket_ready, the}
use adb_src.Socket.Close.{close, restore_local, sent_or_fuel}

-- The `len` bytes from `ptr`.
abbrev pub unsent : Packet → Bytes
unsent p = take p.len (drop p.ptr p.data_bytes)

-- How the loop over one packet ends: `len` is zero, the descriptor would block, or it failed.
pub data Drain : Type 0 where
  emptied blocked failed_write : Drain

module _ (O : Os) where
  unfoldable pub after_out :
      (Packet → O.World → Drain × Packet × O.World)
      → Packet
      → WriteResult × O.World
      → Drain × Packet × O.World
  after_out rest p (wrote zero, w) = (failed_write, p, w)
  after_out rest p (wrote (suc n), w) =
      rest (record p { len = p.len - suc n; ptr = p.ptr + suc n }) w
  after_out rest p (again, w) = (blocked, p, w)
  after_out rest p (broken, w) = (failed_write, p, w)

  unfoldable pub write_out : ℕ → ℕ → Packet → O.World → Drain × Packet × O.World
  unfolding after_out
  write_out zero fd p w = (if p.len == 0 then emptied else failed_write, p, w)
  write_out (suc fuel) fd p w =
      if p.len == 0
      then (emptied, p, w)
      else after_out (write_out fuel fd) p (O.adb_write w fd (unsent p))

  unfoldable pub after_packet :
      (O.World → Drain × List Packet × O.World)
      → List Packet
      → Drain × Packet × O.World
      → Drain × List Packet × O.World
  after_packet rest packets (emptied, packet, w) = rest w
  after_packet rest packets (blocked, packet, w) = (blocked, packet ∷ packets, w)
  after_packet rest packets (failed_write, packet, w) = (failed_write, packet ∷ packets, w)

  -- The outer loop of the write half, which takes each packet off when it is empty.
  unfoldable pub drain_queue : ℕ → List Packet → O.World → Drain × List Packet × O.World
  unfolding after_packet write_out
  drain_queue fd [] w = (emptied, [], w)
  drain_queue fd (packet ∷ packets) w =
      after_packet (drain_queue fd packets) packets (write_out packet.len fd packet w)

module _ {O : Os} where
  abbrev pub set_world : O.World → M O (Unit {0})
  set_world w st = ok (tt, record st { world = w })

  -- The packet goes behind the queue, and the descriptor is watched for writing.
  abbrev pub enqueue_packet : ℕ → Packet → M O ℕ
  enqueue_packet p packet = do
    s ← load p
    store p (record s { packets = s.packets ++ (packet ∷ []); fde_write = true })
    return 1

  -- `s->has_write_error = true; s->close(s);`
  abbrev pub close_on_error : ℕ → ℕ → M O (Unit {0})
  close_on_error send_fuel p = do
    s ← load p
    store p (record s { has_write_error = true })
    close send_fuel 4 p

  unfoldable pub after_drain : ℕ → ℕ → Drain × Packet × O.World → M O ℕ
  after_drain send_fuel p (failed_write, packet, w) = do
    set_world w
    close_on_error send_fuel p
    return 1
  after_drain send_fuel p (emptied, packet, w) = do set_world w; return 0
  after_drain send_fuel p (blocked, packet, w) = do set_world w; enqueue_packet p packet

  -- With packets waiting, the new one waits behind them; else as much of it is written as goes.
  unfoldable pub enqueue_by : ℕ → ℕ → ℕ → Packet → List Packet → M O ℕ
  unfolding write_out after_drain
  enqueue_by send_fuel p fd packet (_ ∷ _) = enqueue_packet p packet
  enqueue_by send_fuel p fd packet [] =
      λ st. after_drain send_fuel p (write_out O packet.len fd packet st.world) st

  unfoldable pub local_socket_enqueue : ℕ → ℕ → Packet → M O ℕ
  unfolding enqueue_by
  local_socket_enqueue send_fuel p packet = do
    s ← load p
    enqueue_by send_fuel p s.fd (record packet { ptr = 0 }) s.packets

  unfoldable pub local_socket_ready : ℕ → M O (Unit {0})
  local_socket_ready p = do s ← load p; store p (record s { fde_read = true })

  -- SendOkay on the descriptor; its result is not looked at.
  unfoldable pub local_socket_ready_notify : ℕ → ℕ → M O (Unit {0})
  unfolding local_socket_ready
  local_socket_ready_notify send_fuel p = do
    s ← load p
    store p (restore_local s)
    λ st. sent_or_fuel st (send_okay (writer O s.fd) send_fuel st.world)
    local_socket_ready p

  -- `s->ready(s)`; smart_socket_ready does nothing.
  unfoldable pub call_ready : ℕ → ReadyFunction → ℕ → M O (Unit {0})
  unfolding local_socket_ready local_socket_ready_notify
  call_ready send_fuel local_ready p = local_socket_ready p
  call_ready send_fuel local_ready_notify p = local_socket_ready_notify send_fuel p
  call_ready send_fuel remote_ready p = remote_socket_ready p
  call_ready send_fuel smart_ready p = return tt

  unfoldable pub ready : ℕ → ℕ → M O (Unit {0})
  unfolding call_ready
  ready send_fuel p = do s ← load p; call_ready send_fuel s.ready p

  abbrev pub set_queue : ℕ → List Packet → O.World → M O (Unit {0})
  set_queue p packets w = do set_world w; s ← load p; store p (record s { packets = packets })

  -- The queue is empty: a closing socket is destroyed, another one stops watching for writing and
  -- tells its peer to go on. The result is whether the event function goes on to its read half.
  unfoldable pub queue_emptied : ℕ → ℕ → M O Bool
  unfolding ready
  queue_emptied send_fuel p = do s ← load p; if s.closing then finish else resume s
    where
      finish : M O Bool
      finish = do close send_fuel 4 p; return false

      resume : Socket → M O Bool
      resume s = do
        store p (record s { fde_write = false })
        q ← the s.peer
        ready send_fuel q
        return true

  unfoldable pub after_queue : ℕ → ℕ → Drain × List Packet × O.World → M O Bool
  unfolding queue_emptied
  after_queue send_fuel p (emptied, packets, w) = do
    set_queue p packets w
    queue_emptied send_fuel p
  after_queue send_fuel p (blocked, packets, w) = do set_queue p packets w; return false
  after_queue send_fuel p (failed_write, packets, w) = do
    set_queue p packets w
    close_on_error send_fuel p
    return false

  -- local_socket_event_func for FDE_WRITE. A queue that blocks or fails ends the call, so the read
  -- half does not run.
  unfoldable pub local_socket_write_event : ℕ → ℕ → M O Bool
  unfolding drain_queue after_queue
  local_socket_write_event send_fuel p = do
    s ← load p
    λ st. after_queue send_fuel p (drain_queue O s.fd s.packets st.world) st
