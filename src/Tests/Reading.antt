-- ===== src/Tests/Reading.antt =====
-- Runs of the read half of local_socket_event_func: a machine with a stream to read, where every
-- write fails.
use adb_src.Base.{
  ℕ, zero, suc, ◌≤◌, ◌⊎◌, inl, inr, true, Option, none, some, [], ◌∷◌, ◌++◌, ◌≡◌, refl, arith,
  Bytes, codes, length,
}
use adb_src.Io.{broken}
use adb_src.Socket.Store.{
  member, erase, Os, Socket, State, ok, fault, ReadAnswer, bytes, end_of_file, not_yet, read_error,
}
use adb_src.Socket.Registry.{new_local_socket, remove_socket}
use adb_src.Socket.Remote.{new_remote_socket, get_max_payload}
use adb_src.Socket.Reading.{
  local_socket_read_event, read_in, after_adb_read, hand_over, enqueue, call_enqueue, after_enqueue,
}
use adb_src.Socket.Queue.{local_socket_enqueue, enqueue_by, after_drain, write_out, after_out}
use adb_src.Socket.Close.{
  close, call_close, local_socket_close, close_peer, leave_peer, call_shutdown, finish_local_close,
  local_socket_destroy,
}
use adb_src.Socket.Reading.Forward.{
  Yields, StopsFor, after_reading, read_of, local_socket_read_event-Forwards,
}

abbrev byte_read : Bytes → ℕ → ℕ → ReadAnswer × Bytes
byte_read [] fd n = (not_yet, [])
byte_read (b ∷ w) fd zero = (not_yet, b ∷ w)
byte_read (b ∷ w) fd (suc n) = (bytes (b ∷ []), w)

abbrev stream_os : Os
stream_os = record { World = Bytes; adb_read = byte_read; adb_write = λ w fd bs. (broken, w) }

stream_os-Yields : Yields stream_os 7
stream_os-Yields = record { pending = λ w. w; read_lem = handed }
  where
    handed :
        (w : Bytes) (n : ℕ)
        → ((b : ℕ) × (bs : Bytes) × (w' : Bytes) × (byte_read w 7 n ≡ (bytes (b ∷ bs), w'))
            × (length (b ∷ bs) ≤ n)
            × (w ≡ (b ∷ bs) ++ w'))
          ⊎ ((r : ReadAnswer) × (w' : Bytes) × (byte_read w 7 n ≡ (r, w'))
              × ((r ≡ end_of_file) ⊎ (r ≡ not_yet) ⊎ (r ≡ read_error))
              × (w ≡ w'))
    handed [] n = inr (not_yet, [], refl, inr (inl refl), refl)
    handed (b ∷ w) zero = inr (not_yet, b ∷ w, refl, inr (inl refl), refl)
    handed (b ∷ w) (suc n) = inl (b, [], w, refl, omega arith, refl)

abbrev reader : Socket
reader = record (new_local_socket 7) { id = 1; peer = some 1; fde_read = true }

abbrev remote : Socket
remote = record (new_remote_socket 40 5) { peer = some 0 }

abbrev cells : ℕ → Option Socket
cells zero = some reader
cells (suc zero) = some remote
cells _ = none

abbrev ready_to_read : State stream_os
ready_to_read = record {
  heap = cells;
  next_address = 2;
  local_socket_list = 0 ∷ [];
  local_socket_closing_list = [];
  local_socket_next_id = 2;
  max_payload_of = λ t. 4;
  sent = [];
  closed_fds = [];
  world = codes "hello";
}

local_socket_read_event-Forwards_example :
    (local_socket_read_event 16 (λ r packet st. ok (some 0, st)) 0 ready_to_read
      ≡ after_reading 16
          (λ r packet st. ok (some 0, st))
          0
          1
          reader
          remote
          5
          (read_of 16 (λ r packet st. ok (some 0, st)) 0 1 reader remote 5 ready_to_read).0
          (read_of 16 (λ r packet st. ok (some 0, st)) 0 1 reader remote 5 ready_to_read).0.taken
          (record ready_to_read {
            world =
                (read_of 16 (λ r packet st. ok (some 0, st)) 0 1 reader remote 5 ready_to_read).1;
          }))
    × ((read_of 16 (λ r packet st. ok (some 0, st)) 0 1 reader remote 5 ready_to_read).0.taken
          ++ (read_of 16 (λ r packet st. ok (some 0, st)) 0 1 reader remote 5 ready_to_read).1
        ≡ codes "hello")
    × (length
          (read_of 16 (λ r packet st. ok (some 0, st)) 0 1 reader remote 5 ready_to_read).0.taken
        ≤ 4)
    × StopsFor stream_os 7 stream_os-Yields 4
        (read_of 16 (λ r packet st. ok (some 0, st)) 0 1 reader remote 5 ready_to_read)
unfolding stream_os-Yields
local_socket_read_event-Forwards_example =
    local_socket_read_event-Forwards 16 (λ r packet st. ok (some 0, st)) 0 1 reader remote 5
      ready_to_read stream_os-Yields
      (record { here = refl; forth = refl; there = refl; back = refl; remote = refl; bound = refl })

-- A peer that is local too, whose write fails, closes both sockets; the event function then goes
-- on to use the one that it was called for.
abbrev pair_cells : ℕ → Option Socket
pair_cells zero = some reader
pair_cells (suc zero) = some (record (new_local_socket 8) { id = 2; peer = some 0 })
pair_cells _ = none

abbrev two_locals : State stream_os
two_locals = record ready_to_read {
  heap = pair_cells;
  local_socket_list = 0 ∷ 1 ∷ [];
  local_socket_next_id = 3;
}

failed_write-faults :
    local_socket_read_event 16 (λ r packet st. ok (some 0, st)) 0 two_locals ≡ fault
unfolding local_socket_read_event read_in after_adb_read hand_over enqueue call_enqueue
    after_enqueue local_socket_enqueue enqueue_by after_drain write_out after_out close call_close
    local_socket_close close_peer leave_peer call_shutdown finish_local_close local_socket_destroy
    remove_socket member erase get_max_payload
failed_write-faults = refl
