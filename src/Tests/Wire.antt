-- ===== src/Tests/Wire.antt =====
-- Runs of adb_io.cpp, of the packets, and of the shell protocol.
use adb_src.Base.{
  ℕ, zero, suc, ap, true, false, some, [], ◌∷◌, ◌++◌, ◌≡◌, ◌≤◌, ◌<◌, ◌≢◌, refl, arith, Bytes,
  length, take, ◌-◌, ◌/◌, ◌*◌,
}
use adb_src.Packet.{
  Packet, stamp, check_header, check_data, get_apacket, a_wrte, max_payload,
  calculate_apacket_checksum,
}
use adb_src.Packet.Checksum.{sum, checksum-sum, stamp-check, check_data-detects}
use adb_src.Packet.Wire.{
  remote_read, remote_write, message_bytes, remote_read-stamp, remote_read-checked,
  remote_write_lem, IsMessage,
}
use adb_src.Io.{read_fd_exactly, write_fd_exactly}
use adb_src.Io.Exact.{ReadsExactly, WritesExactly, read_fd_exactly_lem, write_fd_exactly_lem}
use adb_src.Io.Hex.{format_04x, format_04x_short}
use adb_src.Base.{length-append}
use adb_src.Io.Protocol.{
  ok, send_protocol_string, read_protocol_string, frame, send_protocol_string-frame,
  read_protocol_string-frame, read_protocol_string-oversize,
}
use adb_src.ShellProtocol.{ShellProtocol}
use adb_src.ShellProtocol.Chunks.{Chunked, shell_packet, read-chunks}
use adb_src.Socket.Store.{writer}
use adb_src.Tests.Stream.{slow_reader, slow_reader-Delivers, slow_os, slow_writer-Accepts}

abbrev word_packet : Packet
word_packet = record get_apacket {
  msg = record m { command = a_wrte; arg0 = 3; arg1 = 4; data_length = 2 };
  data_bytes = 104 ∷ 105 ∷ 0 ∷ [];
}
  where
    open get_apacket use {msg as m}

checksum-sum_example :
    (calculate_apacket_checksum word_packet ≡ sum (take 2 word_packet.data_bytes))
    × (calculate_apacket_checksum word_packet ≤ 255 * 2)
checksum-sum_example =
    checksum-sum word_packet (omega arith, (omega arith, (omega arith, tt))) (omega arith)

check_data-detects_example :
    check_data (record (stamp word_packet) { data_bytes = 104 ∷ 106 ∷ 0 ∷ [] }) ≡ false
unfolding stamp
check_data-detects_example =
    check_data-detects (stamp word_packet) (104 ∷ []) (0 ∷ []) 105 106 refl
      (omega arith, (omega arith, (omega arith, tt))) (omega arith) (omega arith) (omega arith)
      (omega arith) (stamp-check word_packet 4096).0

abbrev wire_bytes : Bytes
wire_bytes = message_bytes (stamp word_packet).msg ++ take 2 word_packet.data_bytes

stamped-IsMessage : IsMessage (stamp word_packet).msg
unfolding stamp
stamped-IsMessage = record {
  command_word = omega arith;
  arg0_word = omega arith;
  arg1_word = omega arith;
  data_length_word = omega arith;
  data_check_word = omega (
    arith,
    (checksum-sum word_packet (omega arith, (omega arith, (omega arith, tt))) (omega arith)).1,
  );
  magic_word = omega arith;
}

remote_read-stamp_example :
    (fd' : Bytes) × (remote_read slow_reader 4096 get_apacket (wire_bytes ++ (9 ∷ [])) ≡ (
      some (record get_apacket { msg = (stamp word_packet).msg; data_bytes = 104 ∷ 105 ∷ [] }),
      fd',
    ))
    × (fd' ≡ 9 ∷ [])
remote_read-stamp_example =
    remote_read-stamp slow_reader slow_reader-Delivers (wire_bytes ++ (9 ∷ [])) word_packet
      get_apacket 4096 (9 ∷ []) stamped-IsMessage (omega arith) (omega arith) refl

remote_read-checked_example :
    (check_header
        (record get_apacket { msg = (stamp word_packet).msg; data_bytes = 104 ∷ 105 ∷ [] })
        4096
      ≡ true)
    × (check_data
          (record get_apacket { msg = (stamp word_packet).msg; data_bytes = 104 ∷ 105 ∷ [] })
        ≡ true)
    × (length {A = ℕ} (104 ∷ 105 ∷ []) ≡ (stamp word_packet).msg.data_length)
    × ((stamp word_packet).msg.data_length ≤ 4096)
remote_read-checked_example =
    remote_read-checked slow_reader slow_reader-Delivers (wire_bytes ++ (9 ∷ [])) get_apacket 4096
      (record get_apacket { msg = (stamp word_packet).msg; data_bytes = 104 ∷ 105 ∷ [] })
      remote_read-stamp_example.0 remote_read-stamp_example.1

remote_write_example :
    WritesExactly
      (writer slow_os 7)
      slow_writer-Accepts
      []
      (message_bytes word_packet.msg ++ take 2 word_packet.data_bytes)
      (remote_write (writer slow_os 7) 26 [] word_packet)
remote_write_example =
    remote_write_lem (writer slow_os 7) slow_writer-Accepts 26 [] word_packet (omega arith)
      (omega arith)

read_fd_exactly_example :
    ReadsExactly slow_reader slow_reader-Delivers
      (1 ∷ 2 ∷ 3 ∷ [])
      2
      []
      (read_fd_exactly slow_reader (1 ∷ 2 ∷ 3 ∷ []) 2)
read_fd_exactly_example = read_fd_exactly_lem slow_reader slow_reader-Delivers (1 ∷ 2 ∷ 3 ∷ []) 2

write_fd_exactly_example :
    WritesExactly
      (writer slow_os 7)
      slow_writer-Accepts
      (5 ∷ [])
      (1 ∷ 2 ∷ [])
      (write_fd_exactly (writer slow_os 7) 2 (5 ∷ []) (1 ∷ 2 ∷ []))
write_fd_exactly_example =
    write_fd_exactly_lem (writer slow_os 7) slow_writer-Accepts 2 (5 ∷ []) (1 ∷ 2 ∷ [])
      (omega arith)

send_protocol_string-frame_example :
    (2 ≤ max_payload - 4
      → WritesExactly
          (writer slow_os 7)
          slow_writer-Accepts
          []
          (frame (104 ∷ 105 ∷ []))
          (send_protocol_string (writer slow_os 7) 6 [] (104 ∷ 105 ∷ [])))
    × (max_payload - 4 < 2
        → send_protocol_string (writer slow_os 7) 6 [] (104 ∷ 105 ∷ []) ≡ some (false, []))
send_protocol_string-frame_example =
    send_protocol_string-frame (writer slow_os 7) slow_writer-Accepts 6 [] (104 ∷ 105 ∷ [])
      (omega arith, (omega arith, tt)) (omega arith)
      (omega (
        arith,
        ap length (format_04x_short 2 (omega arith)),
        length-append (format_04x 2) (104 ∷ 105 ∷ []),
      ))

read_protocol_string-frame_example :
    (fd' : Bytes) × (read_protocol_string slow_reader (frame (104 ∷ 105 ∷ []) ++ (9 ∷ []))
      ≡ (ok (104 ∷ 105 ∷ []), fd'))
    × (fd' ≡ 9 ∷ [])
read_protocol_string-frame_example =
    read_protocol_string-frame slow_reader slow_reader-Delivers (frame (104 ∷ 105 ∷ []) ++ (9 ∷ []))
      (104 ∷ 105 ∷ []) (9 ∷ []) (omega arith) refl

fill : ℕ → Bytes
fill zero = []
fill (suc n) = 120 ∷ fill n

length-fill : (n : ℕ) → length (fill n) ≡ n
unfolding fill
length-fill zero = refl
length-fill (suc n) = ap suc (length-fill n)

read_protocol_string-oversize_example :
    (t : Bytes) × (fd' : Bytes) × (read_protocol_string slow_reader (frame (fill 65536) ++ [])
      ≡ (ok t, fd'))
    × (length t ≡ length (fill 65536) / 16)
    × (t ≢ fill 65536)
read_protocol_string-oversize_example =
    read_protocol_string-oversize slow_reader slow_reader-Delivers (frame (fill 65536) ++ [])
      (fill 65536) [] (omega (arith, length-fill 65536)) (omega (arith, length-fill 65536)) refl

abbrev small_protocol : ShellProtocol
small_protocol = record {
  id = 255;
  buffer_data = [];
  data_length = 0;
  bytes_left = 0;
  capacity = 2;
}

read-chunks_example :
    Chunked slow_reader slow_reader-Delivers small_protocol
      (shell_packet 1 (7 ∷ 8 ∷ 9 ∷ []) ++ (5 ∷ []))
      1
      (7 ∷ 8 ∷ 9 ∷ [])
      (5 ∷ [])
read-chunks_example =
    read-chunks slow_reader slow_reader-Delivers small_protocol
      (shell_packet 1 (7 ∷ 8 ∷ 9 ∷ []) ++ (5 ∷ [])) 1 (7 ∷ 8 ∷ 9 ∷ []) (5 ∷ []) refl (omega arith)
      (omega arith) refl
