-- ===== src/ShellProtocol.antt =====
-- ShellProtocol of shell_service.h and shell_service_protocol.cpp: packets of an id, a 4-byte
-- length and data, on the file descriptor of adb_io.cpp. `capacity` is data_capacity(), which
-- tests make smaller; `buffer_data` are the bytes behind the header in `buffer_`. After a call
-- that returns false the object is not used, so `none` drops it.
pub mod Chunks
use adb_src.Base.{
  ℕ, ◌%◌, ◌^◌, ◌-◌, min, Bool, Option, none, some, [], ◌∷◌, ◌==◌, if◌then◌else◌, Bytes, take,
}
use adb_src.Io.{Reader, Writer, read_fd_exactly, write_fd_exactly}
use adb_src.Packet.{max_payload}
use adb_src.Packet.Wire.{le32, word}

pub record ShellProtocol : Type 0 where
  pub id : ℕ
  pub buffer_data : Bytes
  pub data_length : ℕ
  pub bytes_left : ℕ
  pub capacity : ℕ

abbrev pub k_id_invalid : ℕ
k_id_invalid = 255

abbrev pub k_header_size : ℕ
k_header_size = 5

pub new_protocol : ShellProtocol
new_protocol = record {
  id = k_id_invalid;
  buffer_data = [];
  data_length = 0;
  bytes_left = 0;
  capacity = max_payload - k_header_size;
}

-- The length field of a header that was read.
unfoldable pub header_of : ShellProtocol → Bytes → ShellProtocol
header_of p (i ∷ a ∷ b ∷ c ∷ d ∷ rest) = record p {
  id = i;
  bytes_left = word a b c d;
  data_length = 0;
}
header_of p _ = p

module _ (R : Reader) where
  read_data : ShellProtocol → ℕ → Option Bytes × R.Fd → Option ShellProtocol × R.Fd
  read_data p n (none, fd) = (none, fd)
  read_data p n (some chunk, fd) =
      (some (record p { buffer_data = chunk; bytes_left = p.bytes_left - n; data_length = n }), fd)

  -- A length of zero is not read at all, and leaves the buffer.
  read_chunk : ShellProtocol → R.Fd → Option ShellProtocol × R.Fd
  unfolding read_data
  read_chunk p fd =
      let n = min p.bytes_left p.capacity in
      if n == 0
      then (some (record p { data_length = 0 }), fd)
      else read_data p n (read_fd_exactly R fd n)

  read_header : ShellProtocol → Option Bytes × R.Fd → Option ShellProtocol × R.Fd
  unfolding read_chunk
  read_header p (none, fd) = (none, fd)
  read_header p (some header, fd) = read_chunk (header_of p header) fd

  unfoldable pub read : ShellProtocol → R.Fd → Option ShellProtocol × R.Fd
  unfolding read_header
  read p fd =
      if p.bytes_left == 0
      then read_header p (read_fd_exactly R fd k_header_size)
      else read_chunk p fd

module _ (W : Writer) where
  -- The first `n` bytes of the data buffer as one packet.
  unfoldable pub write : ℕ → W.Fd → ShellProtocol → ℕ → ℕ → Option (Bool × W.Fd)
  write fuel fd p packet_id n =
      write_fd_exactly W fuel fd (packet_id ∷ le32 (n % 2 ^ 32) (take n p.buffer_data))
