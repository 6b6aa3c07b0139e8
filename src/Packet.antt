-- ===== src/Packet.antt =====
-- The wire packet: `amessage`, `apacket` and the payload limits of adb.h, the checksum and
-- `get_apacket` of adb.cpp, the stamping half of `send_packet` and the two checks of
-- transport.cpp. `data` lists the bytes of the payload buffer that have been written; a read
-- behind them is a read of memory that the source leaves uninitialised, and adds nothing here.
-- `next` has no field: a queue of packets is a list.
pub mod Checksum
pub mod Wire
use adb_src.Base.{
  ℕ, zero, suc, ◌+◌, ◌*◌, ◌%◌, ◌^◌, bit_xor, Bool, not, [], ◌∷◌, ◌==◌, ltb, if◌then◌else◌, true,
  false, Bytes,
}

abbrev pub max_payload_v1 : ℕ
max_payload_v1 = 4 * 1024

abbrev pub max_payload_v2 : ℕ
max_payload_v2 = 256 * 1024

abbrev pub max_payload : ℕ
max_payload = max_payload_v2

abbrev pub a_sync : ℕ
a_sync = 0x434e5953

abbrev pub a_cnxn : ℕ
a_cnxn = 0x4e584e43

abbrev pub a_open : ℕ
a_open = 0x4e45504f

abbrev pub a_okay : ℕ
a_okay = 0x59414b4f

abbrev pub a_clse : ℕ
a_clse = 0x45534c43

abbrev pub a_wrte : ℕ
a_wrte = 0x45545257

abbrev pub a_auth : ℕ
a_auth = 0x48545541

abbrev pub a_version : ℕ
a_version = 0x01000000

pub record Message : Type 0 where
  pub command : ℕ
  pub arg0 : ℕ
  pub arg1 : ℕ
  pub data_length : ℕ
  pub data_check : ℕ
  pub magic : ℕ

-- `ptr` is the offset in `data` of the first byte that is still to be written.
pub record Packet : Type 0 where
  pub len : ℕ
  pub ptr : ℕ
  pub msg : Message
  pub data_bytes : Bytes

-- `while (count-- > 0) sum += *x++;` on a `uint32_t`.
pub checksum_loop : ℕ → Bytes → ℕ → ℕ
checksum_loop zero x sum = sum
checksum_loop (suc count) [] sum = sum
checksum_loop (suc count) (b ∷ x) sum = checksum_loop count x ((sum + b) % 2 ^ 32)

unfoldable pub calculate_apacket_checksum : Packet → ℕ
calculate_apacket_checksum p = checksum_loop p.msg.data_length p.data_bytes 0

abbrev pub get_apacket : Packet
get_apacket = record {
  len = 0;
  ptr = 0;
  msg = record { command = 0; arg0 = 0; arg1 = 0; data_length = 0; data_check = 0; magic = 0 };
  data_bytes = [];
}

-- What `send_packet` fills in before it writes the packet.
unfoldable pub stamp : Packet → Packet
stamp p = record p {
  msg = record msg {
    magic = bit_xor msg.command 0xffffffff;
    data_check = calculate_apacket_checksum p;
  };
}
  where
    open p use {msg}

-- The second argument is `t->get_max_payload()`.
unfoldable pub check_header : Packet → ℕ → Bool
check_header p limit =
    if not (p.msg.magic == bit_xor p.msg.command 0xffffffff)
    then false
    else if ltb limit p.msg.data_length
    then false
    else true

unfoldable pub check_data : Packet → Bool
check_data p = calculate_apacket_checksum p == p.msg.data_check
