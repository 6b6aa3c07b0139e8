-- ===== src/Connection.antt =====
-- The connection state of a transport: the banner of adb.cpp (get_connection_string,
-- send_connect's packet, parse_banner), and the version, payload limit and features of transport.cpp.
-- A protocol version is an `int`, kept as the 32 bits that the wire carries. `char*` fields cut a
-- string at its first NUL.
pub mod Features
pub mod Banner
use adb_src.Base.{
  ℕ, ◌^◌, Bool, Option, none, some, List, [], ◌∷◌, ◌++◌, ◌==◌, ltb, if◌then◌else◌, Bytes, bytes_eq,
  codes, min, length,
}
use adb_src.Packet.{Packet, get_apacket, a_cnxn, a_version, max_payload, max_payload_v1}
use adb_src.LibBase.{LibBase, contains}
use adb_src.Transport.{
  Transport, ConnectionState, cs_bootloader, cs_device, cs_recovery, cs_sideload, cs_host,
}

-- `ADB_HOST` or not.
pub data Build : Type 0 where
  host_build device_build : Build

-- The rest of `atransport`, beside the fields by which it is chosen. `keys` are the private keys
-- that a host has still to try, with `none` for the null pointer.
pub record Connection : Type 0 where
  pub transport : Transport
  pub online : Bool
  pub features : List Bytes
  pub protocol_version : ℕ
  pub max_payload : ℕ
  pub keys : List (Option ℕ)

unfoldable pub product_key : Bytes
product_key = codes "ro.product.name"

unfoldable pub model_key : Bytes
model_key = codes "ro.product.model"

unfoldable pub device_key : Bytes
device_key = codes "ro.product.device"

unfoldable pub features_key : Bytes
features_key = codes "features"

-- A C string ends at its first NUL.
unfoldable pub c_str : Bytes → Bytes
c_str [] = []
c_str (c ∷ s) = if c == 0 then [] else c ∷ c_str s

unfoldable pub known_features : List Bytes
known_features = codes "shell_v2" ∷ codes "cmd" ∷ codes "stat_v2" ∷ []

unfoldable pub supported_features : LibBase → List Bytes
supported_features b = b.set_of known_features

unfoldable pub feature_set_to_string : LibBase → List Bytes → Bytes
feature_set_to_string b features = b.join features b','

unfoldable pub string_to_feature_set : LibBase → Bytes → List Bytes
string_to_feature_set b [] = []
string_to_feature_set b (c ∷ s) = b.set_of (b.split (c ∷ s) b',')

unfoldable pub has_feature : Connection → Bytes → Bool
has_feature c feature = contains feature c.features

unfoldable pub set_features : LibBase → Bytes → Connection → Connection
unfolding string_to_feature_set
set_features b text c = record c { features = string_to_feature_set b text }

-- get_connection_string, from the inside out. A host sends no properties.
abbrev pub pair : Bytes → Bytes → Bytes
pair key value = key ++ (b'=' ∷ value)

unfoldable pub property_pairs : LibBase → Build → List Bytes
property_pairs b host_build = []
property_pairs b device_build =
    pair product_key (b.get_property product_key)
    ∷ pair model_key (b.get_property model_key)
    ∷ pair device_key (b.get_property device_key)
    ∷ []

unfoldable pub connection_properties : LibBase → Build → List Bytes
unfolding property_pairs
connection_properties b build =
    property_pairs b build
    ++ (pair features_key (c_str (feature_set_to_string b (supported_features b))) ∷ [])

unfoldable pub get_connection_string : LibBase → Build → Bytes → Bytes
get_connection_string b build adb_device_banner =
    adb_device_banner ++ (b':' ∷ b':' ∷ c_str (b.join (connection_properties b build) b';'))

-- The packet of send_connect; `none` is the fatal error of a banner that is too long.
unfoldable pub connect_packet : Bytes → Connection → Option Packet
connect_packet text c =
    if ltb max_payload_v1 (length text)
    then none
    else some (record get_apacket {
      msg = record m {
        command = a_cnxn;
        arg0 = c.protocol_version;
        arg1 = c.max_payload;
        data_length = length text;
      };
      data_bytes = text;
    })
  where
    open get_apacket use {msg as m}

-- A property that parse_banner knows. qual_overwrite copies a C string.
unfoldable pub overwrite : LibBase → Bytes → Bytes → Connection → Connection
unfolding set_features c_str
overwrite b key value c =
    if bytes_eq key product_key
    then record c { transport = record t { product = some (c_str value) } }
    else if bytes_eq key model_key
    then record c { transport = record t { model = some (c_str value) } }
    else if bytes_eq key device_key
    then record c { transport = record t { device = some (c_str value) } }
    else if bytes_eq key features_key
    then set_features b value c
    else c
  where
    open c use {transport as t}

unfoldable pub take_pair : LibBase → List Bytes → Connection → Connection
take_pair b (key ∷ value ∷ []) c = overwrite b key value c
take_pair b _ c = c

unfoldable pub parse_prop : LibBase → Bytes → Connection → Connection
unfolding take_pair
parse_prop b [] c = c
parse_prop b (x ∷ prop) c = take_pair b (b.split (x ∷ prop) b'=') c

unfoldable pub parse_props : LibBase → List Bytes → Connection → Connection
unfolding parse_prop
parse_props b [] c = c
parse_props b (prop ∷ props) c = parse_props b props (parse_prop b prop c)

-- `pieces[2]`, where there is one.
unfoldable pub parse_pieces : LibBase → List Bytes → Connection → Connection
unfolding parse_props
parse_pieces b (type ∷ second ∷ props ∷ more) c = parse_props b (b.split props b';') c
parse_pieces b _ c = c

-- `pieces[0]`; Split gives at least one piece.
abbrev pub first_piece : List Bytes → Bytes
first_piece [] = []
first_piece (type ∷ more) = type

unfoldable pub state_of : Bytes → ConnectionState
state_of type =
    if bytes_eq type (codes "bootloader")
    then cs_bootloader
    else if bytes_eq type (codes "device")
    then cs_device
    else if bytes_eq type (codes "recovery")
    then cs_recovery
    else if bytes_eq type (codes "sideload")
    then cs_sideload
    else cs_host

abbrev pub set_connection_state : ConnectionState → Connection → Connection
set_connection_state state c = record c { transport = record t { connection_state = state } }
  where
    open c use {transport as t}

unfoldable pub parse_banner : LibBase → Bytes → Connection → Connection
unfolding parse_pieces state_of set_features
parse_banner b banner c =
    let pieces = b.split banner b':' in
    set_connection_state (state_of (first_piece pieces))
      (parse_pieces b pieces (set_features b [] c))

-- `std::min` of two `int`s, one of them `A_VERSION`: from 2 ^ 31 on the other one is negative.
unfoldable pub min_version : ℕ → ℕ
min_version version = if ltb version (2 ^ 31) then min version a_version else version

unfoldable pub update_version : ℕ → ℕ → Connection → Connection
unfolding min_version
update_version version payload c = record c {
  protocol_version = min_version version;
  max_payload = min payload max_payload;
}
