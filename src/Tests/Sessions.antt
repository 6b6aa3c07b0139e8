-- ===== src/Tests/Sessions.antt =====
-- Runs of a host session: the banner of a device, its A_CNXN packet, a packet of a stream, and the
-- keys. The helpers of libbase are written out here, and a set is a list in its order.
use adb_src.Base.{
  ℕ, true, false, none, some, List, [], ◌∷◌, ◌++◌, ◌==◌, if◌then◌else◌, ◌≡◌, refl, arith, Bytes,
  codes, length, map, ==_refl,
}
use adb_src.Packet.{Packet, get_apacket, a_sync, a_cnxn}
use adb_src.LibBase.{LibBase, IsLibBase, lacks}
use adb_src.Transport.{cs_offline, cs_device, transport_usb}
use adb_src.Connection.{device_build, Connection, get_connection_string, parse_banner}
use adb_src.Connection.Banner.{IsDescribed, parse_banner-IsDescribed}
use adb_src.Auth.{Rsa}
use adb_src.Auth.Order.{answers, auth_message, send_auth_response-round}
use adb_src.Socket.Store.{ok}
use adb_src.Session.{Session, Env}
use adb_src.Tests.Stream.{slow_os}
use adb_src.Tests.Sockets.{store}

abbrev prepend : ℕ → List Bytes → List Bytes
prepend c [] = (c ∷ []) ∷ []
prepend c (s ∷ l) = (c ∷ s) ∷ l

unfoldable split : Bytes → ℕ → List Bytes
split [] d = [] ∷ []
split (c ∷ s) d = let rest = split s d in if c == d then [] ∷ rest else prepend c rest

unfoldable join : List Bytes → ℕ → Bytes
join [] d = []
join (s ∷ []) d = s
join (s ∷ t ∷ l) d = s ++ (d ∷ join (t ∷ l) d)

abbrev base : LibBase
base = record {
  split = split;
  join = join;
  set_of = λ l. l;
  get_property = λ key. codes "hammerhead";
}

split-one : (d : ℕ) (s : Bytes) → lacks d s ≡ true → split s d ≡ s ∷ []
unfolding split lacks
split-one d [] h = refl
split-one d (c ∷ s) h =
    let x : (c == d) ≡ false = ground arith in rw (x, split-one d s (ground arith)) refl

split-more :
    (d : ℕ) (s rest : Bytes) → lacks d s ≡ true → split (s ++ (d ∷ rest)) d ≡ s ∷ split rest d
unfolding split lacks
split-more d [] rest h = rw (==_refl d) refl
split-more d (c ∷ s) rest h =
    let x : (c == d) ≡ false = ground arith in rw (x, split-more d s rest (ground arith)) refl

base-IsLibBase : IsLibBase base
unfolding join
base-IsLibBase = record {
  split_one = split-one;
  split_more = split-more;
  join_none = λ d. refl;
  join_one = λ d s. refl;
  join_more = λ d s t l. refl;
  set_members = λ f l. refl;
}

abbrev fresh : Connection
fresh = record {
  transport = record {
    connection_state = cs_offline;
    type = transport_usb;
    serial = some (codes "HT99");
    product = none;
    model = none;
    device = none;
    devpath = none;
  };
  online = false;
  features = codes "old" ∷ [];
  protocol_version = 0;
  max_payload = 4096;
  keys = [];
}

parse_banner-IsDescribed_example :
    IsDescribed base device_build
      (codes "device")
      fresh
      (parse_banner base (get_connection_string base device_build (codes "device")) fresh)
unfolding lacks
parse_banner-IsDescribed_example =
    parse_banner-IsDescribed base base-IsLibBase device_build (codes "device") fresh refl
      ((refl, refl, refl, refl), (refl, refl, refl, refl), (refl, refl, refl, refl))

abbrev two_keys : Rsa
two_keys = record {
  keys = 1 ∷ 2 ∷ [];
  rsa_sign = λ key token. some (key ∷ token);
  userkey = codes "QAAA";
}

-- A token of 20 bytes.
abbrev token : Bytes
token = codes "0123456789abcdefghij"

send_auth_response-round_example :
    answers two_keys ((token ∷ token ∷ []) ++ (codes "t3" ∷ [])) [] ≡ (
      map (auth_message 2) ((1 ∷ token) ∷ (2 ∷ token) ∷ [])
          ++ (auth_message 3 (codes "QAAA" ++ (0 ∷ [])) ∷ []),
      [],
    )
send_auth_response-round_example =
    send_auth_response-round two_keys (token ∷ token ∷ []) (codes "t3")
      ((1 ∷ token) ∷ (2 ∷ token) ∷ []) (λ e. cc) (omega arith)
      (refl, refl, (λ e. cc), (refl, refl, (λ e. cc), tt))

abbrev env : Env slow_os
env = record {
  send_fuel = 16;
  base = base;
  rsa = two_keys;
  adb_device_banner = codes "host";
  service_to_fd = λ name w. (some 9, w);
  smart_socket_enqueue = λ p packet st. ok (some 0, st);
}

abbrev session : Session slow_os
session = record {
  store = store;
  connections =
      λ t. record fresh { online = true; transport = record t0 { connection_state = cs_device } };
  listeners = record { listener_list = []; disconnects = []; closed_fds = []; next_address = 0 };
}
  where
    open fresh use {transport as t0}

abbrev offline_packet : Packet
offline_packet = record get_apacket { msg = record m { command = a_sync } }
  where
    open get_apacket use {msg as m}

abbrev device_text : Bytes
device_text = get_connection_string base device_build (codes "device")

abbrev device_packet : Packet
device_packet = record get_apacket {
  msg = record m { command = a_cnxn; arg0 = 0; arg1 = 4096; data_length = length device_text };
  data_bytes = device_text;
}
  where
    open get_apacket use {msg as m}
