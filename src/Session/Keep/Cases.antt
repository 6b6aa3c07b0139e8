-- ===== src/Session/Keep/Cases.antt =====
-- Every packet keeps the store of sockets well-formed.
use adb_src.Base.{◌≤◌, length}
use adb_src.Packet.{Packet, max_payload_v1}
use adb_src.Connection.{Connection, host_build, get_connection_string}
use adb_src.Socket.Store.{Os}
use adb_src.Session.{Session, Env}

-- The server's banner fits the packet of send_connect.
abbrev pub BannerFits : {O : Os} → Env O → Type 0
BannerFits env =
    length (get_connection_string env.base host_build env.adb_device_banner) ≤ max_payload_v1
