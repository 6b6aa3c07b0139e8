-- ===== src/Session/Connect.antt =====
-- A connection that begins, in handle_new_connection of adb.cpp on a host: the A_CNXN packet of the
-- other side, and what its transport had before.
use adb_src.Base.{ℕ, ◌<◌, ◌^◌, min, true, false, some, ◌≡◌, ◌≢◌, refl, ==_refl, Bytes}
use adb_src.Packet.{Packet, a_version, max_payload}
use adb_src.LibBase.{IsLibBase, lacks}
use adb_src.Connection.{Build, Connection, get_connection_string, connect_packet}
use adb_src.Connection.Banner.{IsDescribed, SendsPlain}
use adb_src.Listeners.{run_disconnects}
use adb_src.Socket.Store.{Os}
use adb_src.Socket.Close.All.{NoneUses}
use adb_src.Session.{Session, Env, greeted, connected, is_state_offline}

module _ {O : Os} (env : Env O) (build : Build) (banner : Bytes) (sender : Connection) where
  -- The version and the limit of a packet that both sides know.
  abbrev agreed : Connection → Connection
  agreed c = record c {
    protocol_version = min sender.protocol_version a_version;
    max_payload = min sender.max_payload max_payload;
  }

  -- The connection of a transport that had `c`.
  abbrev pub Greeted : Connection → Connection → Type 0
  Greeted c c' = IsDescribed env.base build banner (record (agreed c) { online = true }) c'

  -- What a connect packet leaves: the transport is online and has what the packet says, within the
  -- payload limit; the other transports are as they were; and unless it was offline before, the
  -- sockets that used it are gone from the list and its callbacks have run.
  pub record IsConnected (t : ℕ) (se se' : Session O) : Type 0 where
    pub greeted_lem : Greeted (se.connections t) (se'.connections t)
    pub limit : se'.store.max_payload_of t ≡ min sender.max_payload max_payload
    pub others : (u : ℕ) → u ≢ t → se'.connections u ≡ se.connections u
    pub closed :
        is_state_offline (se.connections t).transport.connection_state ≡ false
        → NoneUses se'.store t se'.store.local_socket_list
          × (se'.listeners ≡ run_disconnects t se.listeners)

module _ {O : Os} (env : Env O) (v : IsLibBase env.base) (build : Build) (banner : Bytes)
    (sender : Connection) (plain : lacks b':' banner ≡ true) (sends : SendsPlain env.base build)
    (known : sender.protocol_version < 2 ^ 31) (q : Packet)
    (e : connect_packet (get_connection_string env.base build banner) sender ≡ some q) where
  connected-here :
      (t : ℕ) (se : Session O)
      → (connected env q t se).connections t ≡ greeted env q (se.connections t)
  connected-here t se = rw (==_refl t) refl
