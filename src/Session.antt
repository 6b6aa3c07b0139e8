-- ===== src/Session.antt =====
-- handle_packet of adb.cpp on a host, in full: the sockets, the connections of the transports, and
-- the listeners that a transport takes down. update_transports touches none of these while no
-- client tracks the devices, and is left out; so is the log output.
pub mod Keep
pub mod Connect
use adb_src.Base.{
  ℕ, suc, ◌-◌, Bool, true, false, not, ◌&&◌, Option, none, some, ◌==◌, if◌then◌else◌, Bytes, length,
  take,
}
use adb_src.Packet.{Packet, get_apacket, a_sync, a_cnxn, a_auth, a_open, a_okay, a_clse, a_wrte}
use adb_src.LibBase.{LibBase}
use adb_src.Transport.{ConnectionState, cs_offline, cs_unauthorized}
use adb_src.Connection.{
  Connection, host_build, c_str, get_connection_string, connect_packet, set_connection_state,
  parse_banner, update_version,
}
use adb_src.Auth.{Rsa, adb_auth_token, send_auth_response}
use adb_src.Listeners.{Listeners, run_disconnects}
use adb_src.Socket.Store.{
  ◌>>=◌, ◌>>◌, Os, State, M, Result, ok, fatal, exited, fault, out_of_fuel, return, load, store,
}
use adb_src.Socket.Registry.{find_local_socket, create_local_socket}
use adb_src.Socket.Remote.{create_remote_socket, send_packet, send_ready, send_close}
use adb_src.Socket.Close.{close_all_sockets}
use adb_src.Socket.Queue.{ready}
use adb_src.Socket.Reading.{enqueue}
use adb_src.Socket.Dispatch.{handle_okay, handle_close}

pub record Session (O : Os) : Type 0 where
  pub store : State O
  pub connections : ℕ → Connection
  pub listeners : Listeners

-- What the server is given: the libraries, its banner, service_to_fd of services.cpp, whose
-- `none` is a negative descriptor, and smart_socket_enqueue of sockets.cpp.
pub record Env (O : Os) : Type 0 where
  pub send_fuel : ℕ
  pub base : LibBase
  pub rsa : Rsa
  pub adb_device_banner : Bytes
  pub service_to_fd : Bytes → O.World → Option ℕ × O.World
  pub smart_socket_enqueue : ℕ → Packet → M O (Option ℕ)

abbrev pub is_state_offline : ConnectionState → Bool
is_state_offline cs_offline = true
is_state_offline _ = false

abbrev pub unauthorized : Connection → Connection
unauthorized c =
    if is_state_offline c.transport.connection_state
    then set_connection_state cs_unauthorized c
    else c

-- The name of an A_OPEN: its last byte becomes the NUL, and a C string ends at the first one.
unfoldable pub service_name : Packet → Bytes
unfolding c_str
service_name p = c_str (take (p.msg.data_length - 1) p.data_bytes)

module _ {O : Os} where
  abbrev pub put_store : Session O → Result (Unit {0} × State O) → Result (Unit {0} × Session O)
  put_store se (ok (a, st)) = ok (a, record se { store = st })
  put_store se fatal = fatal
  put_store se exited = exited
  put_store se fault = fault
  put_store se out_of_fuel = out_of_fuel

  abbrev pub in_store : M O (Unit {0}) → Session O → Result (Unit {0} × Session O)
  in_store m se = put_store se (m se.store)

  abbrev pub then_session :
      Result (Unit {0} × Session O)
      → (Session O → Result (Unit {0} × Session O))
      → Result (Unit {0} × Session O)
  then_session (ok (a, se)) f = f se
  then_session fatal f = fatal
  then_session exited f = exited
  then_session fault f = fault
  then_session out_of_fuel f = out_of_fuel

  -- The payload limit of a transport is what get_max_payload of a socket reads.
  abbrev pub put_connection : ℕ → Connection → Session O → Session O
  put_connection t c se = record se {
    connections = λ u. if u == t then c else se.connections u;
    store = record s { max_payload_of = λ u. if u == t then c.max_payload else s.max_payload_of u };
  }
    where
      open se use {store as s}

  abbrev pub disconnected : ℕ → Session O → Session O
  disconnected t se = record se { listeners = run_disconnects t se.listeners }

  unfoldable pub handle_offline : Env O → ℕ → Session O → Result (Unit {0} × Session O)
  handle_offline env t se =
      let off = put_connection t (record (se.connections t) { online = false }) se in
      then_session
        (in_store (close_all_sockets env.send_fuel (suc (length off.store.local_socket_list)) t)
          off)
        (λ se'. ok (tt, disconnected t se'))

  abbrev pub go_offline : Env O → ℕ → Session O → Result (Unit {0} × Session O)
  go_offline env t se =
      handle_offline env t
        (put_connection t (set_connection_state cs_offline (se.connections t)) se)

  abbrev pub send_option : ℕ → Option Packet → M O (Unit {0})
  send_option t none st = ok (tt, st)
  send_option t (some p) st = send_packet p (some t) st

  -- A banner that is too long is fatal.
  abbrev pub send_or_fatal : ℕ → Option Packet → M O (Unit {0})
  send_or_fatal t none st = fatal
  send_or_fatal t (some p) st = send_packet p (some t) st

  unfoldable pub send_connect : Env O → ℕ → Session O → Result (Unit {0} × Session O)
  send_connect env t se =
      in_store
        (send_or_fatal t (
          connect_packet (get_connection_string env.base host_build env.adb_device_banner)
            (se.connections t)))
        se

  -- SendConnectOnHost: an empty packet goes first.
  unfoldable pub send_connect_on_host : Env O → ℕ → Session O → Result (Unit {0} × Session O)
  unfolding send_connect
  send_connect_on_host env t se =
      then_session (in_store (send_packet get_apacket (some t)) se) (send_connect env t)

  unfoldable pub handle_sync : Env O → Packet → ℕ → Session O → Result (Unit {0} × Session O)
  unfolding handle_offline send_connect_on_host
  handle_sync env p t se =
      if p.msg.arg0 == 0
      then then_session (go_offline env t se) (in_store (send_packet p (some t)))
      else then_session (in_store (send_packet p (some t)) se) (send_connect_on_host env t)

  -- The rest of handle_new_connection, from update_version on.
  unfoldable pub greeted : Env O → Packet → Connection → Connection
  greeted env p c =
      let versioned = update_version p.msg.arg0 p.msg.arg1 c in
      let described = parse_banner env.base (take p.msg.data_length p.data_bytes) versioned in
      record described { online = true }

  abbrev pub connected : Env O → Packet → ℕ → Session O → Session O
  connected env p t se = put_connection t (greeted env p (se.connections t)) se

  unfoldable pub handle_new_connection :
      Env O → Packet → ℕ → Session O → Result (Unit {0} × Session O)
  unfolding handle_offline
  handle_new_connection env p t se =
      if is_state_offline (se.connections t).transport.connection_state
      then ok (tt, connected env p t se)
      else then_session (go_offline env t se) (λ se'. ok (tt, connected env p t se'))

  unfoldable pub handle_auth : Env O → Packet → ℕ → Session O → Result (Unit {0} × Session O)
  unfolding handle_offline
  handle_auth env p t se =
      if p.msg.arg0 == adb_auth_token
      then (let c = unauthorized (se.connections t) in
          let answer = send_auth_response env.rsa (take p.msg.data_length p.data_bytes) c.keys in
          in_store (send_option t answer.0) (put_connection t (record c { keys = answer.1 }) se))
      else go_offline env t se

  abbrev pub bind_service : Option ℕ → M O (Option ℕ)
  bind_service none = return none
  bind_service (some fd) = do p ← create_local_socket fd; return (some p)

  unfoldable pub create_local_service_socket : Env O → Bytes → M O (Option ℕ)
  create_local_service_socket env name st =
      bind_service (env.service_to_fd name st.world).0
        (record st { world = (env.service_to_fd name st.world).1 })

  abbrev pub open_with : ℕ → Packet → ℕ → Option ℕ → M O (Unit {0})
  open_with send_fuel packet t none = send_close 0 packet.msg.arg0 (some t)
  open_with send_fuel packet t (some p) = do
    q ← create_remote_socket packet.msg.arg0 t
    s ← load p
    store p (record s { peer = some q })
    r ← load q
    store q (record r { peer = some p })
    send_ready s.id r.id (some t)
    ready send_fuel p

  unfoldable pub handle_open : Env O → Bool → Packet → ℕ → M O (Unit {0})
  unfolding create_local_service_socket service_name
  handle_open env online packet t =
      if online && not (packet.msg.arg0 == 0) && (packet.msg.arg1 == 0)
      then (do
        opened ← create_local_service_socket env (service_name packet)
        open_with env.send_fuel packet t opened)
      else return tt

  -- The data were taken whole when `enqueue` returns 0; else the sender waits.
  abbrev pub acknowledge : ℕ → ℕ → ℕ → Option ℕ → M O (Unit {0})
  acknowledge t p rid none = return tt
  acknowledge t p rid (some r) =
      if r == 0 then (do s ← load p; send_ready s.id rid (some t)) else return tt

  unfoldable pub write_found : Env O → Packet → ℕ → Option ℕ → M O (Unit {0})
  unfolding enqueue
  write_found env packet t none = return tt
  write_found env packet t (some p) = do
    r ←
        enqueue env.send_fuel env.smart_socket_enqueue p
          (record packet { len = packet.msg.data_length })
    acknowledge t p packet.msg.arg0 r

  unfoldable pub handle_write : Env O → Bool → Packet → ℕ → M O (Unit {0})
  unfolding write_found
  handle_write env online packet t =
      if online && not (packet.msg.arg0 == 0) && not (packet.msg.arg1 == 0)
      then (do
        found ← find_local_socket packet.msg.arg1 packet.msg.arg0
        write_found env packet t found)
      else return tt

  -- An unknown command is reported and dropped.
  unfoldable pub handle_packet : Env O → Packet → ℕ → Session O → Result (Unit {0} × Session O)
  unfolding handle_sync handle_new_connection handle_auth
  handle_packet env p t se =
      let online = (se.connections t).online in
      if p.msg.command == a_sync
      then handle_sync env p t se
      else if p.msg.command == a_cnxn
      then handle_new_connection env p t se
      else if p.msg.command == a_auth
      then handle_auth env p t se
      else if p.msg.command == a_open
      then in_store (handle_open env online p t) se
      else if p.msg.command == a_okay
      then in_store (handle_okay env.send_fuel online p t) se
      else if p.msg.command == a_clse
      then in_store (handle_close env.send_fuel online p t) se
      else if p.msg.command == a_wrte
      then in_store (handle_write env online p t) se
      else ok (tt, se)
