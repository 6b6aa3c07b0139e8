-- ===== src/Listeners/Install.antt =====
-- install_listener of adb_listeners.cpp. socket_spec_listen gives the descriptor and the port that
-- it resolved, 0 for none, or an error; it and the text of a port, which printf makes, are
-- parameters. `none` is a call through a null transport, or fdevent_remove of an object that was
-- never installed or set: ~alistener does that to a new listener that could not be bound, before
-- install_listener can return INSTALL_STATUS_CANNOT_BIND.
pub mod Map
use adb_src.Base.{
  ℕ, suc, Bool, true, false, Option, none, some, List, [], ◌∷◌, ◌++◌, ◌==◌, if◌then◌else◌, Bytes,
  bytes_eq,
}
use adb_src.Listeners.{
  Listener, Listeners, InstallStatus, install_ok, internal_error, cannot_rebind, is_special,
  remove_disconnect,
}

pub record Network : Type 0 where
  pub socket_spec_listen : Bytes → Option (ℕ × ℕ)
  pub tcp_name : ℕ → Bytes

-- What a caller asks for.
pub record Request : Type 0 where
  pub local_name : Bytes
  pub connect_to : Bytes
  pub transport : Option ℕ
  pub no_rebind : Bool

-- The status, and `*resolved_tcp_port`, 0 where it is not written.
pub record Installed : Type 0 where
  pub status : InstallStatus
  pub resolved_tcp_port : ℕ
  pub listeners : Listeners

abbrev pub is_same_owner : Option ℕ → Option ℕ → Bool
is_same_owner none none = true
is_same_owner none (some t) = false
is_same_owner (some u) none = false
is_same_owner (some u) (some t) = u == t

-- RemoveDisconnect on the old transport and AddDisconnect on the new one.
unfoldable pub move_disconnect : ℕ → Option ℕ → Option ℕ → List (ℕ × ℕ) → Option (List (ℕ × ℕ))
move_disconnect a none new d = none
move_disconnect a (some u) none d = none
move_disconnect a (some u) (some t) d = some (remove_disconnect u a d ++ ((t, a) ∷ []))

abbrev pub rebound : Request → Listener → Listener
rebound q l = record l { connect_to = q.connect_to; transport = q.transport }

-- The listener gets its new address; where the transport stays, so do the callbacks.
unfoldable pub rebind :
    Request → Listener → Listeners → List Listener → Bool → Option (List (ℕ × ℕ)) → Option Installed
rebind q l st list true moved = some (record {
  status = install_ok;
  resolved_tcp_port = 0;
  listeners = record st { listener_list = list };
})
rebind q l st list false none = none
rebind q l st list false (some d) = some (record {
  status = install_ok;
  resolved_tcp_port = 0;
  listeners = record st { listener_list = list; disconnects = d };
})

abbrev pub refuse : InstallStatus → Listeners → Option Installed
refuse status st = some (record { status = status; resolved_tcp_port = 0; listeners = st })

-- The name is in use by `l`; `list` is the list with it rebound.
unfoldable pub install_found : Request → Listener → Listeners → List Listener → Option Installed
unfolding rebind move_disconnect
install_found q l st list =
    if is_special l
    then refuse internal_error st
    else if q.no_rebind
    then refuse cannot_rebind st
    else rebind q l st list (is_same_owner l.transport q.transport)
        (move_disconnect l.address l.transport q.transport st.disconnects)

abbrev pub new_name : Network → Request → ℕ → Bytes
new_name net q resolved = if resolved == 0 then q.local_name else net.tcp_name resolved

abbrev pub new_listener : Network → Request → ℕ → ℕ → ℕ → Listener
new_listener net q a fd resolved = record {
  address = a;
  fd = fd;
  local_name = new_name net q resolved;
  connect_to = q.connect_to;
  transport = q.transport;
}

abbrev pub add_disconnect : Option ℕ → ℕ → List (ℕ × ℕ) → List (ℕ × ℕ)
add_disconnect none a d = d
add_disconnect (some t) a d = d ++ ((t, a) ∷ [])

unfoldable pub install_new : Network → Request → Listeners → Option (ℕ × ℕ) → Option Installed
install_new net q st none = none
install_new net q st (some (fd, resolved)) = some (record {
  status = install_ok;
  resolved_tcp_port = resolved;
  listeners = record st {
    listener_list = st.listener_list ++ (new_listener net q st.next_address fd resolved ∷ []);
    disconnects = add_disconnect q.transport st.next_address st.disconnects;
    next_address = suc st.next_address;
  };
})

-- The first listener with the name, and the list with it rebound.
abbrev pub past_listener :
    Listener → Option (Listener × List Listener) → Option (Listener × List Listener)
past_listener m none = none
past_listener m (some (l, list)) = some (l, m ∷ list)

unfoldable pub find_name : Request → List Listener → Option (Listener × List Listener)
find_name q [] = none
find_name q (l ∷ list) =
    if bytes_eq q.local_name l.local_name
    then some (l, rebound q l ∷ list)
    else past_listener l (find_name q list)

unfoldable pub install_by :
    Network → Request → Listeners → Option (Listener × List Listener) → Option Installed
unfolding install_found install_new
install_by net q st none = install_new net q st (net.socket_spec_listen q.local_name)
install_by net q st (some (l, list)) = install_found q l st list

unfoldable pub install_listener : Network → Request → Listeners → Option Installed
unfolding install_by find_name
install_listener net q st = install_by net q st (find_name q st.listener_list)
