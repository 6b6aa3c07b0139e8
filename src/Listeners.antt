-- ===== src/Listeners.antt =====
-- adb_listeners.cpp: the list of listeners. An `alistener` has the address of its object, which
-- the disconnect callback compares. `disconnects` are the callbacks that transports hold, each a
-- transport with the listener's address; `closed_fds` what ~alistener closes. `none` is a read
-- through a null pointer. socket_spec_listen is an operation of another component: the descriptor
-- and the port that it resolved, 0 for none, or an error. The mutex and the error texts are left
-- out.
pub mod Lookup
pub mod Install
pub mod Smart
pub mod Format
use adb_src.Base.{
  ℕ, ◌&&◌, Bool, false, Option, none, some, List, [], ◌∷◌, ◌++◌, ◌==◌, if◌then◌else◌, Bytes,
  bytes_eq,
}

pub record Listener : Type 0 where
  pub address : ℕ
  pub fd : ℕ
  pub local_name : Bytes
  pub connect_to : Bytes
  pub transport : Option ℕ

pub record Listeners : Type 0 where
  pub listener_list : List Listener
  pub disconnects : List (ℕ × ℕ)
  pub closed_fds : List ℕ
  pub next_address : ℕ

pub data InstallStatus : Type 0 where
  install_ok internal_error cannot_bind cannot_rebind listener_not_found : InstallStatus

-- `connect_to[0] == '*'`, which a smartsocket has.
abbrev pub begins_with_star : Bytes → Bool
begins_with_star [] = false
begins_with_star (c ∷ s) = c == b'*'

abbrev pub is_special : Listener → Bool
is_special l = begins_with_star l.connect_to

-- RemoveDisconnect.
unfoldable pub remove_disconnect : ℕ → ℕ → List (ℕ × ℕ) → List (ℕ × ℕ)
remove_disconnect t a [] = []
remove_disconnect t a ((u, b) ∷ l) =
    if (u == t) && (b == a) then remove_disconnect t a l else (u, b) ∷ remove_disconnect t a l

abbrev pub disconnects_without : Listener → List (ℕ × ℕ) → List (ℕ × ℕ)
disconnects_without l d = drop_from l.transport
  where
    drop_from : Option ℕ → List (ℕ × ℕ)
    drop_from none = d
    drop_from (some t) = remove_disconnect t l.address d

-- ~alistener.
abbrev pub destroyed : Listener → Listeners → Listeners
destroyed l st = record st {
  closed_fds = st.closed_fds ++ (l.fd ∷ []);
  disconnects = disconnects_without l st.disconnects;
}

-- The first listener of the list with the name, and the list without it.
abbrev pub behind : Listener → Option (Listener × List Listener) → Option (Listener × List Listener)
behind l none = none
behind l (some (m, rest)) = some (m, l ∷ rest)

unfoldable pub extract : Bytes → List Listener → Option (Listener × List Listener)
extract name [] = none
extract name (l ∷ list) =
    if bytes_eq name l.local_name then some (l, list) else behind l (extract name list)

unfoldable pub remove_found :
    Listeners → Option (Listener × List Listener) → InstallStatus × Listeners
remove_found st none = (listener_not_found, st)
remove_found st (some (l, rest)) = (install_ok, destroyed l (record st { listener_list = rest }))

unfoldable pub remove_listener : Bytes → Listeners → InstallStatus × Listeners
unfolding extract remove_found
remove_listener name st = remove_found st (extract name st.listener_list)

-- The loop over the list from its start, with the listeners that stay in front of it.
unfoldable pub remove_from : List Listener → List Listener → Listeners → Listeners
remove_from kept [] st = record st { listener_list = kept }
remove_from kept (l ∷ list) st =
    if is_special l
    then remove_from (kept ++ (l ∷ [])) list st
    else remove_from kept list (destroyed l st)

unfoldable pub remove_all_listeners : Listeners → Listeners
unfolding remove_from
remove_all_listeners st = remove_from [] st.listener_list st

-- listener_disconnect of the listener at `a`: its transport is forgotten before it is destroyed.
unfoldable pub extract_address : ℕ → List Listener → Option (Listener × List Listener)
extract_address a [] = none
extract_address a (l ∷ list) =
    if l.address == a then some (l, list) else behind l (extract_address a list)

unfoldable pub disconnect_found : Listeners → Option (Listener × List Listener) → Listeners
disconnect_found st none = st
disconnect_found st (some (l, rest)) =
    destroyed (record l { transport = none }) (record st { listener_list = rest })

unfoldable pub listener_disconnect : ℕ → Listeners → Listeners
unfolding extract_address disconnect_found
listener_disconnect a st = disconnect_found st (extract_address a st.listener_list)

-- atransport::RunDisconnects: every callback of the transport, and then none is left.
unfoldable pub callbacks_of : ℕ → List (ℕ × ℕ) → List ℕ
callbacks_of t [] = []
callbacks_of t ((u, a) ∷ l) = if u == t then a ∷ callbacks_of t l else callbacks_of t l

unfoldable pub clear_disconnects : ℕ → List (ℕ × ℕ) → List (ℕ × ℕ)
clear_disconnects t [] = []
clear_disconnects t ((u, a) ∷ l) =
    if u == t then clear_disconnects t l else (u, a) ∷ clear_disconnects t l

unfoldable pub run_callbacks : List ℕ → Listeners → Listeners
unfolding listener_disconnect
run_callbacks [] st = st
run_callbacks (a ∷ l) st = run_callbacks l (listener_disconnect a st)

unfoldable pub run_disconnects : ℕ → Listeners → Listeners
unfolding callbacks_of run_callbacks clear_disconnects
run_disconnects t st =
    let done = run_callbacks (callbacks_of t st.disconnects) st in
    record done { disconnects = clear_disconnects t done.disconnects }
