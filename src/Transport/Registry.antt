-- ===== src/Transport/Registry.antt =====
-- The lists of transports on a host: transport.cpp, with the table of emulators of
-- transport_local.cpp. An `atransport` is a cell of a heap, addressed by a number; `none` for a
-- result is a read through a pointer to a freed transport. The table has ADB_LOCAL_TRANSPORT_MAX
-- slots. For a null serial register_socket_transport prints one into a buffer whose life ends with
-- its `if` block, so every use of it behind the block is a fault too. The locks are left out: the
-- searches and the write of the pending list stand under one lock.
pub mod Serials
pub mod Register
pub mod Dangling
use adb_src.Base.{
  ℕ, suc, Bool, true, false, ◌&&◌, Option, none, some, List, [], ◌∷◌, ◌++◌, ◌==◌, if◌then◌else◌,
  Bytes, bytes_eq,
}
use adb_src.Transport.{
  Transport, transport_local, ConnectionState, cs_offline, transport_any, is_local,
}

-- `local_port` is `local_port_for_emulator_`, `none` for -1.
pub record Entry : Type 0 where
  pub transport : Transport
  pub local_port : Option ℕ
  pub usb : Option ℕ
  pub sfd : Option ℕ
  pub kicked : Bool

-- `registered` are the calls of register_transport, `closed_fds` the descriptors that a kick shut.
pub record Registry : Type 0 where
  pub heap : ℕ → Option Entry
  pub next_address : ℕ
  pub transport_list : List ℕ
  pub pending_list : List ℕ
  pub local_transports : List (Option ℕ)
  pub registered : List ℕ
  pub closed_fds : List ℕ

abbrev pub set_cell : ℕ → Option Entry → (ℕ → Option Entry) → ℕ → Option Entry
set_cell a e h = λ b. if b == a then e else h b

abbrev pub blank_transport : ConnectionState → Transport
blank_transport state = record {
  connection_state = state;
  type = transport_any;
  serial = none;
  product = none;
  model = none;
  device = none;
  devpath = none;
}

abbrev pub blank : ConnectionState → Entry
blank state = record {
  transport = blank_transport state;
  local_port = none;
  usb = none;
  sfd = none;
  kicked = false;
}

-- `type == kTransportLocal && local_port_for_emulator_ == -1`.
abbrev pub is_tcp_device : Entry → Bool
is_tcp_device e = is_local e.transport.type && is_unset e.local_port
  where
    is_unset : Option ℕ → Bool
    is_unset none = true
    is_unset (some port) = false

-- The port that GetLocalPortForEmulator gives.
abbrev pub get_local_port_for_emulator : Entry → Option ℕ
get_local_port_for_emulator e = if is_local e.transport.type then e.local_port else none

abbrev pub is_port : Option ℕ → ℕ → Bool
is_port none adb_port = false
is_port (some port) adb_port = port == adb_port

-- One slot of the table, where `rest` is the search behind it.
unfoldable pub check_slot : ℕ → ℕ → Option Entry → Option (Option ℕ) → Option (Option ℕ)
check_slot adb_port a none rest = none
check_slot adb_port a (some e) rest =
    if is_port (get_local_port_for_emulator e) adb_port then some (some a) else rest

unfoldable pub find_emulator_transport_by_adb_port_locked :
    ℕ → (ℕ → Option Entry) → List (Option ℕ) → Option (Option ℕ)
unfolding check_slot
find_emulator_transport_by_adb_port_locked adb_port heap [] = some none
find_emulator_transport_by_adb_port_locked adb_port heap (none ∷ slots) =
    find_emulator_transport_by_adb_port_locked adb_port heap slots
find_emulator_transport_by_adb_port_locked adb_port heap (some a ∷ slots) =
    check_slot adb_port a (heap a) (find_emulator_transport_by_adb_port_locked adb_port heap slots)

-- The table with the transport in its first free slot, or `none` where there is none, as
-- get_available_local_transport_index_locked says by -1.
abbrev pub behind_slot : Option ℕ → Option (List (Option ℕ)) → Option (List (Option ℕ))
behind_slot slot none = none
behind_slot slot (some slots) = some (slot ∷ slots)

unfoldable pub use_first_slot : ℕ → List (Option ℕ) → Option (List (Option ℕ))
use_first_slot a [] = none
use_first_slot a (none ∷ slots) = some (some a ∷ slots)
use_first_slot a (some b ∷ slots) = behind_slot (some b) (use_first_slot a slots)

-- What init_socket_transport returns, 0 or -1.
pub data Outcome : Type 0 where
  success : Registry → Outcome
  failure : Registry → Outcome
  fault : Outcome

-- The table of an emulator, by the search for its port and the first free slot.
unfoldable pub take_slot : Registry → Option (Option ℕ) → Option (List (Option ℕ)) → Outcome
take_slot st none slots = fault
take_slot st (some (some existing)) slots = failure st
take_slot st (some none) none = failure st
take_slot st (some none) (some slots) = success (record st { local_transports = slots })

abbrev pub socket_entry : ℕ → Option ℕ → Entry → Entry
socket_entry s port e = record e {
  sfd = some s;
  local_port = port;
  transport = record t { type = transport_local };
}
  where
    open e use {transport as t}

-- init_socket_transport for the new transport at `a`: `local` gives it its emulator port.
unfoldable pub init_socket_transport : ℕ → ℕ → ℕ → Bool → Registry → Outcome
unfolding find_emulator_transport_by_adb_port_locked use_first_slot take_slot
init_socket_transport a s adb_port false st =
    success
      (record st { heap = set_cell a (some (socket_entry s none (blank cs_offline))) st.heap })
init_socket_transport a s adb_port true st =
    let h = set_cell a (some (socket_entry s (some adb_port) (blank cs_offline))) st.heap in
    take_slot (record st { heap = h })
      (find_emulator_transport_by_adb_port_locked adb_port h st.local_transports)
      (use_first_slot a st.local_transports)

abbrev pub has_serial : Bytes → Option Bytes → Bool
has_serial serial none = false
has_serial serial (some s) = bytes_eq serial s

-- The search of a list for a serial: the first transport that has it.
unfoldable pub check_serial : Bytes → ℕ → Option Entry → Option (Option ℕ) → Option (Option ℕ)
check_serial serial a none rest = none
check_serial serial a (some e) rest =
    if has_serial serial e.transport.serial then some (some a) else rest

unfoldable pub find_serial : Bytes → (ℕ → Option Entry) → List ℕ → Option (Option ℕ)
unfolding check_serial
find_serial serial heap [] = some none
find_serial serial heap (a ∷ l) = check_serial serial a (heap a) (find_serial serial heap l)

unfoldable pub find_transport : Bytes → Registry → Option (Option ℕ)
unfolding find_serial
find_transport serial st = find_serial serial st.heap st.transport_list

-- `delete t`.
abbrev pub delete : ℕ → Registry → Registry
delete a st = record st { heap = set_cell a none st.heap }

abbrev pub named : Bytes → Option Entry → Option Entry
named serial none = none
named serial (some e) = some (record e { transport = record t { serial = some serial } })
  where
    open e use {transport as t}

abbrev pub put_pending : ℕ → Bytes → Registry → Registry
put_pending a serial st = record st {
  pending_list = a ∷ st.pending_list;
  heap = set_cell a (named serial (st.heap a)) st.heap;
  registered = st.registered ++ (a ∷ []);
}

-- By the searches of the two lists, the pending one first.
unfoldable pub register_unless :
    ℕ → Bytes → Registry → Option (Option ℕ) → Option (Option ℕ) → Outcome
register_unless a serial st none listed = fault
register_unless a serial st (some (some other)) listed = failure (delete a st)
register_unless a serial st (some none) none = fault
register_unless a serial st (some none) (some (some other)) = failure (delete a st)
register_unless a serial st (some none) (some none) = success (put_pending a serial st)

-- A null serial is read from its ended buffer by the first search that compares it, or by strdup.
unfoldable pub register_initialized : ℕ → Option Bytes → Outcome → Outcome
unfolding register_unless find_serial
register_initialized a serial fault = fault
register_initialized a serial (failure st) = failure (delete a st)
register_initialized a none (success st) = fault
register_initialized a (some serial) (success st) =
    register_unless a serial st (find_serial serial st.heap st.pending_list)
      (find_serial serial st.heap st.transport_list)

unfoldable pub register_socket_transport : ℕ → Option Bytes → ℕ → Bool → Registry → Outcome
unfolding register_initialized init_socket_transport
register_socket_transport s serial port local st =
    let a = st.next_address in
    register_initialized a serial
      (init_socket_transport a s port local (record st { next_address = suc a }))
