-- ===== src/Tests/Registering.antt =====
-- Runs of register_socket_transport, with one emulator in the list and in a table of two slots.
use adb_src.Base.{ℕ, zero, suc, ◌≤◌, true, Option, none, some, [], ◌∷◌, ◌≡◌, refl, codes, bytes_eq}
use adb_src.Transport.{cs_device}
use adb_src.Transport.Registry.{
  Entry, Registry, failure, blank, blank_transport, set_cell, socket_entry,
  register_socket_transport, find_emulator_transport_by_adb_port_locked, use_first_slot,
  init_socket_transport, take_slot, check_slot, register_initialized, register_unless, find_serial,
  check_serial,
}
use adb_src.Transport.Registry.Register.{IsTracked}
use adb_src.Transport.Registry.Dangling.{register_socket_transport-dangles}
use adb_src.Transport.{transport_local}

abbrev emulator : Entry
emulator = record (blank cs_device) {
  local_port = some 5555;
  transport = record (blank_transport cs_device) {
    type = transport_local;
    serial = some (codes "emulator-5554");
  };
}

abbrev cells : ℕ → Option Entry
cells zero = some emulator
cells (suc n) = none

abbrev one_emulator : Registry
one_emulator = record {
  heap = cells;
  next_address = 1;
  transport_list = 0 ∷ [];
  pending_list = [];
  local_transports = some 0 ∷ none ∷ [];
  registered = [];
  closed_fds = [];
}

one_emulator-IsTracked : IsTracked one_emulator
one_emulator-IsTracked = record {
  listed = ((emulator, refl), tt);
  pending = tt;
  slots = ((emulator, refl), tt);
  unused = unused;
}
  where
    unused : (a : ℕ) → 1 ≤ a → cells a ≡ none
    unused zero h = elim h [ ]
    unused (suc a) h = refl

-- Another emulator, on the port 5557, with the serial of the first one.
abbrev refused : Registry
refused = record one_emulator {
  next_address = 2;
  heap =
      set_cell 1 none
        (set_cell 1 (some (socket_entry 9 (some 5557) (blank adb_src.Transport.cs_offline))) cells);
  local_transports = some 0 ∷ some 1 ∷ [];
}

refused_run :
    register_socket_transport 9 (some (codes "emulator-5554")) 5557 true one_emulator
    ≡ failure refused
unfolding register_socket_transport init_socket_transport take_slot
    find_emulator_transport_by_adb_port_locked check_slot use_first_slot register_initialized
    register_unless find_serial check_serial bytes_eq
refused_run = refl

free_port : find_emulator_transport_by_adb_port_locked 5557 cells (some 0 ∷ none ∷ []) ≡ some none
unfolding find_emulator_transport_by_adb_port_locked check_slot
free_port = refl

free_slot : use_first_slot 1 (some 0 ∷ none ∷ []) ≡ some (some 0 ∷ some 1 ∷ [])
unfolding use_first_slot
free_slot = refl

register_socket_transport-dangles_example :
    find_emulator_transport_by_adb_port_locked 5557 refused.heap refused.local_transports ≡ none
register_socket_transport-dangles_example =
    register_socket_transport-dangles 9 (codes "emulator-5554") 5557 one_emulator refused
      (some 0 ∷ some 1 ∷ []) one_emulator-IsTracked free_port free_slot refused_run
