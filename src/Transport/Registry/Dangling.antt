-- ===== src/Transport/Registry/Dangling.antt =====
-- A registration that fails after the table of emulators took the transport.
use mathlib.Core.Option.{some-injective}
use adb_src.Base.{
  ℕ, suc, true, Option, none, some, List, [], ◌∷◌, ◌≡◌, ◌≢◌, inl, inr, refl, sym, ap, subst, ◌∙◌,
  arith, Bool-cases, Option-cases, ==_refl, Bytes,
}
use adb_src.Transport.{cs_offline}
use adb_src.Transport.Registry.{
  Entry, Registry, set_cell, blank, is_port, get_local_port_for_emulator, check_slot,
  find_emulator_transport_by_adb_port_locked, use_first_slot, Outcome, success, failure, fault,
  take_slot, socket_entry, init_socket_transport, find_serial, delete, register_unless,
  register_initialized, register_socket_transport,
}
use adb_src.Transport.Registry.Serials.{SameBut, set_cell-SameBut}
use adb_src.Transport.Registry.Register.{AreSlotsLive, AreSlotsLive-same, IsTracked}

-- Behind live transports that do not have the port, the search comes to the freed one.
find_emulator-dangling :
    (port a : ℕ) (h h' : ℕ → Option Entry) (slots slots' : List (Option ℕ))
    → SameBut a h h'
    → h' a ≡ none
    → AreSlotsLive h' slots
    → find_emulator_transport_by_adb_port_locked port h slots ≡ some none
    → use_first_slot a slots ≡ some slots'
    → find_emulator_transport_by_adb_port_locked port h' slots' ≡ none
unfolding find_emulator_transport_by_adb_port_locked check_slot use_first_slot
find_emulator-dangling port a h h' [] slots' same free live unused taken = cc
find_emulator-dangling port a h h' (none ∷ slots) slots' same free live unused taken =
    subst (λ z. find_emulator_transport_by_adb_port_locked port h' z ≡ none)
      (some-injective _ _ taken) (rw free refl)
find_emulator-dangling port a h h' (some b ∷ slots) slots' same free ((e, at), live) unused taken =
    let differ : b ≢ a = λ is. let x : none ≡ some e = sym free ∙ ap h' (sym is) ∙ at in cc in
    let before : h b ≡ some e = sym (same b differ) ∙ at in
    elim (Bool-cases (is_port (get_local_port_for_emulator e) port)) [
      | inl has ↦ let x = rw (before, has) at unused in cc
      | inr lacks ↦ elim (Option-cases (use_first_slot a slots)) [
        | inl full ↦ let x = rw full at taken in cc
        | inr (rest, more) ↦
            let is : some b ∷ rest ≡ slots' = some-injective _ _ (rw more at taken) in
            subst (λ z. find_emulator_transport_by_adb_port_locked port h' z ≡ none) is
              (rw (at, lacks)
                (find_emulator-dangling port a h h' slots rest same free live
                  (rw (before, lacks) at unused) more))
      ]
    ]

-- A search over live transports reads none but these.
find_emulator-same :
    (port a : ℕ) (h h' : ℕ → Option Entry) (slots : List (Option ℕ))
    → SameBut a h h'
    → h a ≡ none
    → AreSlotsLive h slots
    → find_emulator_transport_by_adb_port_locked port h' slots
      ≡ find_emulator_transport_by_adb_port_locked port h slots
unfolding find_emulator_transport_by_adb_port_locked
find_emulator-same port a h h' [] same free live = refl
find_emulator-same port a h h' (none ∷ slots) same free live =
    find_emulator-same port a h h' slots same free live
find_emulator-same port a h h' (some b ∷ slots) same free ((e, at), live) =
    let differ : b ≢ a = λ is. let x : none ≡ some e = sym free ∙ ap h (sym is) ∙ at in cc in
    rw (same b differ, find_emulator-same port a h h' slots same free live) refl

abbrev registry_of : Registry → Outcome → Registry
registry_of st (success st') = st
registry_of st (failure st') = st'
registry_of st fault = st

register_unless-failure :
    (a : ℕ) (serial : Bytes) (st st' : Registry) (pending listed : Option (Option ℕ))
    → register_unless a serial st pending listed ≡ failure st'
    → delete a st ≡ st'
unfolding register_unless
register_unless-failure a serial st st' none listed e = cc
register_unless-failure a serial st st' (some (some b)) listed e = ap (registry_of st) e
register_unless-failure a serial st st' (some none) none e = cc
register_unless-failure a serial st st' (some none) (some (some b)) e = ap (registry_of st) e
register_unless-failure a serial st st' (some none) (some none) e = cc

-- Where register_socket_transport of an emulator fails although its port was free and the table
-- had a slot, as it does for a serial in use, the table keeps a pointer to the transport that was
-- deleted: the next search of the table for that port reads freed memory.
pub register_socket_transport-dangles :
    (s : ℕ) (serial : Bytes) (port : ℕ) (st st' : Registry) (slots : List (Option ℕ))
    → IsTracked st
    → find_emulator_transport_by_adb_port_locked port st.heap st.local_transports ≡ some none
    → use_first_slot st.next_address st.local_transports ≡ some slots
    → register_socket_transport s (some serial) port true st ≡ failure st'
    → find_emulator_transport_by_adb_port_locked port st'.heap st'.local_transports ≡ none
unfolding register_socket_transport init_socket_transport register_initialized take_slot
register_socket_transport-dangles s serial port st st' slots w unused taken fails =
    let a = st.next_address in
    let free : st.heap a ≡ none = w.unused a (omega arith) in
    let entry = socket_entry s (some port) (blank cs_offline) in
    let h = set_cell a (some entry) st.heap in
    let st₁ = record st { next_address = suc a; heap = h; local_transports = slots } in
    let gone = set_cell a none h in
    let searched =
      find_emulator-same port a st.heap h st.local_transports
        (set_cell-SameBut a (some entry) st.heap) free w.slots
      ∙ unused in
    let is : delete a st₁ ≡ st' =
      register_unless-failure a serial st₁ st' (find_serial serial h st.pending_list)
        (find_serial serial h st.transport_list) (rw (searched, taken) at fails) in
    subst (λ z. find_emulator_transport_by_adb_port_locked port z.heap z.local_transports ≡ none) is
      (find_emulator-dangling port a h gone st.local_transports slots (set_cell-SameBut a none h)
        (rw (==_refl a) refl)
        (AreSlotsLive-same a st.heap gone st.local_transports
          (λ b differ.
            set_cell-SameBut a none h b differ ∙ set_cell-SameBut a (some entry) st.heap b differ)
          free w.slots)
        searched taken)
