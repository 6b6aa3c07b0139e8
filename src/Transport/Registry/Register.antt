-- ===== src/Transport/Registry/Register.antt =====
-- register_socket_transport of transport.cpp keeps the serials of transports apart.
use adb_src.Base.{
  ℕ, ◌≤◌, Bool, true, Option, none, some, List, [], ◌∷◌, ◌≡◌, ◌⊎◌, sym, ap, ◌∙◌, Bytes,
}
use adb_src.Transport.Registry.{Entry, Registry, Outcome, success, failure, fault}
use adb_src.Transport.Registry.Serials.{AreLive, NoneHas, OneHas, SameBut, Refuses}

-- Every transport of the table is live.
abbrev pub AreSlotsLive : (ℕ → Option Entry) → List (Option ℕ) → Type 0
AreSlotsLive heap [] = Unit
AreSlotsLive heap (none ∷ slots) = AreSlotsLive heap slots
AreSlotsLive heap (some a ∷ slots) = ((e : Entry) × (heap a ≡ some e)) × AreSlotsLive heap slots

pub AreSlotsLive-same :
    (a : ℕ) (h h' : ℕ → Option Entry) (slots : List (Option ℕ))
    → SameBut a h h'
    → h a ≡ none
    → AreSlotsLive h slots
    → AreSlotsLive h' slots
AreSlotsLive-same a h h' [] same free live = tt
AreSlotsLive-same a h h' (none ∷ slots) same free live =
    AreSlotsLive-same a h h' slots same free live
AreSlotsLive-same a h h' (some b ∷ slots) same free ((e, at), live) = (
  (e, same b (λ is. let x : none ≡ some e = sym free ∙ ap h (sym is) ∙ at in cc) ∙ at),
  AreSlotsLive-same a h h' slots same free live,
)

-- The lists and the table hold live transports, and no address from the next one on is in use.
pub record IsTracked (st : Registry) : Type 0 where
  pub listed : AreLive st.heap st.transport_list
  pub pending : AreLive st.heap st.pending_list
  pub slots : AreSlotsLive st.heap st.local_transports
  pub unused : (a : ℕ) → st.next_address ≤ a → st.heap a ≡ none

-- The ends of a registration of the transport at `a`: it is pending, with the serial, that no
-- other transport has; or it is gone, and some transport has the serial, or it is an emulator whose
-- port is taken in the table, or for which the table has no slot. Both leave the lists and every
-- other transport alone. With a null serial it is gone for the last two reasons, or there is a
-- fault.
abbrev pub HasSerial : Option Bytes → Registry → Type 0
HasSerial none st = ⊥
HasSerial (some serial) st =
    OneHas serial st.heap st.pending_list ⊎ OneHas serial st.heap st.transport_list

abbrev pub IsRegistered : ℕ → Option Bytes → Registry → Registry → Type 0
IsRegistered a none st st' = ⊥
IsRegistered a (some serial) st st' =
    (st'.pending_list ≡ a ∷ st.pending_list)
    × (st'.transport_list ≡ st.transport_list)
    × ((e : Entry) × (st'.heap a ≡ some e) × (e.transport.serial ≡ some serial))
    × NoneHas serial st.heap st.pending_list
    × NoneHas serial st.heap st.transport_list
    × SameBut a st.heap st'.heap

abbrev pub RegisterEnds : ℕ → Option Bytes → ℕ → Bool → Registry → Outcome → Type 0
RegisterEnds a serial port local st (success st') = IsRegistered a serial st st'
RegisterEnds a serial port local st (failure st') =
    (st'.pending_list ≡ st.pending_list)
    × (st'.transport_list ≡ st.transport_list)
    × (st'.heap a ≡ none)
    × (((local ≡ true) × Refuses port st) ⊎ HasSerial serial st)
    × SameBut a st.heap st'.heap
RegisterEnds a serial port local st fault = serial ≡ none
