-- ===== src/Tests/Transports.antt =====
-- Runs of the choice and of the listing of transports.
use adb_src.Base.{ℕ, true, false, Option, none, some, [], ◌∷◌, ◌++◌, ◌≡◌, refl, Bytes, codes}
use adb_src.Transport.{
  Transport, transport_usb, transport_local, cs_device, cs_unauthorized, acquire_one_transport,
}
use adb_src.Transport.Listing.{list_transports}
use adb_src.Transport.Listing.Match.{IsListing, list_transports-IsListing}
use adb_src.Transport.Choice.{
  eligible, the_only, has_two, if_usable, acquire_one_transport-the_only,
}

-- Addresses are hosts without a port.
abbrev host_only : Bytes → Option (Bytes × Option ℕ)
host_only s = some (s, none)

abbrev phone : Transport
phone = record {
  connection_state = cs_device;
  type = transport_usb;
  serial = some (codes "HT99");
  product = none;
  model = some (codes "Nexus 5");
  device = none;
  devpath = none;
}

abbrev emulator : Transport
emulator = record phone { connection_state = cs_unauthorized; type = transport_local }

acquire_one_transport-the_only_example :
    ((acquire_one_transport host_only none (phone ∷ emulator ∷ []) transport_usb none false).result
      ≡ if_usable false (the_only (eligible host_only transport_usb none (phone ∷ emulator ∷ []))))
    × ((acquire_one_transport host_only none
          (phone ∷ emulator ∷ [])
          transport_usb
          none
          false).is_ambiguous
        ≡ has_two (eligible host_only transport_usb none (phone ∷ emulator ∷ [])))
acquire_one_transport-the_only_example =
    acquire_one_transport-the_only host_only none (phone ∷ emulator ∷ []) transport_usb none false

phone_line :
    list_transports (codes "no permissions") (phone ∷ []) true
    ≡ (codes "HT99                   device model:Nexus_5" ++ (10 ∷ []))
unfolding list_transports
phone_line = refl

short_lines : list_transports (codes "no permissions") (phone ∷ emulator ∷ []) false ≡ (
    codes "HT99"
    ++ (9 ∷ codes "device")
    ++ (10 ∷ codes "HT99")
    ++ (9 ∷ codes "unauthorized")
    ++ (10 ∷ []))
unfolding list_transports
short_lines = refl

list_transports-IsListing_example :
    IsListing host_only
      (codes "no permissions")
      (phone ∷ emulator ∷ [])
      (list_transports (codes "no permissions") (phone ∷ emulator ∷ []) true)
list_transports-IsListing_example =
    list_transports-IsListing host_only (codes "no permissions") (phone ∷ emulator ∷ [])
