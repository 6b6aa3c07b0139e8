-- ===== src/Transport/Listing.antt =====
-- The list of devices that `adb devices` prints: list_transports, append_transport and
-- append_transport_info of transport.cpp, with connection_state_name. The text for a device without
-- permission, which UsbNoPermissionsShortHelpText makes from the user's groups, is a parameter. The
-- lock is left out.
pub mod Match
use adb_src.Base.{
  ℕ, zero, suc, ◌-◌, Bool, true, false, not, ◌||◌, Option, none, some, List, [], ◌∷◌, ◌++◌,
  if◌then◌else◌, Bytes, length, is_alnum, codes,
}
use adb_src.Transport.{
  Transport, ConnectionState, cs_any, cs_offline, cs_bootloader, cs_device, cs_host, cs_recovery,
  cs_no_perm, cs_sideload, cs_unauthorized,
}

-- `(!sanitize || isalnum(*p)) ? *p : '_'`
abbrev pub listed_byte : Bool → ℕ → ℕ
listed_byte sanitize_value p = if not sanitize_value || is_alnum p then p else b'_'

unfoldable pub push_value : Bool → Bytes → Bytes → Bytes
push_value sanitize_value result [] = result
push_value sanitize_value result (p ∷ value) =
    push_value sanitize_value (result ++ (listed_byte sanitize_value p ∷ [])) value

unfoldable pub append_transport_info : Bytes → Bytes → Option Bytes → Bool → Bytes
unfolding push_value
append_transport_info result key none sanitize_value = result
append_transport_info result key (some []) sanitize_value = result
append_transport_info result key (some (c ∷ value)) sanitize_value =
    push_value sanitize_value ((result ++ codes " ") ++ key) (c ∷ value)

abbrev pub shown_serial : Option Bytes → Bytes
shown_serial none = codes "(no serial number)"
shown_serial (some []) = codes "(no serial number)"
shown_serial (some (c ∷ serial)) = c ∷ serial

abbrev pub spaces : ℕ → Bytes
spaces zero = []
spaces (suc n) = b' ' ∷ spaces n

-- What `%-22s` prints.
abbrev pub left_in_22 : Bytes → Bytes
left_in_22 s = s ++ spaces (22 - length s)

module _ (no_permissions_help : Bytes) where
  abbrev pub connection_state_name : ConnectionState → Bytes
  connection_state_name cs_offline = codes "offline"
  connection_state_name cs_bootloader = codes "bootloader"
  connection_state_name cs_device = codes "device"
  connection_state_name cs_host = codes "host"
  connection_state_name cs_recovery = codes "recovery"
  connection_state_name cs_no_perm = no_permissions_help
  connection_state_name cs_sideload = codes "sideload"
  connection_state_name cs_unauthorized = codes "unauthorized"
  connection_state_name cs_any = codes "unknown"

  -- `%-22s %s`
  abbrev pub long_head : Transport → Bytes
  long_head t =
      left_in_22 (shown_serial t.serial) ++ (codes " " ++ connection_state_name t.connection_state)

  -- The four fields, each behind what the ones before it left.
  unfoldable pub append_fields : Transport → Bytes → Bytes
  unfolding append_transport_info
  append_fields t result =
      let path = append_transport_info result [] t.devpath false in
      let product = append_transport_info path (codes "product:") t.product false in
      let model = append_transport_info product (codes "model:") t.model true in
      append_transport_info model (codes "device:") t.device false

  unfoldable pub append_transport : Transport → Bytes → Bool → Bytes
  unfolding append_fields
  append_transport t result false =
      (((result ++ shown_serial t.serial) ++ (9 ∷ [])) ++ connection_state_name t.connection_state)
      ++ (10 ∷ [])
  append_transport t result true = append_fields t (result ++ long_head t) ++ (10 ∷ [])

  unfoldable pub list_from : Bytes → List Transport → Bool → Bytes
  unfolding append_transport
  list_from result [] long_listing = result
  list_from result (t ∷ list) long_listing =
      list_from (append_transport t result long_listing) list long_listing

  unfoldable pub list_transports : List Transport → Bool → Bytes
  unfolding list_from
  list_transports list long_listing = list_from [] list long_listing
