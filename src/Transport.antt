-- ===== src/Transport.antt =====
-- Choosing a transport, in transport.cpp: qual_match, atransport::MatchesTarget and
-- acquire_one_transport. A null `char*` is `none`. Of `atransport` the record has the fields that
-- the choice reads. ParseNetAddress of libbase is a parameter: the host, and the port where the
-- address has one. The error text is a data type with a constructor for each text. The mutex is
-- left out.
pub mod Choice
pub mod Listing
pub mod Registry
use adb_src.Base.{
  ℕ, Bool, true, false, not, ◌&&◌, ◌||◌, Option, none, some, List, [], ◌∷◌, ◌==◌, if◌then◌else◌,
  Bytes, bytes_eq, has_prefix, is_alnum, drop, codes,
}

pub data ConnectionState : Type 0 where
  cs_any cs_offline cs_bootloader cs_device cs_host cs_recovery cs_no_perm cs_sideload
        cs_unauthorized :
      ConnectionState

pub data TransportType : Type 0 where
  transport_usb transport_local transport_any transport_host : TransportType

pub record Transport : Type 0 where
  pub connection_state : ConnectionState
  pub type : TransportType
  pub serial : Option Bytes
  pub product : Option Bytes
  pub model : Option Bytes
  pub device : Option Bytes
  pub devpath : Option Bytes

-- What is left behind the prefix, or `none` at the first byte that differs.
unfoldable pub match_prefix : Bytes → Bytes → Option Bytes
match_prefix [] to_test = some to_test
match_prefix (c ∷ prefix) [] = none
match_prefix (c ∷ prefix) (d ∷ to_test) = if c == d then match_prefix prefix to_test else none

abbrev pub sanitize : Bool → ℕ → ℕ
sanitize sanitize_qual ch = if sanitize_qual && not (is_alnum ch) then b'_' else ch

-- Nothing of `to_test` may be left at the end.
unfoldable pub match_rest : Bool → Bytes → Bytes → Bool
match_rest sanitize_qual [] [] = true
match_rest sanitize_qual [] (d ∷ to_test) = false
match_rest sanitize_qual (c ∷ qual) [] = false
match_rest sanitize_qual (c ∷ qual) (d ∷ to_test) =
    if sanitize sanitize_qual c == d then match_rest sanitize_qual qual to_test else false

abbrev pub is_blank : Option Bytes → Bool
is_blank none = true
is_blank (some []) = true
is_blank (some (c ∷ s)) = false

unfoldable pub match_behind : Bool → Bytes → Option Bytes → Bool
unfolding match_rest
match_behind sanitize_qual qual none = false
match_behind sanitize_qual qual (some rest) = match_rest sanitize_qual qual rest

-- A null prefix is the empty one.
unfoldable pub qual_match : Option Bytes → Bytes → Option Bytes → Bool → Bool
unfolding match_prefix match_behind
qual_match none prefix qual sanitize_qual = is_blank qual
qual_match (some []) prefix qual sanitize_qual = is_blank qual
qual_match (some (c ∷ s)) prefix none sanitize_qual = false
qual_match (some (c ∷ s)) prefix (some qual) sanitize_qual =
    match_behind sanitize_qual qual (match_prefix prefix (c ∷ s))

abbrev pub is_local : TransportType → Bool
is_local transport_local = true
is_local _ = false

abbrev pub is_usb : TransportType → Bool
is_usb transport_usb = true
is_usb _ = false

-- `field && target == field`
abbrev pub same_text : Option Bytes → Bytes → Bool
same_text none target = false
same_text (some s) target = bytes_eq target s

-- A port that the target leaves out is the one of the serial.
abbrev pub same_port : Option ℕ → Option ℕ → Bool
same_port port none = true
same_port none (some q) = false
same_port (some p) (some q) = p == q

abbrev pub same_address : Option (Bytes × Option ℕ) → Option (Bytes × Option ℕ) → Bool
same_address (some (host, port)) (some (target_host, target_port)) =
    bytes_eq host target_host && same_port port target_port
same_address _ _ = false

abbrev pub skip_protocol : Bytes → Bytes
skip_protocol target =
    if has_prefix (codes "tcp:") target || has_prefix (codes "udp:") target
    then drop 4 target
    else target

module _ (parse_net_address : Bytes → Option (Bytes × Option ℕ)) where
  unfoldable pub matches_serial : TransportType → Option Bytes → Bytes → Bool
  matches_serial type none target = false
  matches_serial type (some serial) target =
      bytes_eq target serial
      || (is_local type
          && same_address (parse_net_address serial) (parse_net_address (skip_protocol target)))

  unfoldable pub matches_target : Transport → Bytes → Bool
  unfolding matches_serial qual_match
  matches_target t target =
      matches_serial t.type t.serial target
      || same_text t.devpath target
      || qual_match (some target) (codes "product:") t.product false
      || qual_match (some target) (codes "model:") t.model true
      || qual_match (some target) (codes "device:") t.device false

-- The texts that `error_out` is set to; `unauthorized` has ADB_VENDOR_KEYS where it is set.
pub data AcquireError : Type 0 where
  device_not_found : Bytes → AcquireError
  no_emulators no_devices_or_emulators no_devices : AcquireError
  no_permissions : AcquireError
  more_than_one_device more_than_one_emulator more_than_one_device_or_emulator : AcquireError
  unauthorized : Option Bytes → AcquireError
  offline success : AcquireError

pub record Acquired : Type 0 where
  pub result : Option Transport
  pub error : AcquireError
  pub is_ambiguous : Bool

abbrev pub not_found_error : Option Bytes → TransportType → AcquireError
not_found_error (some serial) type = device_not_found serial
not_found_error none transport_local = no_emulators
not_found_error none transport_any = no_devices_or_emulators
not_found_error none _ = no_devices

abbrev pub more_error : Option Bytes → TransportType → AcquireError
more_error (some serial) type = more_than_one_device
more_error none transport_local = more_than_one_emulator
more_error none transport_any = more_than_one_device_or_emulator
more_error none _ = more_than_one_device

abbrev pub has_no_permission : Transport → Bool
has_no_permission t = elim t.connection_state [ cs_no_perm ↦ true | _ ↦ false ]

abbrev pub is_unauthorized : Transport → Bool
is_unauthorized t = elim t.connection_state [ cs_unauthorized ↦ true | _ ↦ false ]

abbrev pub is_offline : Transport → Bool
is_offline t = elim t.connection_state [ cs_offline ↦ true | _ ↦ false ]

-- After the loop: unauthorized and offline transports are kept back unless any state is accepted.
unfoldable pub hand_out : Option Bytes → Bool → Option Transport → AcquireError → Bool → Acquired
hand_out vendor_keys accept_any_state none error is_ambiguous = record {
  result = none;
  error = error;
  is_ambiguous = is_ambiguous;
}
hand_out vendor_keys accept_any_state (some t) error is_ambiguous =
    if is_unauthorized t && not accept_any_state
    then record { result = none; error = unauthorized vendor_keys; is_ambiguous = is_ambiguous }
    else if is_offline t && not accept_any_state
    then record { result = none; error = offline; is_ambiguous = is_ambiguous }
    else record { result = some t; error = success; is_ambiguous = is_ambiguous }

unfoldable pub finish_acquire : Option Bytes → Bool → Acquired → Acquired
unfolding hand_out
finish_acquire vendor_keys accept_any_state a =
    hand_out vendor_keys accept_any_state a.result a.error a.is_ambiguous

-- One turn of the loop over transport_list, by its tests on the transport, with the rest of the
-- loop: a second candidate ends it.
unfoldable pub consider :
    AcquireError
    → Transport
    → Bool
    → Bool
    → Option Transport
    → AcquireError
    → (Option Transport → AcquireError → Acquired)
    → Acquired
consider more t true candidate result error rest = rest result no_permissions
consider more t false false result error rest = rest result error
consider more t false true none error rest = rest (some t) error
consider more t false true (some u) error rest = record {
  result = none;
  error = more;
  is_ambiguous = true;
}

module _ (parse_net_address : Bytes → Option (Bytes × Option ℕ)) where
  unfoldable pub is_candidate : TransportType → Option Bytes → Transport → Bool
  unfolding matches_target
  is_candidate type (some serial) t = matches_target parse_net_address t serial
  is_candidate transport_usb none t = is_usb t.type
  is_candidate transport_local none t = is_local t.type
  is_candidate transport_any none t = true
  is_candidate transport_host none t = false

  unfoldable pub scan :
      TransportType → Option Bytes → List Transport → Option Transport → AcquireError → Acquired
  unfolding consider is_candidate
  scan type serial [] result error = record { result = result; error = error; is_ambiguous = false }
  scan type serial (t ∷ list) result error =
      consider (more_error serial type) t (has_no_permission t) (is_candidate type serial t) result
        error (scan type serial list)

  -- The call for a host, with `is_ambiguous` starting at false.
  unfoldable pub acquire_one_transport :
      Option Bytes → List Transport → TransportType → Option Bytes → Bool → Acquired
  unfolding scan finish_acquire
  acquire_one_transport vendor_keys transport_list type serial accept_any_state =
      finish_acquire vendor_keys accept_any_state
        (scan type serial transport_list none (not_found_error serial type))
