-- ===== src/Listeners/Format.antt =====
-- format_listeners of adb_listeners.cpp. The serial of a transport is read from the transport, by
-- a parameter here; `none` for the text is a read through a null transport.
use adb_src.Base.{
  ℕ, Option, none, some, List, [], ◌∷◌, ◌++◌, if◌then◌else◌, Bytes, codes, true, ◌≡◌, ◌∙◌, ap, refl,
  Bool-cases, inl, inr,
}
use adb_src.Listeners.{Listener, Listeners, is_special, remove_all_listeners}
use adb_src.Listeners.Lookup.{specials, remove_all_listeners-specials}

abbrev pub serial_or_reverse : Option Bytes → Bytes
serial_or_reverse none = codes "(reverse)"
serial_or_reverse (some serial) = serial

-- `"%s %s %s\n"`
abbrev pub forward_line : Bytes → Listener → Bytes
forward_line serial l =
    serial ++ (codes " " ++ (l.local_name ++ (codes " " ++ (l.connect_to ++ (10 ∷ [])))))

module _ (serial_of : ℕ → Option Bytes) where
  unfoldable pub add_line : Listener → Option ℕ → Option Bytes → Option Bytes
  add_line l t none = none
  add_line l none (some result) = none
  add_line l (some t) (some result) =
      some (result ++ forward_line (serial_or_reverse (serial_of t)) l)

  unfoldable pub format_from : List Listener → Option Bytes → Option Bytes
  unfolding add_line
  format_from [] result = result
  format_from (l ∷ list) result =
      format_from list (if is_special l then result else add_line l l.transport result)

  unfoldable pub format_listeners : Listeners → Option Bytes
  unfolding format_from
  format_listeners st = format_from st.listener_list (some [])

  skip_special :
      (l : Listener) (list : List Listener) (result : Option Bytes)
      → is_special l ≡ true
      → format_from (l ∷ list) result ≡ format_from list result
  unfolding format_from
  skip_special l list result special = rw special refl

  format_from-specials :
      (list : List Listener) (result : Option Bytes) → format_from (specials list) result ≡ result
  unfolding format_from
  format_from-specials [] result = refl
  format_from-specials (l ∷ list) result = elim (Bool-cases (is_special l)) [
    | inl special ↦
        rw special
          (skip_special l (specials list) result special ∙ format_from-specials list result)
    | inr plain ↦ rw plain (format_from-specials list result)
  ]

  -- After `remove_all_listeners` the list that `format_listeners` makes is empty, and no null
  -- transport is read, whatever listeners there were.
  pub format_listeners-remove_all_listeners :
      (st : Listeners) → format_listeners (remove_all_listeners st) ≡ some []
  unfolding format_listeners
  format_listeners-remove_all_listeners st =
      ap (λ list. format_from list (some [])) (remove_all_listeners-specials st).0
      ∙ format_from-specials st.listener_list (some [])
