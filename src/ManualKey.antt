-- ===== src/ManualKey.antt =====
-- custom_components/ttlock_ble/manual_key.py: the form for a key that was obtained without the cloud. Texts are
-- lists of code points. The numbers of the form are naturals (its selectors admit 0 to 255). What `to_dict`
-- stores is the key itself.
pub mod Address
pub mod RoundTrip
pub mod ShortKeys
use ha_ttlock_ble.Base.{
  ℕ, zero, suc, ◌==◌, Bool, true, false, not, ◌&&◌, ◌||◌, Option, none, some, is_none, List, [],
  ◌∷◌, ◌++◌, length, leb, if◌then◌else◌,
}
use ha_ttlock_ble.Base.Codes.{
  Text, codes, text_eq, strip, remove, replace, upper, is_digits, from_hex, hex,
}

-- `TtlockBleManualKeyInput`
pub record Input : Type 0 where
  pub lock_mac : Text
  pub aes_key : Text
  pub unlock_key : Text
  pub admin_passcode : Option Text
  pub lock_name : Option Text
  pub protocol_type : ℕ
  pub protocol_version : ℕ
  pub scene : ℕ
  pub group_id : ℕ
  pub org_id : ℕ

-- The SDK's `LockVersion` and `VirtualKey`.
pub record LockVersion : Type 0 where
  pub protocol_type : ℕ
  pub protocol_version : ℕ
  pub scene : ℕ
  pub group_id : ℕ
  pub org_id : ℕ

pub record VirtualKey : Type 0 where
  pub key_id : ℕ
  pub lock_id : ℕ
  pub lock_mac : Text
  pub lock_alias : Text
  pub lock_name : Text
  pub lock_version : LockVersion
  pub aes_key_str : Text
  pub unlock_key : Text
  pub lock_flag_pos : ℕ
  pub timezone_raw_offset : ℕ
  pub admin_ps : Text

-- The fields of the SDK's `LockAdvertisement` that are read.
pub record Advertised : Type 0 where
  pub lock_mac : Text
  pub protocol_type : ℕ
  pub protocol_version : ℕ
  pub scene : ℕ

-- What is outside: the Unicode tables of `isdigit` and `upper`, `format_mac`, the last advertisement that Home
-- Assistant saw of an address, and the SDK's decoder.
pub record Outside : Type 0 where
  pub other_digit : ℕ → Bool
  pub other_upper : ℕ → Text
  pub format_mac : Text → Text
  pub manufacturer_data : Text → Option (List (ℕ × List ℕ))
  pub decode : ℕ → List ℕ → Option Advertised

-- The errors of the form, each of its field.
pub data FormError : Type 0 where
  invalid_mac invalid_aes_key invalid_unlock_key invalid_admin_passcode protocol_mismatch :
      FormError

abbrev pub is_hex_char : ℕ → Bool
is_hex_char c = (leb 48 c && leb c 57) || (leb 65 c && leb c 70) || (leb 97 c && leb c 102)

abbrev pub is_mac_separator : ℕ → Bool
is_mac_separator c = c == 58 || c == 45

-- `_MAC_PATTERN` on a stripped text, with the number of pairs that a separator follows
unfoldable pub is_mac : ℕ → Text → Bool
is_mac zero (a ∷ b ∷ []) = is_hex_char a && is_hex_char b
is_mac (suc n) (a ∷ b ∷ c ∷ s) = is_hex_char a && is_hex_char b && is_mac_separator c && is_mac n s
is_mac _ _ = false

-- `_normalized_mac`
unfoldable pub normalized_mac : (ℕ → Text) → Text → Text
normalized_mac other raw = upper other (replace 45 58 (strip raw))

-- `_aes_key_bytes`: the separators are , . space and -
unfoldable pub aes_text : Text → Text
aes_text raw = remove 45 (remove 32 (remove 46 (remove 44 (strip raw))))

unfoldable pub aes_key_bytes : Text → Option (List ℕ)
unfolding aes_text
aes_key_bytes raw = if length (aes_text raw) == 32 then from_hex (aes_text raw) else none

abbrev pub or_blank : Option Text → Text
or_blank none = []
or_blank (some t) = t

abbrev pub is_blank : Text → Bool
is_blank [] = true
is_blank (c ∷ s) = false

abbrev pub error_if : Bool → FormError → List FormError
error_if b e = if b then e ∷ [] else []

abbrev pub name_or : Text → Text → Text
name_or mac [] = codes "TTLock " ++ mac
name_or mac (c ∷ s) = c ∷ s

module _ (out : Outside) where
  -- the loop of `_async_advertised`
  unfoldable pub find_advertised : Text → List (ℕ × List ℕ) → Option Advertised
  find_advertised expected [] = none
  find_advertised expected ((company, payload) ∷ data_rest) =
      let rest = find_advertised expected data_rest in
      elim (out.decode company payload) [
        | none ↦ rest
        | some a ↦ if text_eq (out.format_mac a.lock_mac) expected then some a else rest
      ]

  abbrev pub advertised_in : Text → Option (List (ℕ × List ℕ)) → Option Advertised
  advertised_in mac none = none
  advertised_in mac (some found) = find_advertised (out.format_mac mac) found

  -- `_async_advertised`
  unfoldable pub advertised : Text → Option Advertised
  advertised mac = advertised_in mac (out.manufacturer_data mac)

  abbrev pub mismatch : Input → Option Advertised → List FormError
  mismatch i none = []
  mismatch i (some a) =
      error_if
        (not (
          i.protocol_type == a.protocol_type
          && i.protocol_version == a.protocol_version
          && i.scene == a.scene))
        protocol_mismatch

  -- `_async_check_against_advertisement`
  unfoldable pub check_against_advertisement : Input → List FormError
  check_against_advertisement i =
      mismatch i (advertised (normalized_mac out.other_upper i.lock_mac))

  abbrev pub bad_admin : Text → Bool
  bad_admin passcode = not (is_blank passcode) && not (is_digits out.other_digit passcode)

  -- `async_validate`
  unfoldable pub async_validate : Input → List FormError
  unfolding check_against_advertisement
  async_validate i =
      let bad_mac = not (is_mac 5 (strip i.lock_mac)) in
      error_if bad_mac invalid_mac
      ++ (error_if (is_none (aes_key_bytes i.aes_key)) invalid_aes_key
          ++ (error_if (not (is_digits out.other_digit (strip i.unlock_key))) invalid_unlock_key
              ++ (error_if (bad_admin (strip (or_blank i.admin_passcode))) invalid_admin_passcode
                  ++ (if bad_mac then [] else check_against_advertisement i))))

  -- the key that `build` returns
  abbrev pub assembled : Input → List ℕ → VirtualKey
  assembled i key =
      let mac = normalized_mac out.other_upper i.lock_mac in
      let name = name_or mac (strip (or_blank i.lock_name)) in
      record {
        key_id = 0;
        lock_id = 0;
        lock_mac = mac;
        lock_alias = name;
        lock_name = name;
        lock_version = record {
          protocol_type = i.protocol_type;
          protocol_version = i.protocol_version;
          scene = i.scene;
          group_id = i.group_id;
          org_id = i.org_id;
        };
        aes_key_str = hex key;
        unlock_key = strip i.unlock_key;
        lock_flag_pos = 0;
        timezone_raw_offset = 0;
        admin_ps = strip (or_blank i.admin_passcode);
      }

  abbrev pub key_of : Input → Option (List ℕ) → Option VirtualKey
  key_of i none = none
  key_of i (some key) = some (assembled i key)

  -- `build`; none is its ValueError
  unfoldable pub build : Input → Option VirtualKey
  build i = key_of i (aes_key_bytes i.aes_key)

-- `defaults_from`
unfoldable pub defaults_from : VirtualKey → Input
defaults_from k = record {
  lock_mac = k.lock_mac;
  aes_key = k.aes_key_str;
  unlock_key = k.unlock_key;
  admin_passcode = some k.admin_ps;
  lock_name = some k.lock_alias;
  protocol_type = k.lock_version.protocol_type;
  protocol_version = k.lock_version.protocol_version;
  scene = k.lock_version.scene;
  group_id = k.lock_version.group_id;
  org_id = k.lock_version.org_id;
}
