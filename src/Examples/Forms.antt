-- ===== src/Examples/Forms.antt =====
-- The properties of the forms that make a key, at one lock that was set up by a local bridge.
use ha_ttlock_ble.Base.{false, none, some, [], ◌∷◌, List, ℕ, ◌≡◌, refl, arith, String}
use ha_ttlock_ble.Base.Codes.{
  codes, codes_inj, hex, strip, strip_left, strip_right, is_space, remove, is_digit, is_digits,
  all_of, nibble, from_hex,
}
use ha_ttlock_ble.Base.Texts.{has}
use ha_ttlock_ble.Base.Exec.{ok, Result, ◌>>=◌}
use ha_ttlock_ble.Base.Exec.Triple.{Post}
use ha_ttlock_ble.ManualKey.{
  Input, Outside, is_mac, aes_text, aes_key_bytes, advertised, check_against_advertisement,
  async_validate, assembled, build, defaults_from,
}
use ha_ttlock_ble.ManualKey.RoundTrip.{build-defaults_from}
use ha_ttlock_ble.ManualKey.ShortKeys.{with_tabs, aes_key_bytes_short}
use ha_ttlock_ble.CloudClient.{replied}
use ha_ttlock_ble.ConfigFlow.{Flow, World}
use ha_ttlock_ble.ConfigFlow.Steps.{Credentials, cloud, run_step}
use ha_ttlock_ble.ConfigFlow.Vetted.{Vetted, Anything}
use ha_ttlock_ble.ConfigFlow.Asked.{run_step-Vetted}
use ha_ttlock_ble.Credentials.{Vault, References, no_file, from_verified_record, material}
use ha_ttlock_ble.Credentials.Material.{IsHashed, from_verified_record-Apart}

abbrev outside : Outside
outside = record {
  other_digit = λ c. false;
  other_upper = λ c. c ∷ [];
  format_mac = λ t. t;
  manufacturer_data = λ mac. none;
  decode = λ company payload. none;
}

-- the bytes of the key, as they are pasted and as they are read
abbrev pasted : Input
pasted = record {
  lock_mac = codes " aa-bb-cc-dd-ee-ff ";
  aes_key = codes "00,01,02,03,04,05,06,07,08,09,0A,0B,0C,0D,0E,0F";
  unlock_key = codes "123456 ";
  admin_passcode = some (codes "99");
  lock_name = none;
  protocol_type = 5;
  protocol_version = 3;
  scene = 2;
  group_id = 1;
  org_id = 1;
}

abbrev key_bytes : List ℕ
key_bytes = 0 ∷ 1 ∷ 2 ∷ 3 ∷ 4 ∷ 5 ∷ 6 ∷ 7 ∷ 8 ∷ 9 ∷ 10 ∷ 11 ∷ 12 ∷ 13 ∷ 14 ∷ 15 ∷ []

pasted-is_valid : async_validate outside pasted ≡ []
unfolding async_validate is_mac aes_key_bytes aes_text strip strip_left strip_right is_space remove
    from_hex nibble is_digits is_digit all_of check_against_advertisement advertised
pasted-is_valid = refl

pasted-key : aes_key_bytes pasted.aes_key ≡ some key_bytes
unfolding aes_key_bytes aes_text strip strip_left strip_right is_space remove from_hex nibble
pasted-key = refl

build-defaults_from_example :
    (build outside pasted ≡ some (assembled outside pasted key_bytes))
    × (async_validate outside (defaults_from (assembled outside pasted key_bytes)) ≡ [])
    × (build outside (defaults_from (assembled outside pasted key_bytes))
        ≡ some (assembled outside pasted key_bytes))
build-defaults_from_example =
    build-defaults_from outside pasted key_bytes pasted-is_valid pasted-key refl

abbrev short_bytes : List ℕ
short_bytes = 2 ∷ 3 ∷ 4 ∷ 5 ∷ 6 ∷ 7 ∷ 8 ∷ 9 ∷ 10 ∷ 11 ∷ 12 ∷ 13 ∷ 14 ∷ []

aes_key_bytes_short_example :
    (aes_key_bytes (with_tabs 0 1 short_bytes) ≡ some (0 ∷ 1 ∷ short_bytes))
    × (aes_key_bytes (hex (0 ∷ 1 ∷ short_bytes)) ≡ none)
aes_key_bytes_short_example =
    aes_key_bytes_short 0 1 short_bytes (omega arith) (omega arith) (ground arith) refl

-- The cloud lists the one key of the account.
abbrev cloud_world : World
cloud_world = record {
  outside = outside;
  seen = λ n mac. none;
  slugify = λ t. t;
  cloud = record {
    discover_site = λ n. replied tt;
    login = λ u p n. replied tt;
    request_code = λ u n. replied tt;
    validate_new_device = λ u c n. replied tt;
    list_keys = λ n. replied (assembled outside pasted key_bytes ∷ []);
  };
  entries = λ n. [];
  id_in_progress = λ i n. false;
  id_configured = λ i n. false;
  id_mismatch = λ e i n. false;
}

abbrev new_flow : Flow
new_flow = record { username = []; password = []; awaits = 0 }

abbrev given : Credentials
given = record { username = codes "ann"; password = codes "secret" }

run_step-Vetted_example :
    Post (Vetted cloud_world) Anything (run_step cloud_world (cloud (some given)) new_flow)
run_step-Vetted_example = (run_step-Vetted cloud_world (cloud (some given))).at new_flow tt

-- A vault that hashes nothing away.
abbrev vault : Vault
vault = record {
  encode = codes;
  hmac_sha256 = λ key m. "token";
  token_bytes = λ n. [];
  save_raises = λ n. false;
}

abbrev references : References
references = record { key = some (1 ∷ []); file = no_file; awaits = 0 }

-- the card of the same lock in the same epoch
abbrev token_of : (method : String) → List ℕ → Result String × References
token_of method identifier = from_verified_record vault "door" method "e" identifier references

token-fingerprint : token_of "fingerprint" (7 ∷ []) ≡ (ok "token", references)
unfolding from_verified_record ◌>>=◌ material has
token-fingerprint = refl

token-card : token_of "ic_card" (7 ∷ []) ≡ (ok "token", references)
unfolding from_verified_record ◌>>=◌ material has
token-card = refl

from_verified_record-Apart_example :
    (m m' : List ℕ) × IsHashed vault references "door" "fingerprint" "e" (7 ∷ []) "token" m
    × IsHashed vault references "door" "ic_card" "e" (7 ∷ []) "token" m'
    × (m ≡ m'
        → (◌≡◌ {A = String} "door" "door")
          × (◌≡◌ {A = String} "fingerprint" "ic_card")
          × (◌≡◌ {A = String} "e" "e")
          × (◌≡◌ {A = List ℕ} (7 ∷ []) (7 ∷ [])))
from_verified_record-Apart_example =
    from_verified_record-Apart vault codes_inj references "door" "fingerprint" "e" (7 ∷ []) "token"
      "door" "ic_card" "e" (7 ∷ []) "token" token-fingerprint token-card
