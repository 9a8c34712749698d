-- ===== src/Credentials.antt =====
-- custom_components/ttlock_ble/credential_references.py: the private key of the references, and the material
-- that a reference is the keyed hash of. A text's UTF-8, the hash and the random key are parameters; bytes
-- are numbers below 256.
pub mod Material
use ha_ttlock_ble.Base.{
  ℕ, suc, ◌+◌, ◌*◌, ◌/◌, ◌%◌, ◌==◌, String, Bool, true, false, not, ◌&&◌, ◌||◌, Option, none, some,
  is_some, List, [], ◌∷◌, ◌++◌, length, ltb, if◌then◌else◌, str_eq,
}
use ha_ttlock_ble.Base.Texts.{has}
use ha_ttlock_ble.Base.Codes.{Text, from_hex, hex}
use ha_ttlock_ble.Base.Errors.{Exc, value_error, other}
use ha_ttlock_ble.Base.Exec.{Exec, Result, ok, err, pure, raise, gets, modify, ◌>>=◌, ◌>>◌}

abbrev pub methods : List String
methods = "keypad_pin" ∷ "fingerprint" ∷ "ic_card" ∷ "fob" ∷ []

abbrev pub reference_key_bytes : ℕ
reference_key_bytes = 32

-- What the store holds: no file, no usable field `key`, or the text of one.
pub data Stored : Type 0 where
  no_file : Stored
  no_key : Stored
  key_text : Text → Stored

-- The fields of `ProtectedCredentialReferences`, the file, and the number of the awaits.
pub record References : Type 0 where
  pub key : Option (List ℕ)
  pub file : Stored
  pub awaits : ℕ

-- What is outside.
pub record Vault : Type 0 where
  pub encode : String → List ℕ
  pub hmac_sha256 : List ℕ → List ℕ → String
  pub token_bytes : ℕ → List ℕ
  pub save_raises : ℕ → Bool

-- len(part).to_bytes(4, "big"); Python raises OverflowError beyond
abbrev pub to_bytes4 : ℕ → List ℕ
to_bytes4 n = n / 16777216 ∷ (n / 65536) % 256 ∷ (n / 256) % 256 ∷ n % 256 ∷ []

abbrev pub framed : Bool → List ℕ → Option (List ℕ) → Option (List ℕ)
framed true part (some rest) = some (to_bytes4 (length part) ++ (part ++ rest))
framed _ part rest = none

-- b"".join(len(part).to_bytes(4, "big") + part for part in parts)
unfoldable pub material : List (List ℕ) → Option (List ℕ)
material [] = some []
material (part ∷ parts) = framed (ltb (length part) 4294967296) part (material parts)

abbrev pub is_empty : List ℕ → Bool
is_empty [] = true
is_empty (b ∷ bs) = false

module _ (vault : Vault) where
  abbrev pub parts_of : (lock method epoch : String) → List ℕ → List (List ℕ)
  parts_of lock method epoch identifier =
      vault.encode lock ∷ vault.encode method ∷ vault.encode epoch ∷ identifier ∷ []

  abbrev pub hashed : List ℕ → Option (List ℕ) → Exec References String
  hashed key none = raise other
  hashed key (some m) = pure (vault.hmac_sha256 key m)

  abbrev pub derive :
      Option (List ℕ) → (lock method epoch : String) → List ℕ → Exec References String
  derive none lock method epoch identifier = raise value_error
  derive (some key) lock method epoch identifier =
      if not (has method methods) || str_eq epoch "" || is_empty identifier
      then raise value_error
      else hashed key (material (parts_of lock method epoch identifier))

  -- `from_verified_record`, its token
  unfoldable pub from_verified_record :
      (lock method epoch : String) → List ℕ → Exec References String
  from_verified_record lock method epoch identifier = do
    s ← gets (λ (s : References). s)
    derive s.key lock method epoch identifier

  abbrev pub await : Exec References (Unit {0})
  await = modify (λ (s : References). record s { awaits = suc s.awaits })

  unfoldable pub save : List ℕ → Exec References (Unit {0})
  save key = do
    n ← gets (λ (s : References). s.awaits)
    await
    if vault.save_raises n
        then raise other
        else modify (λ (s : References). record s { file = key_text (hex key) })

  abbrev pub keep_key : Option (List ℕ) → Exec References (Unit {0})
  keep_key none = raise value_error
  keep_key (some key) =
      if length key == reference_key_bytes
      then modify (λ (s : References). record s { key = some key })
      else raise value_error

  abbrev pub load_stored : Stored → Exec References (Unit {0})
  load_stored no_file = do
    n ← gets (λ (s : References). s.awaits)
    let key = vault.token_bytes n
    save key
    modify (λ (s : References). record s { key = some key })
  load_stored no_key = raise value_error
  load_stored (key_text t) = keep_key (from_hex t)

  -- `_async_load_locked`
  unfoldable pub load_locked : Exec References (Unit {0})
  load_locked = do await; s ← gets (λ (s : References). s); load_stored s.file

  -- `async_load`
  unfoldable pub async_load : Exec References (Unit {0})
  async_load = do
    await
    s ← gets (λ (s : References). s)
    if is_some s.key then pure tt else load_locked

  -- `async_remove`
  unfoldable pub async_remove : Exec References (Unit {0})
  async_remove = do
    await
    modify (λ (s : References). record s { key = none })
    n ← gets (λ (s : References). s.awaits)
    await
    if vault.save_raises n
        then raise other
        else modify (λ (s : References). record s { file = no_file })
