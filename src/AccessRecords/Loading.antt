-- ===== src/AccessRecords/Loading.antt =====
-- `async_load` of access_records.py: the schemas of the stored records, and what a restart takes over.
use ha_ttlock_ble.Base.{
  ℕ, suc, ◌==◌, String, Bool, true, false, ◌&&◌, ◌||◌, Option, none, some, List, [], ◌∷◌, length,
  leb, if◌then◌else◌, ◌≡◌, refl, ◌⊎◌, inl, inr,
}
use ha_ttlock_ble.Base.Texts.{has, pop}
use ha_ttlock_ble.Base.Codes.{Text, codes}
use ha_ttlock_ble.Base.Errors.{Exc, value_error}
use ha_ttlock_ble.Base.Exec.{Exec, Result, ok, err, pure, raise, gets, lift, modify, ◌>>=◌, ◌>>◌}
use ha_ttlock_ble.Base.Exec.Triple.{
  Triple, Triple-bind, Triple-read, Triple-if, Triple-raise, Triple-pure, Triple-modify,
  Triple-lift, weaken, Triple-fact,
}
use ha_ttlock_ble.AccessRecords.State.{
  PrivateRecord, Scope, Saved, Store, World, max_records, mark_scope_stale, mark_all_stale,
}
use ha_ttlock_ble.AccessRecords.Reconcile.{await}

abbrev pub is_lower_hex : ℕ → Bool
is_lower_hex c = (leb 48 c && leb c 57) || (leb 97 c && leb c 102)

abbrev pub one_more : Bool → Option ℕ → Option ℕ
one_more true (some n) = some (suc n)
one_more _ _ = none

-- the number of digits of a text that matches ^[0-9a-f]*$, which lets one line feed follow
unfoldable pub hex_digits : Text → Option ℕ
hex_digits [] = some 0
hex_digits (c ∷ []) = if c == 10 then some 0 else one_more (is_lower_hex c) (some 0)
hex_digits (c ∷ d ∷ s) = one_more (is_lower_hex c) (hex_digits (d ∷ s))

abbrev pub in_range : Option ℕ → Bool
in_range none = false
in_range (some n) = leb 32 n && leb n 64

-- `_HEX`
unfoldable pub is_hex_text : String → Bool
is_hex_text t = in_range (hex_digits (codes t))

-- `_RECORD`
unfoldable pub is_valid_record : PrivateRecord → Bool
is_valid_record r =
    is_hex_text r.base
    && is_hex_text r.reference
    && has r.record_type
        ("pin_type_1" ∷ "pin_type_3" ∷ "pin_type_4" ∷ "fingerprint_record" ∷ "card_4byte" ∷ [])
    && has r.validity ("permanent" ∷ "time_window" ∷ "cyclic" ∷ "unknown" ∷ [])
    && leb (length (codes r.alias)) 64

unfoldable pub are_valid_records : List PrivateRecord → Bool
are_valid_records [] = true
are_valid_records (r ∷ rs) = is_valid_record r && are_valid_records rs

-- `_SCOPE`
unfoldable pub is_valid_scope : Scope → Bool
is_valid_scope s =
    is_hex_text s.epoch && are_valid_records s.records && leb (length s.records) max_records

-- `_DATA`
unfoldable pub are_valid_scopes : List (String × Scope) → Bool
are_valid_scopes [] = true
are_valid_scopes ((name, s) ∷ rest) = is_valid_scope s && are_valid_scopes rest

-- The file: none, of another shape than the store writes, or that of saved data.
pub data OnDisk : Type 0 where
  no_file : OnDisk
  misshapen : OnDisk
  stored : Saved → OnDisk

unfoldable pub load_found : OnDisk → Exec Store (Unit {0})
load_found no_file = pure tt
load_found misshapen = raise value_error
load_found (stored v) =
    if are_valid_scopes v.scopes
    then modify (λ (s : Store). record s { scopes = v.scopes; legacy_disabled = v.legacy_disabled })
    else raise value_error

-- How the reads of the file and of the key end depends on the number of the await.
module _ (world : World) (read : ℕ → Result OnDisk) (load_key : ℕ → Result (Unit {0})) where
  abbrev pub load_unless : Bool → Exec Store (Unit {0})
  load_unless loaded = if loaded then pure tt else (do
    m ← gets (λ (s : Store). s.steps)
    await world
    disk ← lift (read m)
    load_found disk
    n ← gets (λ (s : Store). s.steps)
    await world
    lift (load_key n)
    modify (λ (s : Store). record s { loaded = true }))

  -- `async_load`
  unfoldable pub async_load : Exec Store (Unit {0})
  async_load = do await world; loaded ← gets (λ (s : Store). s.loaded); load_unless loaded

-- A store that holds these scopes and opt-outs, nothing of which is fresh.
pub record Holds (b : Bool) (scopes : List (String × Scope)) (disabled : List String) (s : Store)
    : Type 0 where
  pub held_loaded : s.loaded ≡ b
  pub held_scopes : s.scopes ≡ scopes
  pub held_disabled : s.legacy_disabled ≡ disabled
  pub held_fresh : s.fresh ≡ []

module _ (b : Bool) (scopes : List (String × Scope)) (disabled : List String) where
  marks-Holds :
      (l : List String) (s : Store)
      → Holds b scopes disabled s
      → Holds b scopes disabled (mark_all_stale l s)
  unfolding mark_all_stale mark_scope_stale pop
  marks-Holds [] s h = h
  marks-Holds (x ∷ l) s h = marks-Holds l (mark_scope_stale x s) (record {
    held_loaded = h.held_loaded;
    held_scopes = h.held_scopes;
    held_disabled = h.held_disabled;
    held_fresh = rw h.held_fresh refl;
  })

  await-Holds :
      {E : Exc → Store → Type 0} (world : World)
      → Triple (Holds b scopes disabled) (await world) (λ _. Holds b scopes disabled) E
  unfolding await
  await-Holds world = record {
    at = λ s h. marks-Holds (world.marks s.steps) _ (record {
      held_loaded = h.held_loaded;
      held_scopes = h.held_scopes;
      held_disabled = h.held_disabled;
      held_fresh = h.held_fresh;
    });
  }

now_loaded :
    (scopes : List (String × Scope)) (disabled : List String) (s : Store)
    → Holds false scopes disabled s
    → Holds true scopes disabled (record s { loaded = true })
now_loaded scopes disabled s h = record {
  held_loaded = refl;
  held_scopes = h.held_scopes;
  held_disabled = h.held_disabled;
  held_fresh = h.held_fresh;
}

-- what a load of this file leaves
abbrev pub IsRestored : Bool → OnDisk → Store → Type 0
IsRestored b no_file s = Holds b [] [] s
IsRestored b misshapen s = ⊥
IsRestored b (stored v) s =
    Holds b v.scopes v.legacy_disabled s × (are_valid_scopes v.scopes ≡ true)

abbrev pub IsUnusable : OnDisk → Type 0
IsUnusable no_file = ⊥
IsUnusable misshapen = Unit
IsUnusable (stored v) = are_valid_scopes v.scopes ≡ false

loaded_lem :
    (d : OnDisk) (s : Store) → IsRestored false d s → IsRestored true d (record s { loaded = true })
loaded_lem no_file s h = now_loaded [] [] s h
loaded_lem misshapen s h = absurd h
loaded_lem (stored v) s h = (now_loaded v.scopes v.legacy_disabled s h.0, h.1)

not_loaded : (d : OnDisk) (s : Store) → IsRestored false d s → s.loaded ≡ false
not_loaded no_file s h = h.held_loaded
not_loaded misshapen s h = absurd h
not_loaded (stored v) s h = h.0.held_loaded

module _ (world : World) (read : ℕ → Result OnDisk) (load_key : ℕ → Result (Unit {0})) where
  -- the file that was read, and what the load leaves of it
  abbrev pub IsLoaded : Unit {0} → Store → Type 0
  IsLoaded u s = (n : ℕ) × (d : OnDisk) × (read n ≡ ok d) × IsRestored true d s

  -- why a load raised: the file that was read is unusable, it could not be read, or the key could not be
  abbrev pub IsClosed : Exc → Store → Type 0
  IsClosed e s =
      (s.loaded ≡ false)
      × (((n : ℕ) × (d : OnDisk) × (read n ≡ ok d) × IsUnusable d × (e ≡ value_error))
          ⊎ ((n : ℕ) × (read n ≡ err e))
          ⊎ ((n : ℕ) × (load_key n ≡ err e)))

  found-lem :
      (n : ℕ) (d : OnDisk)
      → read n ≡ ok d
      → Triple (Holds false [] []) (load_found d) (λ _. IsRestored false d) IsClosed
  unfolding load_found
  found-lem n no_file r = Triple-pure tt (λ s h. h)
  found-lem n misshapen r = Triple-raise _ (λ s h. (h.held_loaded, inl (n, misshapen, r, tt, refl)))
  found-lem n (stored v) r =
      Triple-if (are_valid_scopes v.scopes)
        (λ valid. Triple-modify _ (λ s h. (
          record {
            held_loaded = h.held_loaded;
            held_scopes = refl;
            held_disabled = refl;
            held_fresh = h.held_fresh;
          },
          valid,
        )))
        (λ bad. Triple-raise _ (λ s h. (h.held_loaded, inl (n, stored v, r, bad, refl))))

  await_lem :
      (d : OnDisk) → Triple (IsRestored false d) (await world) (λ _. IsRestored false d) IsClosed
  await_lem no_file = await-Holds false [] [] world
  await_lem misshapen = record { at = λ s h. absurd h }
  await_lem (stored v) = Triple-fact λ valid.
      weaken (λ s h. h) (await-Holds false v.scopes v.legacy_disabled world) (λ _ s h. (h, valid))
        (λ e s h. h)

  -- from the file that was read on
  key-lem :
      (m : ℕ) (d : OnDisk)
      → read m ≡ ok d
      → Triple
          (IsRestored false d)
          (do
            n ← gets (λ (s : Store). s.steps)
            await world
            lift (load_key n)
            modify (λ (s : Store). record s { loaded = true }))
          IsLoaded
          IsClosed
  key-lem m d r =
      Triple-read (λ (s : Store). s.steps)
        λ n.
          Triple-bind {R = λ _. IsRestored false d}
            (weaken (λ s h. h.0) (await_lem d) (λ _ s h. h) (λ e s h. h))
            λ _.
              Triple-bind {R = λ _. IsRestored false d}
                (Triple-lift (load_key n) (λ _ e s h. h)
                  (λ x e s h. (not_loaded d s h, inr (inr (n, e)))))
                λ _. Triple-modify _ (λ s h. (m, d, r, loaded_lem d s h))

  unless-lem :
      (b : Bool)
      → Triple
          (λ s. Holds false [] [] s × (s.loaded ≡ b))
          (load_unless world read load_key b)
          IsLoaded
          IsClosed
  unless-lem true = record { at = λ s h. cc (h.0.held_loaded, h.1) }
  unless-lem false =
      Triple-read (λ (s : Store). s.steps)
        λ m.
          Triple-bind
            (weaken (λ s h. h.0.0) (await-Holds false [] [] world) (λ _ s h. h) (λ e s h. h))
            λ _.
              Triple-bind {R = λ d s. Holds false [] [] s × (read m ≡ ok d)}
                (Triple-lift (read m) (λ d e s h. (h, e))
                  (λ x e s h. (h.held_loaded, inr (inl (m, e)))))
                λ d. Triple-fact λ r. Triple-bind (found-lem m d r) λ _. key-lem m d r

  -- The load of a restarted store returns only with the scopes and opt-outs of a file that the schemas
  -- accept, or with none when there is no file, and nothing is fresh; it raises only if the file is
  -- unusable, by a ValueError, or with what the read of the file or the load of the key raised, and the
  -- store does not count as loaded then.
  pub async_load-IsRestored :
      Triple (Holds false [] []) (async_load world read load_key) IsLoaded IsClosed
  unfolding async_load
  async_load-IsRestored =
      Triple-bind (await-Holds false [] [] world)
        λ _. Triple-read (λ (s : Store). s.loaded) λ loaded. unless-lem loaded
