-- ===== src/Examples/Records.antt =====
-- The properties of the private records, in a store with one named fingerprint.
use ha_ttlock_ble.Base.{true, false, false, none, some, [], ◌∷◌, ◌≡◌, refl, arith, ◌⊎◌}
use ha_ttlock_ble.Base.Texts.{get, has}
use ha_ttlock_ble.Base.Exec.{ok}
use ha_ttlock_ble.Base.Exec.Triple.{Post}
use ha_ttlock_ble.AccessRecords.Loading.{
  OnDisk, stored, Holds, IsLoaded, IsClosed, async_load, async_load-IsRestored,
}
use ha_ttlock_ble.AccessRecords.State.{
  fingerprint, unsupported, PrivateRecord, Inventory, Store, World,
}
use ha_ttlock_ble.AccessRecords.Reconcile.{reconcile}
use ha_ttlock_ble.AccessRecords.Names.{is_bad_name}
use ha_ttlock_ble.AccessRecords.Showing.{AreBacked, snapshot_in-AreBacked}
use ha_ttlock_ble.AccessRecords.Editing.{records_of, snapshot_in, assign_name, reset}
use ha_ttlock_ble.AccessRecords.Retention.{Retained-refl}
use ha_ttlock_ble.AccessRecords.Keeping.{Keeping, reconcile-Keeping}
use ha_ttlock_ble.AccessRecords.Freshness.{Stale, IsProven, reconcile-IsProven}
use ha_ttlock_ble.AccessRecords.Forgetting.{Issued, Forgotten, reset-Forgotten}
use ha_ttlock_ble.AccessRecords.Naming.{IsNamed, assign_name-Renamed, assign_name-Unread}

abbrev empty_store : Store
empty_store = record {
  loaded = true;
  scopes = [];
  legacy_disabled = [];
  fresh = [];
  revision = ("prints", 1) ∷ [];
  confirmed = [];
  observed = [];
  saved = none;
  drawn = 0;
  now = 0;
  steps = 0;
}

abbrev pub world : World
world = record {
  token_hex = λ n. "0f";
  token = λ l m e t i. some i;
  scope_name = λ l m. "prints";
  save_raises = λ n. false;
  elapsed = λ n. 1;
  marks = λ n. [];
}

abbrev pub finger : Inventory
finger = record {
  records =
      record {
        method = fingerprint;
        record_type = "fingerprint_record";
        identifier = "a1";
        validity = "permanent";
      }
      ∷ [];
  records_complete = true;
}

abbrev old_finger : PrivateRecord
old_finger = record {
  base = "a0";
  reference = "aa";
  record_type = "fingerprint_record";
  validity = "permanent";
  alias = "Ann";
  active = true;
}

abbrev pub kept_store : Store
kept_store = record empty_store {
  scopes = ("prints", record { epoch = "e"; records = old_finger ∷ [] }) ∷ [];
}

kept_store-Keeping : Keeping world fingerprint "prints" (old_finger ∷ []) kept_store
unfolding get
kept_store-Keeping = Retained-refl false (old_finger ∷ [])

reconcile-Keeping_example :
    Post
      (λ _. Keeping world fingerprint "prints" (old_finger ∷ []))
      (λ _. Keeping world fingerprint "prints" (old_finger ∷ []))
      (reconcile world "door" fingerprint finger true (some 1) kept_store)
reconcile-Keeping_example =
    (reconcile-Keeping world fingerprint "prints" (old_finger ∷ []) "door" finger true (some 1)).at
      kept_store kept_store-Keeping

pub kept_store-Stale : Stale world "prints" kept_store
unfolding get
kept_store-Stale = refl

reconcile-IsProven_example :
    Post
      (λ _. IsProven world "door" fingerprint finger true 1)
      (λ _. Stale world "prints")
      (reconcile world "door" fingerprint finger true (some 1) kept_store)
reconcile-IsProven_example =
    (reconcile-IsProven world "door" fingerprint finger true 1).at kept_store kept_store-Stale

-- The same store once the fingerprint was read under the ticket 1.
abbrev read_store : Store
read_store = record kept_store {
  loaded = true;
  fresh = ("prints", 0) ∷ [];
  revision = ("prints", 1) ∷ [];
  observed = ("prints", "aa" ∷ []) ∷ [];
}

read_store-Issued : Issued world "prints" 1 read_store
unfolding get
read_store-Issued = omega arith

reset-Forgotten_example :
    Post
      (λ _. Forgotten world "prints" 1)
      (λ _ s. Forgotten world "prints" 1 s ⊎ (fingerprint ≡ unsupported))
      (reset world "door" fingerprint read_store)
reset-Forgotten_example =
    (reset-Forgotten world "door" fingerprint 1).0.at read_store read_store-Issued

assign_name-Renamed_example :
    Post
      (λ _ s.
        IsNamed world "door" fingerprint "aa" "Bob" read_store.scopes s
        × (has "aa" s.confirmed ≡ true)
        × (is_bad_name "Bob" ≡ false))
      (λ _ s.
        (s.scopes ≡ read_store.scopes)
        ⊎ IsNamed world "door" fingerprint "aa" "Bob" read_store.scopes s)
      (assign_name world "door" fingerprint "aa" "Bob" read_store)
assign_name-Renamed_example =
    (assign_name-Renamed world "door" fingerprint "aa" "Bob" read_store.scopes).at read_store refl

assign_name-Unread_example :
    Post
      (λ _ _. ⊥)
      (λ _ s. s.scopes ≡ kept_store.scopes)
      (assign_name world "door" fingerprint "aa" "Bob" kept_store)
assign_name-Unread_example =
    (assign_name-Unread world "door" fingerprint "aa" "Bob" kept_store.scopes).at kept_store
      (kept_store-Stale, refl)

snapshot_in-AreBacked_example :
    AreBacked "prints" read_store
      (records_of (get "prints" read_store.scopes))
      (snapshot_in "prints" "door" fingerprint read_store).records
snapshot_in-AreBacked_example = snapshot_in-AreBacked "prints" "door" fingerprint read_store

-- a file whose one record has no valid reference
abbrev file : OnDisk
file = stored (record {
  scopes = ("prints", record { epoch = "e"; records = old_finger ∷ [] }) ∷ [];
  legacy_disabled = [];
})

empty_store-Holds : Holds false [] [] (record empty_store { loaded = false })
empty_store-Holds = record {
  held_loaded = refl;
  held_scopes = refl;
  held_disabled = refl;
  held_fresh = refl;
}

async_load-IsRestored_example :
    Post
      (IsLoaded world (λ n. ok file) (λ n. ok tt))
      (IsClosed world (λ n. ok file) (λ n. ok tt))
      (async_load world (λ n. ok file) (λ n. ok tt) (record empty_store { loaded = false }))
async_load-IsRestored_example =
    (async_load-IsRestored world (λ n. ok file) (λ n. ok tt)).at
      (record empty_store { loaded = false }) empty_store-Holds
