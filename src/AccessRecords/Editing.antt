-- ===== src/AccessRecords/Editing.antt =====
-- What the administrator does to the private records of access_records.py: name, reset, disable, remove;
-- and the snapshot that is shown.
use ha_ttlock_ble.Base.{
  ℕ, ◌+◌, ◌-◌, String, Bool, false, not, ◌&&◌, ◌||◌, Option, none, some, is_some, List, [], ◌∷◌,
  ltb, if◌then◌else◌, str_eq,
}
use ha_ttlock_ble.Base.Texts.{has, add, get, put, pop, discard}
use ha_ttlock_ble.Base.Errors.{value_error, other}
use ha_ttlock_ble.Base.Exec.{Exec, pure, raise, gets, modify, ◌>>=◌, ◌>>◌}
use ha_ttlock_ble.AccessRecords.State.{
  Method, PrivateRecord, Scope, Store, World, is_pin, mark_scope_stale, or_no_texts,
}
use ha_ttlock_ble.AccessRecords.Reconcile.{await, save, scope_of}
use ha_ttlock_ble.AccessRecords.Names.{strip, is_bad_name}

abbrev pub fresh_seconds : ℕ
fresh_seconds = 300

-- A row of `snapshot`; what it says of a schedule, an identity or a revocation is never verified.
pub data Seen : Type 0 where
  observed_now not_observed previously_observed_unverified : Seen

pub record Row : Type 0 where
  pub reference : String
  pub name : String
  pub record_type : String
  pub validity : String
  pub schedule_verified : Bool
  pub identity_verified : Bool
  pub present : Option Bool
  pub observation : Seen
  pub revocation_verified : Bool
  pub limited_pin_coverage : Bool
  pub stale : Bool
  pub alias_confirmed_this_session : Bool

pub record Shown : Type 0 where
  pub fresh : Bool
  pub records : List Row
  pub legacy_pin_writes_disabled : Bool

abbrev pub within : ℕ → Option ℕ → Bool
within now none = false
within now (some t) = ltb (now - t) fresh_seconds

-- `fresh`, as `snapshot` computes it
unfoldable pub is_fresh : String → Store → Bool
is_fresh scope s = within s.now (get scope s.fresh)

unfoldable pub is_observed : String → String → Store → Bool
is_observed scope reference s = has reference (or_no_texts (get scope s.observed))

unfoldable pub row : Bool → Bool → String → Store → PrivateRecord → Row
unfolding is_observed
row fresh pin scope s r = record {
  reference = r.reference;
  name = r.alias;
  record_type = r.record_type;
  validity = r.validity;
  schedule_verified = false;
  identity_verified = false;
  present = if fresh then some (is_observed scope r.reference s) else none;
  observation =
      if fresh
      then (if is_observed scope r.reference s then observed_now else not_observed)
      else previously_observed_unverified;
  revocation_verified = false;
  limited_pin_coverage = pin;
  stale = not fresh || not (is_observed scope r.reference s);
  alias_confirmed_this_session = has r.reference s.confirmed;
}

abbrev pub records_of : Option Scope → List PrivateRecord
records_of none = []
records_of (some scope) = scope.records

abbrev pub rows : Bool → Bool → String → Store → List PrivateRecord → List Row
rows fresh pin scope s [] = []
rows fresh pin scope s (r ∷ rs) = row fresh pin scope s r ∷ rows fresh pin scope s rs

-- `snapshot` of a scope
unfoldable pub snapshot_in : String → String → Method → Store → Shown
unfolding is_fresh
snapshot_in scope lock method s = record {
  fresh = is_fresh scope s;
  records = rows (is_fresh scope s) (is_pin method) scope s (records_of (get scope s.scopes));
  legacy_pin_writes_disabled = has lock s.legacy_disabled;
}

-- The record that a name is for: the first that is active under the reference.
unfoldable pub can_name : String → List PrivateRecord → Bool
can_name reference [] = false
can_name reference (r ∷ rs) = (str_eq r.reference reference && r.active) || can_name reference rs

unfoldable pub write_name : String → String → List PrivateRecord → List PrivateRecord
write_name reference name [] = []
write_name reference name (r ∷ rs) =
    let rest = write_name reference name rs in
    if str_eq r.reference reference && r.active then record r { alias = name } ∷ rs else r ∷ rest

abbrev pub named_scope : String → String → Option Scope → Scope
named_scope reference name none = record { epoch = ""; records = [] }
named_scope reference name (some scope) = record scope {
  records = write_name reference name scope.records;
}

abbrev pub bump : List (String × ℕ) → List (String × ℕ)
bump [] = []
bump ((scope, n) ∷ d) = (scope, n + 1) ∷ bump d

abbrev pub unconfirm_all : List PrivateRecord → List String → List String
unconfirm_all [] confirmed = confirmed
unconfirm_all (r ∷ rs) confirmed = unconfirm_all rs (discard r.reference confirmed)

module _ (world : World) where
  unfoldable pub snapshot : String → Method → Exec Store Shown
  snapshot lock method = do scope ← scope_of world lock method; gets (snapshot_in scope lock method)

  -- the loop of `async_name`: the name is written before it is saved
  unfoldable pub name_found : String → String → String → Exec Store (Unit {0})
  name_found scope reference name = do
    found ← gets (λ (s : Store).
        can_name reference (records_of (get scope s.scopes)) && is_observed scope reference s)
    if not found then raise value_error else (do
      modify (λ s. record s {
        scopes = put scope (named_scope reference (strip name) (get scope s.scopes)) s.scopes;
      })
      save world
      modify (λ s. record s { confirmed = add reference s.confirmed }))

  -- the body of `async_name` under the lock
  unfoldable pub name_locked : String → String → String → Exec Store (Unit {0})
  name_locked scope reference name = do
    await world
    fresh ← gets (is_fresh scope)
    if not fresh then raise value_error else (do
      known ← gets (λ (s : Store). is_some (get scope s.scopes))
      if not known then raise other else name_found scope reference name)

  -- `async_name`
  unfoldable pub assign_name : String → Method → String → String → Exec Store (Unit {0})
  assign_name lock method reference name =
      if is_bad_name name
      then raise value_error
      else (do scope ← scope_of world lock method; name_locked scope reference name)

  -- `async_reset`: the body under the lock
  unfoldable pub reset_locked : String → Exec Store (Unit {0})
  reset_locked scope = do
    await world
    modify (λ s. record s {
      scopes = pop scope s.scopes;
      confirmed = unconfirm_all (records_of (get scope s.scopes)) s.confirmed;
    })
    modify (mark_scope_stale scope)
    save world

  unfoldable pub reset : String → Method → Exec Store (Unit {0})
  reset lock method = do scope ← scope_of world lock method; reset_locked scope

  -- `async_set_legacy_disabled`
  unfoldable pub set_legacy_disabled : String → Bool → Exec Store (Unit {0})
  set_legacy_disabled lock disabled = do
    await world
    updated ← gets (λ (s : Store).
        if disabled then add lock s.legacy_disabled else discard lock s.legacy_disabled)
    raises ← gets (λ (s : Store). world.save_raises s.steps)
    await world
    if raises then raise other else (do
      modify
          (λ s. record s { saved = some (record { scopes = s.scopes; legacy_disabled = updated }) })
      modify (λ s. record s { legacy_disabled = updated }))

  -- `async_remove`; the removal of the files may raise
  unfoldable pub remove_all : Exec Store (Unit {0})
  remove_all = do
    await world
    modify (λ s. record s {
      revision = bump s.revision;
      fresh = [];
      observed = [];
      confirmed = [];
      scopes = [];
      legacy_disabled = [];
      loaded = false;
    })
    raises ← gets (λ (s : Store). world.save_raises s.steps)
    await world
    if raises then raise other else (do
      modify (λ s. record s { saved = none })
      key_raises ← gets (λ (s : Store). world.save_raises s.steps)
      await world
      if key_raises then raise other else pure tt)
