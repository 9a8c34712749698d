-- ===== src/AccessRecords/Reconcile.antt =====
-- The reconciliation of access_records.py, whole: tickets, guards, the pass over the inventory and its end.
use ha_ttlock_ble.Base.{
  ℕ, suc, ◌+◌, String, Bool, not, ◌||◌, Option, none, some, List, [], ◌∷◌, length, ltb,
  if◌then◌else◌,
}
use ha_ttlock_ble.Base.Texts.{get, put}
use ha_ttlock_ble.Base.Errors.{value_error, other}
use ha_ttlock_ble.Base.Exec.{Exec, ok, pure, raise, gets, modify, ◌>>=◌, ◌>>◌}
use ha_ttlock_ble.AccessRecords.State.{
  max_records, Method, PrivateRecord, Scope, Item, Inventory, Store, World, is_pin,
  mark_scope_stale, mark_all_stale, is_current, last_position, Pass, note_item, retire, unconfirm,
  any_foreign, unsupported,
}

module _ (world : World) where
  -- an await: time passes and other tasks may mark scopes stale
  unfoldable pub await : Exec Store (Unit {0})
  await s = (
    ok tt,
    mark_all_stale (world.marks s.steps)
        (record s { now = s.now + world.elapsed s.steps; steps = suc s.steps }),
  )

  -- `_save`
  unfoldable pub save : Exec Store (Unit {0})
  save = do
    raises ← gets (λ (s : Store). world.save_raises s.steps)
    await
    if raises
        then raise other
        else modify (λ s. record s {
          saved = some (record { scopes = s.scopes; legacy_disabled = s.legacy_disabled });
        })

  -- `_scope`
  abbrev pub scope_of : String → Method → Exec Store String
  scope_of lock unsupported = raise value_error
  scope_of lock method = pure (world.scope_name lock method)

  -- an item whose base is known: its position is looked up in the records as they were
  abbrev pub note_base : Method → List PrivateRecord → Item → Option String → Pass → Option Pass
  note_base method before item none p = none
  note_base method before item (some base) p = some (
      note_item (world.token_hex p.drawn) base item (last_position (is_pin method) base 0 before) p)

  abbrev pub and_then : Option Pass → (Pass → Option Pass) → Option Pass
  and_then none k = none
  and_then (some p) k = k p

  -- the loop over the items
  unfoldable pub note_items :
      String → Method → String → List PrivateRecord → List Item → Pass → Option Pass
  note_items lock method epoch before [] p = some p
  note_items lock method epoch before (item ∷ items) p =
      and_then
        (note_base method before item
          (world.token lock method epoch item.record_type item.identifier) p)
        (λ q. note_items lock method epoch before items q)

  abbrev pub or_new : Option Scope → String → Scope
  or_new none epoch = record { epoch = epoch; records = [] }
  or_new (some scope) epoch = scope

  -- `setdefault` draws an epoch whether or not it is needed
  unfoldable pub open_scope : String → Store → Store
  open_scope scope s = record s {
    scopes = put scope (or_new (get scope s.scopes) (world.token_hex s.drawn)) s.scopes;
    drawn = suc s.drawn;
  }

  -- what is written once every item was noted
  unfoldable pub settle_pass : String → Method → String → Option ℕ → Pass → Exec Store (Unit {0})
  settle_pass scope method epoch ticket p = do
    let records = retire (is_pin method) p.seen p.records
    modify (λ s. record s { drawn = p.drawn; confirmed = unconfirm p.seen p.records s.confirmed })
    if ltb max_records (length records) then raise value_error else (do
      modify (λ s. record s {
        scopes = put scope (record { epoch = epoch; records = records }) s.scopes;
      })
      save
      current ← gets (is_current scope ticket)
      if current
          then modify (λ s. record s {
            observed = put scope p.observed s.observed;
            fresh = put scope s.now s.fresh;
          })
          else pure tt)

  abbrev pub settle_noted :
      String → Method → String → Option ℕ → Option Pass → Exec Store (Unit {0})
  settle_noted scope method epoch ticket none = raise value_error
  settle_noted scope method epoch ticket (some p) = settle_pass scope method epoch ticket p

  -- the body under the lock
  unfoldable pub reconcile_locked :
      String → String → Method → Option ℕ → Inventory → Exec Store (Unit {0})
  reconcile_locked scope lock method ticket inventory = do
    await
    current ← gets (is_current scope ticket)
    if not current then pure tt else (do
      modify (open_scope scope)
      s ← gets (λ (s : Store). s)
      let state = or_new (get scope s.scopes) ""
      settle_noted scope method state.epoch ticket (
          note_items lock method state.epoch state.records inventory.records
            (record { records = state.records; seen = []; observed = []; drawn = s.drawn })))

  -- the ticket of a read, or a new one
  abbrev pub ticket_of : String → Option ℕ → Exec Store (Option ℕ)
  ticket_of scope none = do
    modify (mark_scope_stale scope)
    gets (λ (s : Store). get scope s.revision)
  ticket_of scope (some n) = pure (some n)

  -- `async_reconcile` in a scope
  unfoldable pub reconcile_in :
      String → String → Method → Inventory → Bool → Option ℕ → Exec Store (Unit {0})
  reconcile_in scope lock method inventory cleaned revision = do
    ticket ← ticket_of scope revision
    s ← gets (λ (s : Store). s)
    if not s.loaded || not (is_current scope ticket s)
        then pure tt
        else (if not cleaned || not inventory.records_complete
            then pure tt
            else (if any_foreign method inventory.records
                then raise value_error
                else (if ltb max_records (length inventory.records)
                    then raise value_error
                    else reconcile_locked scope lock method ticket inventory)))

  unfoldable pub reconcile : String → Method → Inventory → Bool → Option ℕ → Exec Store (Unit {0})
  reconcile lock method inventory cleaned revision = do
    scope ← scope_of lock method
    reconcile_in scope lock method inventory cleaned revision
