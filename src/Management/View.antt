-- ===== src/Management/View.antt =====
-- The view of management_http.py: what a request does to the records, and the status that it is answered with.
use ha_ttlock_ble.Base.{
  ℕ, String, Bool, true, false, not, ◌&&◌, Option, none, some, List, if◌then◌else◌,
}
use ha_ttlock_ble.Base.Texts.{has, get}
use ha_ttlock_ble.Base.Errors.{Exc, value_error, timeout, cancelled}
use ha_ttlock_ble.Base.Exec.{Exec, Result, pure, raise, gets, modify, lift, catch, ◌>>=◌, ◌>>◌}
use ha_ttlock_ble.AccessRecords.State.{
  Method, keypad_pin, fingerprint, ic_card, unsupported, Inventory, Store, World, mark_scope_stale,
}
use ha_ttlock_ble.AccessRecords.Reconcile.{await, scope_of, reconcile}
use ha_ttlock_ble.AccessRecords.Editing.{Shown, snapshot, assign_name, set_legacy_disabled}
use ha_ttlock_ble.AccessRecords.Editing.{reset as forget_labels}
use ha_ttlock_ble.Services.Inventory as ServicesInventory
use ha_ttlock_ble.Services.Inventory.{InventoryResult, Response, inventory_response}
use ha_ttlock_ble.Management.{
  Data, Action, list_locks, read, name, reset, legacy, Value, Request, authorized, validated,
}
use ha_ttlock_ble.Management.Body.{BodyRead, body, refused, out_of_fuel, read_body}

-- What is seen of a config entry.
pub record EntryView : Type 0 where
  pub is_ours : Bool
  pub is_loaded : Bool
  pub has_records : Bool
  pub locks : List String

pub record LockRow : Type 0 where
  pub entry_id : String
  pub lock : String
  pub name : String
  pub admin_key_available : Bool

-- What is outside: the JSON parser, the entries, the locks that are listed, how a read of the lock ends, and
-- whether the connection's diagnostics then confirm its teardown.
pub record Desk : Type 0 where
  pub parse_json : List ℕ → Option (List (String × Value))
  pub entry : String → Option EntryView
  pub locks : List LockRow
  pub admin_read : ℕ → Result (Inventory × InventoryResult)
  pub cleanup_confirmed : ℕ → Bool

-- The body of an answer with status 200.
pub data Answer : Type 0 where
  locks_of : List LockRow → Answer
  records_of : Option Response → Shown → Answer

-- The status: 403, 200, 400 or 503.
pub data Reply : Type 0 where
  denied : Reply
  answered : Answer → Reply
  invalid_request : Reply
  failed : Reply

abbrev pub is_target : String → Option EntryView → Bool
is_target lock none = false
is_target lock (some e) = e.is_ours && e.is_loaded && e.has_records && has lock e.locks

abbrev pub shown_method : Method → ServicesInventory.Method
shown_method keypad_pin = ServicesInventory.keypad_pin
shown_method fingerprint = ServicesInventory.fingerprint
shown_method ic_card = ServicesInventory.ic_card
shown_method unsupported = ServicesInventory.keypad_pin

module _ (world : World) (desk : Desk) where
  -- `mark_stale`, and its ticket
  unfoldable pub mark_stale : String → Method → Exec Store (Option ℕ)
  mark_stale lock method = do
    scope ← scope_of world lock method
    modify (mark_scope_stale scope)
    gets (λ (s : Store). get scope s.revision)

  -- the action `read`
  unfoldable pub read_records : Data → Exec Store (Option Response)
  read_records d = do
    revision ← mark_stale d.lock d.method
    n ← gets (λ (s : Store). s.steps)
    await world
    found ← lift (desk.admin_read n)
    reconcile world d.lock d.method found.0 (desk.cleanup_confirmed n) revision
    pure (some (inventory_response (shown_method d.method) found.1))

  -- the action on the records of the target
  unfoldable pub act : Action → Data → Exec Store (Option Response)
  act read d = read_records d
  act name d = do assign_name world d.lock d.method d.reference d.label; pure none
  act reset d = do forget_labels world d.lock d.method; pure none
  act legacy d = do set_legacy_disabled world d.lock d.disabled; pure none
  act _ d = pure none

  abbrev pub is_list : Action → Bool
  is_list list_locks = true
  is_list _ = false

  -- `_dispatch`, with `_target`
  unfoldable pub dispatch : Data → Exec Store Answer
  dispatch d =
      if is_list d.action
      then pure (locks_of desk.locks)
      else (if not (is_target d.lock (desk.entry d.entry_id)) then raise value_error else (do
        response ← act d.action d
        shown ← snapshot world d.lock d.method
        pure (records_of response shown)))

  -- `_body`: the data of a request, none where it raises ValueError
  abbrev pub data_of : BodyRead → Option Data
  data_of (body raw) = validated (desk.parse_json raw)
  data_of refused = none
  data_of out_of_fuel = none

  unfoldable pub request_data : Request → Option Data
  request_data r = data_of (read_body r)

  abbrev pub dispatch_data : Option Data → Exec Store Answer
  dispatch_data none = raise value_error
  dispatch_data (some d) = dispatch d

  -- the `except` clauses
  abbrev pub post_failed : Exc → Exec Store Reply
  post_failed value_error = pure invalid_request
  post_failed timeout = pure invalid_request
  post_failed cancelled = raise cancelled
  post_failed _ = pure failed

  unfoldable pub handled : Option Data → Exec Store Reply
  handled d = catch (do answer ← dispatch_data d; pure (answered answer)) post_failed

  -- `post`
  unfoldable pub post : Request → Exec Store Reply
  post r = if not (authorized r) then pure denied else handled (request_data r)
