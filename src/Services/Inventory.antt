-- ===== src/Services/Inventory.antt =====
-- The answer of `get_access_inventory` of services.py: counts and classified validity of what was read, with the
-- diagnostics of the connection.
use ha_ttlock_ble.Base.{
  ℕ, ◌+◌, String, Bool, true, false, not, ◌||◌, ◌==◌, Option, none, some, List, [], ◌∷◌, length,
  if◌then◌else◌, is_some,
}
use ha_ttlock_ble.Base.Texts.{get, put}
use ha_ttlock_ble.Base.Errors.{Stage, queue, cleanup_stage, inventory, AccessFailure, cleanup}

-- The methods that the schema admits.
pub data Method : Type 0 where
  keypad_pin fingerprint ic_card : Method

-- The SDK's `InventoryResult`; a reason but COMPLETE is a number.
pub record InventoryResult : Type 0 where
  pub entries : List String
  pub reason : Option ℕ
  pub complete : Bool
  pub skipped_unknown : ℕ
  pub transport_interrupted : Bool

-- How the read of the connection ends: a result, an error of the SDK or the integration, or any other.
pub data ReadEnd : Type 0 where
  was_read : InventoryResult → ReadEnd
  known_error : (reason : ℕ) → Stage → ReadEnd
  any_error : ReadEnd

pub data ReadStatus : Type 0 where
  supported partial unverified : ReadStatus

pub data Reason : Type 0 where
  complete incomplete_inventory admin_key_required read_failed cleanup_uncertain : Reason
  sdk_reason : ℕ → Reason

pub data Where : Type 0 where
  at_admin : Where
  at : Stage → Where

-- The counts of a read, without the fields that do not depend on it.
pub record Counts : Type 0 where
  pub count : ℕ
  pub validity_counts : List (String × ℕ)
  pub enumeration_complete : Bool
  pub transport_interrupted : Bool
  pub skipped_unknown_layouts : ℕ
  pub create_supported : Bool
  pub delete_supported : Bool

pub record Response : Type 0 where
  pub method : Method
  pub read_status : ReadStatus
  pub reason : Reason
  pub stage : Where
  pub counts : Option Counts

abbrev pub is_pin : Method → Bool
is_pin keypad_pin = true
is_pin _ = false

abbrev pub or_zero : Option ℕ → ℕ
or_zero none = 0
or_zero (some n) = n

-- the loop over the entries
unfoldable pub count_validity : List String → List (String × ℕ) → List (String × ℕ)
count_validity [] counts = counts
count_validity (v ∷ vs) counts = count_validity vs (put v (or_zero (get v counts) + 1) counts)

-- a PIN inventory, an unfinished one, or one with layouts that were skipped
abbrev pub is_partial : Method → InventoryResult → Bool
is_partial m r = is_pin m || not r.complete || not (r.skipped_unknown == 0)

abbrev pub reason_of : Option ℕ → Bool → Reason
reason_of (some n) partial_read = sdk_reason n
reason_of none partial_read = if partial_read then incomplete_inventory else complete

abbrev pub counts_of : Method → InventoryResult → Counts
counts_of m r = record {
  count = length r.entries;
  validity_counts = count_validity r.entries [];
  enumeration_complete = r.complete;
  transport_interrupted = r.transport_interrupted;
  skipped_unknown_layouts = r.skipped_unknown;
  create_supported = is_pin m;
  delete_supported = is_pin m;
}

-- `_inventory_response`
unfoldable pub inventory_response : Method → InventoryResult → Response
inventory_response m r = record {
  method = m;
  read_status = if is_partial m r || r.transport_interrupted then partial else supported;
  reason = reason_of r.reason (is_partial m r);
  stage = at inventory;
  counts = some (counts_of m r);
}

abbrev pub unverified_at : Method → Reason → Where → Response
unverified_at m reason stage = record {
  method = m;
  read_status = unverified;
  reason = reason;
  stage = stage;
  counts = none;
}

-- `_with_connection_diagnostics`: the failure that the connection's diagnostics name, none if they are empty
abbrev pub is_cleanup : Option AccessFailure → Bool
is_cleanup (some cleanup) = true
is_cleanup _ = false

unfoldable pub with_connection_diagnostics : Option AccessFailure → Response → Response
with_connection_diagnostics failure r =
    if is_cleanup failure
    then record r {
      reason = cleanup_uncertain;
      stage = at cleanup_stage;
      read_status = if is_some r.counts then partial else r.read_status;
    }
    else r

abbrev pub is_queue : Stage → Bool
is_queue queue = true
is_queue _ = false

-- `_async_get_access_inventory`, once the connection was found
unfoldable pub get_access_inventory : Method → Bool → ReadEnd → Option AccessFailure → Response
unfolding with_connection_diagnostics inventory_response
get_access_inventory m false ended failure = unverified_at m admin_key_required at_admin
get_access_inventory m true any_error failure = unverified_at m read_failed (at inventory)
get_access_inventory m true (known_error n stage) failure =
    let r = unverified_at m (sdk_reason n) (at stage) in
    if is_queue stage then r else with_connection_diagnostics failure r
get_access_inventory m true (was_read result) failure =
    with_connection_diagnostics failure (inventory_response m result)
