-- ===== src/Examples/Requests.antt =====
-- The properties of the actions, the administrator's requests and the events, at one lock.
use ha_ttlock_ble.Base.{zero, suc, true, false, none, some, [], ◌∷◌, List, ℕ, ◌≡◌, refl, All, ◌↔◌}
use ha_ttlock_ble.Base.Texts.{has}
use ha_ttlock_ble.Base.Codes.{codes}
use ha_ttlock_ble.Base.Errors.{cleanup}
use ha_ttlock_ble.Base.Exec.{ok}
use ha_ttlock_ble.Base.Exec.Triple.{Post}
use ha_ttlock_ble.AccessRecords.State.{fingerprint}
use ha_ttlock_ble.Services.{Host, Call, Bus, permanent, period, add_passcode_action, handle}
use ha_ttlock_ble.Services.Writes.{One, AtMostOne, handle-MaySend}
use ha_ttlock_ble.Services.Inventory
use ha_ttlock_ble.Services.Inventory.{InventoryResult, get_access_inventory, was_read}
use ha_ttlock_ble.Services.Honest.{IsHonest, get_access_inventory-IsHonest}
use ha_ttlock_ble.Management.{validated, field, based, all_known, Request, Url, Data, read, words}
use ha_ttlock_ble.Management.Body.{read_chunks, IsBounded, read_body, read_body-IsBounded}
use ha_ttlock_ble.Management.View.{Desk, post, request_data}
use ha_ttlock_ble.Management.Earned.{IsEarned, post-IsEarned}
use ha_ttlock_ble.Events.{Names, LogEntry, event_tables, method_types, is_in, on_log_entry}
use ha_ttlock_ble.Events.Tables.{on_log_entry-tables}
use ha_ttlock_ble.Examples.Records.{world, finger, kept_store, kept_store-Stale}

abbrev host : Host
host = record {
  domain = "ttlock_ble";
  device = λ i. some (("ttlock_ble", "aa") ∷ []);
  entries = record { loaded = true; connections = ("aa", 3) ∷ []; records = some [] } ∷ [];
  format_mac = λ m. m;
  other_digit = λ c. false;
  parse_datetime = λ t. some (record { aware = has t ("zoned" ∷ []); wall = 7 });
  as_local = λ n. n;
  format_date = λ n. "2601010000";
  reply = λ n. ok 0;
}

abbrev call : Call
call = record {
  device_id = "front";
  code = codes "1234";
  passcode_type = period;
  start = some "zoned";
  end = some "plain";
  seconds = 0;
}

abbrev lasting : Call
lasting = record call { passcode_type = permanent }

abbrev idle : Bus
idle = record { sent = [] }

handle-MaySend_example :
    Post
      (λ _. One host add_passcode_action lasting [])
      (AtMostOne host add_passcode_action lasting [])
      (handle host add_passcode_action lasting idle)
handle-MaySend_example = (handle-MaySend host add_passcode_action lasting []).at idle refl

abbrev cards : InventoryResult
cards = record {
  entries = "permanent" ∷ "period" ∷ "permanent" ∷ [];
  reason = none;
  complete = true;
  skipped_unknown = 0;
  transport_interrupted = false;
}

get_access_inventory-IsHonest_example :
    IsHonest Inventory.ic_card cards
      (some cleanup)
      (get_access_inventory Inventory.ic_card true (was_read cards) (some cleanup))
get_access_inventory-IsHonest_example =
    get_access_inventory-IsHonest Inventory.ic_card cards (some cleanup)

abbrev here : Url
here = record { scheme = "https"; raw_host = "home"; port = 8123; is_origin = true }

-- the reads of a body of two bytes
abbrev chunk : ℕ → ℕ → List ℕ
chunk zero k = 123 ∷ 125 ∷ []
chunk (suc n) k = []

-- An administrator's request whose body is one chunk.
abbrev request : Request
request = record {
  user = some (record { id = "ann"; is_active = true; is_admin = true; system_generated = false });
  token = some (record { user_id = "ann"; is_normal = true });
  authorization = "Bearer x";
  has_query = false;
  origin = some here;
  url = here;
  admin_header = some "1";
  fetch_site = none;
  content_type = "application/json";
  content_length = none;
  content = chunk;
}

abbrev desk : Desk
desk = record {
  parse_json = λ raw. some (
      ("action", words "read")
      ∷ ("entry_id", words "e1")
      ∷ ("lock", words "door")
      ∷ ("method", words "fingerprint")
      ∷ []);
  entry = λ i.
      some (record { is_ours = true; is_loaded = true; has_records = true; locks = "door" ∷ [] });
  locks = [];
  admin_read = λ n. ok (finger, cards);
  cleanup_confirmed = λ n. true;
}

abbrev wanted : Data
wanted = record {
  action = read;
  entry_id = "e1";
  lock = "door";
  method = fingerprint;
  reference = "";
  label = "";
  disabled = false;
}

request-data : request_data world desk request ≡ some wanted
unfolding request_data read_body read_chunks validated field based all_known has
request-data = refl

post-IsEarned_example :
    Post
      (λ _. IsEarned world desk wanted request)
      (λ _. IsEarned world desk wanted request)
      (post world desk request kept_store)
post-IsEarned_example =
    (post-IsEarned world desk wanted request request-data).at kept_store kept_store-Stale

read_body-IsBounded_example : IsBounded (read_body request)
read_body-IsBounded_example = read_body-IsBounded request

abbrev names : Names
names = record { log_operate = λ n. some "FR_LOCK"; lower = λ t. t; decimal = λ n. "0" }

abbrev entry : LogEntry
entry = record {
  record_type = 33;
  lock_battery = 80;
  operate_date = none;
  uid = none;
  key_id = none;
  accessory_battery = none;
  password = none;
}

on_log_entry-tables_example :
    All
      (λ t.
        ((on_log_entry names entry).0 ≡ t.0)
        ↔ (is_in (names.log_operate entry.record_type) t.1 ≡ true))
      event_tables
    × All
        (λ t.
          ((on_log_entry names entry).1.method ≡ t.0)
          ↔ (is_in (names.log_operate entry.record_type) t.1 ≡ true))
        method_types
on_log_entry-tables_example = on_log_entry-tables names entry
