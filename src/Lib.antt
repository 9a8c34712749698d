-- ===== src/Lib.antt =====
-- ha-ttlock-ble: a Home Assistant integration that drives TTLock smart locks over Bluetooth Low Energy.
--
-- The program (custom_components/ttlock_ble) keeps one `TtlockBleConnection` per lock. It acquires a BLE
-- link through Home Assistant's Bluetooth stack, runs the SDK's exchanges on it, tells the rest of the
-- integration through dispatcher signals what happened, and lets a client go only when its teardown is
-- certain. `TtlockBleClient` wraps the SDK's client for the two bolt commands, so that a failure before a
-- physical write is told apart from an unknown outcome. `TtlockBleLogHistory` keeps the operation log of a
-- lock from being replayed as live activity.
--
-- Files and what they model:
--   Base            shared names, tests, lists over native numbers, sets of texts, the exceptions of
--                   exceptions/, access.py and client.py, and the monad of methods (Base/Exec) with its
--                   Hoare triples (Base/Exec/Triple). State written before a raise stays written.
--   LogHistory      log_history.py: `classify` entry by entry, and in Storage `async_load`, `async_save` and
--                   `_serialize`; Journal and Replay prove its invariant and what it hands on.
--   Client          client.py: `_ha_run_control` and the methods of the SDK that the class overrides. The
--                   SDK's `_check_user_time` and `_control_lock` are scripts of what they do to those
--                   methods. Outcome proves what an exception says of the write, Gate that a
--                   control that is refused writes nothing.
--   Connection      connection.py. State holds the fields of the object and the environment; Candidate the
--                   choice of a route and the active scan; Cleanup the teardown; Acquire
--                   `_async_ensure_connected_locked`; Command the bolt commands and their reconciliation;
--                   Inventory the access inventory; Requests queries, management, operation log, start,
--                   stop and the maintenance loop. Ownership, Teardown, Certain, Torn, Connecting, Acquiring,
--                   Rounds, Frame, Signals, Wire and the child modules of Command, Inventory and
--                   Requests hold the proofs.
--   Coordinator     coordinator.py: observations and their revisions (State), polls and tasks as steps
--                   between two awaits (Steps); Register and Order give the abstract register of the newest observation, Newest
--                   the refinement, Known and Tasks what is never lost and never doubled.
--   LockEntity      lock.py: transitional states (Flags) and the settle window after a command (Settling).
--   AccessRecords   access_records.py: the private records (State) and their reconciliation with an
--                   inventory (Reconcile); Retention and Keeping prove
--                   what is kept of them, Freshness when a scope counts as fresh.
--                   Names and Editing hold the snapshot, naming, reset, the legacy switch and removal;
--                   Forgetting and Naming prove what they change, Showing what a snapshot says. Loading holds
--                   the schemas of the stored file and proves what a restart takes over.
--   ManualKey       manual_key.py: `async_validate`, `build` and `defaults_from`. Address and RoundTrip prove the
--                   way of a key through the form and back, ShortKeys what tabs inside a key do.
--   CloudClient     api.py: the calls of the cloud and `_classify_cloud_error`.
--   ConfigFlow      config_flow.py: the helpers of the dialogs, and in Steps the steps themselves. Apart
--                   describes the collision check, Vetted what is stored, Asked proves it of every step.
--   Services        services.py: the actions, and in Inventory the answer of `get_access_inventory`. Allowed
--                   and Writes prove what an action sends and to which lock, Honest what an answer claims.
--   Management      management_http.py: authorization and schemas; Body reads the request, View dispatches it
--                   onto the private records, Earned proves when a scope becomes fresh by it.
--   Events          event.py: the record tables and `_on_log_entry`; Tables shows that they do not overlap.
--   Credentials     credential_references.py: the private key, and the material of a reference, which Material
--                   proves to tell its parts apart.
--   Setup           __init__.py and options_flow.py: the setup of an entry and its callbacks; Unload proves what
--                   they do to the locks, Form that the options form shows what the setup uses.
--   Tracker         advertisement.py: what the tracker hands on to the coordinator.
--   Examples        concrete sessions, journals, entities, entries, forms and requests.
--
-- How the outside is modelled: `Env` answers each question that the object asks of Home Assistant or of
-- the SDK as a function of how often the object has awaited, so every sequence of answers is covered. At
-- each await time passes and any list of interrupts runs: a callback of the link, a push event, a stop, or
-- another explicit command that begins or ends. Methods that hold the object's lock do not run beside one
-- another. Times are milliseconds of the monotonic clock. A BLE device, a push event and the result of a
-- management command are numbers.
--
-- The loop of the acquisition runs on fuel 2, which is shown to be enough: once the one active scan is
-- spent, a round ends the loop. The other loops are structural, over the entries of a log, the acts of a
-- script, the cancellations that reach a caller, or the turns of the maintenance loop. The body of a request
-- is read on fuel of one read for each byte within the limit and two more: every read but the last gives a byte.
--
-- An exchange of the SDK is assumed to be documented where a property says so (`IsDocumented`): the handshake
-- sends and awaits only the check-user-time command, the exchange after it only the control command, and
-- neither raises the integration's own exception for an unknown outcome.
--
-- Texts that are only compared are native strings; where the program takes a text apart (Base/Codes), it is
-- a list of code points, and what Unicode says beyond ASCII is a parameter. UTF-8, hashes, dates, JSON and
-- URLs are parameters. A dialog asks for an entry to be stored and does not store it itself: Home Assistant
-- does, between two awaits.
--
-- Not modelled: log messages; the text of exceptions; the tasks of asyncio beyond the interleavings above;
-- the schemas that draw a form, the registration of actions and views, the sensor entities and the
-- diagnostics, which are listed with their reasons in the manifest of the development.
pub mod Base
pub mod LogHistory
pub mod Client
pub mod Connection
pub mod Coordinator
pub mod LockEntity
pub mod AccessRecords
pub mod ManualKey
pub mod CloudClient
pub mod ConfigFlow
pub mod Services
pub mod Management
pub mod Events
pub mod Credentials
pub mod Setup
pub mod Tracker
pub mod Examples
