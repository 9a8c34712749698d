-- ===== src/Coordinator/Tasks.antt =====
-- The tasks that coordinator.py starts: for every lock at most one of each kind.
use ha_ttlock_ble.Base.{
  String, true, Option, none, some, is_some, List, [], ◌∷◌, ◌≡◌, refl, arith, Bool-cases, inl, inr,
}
use ha_ttlock_ble.Base.Texts.{add, get, put, discard, distinct, has-discard}
use ha_ttlock_ble.Coordinator.State.{
  Coordinator, Snapshot, Observation, PollResult, poll_raised, no_answer, observed, has_state,
  request_active_state_refresh, next_attribution, apply_authoritative_state, note_advertisement,
  begin_update, poll_answered, apply_advertisement,
}
use ha_ttlock_ble.Coordinator.Steps.{
  Step, updated, answered, published, advertised, merged, refresh_asked, log_done, retry_done,
  retried, stopped, step, steps, default_for, set_default, schedule_bootstrap_retry,
  schedule_operation_log, is_superseded, merge_state, merge_known, merge_result, log_task_done,
  retry_task_done, retry_turn, shut_down,
}

distinct-add : (x : String) (xs : List String) → distinct xs ≡ true → distinct (add x xs) ≡ true
unfolding add distinct
distinct-add x xs h = ground arith

distinct-discard :
    (x : String) (xs : List String) → distinct xs ≡ true → distinct (discard x xs) ≡ true
unfolding discard distinct
distinct-discard x [] h = h
distinct-discard x (y ∷ xs) h = ground (arith, distinct-discard x xs, has-discard y x xs)

-- at most one task of each kind runs for a lock
pub record IsSingle (c : Coordinator) : Type 0 where
  pub logs : distinct c.log_tasks ≡ true
  pub retries : distinct c.retry_tasks ≡ true

IsSingle-same :
    (c d : Coordinator)
    → (d.log_tasks ≡ c.log_tasks) × (d.retry_tasks ≡ c.retry_tasks)
    → IsSingle c
    → IsSingle d
IsSingle-same c d e p = record { logs = rw e.0 p.logs; retries = rw e.1 p.retries }

IsSingle-log :
    (mac : String) (c : Coordinator) → IsSingle c → IsSingle (schedule_operation_log mac c)
unfolding schedule_operation_log
IsSingle-log mac c p = record { logs = distinct-add mac c.log_tasks p.logs; retries = p.retries }

IsSingle-retry :
    (mac : String) (c : Coordinator) → IsSingle c → IsSingle (schedule_bootstrap_retry mac c)
unfolding schedule_bootstrap_retry
IsSingle-retry mac c p = elim (Bool-cases (has_state mac c)) [
  | inl known ↦ rw known p
  | inr unknown ↦
      rw unknown (record { logs = p.logs; retries = distinct-add mac c.retry_tasks p.retries })
]

IsSingle-default :
    (s : Option Snapshot) (mac : String) (c : Coordinator)
    → IsSingle c
    → IsSingle (default_for s mac c)
IsSingle-default none mac c p = record { logs = p.logs; retries = p.retries }
IsSingle-default (some s) mac c p = p

IsSingle-known :
    (mac : String) (o : Observation) (c : Coordinator) → IsSingle c → IsSingle (merge_known mac o c)
unfolding merge_known
IsSingle-known mac o c p =
    let merged : Coordinator = merge_state mac o.state c in
    let q : IsSingle merged = unfold merge_state in record { logs = p.logs; retries = p.retries } in
    elim (Bool-cases (is_some o.state.locked)) [
      | inl known ↦ rw known (
          IsSingle-log mac
            (record merged { attributions = put mac o.attribution merged.attributions })
            (record { logs = q.logs; retries = q.retries }))
      | inr unknown ↦ rw unknown q
    ]

IsSingle-result :
    (mac : String) (r : PollResult) (c : Coordinator) → IsSingle c → IsSingle (merge_result mac r c)
unfolding merge_result set_default
IsSingle-result mac poll_raised c p =
    IsSingle-retry mac (default_for (get mac c.states) mac c)
      (IsSingle-default (get mac c.states) mac c p)
IsSingle-result mac no_answer c p =
    IsSingle-retry mac (default_for (get mac c.states) mac c)
      (IsSingle-default (get mac c.states) mac c p)
IsSingle-result mac (observed o) c p =
    elim (Bool-cases (is_superseded (get mac c.attributions) o.attribution)) [
      | inl old ↦ rw old p
      | inr new ↦ rw new (IsSingle-known mac o c p)
    ]

IsSingle-step : (s : Step) (c : Coordinator) → IsSingle c → IsSingle (step s c)
unfolding step
IsSingle-step updated c p =
    IsSingle-same c (step updated c) (unfold step begin_update in (refl, refl)) p
IsSingle-step (answered mac none rssi now) c p = unfold poll_answered in p
IsSingle-step (answered mac (some answer) rssi now) c p =
    unfold poll_answered next_attribution in record { logs = p.logs; retries = p.retries }
IsSingle-step (published mac locked battery source rssi now) c p =
    unfold apply_authoritative_state next_attribution in
    record { logs = p.logs; retries = p.retries }
IsSingle-step (advertised mac a) c p =
    IsSingle-same c (step (advertised mac a) c)
      (unfold step apply_advertisement note_advertisement request_active_state_refresh in
        ground arith)
      p
IsSingle-step (merged mac r) c p = IsSingle-result mac r c p
IsSingle-step (refresh_asked mac) c p =
    IsSingle-same c (step (refresh_asked mac) c)
      (unfold step request_active_state_refresh in ground arith) p
IsSingle-step (log_done mac) c p =
    unfold log_task_done in
    record { logs = distinct-discard mac c.log_tasks p.logs; retries = p.retries }
IsSingle-step (retry_done mac) c p =
    unfold retry_task_done in
    record { logs = p.logs; retries = distinct-discard mac c.retry_tasks p.retries }
IsSingle-step (retried mac) c p =
    IsSingle-same c (step (retried mac) c)
      (unfold step retry_turn request_active_state_refresh in ground arith) p
IsSingle-step stopped c p = unfold shut_down distinct in record { logs = refl; retries = refl }

-- When at most one log task and one retry task run for every lock, so they do after any steps.
pub IsSingle-steps : (ss : List Step) (c : Coordinator) → IsSingle c → IsSingle (steps ss c)
unfolding steps
IsSingle-steps [] c p = p
IsSingle-steps (s ∷ ss) c p = IsSingle-steps ss (step s c) (IsSingle-step s c p)
