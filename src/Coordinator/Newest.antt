-- ===== src/Coordinator/Newest.antt =====
-- Over any sequence of steps, coordinator.py shows of every lock the newest observation.
use ha_ttlock_ble.Base.{
  ℕ, ◌+◌, String, Option, none, some, List, [], ◌∷◌, ◌≡◌, refl, ap, ◌∙◌, arith,
}
use ha_ttlock_ble.Base.Int.{ℤ}
use ha_ttlock_ble.Base.Texts.{get}
use ha_ttlock_ble.Coordinator.State.{
  Coordinator, PollResult, poll_raised, no_answer, observed, or_zero, next_revision,
  request_active_state_refresh, next_attribution, begin_update, poll_answered,
}
use ha_ttlock_ble.Coordinator.Steps.{
  Step, updated, answered, published, advertised, merged, refresh_asked, log_done, retry_done,
  retried, stopped, step, steps, set_default, schedule_bootstrap_retry, merge_result, log_task_done,
  retry_task_done, retry_turn, shut_down,
}
use ha_ttlock_ble.Coordinator.Register.{
  Register, written, written_result, write_for, register, IsOrdered, IsMergeable, register-publish,
  register-advertise, register-default, register-merge,
}
use ha_ttlock_ble.Coordinator.Order.{
  SameOrder, IsOrdered-same, register-same, IsOrdered-count, IsOrdered-publish, IsOrdered-refresh,
  IsOrdered-advertise, IsOrdered-result,
}

abbrev pub Answer : Type 0
Answer = Option (Option ℕ × Option ℕ)

IsOrdered-answer :
    (mac : String) (answer : Answer) (rssi : Option ℤ) (now : ℕ) (c : Coordinator)
    → IsOrdered c
    → IsOrdered (poll_answered mac answer rssi now c).1
unfolding poll_answered next_attribution next_revision
IsOrdered-answer mac none rssi now c p = p
IsOrdered-answer mac (some (raw, battery)) rssi now c p =
    IsOrdered-count mac (or_zero (get mac c.revisions) + 1) c (omega arith) p

register-answer :
    (m mac : String) (answer : Answer) (rssi : Option ℤ) (now : ℕ) (c : Coordinator)
    → register m (poll_answered mac answer rssi now c).1 ≡ register m c
unfolding poll_answered next_attribution register
register-answer m mac none rssi now c = refl
register-answer m mac (some (raw, battery)) rssi now c = refl

refreshed : (mac : String) (c : Coordinator) → SameOrder c (request_active_state_refresh mac c)
unfolding request_active_state_refresh
refreshed mac c = ground arith

turned : (mac : String) (c : Coordinator) → SameOrder c (retry_turn mac c).1
unfolding retry_turn request_active_state_refresh
turned mac c = ground arith

-- A step keeps the order of the observations.
pub IsOrdered-step :
    (s : Step) (c : Coordinator) → IsMergeable s c → IsOrdered c → IsOrdered (step s c)
unfolding step
IsOrdered-step updated c h p =
    IsOrdered-same c (step updated c) (unfold step begin_update in (refl, refl, refl)) p
IsOrdered-step (answered mac answer rssi now) c h p = IsOrdered-answer mac answer rssi now c p
IsOrdered-step (published mac locked battery source rssi now) c h p =
    IsOrdered-publish mac locked battery source rssi now c p
IsOrdered-step (advertised mac a) c h p = IsOrdered-advertise mac a c p
IsOrdered-step (merged mac r) c h p = IsOrdered-result mac r c h p
IsOrdered-step (refresh_asked mac) c h p = IsOrdered-refresh mac c p
IsOrdered-step (log_done mac) c h p =
    IsOrdered-same c (log_task_done mac c) (unfold log_task_done in (refl, refl, refl)) p
IsOrdered-step (retry_done mac) c h p =
    IsOrdered-same c (retry_task_done mac c) (unfold retry_task_done in (refl, refl, refl)) p
IsOrdered-step (retried mac) c h p = IsOrdered-same c (retry_turn mac c).1 (turned mac c) p
IsOrdered-step stopped c h p =
    IsOrdered-same c (shut_down c) (unfold shut_down in (refl, refl, refl)) p

register-failed :
    (m mac : String) (c : Coordinator)
    → register m (schedule_bootstrap_retry mac (set_default mac c)) ≡ register m c
unfolding schedule_bootstrap_retry
register-failed m mac c =
    register-same m (set_default mac c) (schedule_bootstrap_retry mac (set_default mac c))
      (unfold schedule_bootstrap_retry in ground arith)
    ∙ register-default m mac c

register-result :
    (m mac : String) (r : PollResult) (c : Coordinator)
    → IsOrdered c
    → register m (merge_result mac r c) ≡ write_for (written_result mac r) m (register m c)
unfolding merge_result
register-result m mac poll_raised c p = register-failed m mac c
register-result m mac no_answer c p = register-failed m mac c
register-result m mac (observed o) c p = register-merge m mac o c p

-- One step writes to the register of a lock what it observed, if that is newer, and nothing else.
pub register-step :
    (m : String) (s : Step) (c : Coordinator)
    → IsOrdered c
    → register m (step s c) ≡ write_for (written s c) m (register m c)
unfolding step
register-step m updated c p =
    register-same m c (step updated c) (unfold step begin_update in (refl, refl, refl))
register-step m (answered mac answer rssi now) c p = register-answer m mac answer rssi now c
register-step m (published mac locked battery source rssi now) c p =
    register-publish m mac locked battery source rssi now c p
register-step m (advertised mac a) c p = register-advertise m mac a c
register-step m (merged mac r) c p = register-result m mac r c p
register-step m (refresh_asked mac) c p =
    register-same m c (request_active_state_refresh mac c) (refreshed mac c)
register-step m (log_done mac) c p =
    register-same m c (log_task_done mac c) (unfold log_task_done in (refl, refl, refl))
register-step m (retry_done mac) c p =
    register-same m c (retry_task_done mac c) (unfold retry_task_done in (refl, refl, refl))
register-step m (retried mac) c p = register-same m c (retry_turn mac c).1 (turned mac c)
register-step m stopped c p =
    register-same m c (shut_down c) (unfold shut_down in (refl, refl, refl))

-- Every observation that is merged was counted before.
abbrev pub AreMergeable : List Step → Coordinator → Type 0
AreMergeable [] c = Unit
AreMergeable (s ∷ ss) c = IsMergeable s c × AreMergeable ss (step s c)

-- the writes of all steps, in their order
unfoldable pub writes : String → List Step → Coordinator → Register → Register
writes m [] c r = r
writes m (s ∷ ss) c r = writes m ss (step s c) (write_for (written s c) m r)

-- From observations in order, and when every merged answer was counted before, any sequence of steps
-- leaves in the register of a lock what the writes of these steps give, each taking the place only of an
-- older one, and leaves the observations in order.
pub register-steps :
    (m : String) (ss : List Step) (c : Coordinator)
    → AreMergeable ss c
    → IsOrdered c
    → (register m (steps ss c) ≡ writes m ss c (register m c)) × IsOrdered (steps ss c)
unfolding steps writes
register-steps m [] c h p = (refl, p)
register-steps m (s ∷ ss) c h p =
    let rest = register-steps m ss (step s c) h.1 (IsOrdered-step s c h.0 p) in
    (rest.0 ∙ ap (writes m ss (step s c)) (register-step m s c p), rest.1)
