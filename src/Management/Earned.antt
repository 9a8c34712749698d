-- ===== src/Management/Earned.antt =====
-- How a scope of records becomes fresh through the view of management_http.py.
use ha_ttlock_ble.Base.{
  ℕ, ◌+◌, String, Bool, true, not, Option, none, some, ◌≡◌, refl, sym, subst, arith, ◌⊎◌, inl, inr,
  eq_iff,
}
use ha_ttlock_ble.Base.Texts.{get, get-put}
use ha_ttlock_ble.Base.Errors.{Exc, value_error, timeout, cancelled}
use ha_ttlock_ble.Base.Exec.{ok}
use ha_ttlock_ble.Base.Exec.Triple.{
  Triple, Keeps, Triple-bind, Triple-if, Triple-raise, Triple-pure, Triple-gets, Triple-modify,
  Triple-lift, Triple-catch, Triple-fact, Keeps-bind, Keeps-raise, Keeps-gets, Keeps-if, weaken,
}
use ha_ttlock_ble.AccessRecords.State.{Method, Inventory, Store, World, mark_scope_stale, or_zero}
use ha_ttlock_ble.AccessRecords.Reconcile.{reconcile}
use ha_ttlock_ble.AccessRecords.Editing.{
  snapshot, name_found, name_locked, assign_name, reset_locked, reset as forget_labels,
  set_legacy_disabled,
}
use ha_ttlock_ble.AccessRecords.Names.{is_bad_name}
use ha_ttlock_ble.AccessRecords.Keeping.{scope_of-Keeps}
use ha_ttlock_ble.AccessRecords.Freshness.{
  Stale, await-Stale, save-Stale, mark-Stale, scope_of-name, reconcile-IsProven,
}
use ha_ttlock_ble.Services.Inventory.{InventoryResult}
use ha_ttlock_ble.Management.{
  Action, Data, Request, authorized, list_locks, state, read, name, reset, legacy,
}
use ha_ttlock_ble.Management.View.{
  Desk, is_target, mark_stale, read_records, act, is_list, dispatch, request_data, post_failed,
  handled, post,
}

module _ (world : World) (scope : String) where
  name_found-Stale :
      (target reference label : String)
      → Keeps (Stale world scope) (name_found world target reference label)
  unfolding name_found
  name_found-Stale target reference label = Keeps-bind (Keeps-gets _) λ found.
      Keeps-if (not found) (Keeps-raise _) (
        Keeps-bind (Triple-modify {Q = λ _. Stale world scope} _ (λ s p. p)) λ _.
          Keeps-bind (save-Stale world scope)
            λ _. Triple-modify {Q = λ _. Stale world scope} _ (λ s p. p))

  name-Stale :
      (lock : String) (method : Method) (reference label : String)
      → Keeps (Stale world scope) (assign_name world lock method reference label)
  unfolding assign_name name_locked
  name-Stale lock method reference label = Keeps-if (is_bad_name label) (Keeps-raise _) (
      Keeps-bind (scope_of-Keeps world lock method) λ target.
        Keeps-bind (await-Stale world scope) λ _. Keeps-bind (Keeps-gets _) λ fresh.
          Keeps-if (not fresh) (Keeps-raise _) (
            Keeps-bind (Keeps-gets _) λ known.
              Keeps-if (not known) (Keeps-raise _) (name_found-Stale target reference label)))

  reset-Stale :
      (lock : String) (method : Method)
      → Keeps (Stale world scope) (forget_labels world lock method)
  unfolding forget_labels reset_locked
  reset-Stale lock method = Keeps-bind (scope_of-Keeps world lock method) λ target.
      Keeps-bind (await-Stale world scope) λ _.
        Keeps-bind (Triple-modify {Q = λ _. Stale world scope} _ (λ s p. p)) λ _.
          Keeps-bind (Triple-modify {Q = λ _. Stale world scope} _ (mark-Stale world scope target))
            λ _. save-Stale world scope

  legacy-Stale :
      (lock : String) (disabled : Bool)
      → Keeps (Stale world scope) (set_legacy_disabled world lock disabled)
  unfolding set_legacy_disabled
  legacy-Stale lock disabled = Keeps-bind (await-Stale world scope) λ _.
      Keeps-bind (Keeps-gets _) λ updated. Keeps-bind (Keeps-gets _) λ raises.
        Keeps-bind (await-Stale world scope) λ _. Keeps-if raises (Keeps-raise _) (
          Keeps-bind (Triple-modify {Q = λ _. Stale world scope} _ (λ s p. p))
            λ _. Triple-modify {Q = λ _. Stale world scope} _ (λ s p. p))

module _ (world : World) (desk : Desk) (d : Data) where
  abbrev pub IsStale : Store → Type 0
  IsStale = Stale world (world.scope_name d.lock d.method)

  -- a complete inventory was read, and the link was torn down for certain
  abbrev pub WasRead : Type 0
  WasRead =
      (n : ℕ) × (found : Inventory × InventoryResult) × (desk.admin_read n ≡ ok found)
      × (found.0.records_complete ≡ true)
      × (desk.cleanup_confirmed n ≡ true)

  abbrev IsTicket : Option ℕ → Type 0
  IsTicket t = (n : ℕ) × (t ≡ some n)

  marked : (x : String) (s : Store) → IsTicket (get x (mark_scope_stale x s).revision)
  unfolding mark_scope_stale
  marked x s = (or_zero (get x s.revision) + 1, simp get-put (ground (arith, eq_iff x x)))

  mark_stale-lem :
      Triple IsStale
        (mark_stale world desk d.lock d.method)
        (λ t s. IsStale s × IsTicket t)
        (λ _. IsStale)
  unfolding mark_stale
  mark_stale-lem = Triple-bind (scope_of-name world d.lock d.method) λ x. Triple-fact λ e.
      Triple-bind {R = λ _ s. IsStale s × IsTicket (get x s.revision)}
        (Triple-modify _
          (λ s p. (mark-Stale world (world.scope_name d.lock d.method) x s p, marked x s)))
        λ _. Triple-gets _ (λ s p. p)

  -- the reconciliation of what was read at the await m, under the ticket n
  reconciled :
      (m n : ℕ) (found : Inventory × InventoryResult)
      → desk.admin_read m ≡ ok found
      → Triple IsStale
          (reconcile world d.lock d.method found.0 (desk.cleanup_confirmed m) (some n))
          (λ _ s. IsStale s ⊎ WasRead)
          (λ _. IsStale)
  reconciled m n found e =
      weaken (λ s p. p)
        (reconcile-IsProven world d.lock d.method found.0 (desk.cleanup_confirmed m) n)
        (λ _ s p. elim p [
          | inl stale ↦ inl stale
          | inr earned ↦ inr (m, found, e, earned.1, earned.0)
        ])
        (λ _ s p. p)

  read_records-lem :
      Triple IsStale (read_records world desk d) (λ _ s. IsStale s ⊎ WasRead) (λ _. IsStale)
  unfolding read_records
  read_records-lem = Triple-bind mark_stale-lem λ t. Triple-fact λ ticket.
      Triple-bind {R = λ _. IsStale} (Triple-gets _ (λ s p. p)) λ m.
        Triple-bind (await-Stale world (world.scope_name d.lock d.method)) λ _.
          Triple-bind {R = λ found s. IsStale s × (desk.admin_read m ≡ ok found)}
            (Triple-lift (desk.admin_read m) (λ found e s p. (p, e)) (λ x e s p. p))
            λ found. Triple-fact λ e.
              Triple-bind
                (subst
                  (λ r.
                    Triple IsStale
                      (reconcile world d.lock d.method found.0 (desk.cleanup_confirmed m) r)
                      (λ _ s. IsStale s ⊎ WasRead) (λ _. IsStale))
                  (sym ticket.1) (reconciled m ticket.0 found e))
                λ _. Triple-pure _ (λ s p. p)

  -- what a request may have done to a stale scope
  abbrev pub Effect : Action → Store → Type 0
  Effect a s = IsStale s ⊎ ((a ≡ read) × WasRead)

  act-lem : (a : Action) → Triple IsStale (act world desk a d) (λ _. Effect a) (λ _. IsStale)
  unfolding act
  act-lem read =
      weaken (λ s p. p) read_records-lem
        (λ _ s p. elim p [ inl stale ↦ inl stale | inr earned ↦ inr (refl, earned) ]) (λ _ s p. p)
  act-lem name =
      Triple-bind
        (name-Stale world (world.scope_name d.lock d.method) d.lock d.method d.reference d.label)
        λ _. Triple-pure none (λ s p. inl p)
  act-lem reset =
      Triple-bind (reset-Stale world (world.scope_name d.lock d.method) d.lock d.method)
        λ _. Triple-pure none (λ s p. inl p)
  act-lem legacy =
      Triple-bind (legacy-Stale world (world.scope_name d.lock d.method) d.lock d.disabled)
        λ _. Triple-pure none (λ s p. inl p)
  act-lem list_locks = Triple-pure none (λ s p. inl p)
  act-lem state = Triple-pure none (λ s p. inl p)

  dispatch-lem :
      Triple IsStale (dispatch world desk d) (λ _. Effect d.action) (λ _. Effect d.action)
  unfolding dispatch snapshot
  dispatch-lem =
      Triple-if (is_list world desk d.action) (λ b. Triple-pure _ (λ s p. inl p))
        λ b.
          Triple-if (not (is_target d.lock (desk.entry d.entry_id)))
            (λ c. Triple-raise _ (λ s p. inl p))
            λ c.
              Triple-bind {R = λ _. Effect d.action}
                (weaken (λ s p. p) (act-lem d.action) (λ _ s p. p) (λ _ s p. inl p))
                λ response.
                  Triple-bind {R = λ _. Effect d.action}
                    (Keeps-bind (scope_of-Keeps world d.lock d.method) λ x. Keeps-gets _)
                    λ shown. Triple-pure _ (λ s p. p)

  failed-lem :
      (e : Exc)
      → Triple
          (Effect d.action)
          (post_failed world desk e)
          (λ _. Effect d.action)
          (λ _. Effect d.action)
  failed-lem value_error = Triple-pure _ (λ s p. p)
  failed-lem timeout = Triple-pure _ (λ s p. p)
  failed-lem cancelled = Triple-raise _ (λ s p. p)
  failed-lem _ = Triple-pure _ (λ s p. p)

  handled-lem :
      Triple IsStale (handled world desk (some d)) (λ _. Effect d.action) (λ _. Effect d.action)
  unfolding handled
  handled-lem =
      Triple-catch (Triple-bind dispatch-lem λ answer. Triple-pure _ (λ s p. p)) failed-lem

  -- what the view's administrator has done: nothing to a stale scope, or an authorized read of it
  abbrev pub IsEarned : Request → Store → Type 0
  IsEarned r s = IsStale s ⊎ ((authorized r ≡ true) × (d.action ≡ read) × WasRead)

  earned : (r : Request) (s : Store) → authorized r ≡ true → Effect d.action s → IsEarned r s
  earned r s a (inl stale) = inl stale
  earned r s a (inr w) = inr (a, w.0, w.1)

  -- A request to the administrator's view leaves a scope of records that was stale as it was, unless the
  -- request was authorized, asked for a read, the lock answered with a complete inventory, and the
  -- teardown of the link was confirmed.
  pub post-IsEarned :
      (r : Request)
      → request_data world desk r ≡ some d
      → Triple IsStale (post world desk r) (λ _. IsEarned r) (λ _. IsEarned r)
  unfolding post
  post-IsEarned r e =
      Triple-if (not (authorized r)) (λ b. Triple-pure _ (λ s p. inl p))
        λ b.
          let a : authorized r ≡ true = ground (arith, b) in
          subst (λ o. Triple IsStale (handled world desk o) (λ _. IsEarned r) (λ _. IsEarned r))
            (sym e)
            (weaken (λ s p. p) handled-lem (λ _ s p. earned r s a p) (λ _ s p. earned r s a p))
