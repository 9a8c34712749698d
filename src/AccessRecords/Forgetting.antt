-- ===== src/AccessRecords/Forgetting.antt =====
-- That a scope which was forgotten is not brought back by a read that was under way.
use ha_ttlock_ble.Base.{
  ℕ, suc, ◌+◌, ◌<◌, ◌≤◌, String, Bool, false, not, ◌||◌, none, some, List, [], ◌∷◌, ◌≡◌, refl, sym,
  subst, arith, eq_iff, ◌⊎◌, inl, inr,
}
use ha_ttlock_ble.Base.Texts.{get, pop, get-put, get-pop}
use ha_ttlock_ble.Base.Exec.Triple.{
  Triple, Keeps, Triple-bind, Triple-read, Triple-if, Triple-raise, Triple-pure, Triple-modify,
  Keeps-bind, Keeps-raise, Keeps-gets, Triple-fact, Triple-absurd, weaken,
}
use ha_ttlock_ble.AccessRecords.State.{
  Method, keypad_pin, fingerprint, ic_card, unsupported, Inventory, Store, World, mark_scope_stale,
  mark_all_stale, is_current, or_zero,
}
use ha_ttlock_ble.AccessRecords.Reconcile.{await, save, reconcile_in, reconcile, scope_of}
use ha_ttlock_ble.AccessRecords.Editing.{reset, reset_locked, records_of, unconfirm_all}
use ha_ttlock_ble.AccessRecords.Freshness.{scope_of-name}

module _ (world : World) (scope : String) (n : ℕ) where
  -- the ticket n was given before now
  abbrev pub Issued : Store → Type 0
  Issued s = n ≤ or_zero (get scope s.revision)

  -- nothing is kept of the scope, and a later ticket was given
  abbrev pub Forgotten : Store → Type 0
  Forgotten s = (get scope s.scopes ≡ none) × (n < or_zero (get scope s.revision))

  mark-Issued : (other : String) (s : Store) → Issued s → Issued (mark_scope_stale other s)
  unfolding mark_scope_stale
  mark-Issued other s p = simp get-put (ground (arith, p, eq_iff other scope))

  mark-Forgotten : (other : String) (s : Store) → Forgotten s → Forgotten (mark_scope_stale other s)
  unfolding mark_scope_stale
  mark-Forgotten other s p = (p.0, simp get-put (ground (arith, p.1, eq_iff other scope)))

  marks-Issued : (others : List String) (s : Store) → Issued s → Issued (mark_all_stale others s)
  unfolding mark_all_stale
  marks-Issued [] s p = p
  marks-Issued (other ∷ others) s p =
      marks-Issued others (mark_scope_stale other s) (mark-Issued other s p)

  marks-Forgotten :
      (others : List String) (s : Store) → Forgotten s → Forgotten (mark_all_stale others s)
  unfolding mark_all_stale
  marks-Forgotten [] s p = p
  marks-Forgotten (other ∷ others) s p =
      marks-Forgotten others (mark_scope_stale other s) (mark-Forgotten other s p)

  await-Issued : Triple Issued (await world) (λ _. Issued) (λ _. Forgotten)
  unfolding await
  await-Issued = record {
    at = λ s p.
        marks-Issued (world.marks s.steps)
          (record s { now = s.now + world.elapsed s.steps; steps = suc s.steps }) p;
  }

  await-Forgotten : Keeps Forgotten (await world)
  unfolding await
  await-Forgotten = record {
    at = λ s p.
        marks-Forgotten (world.marks s.steps)
          (record s { now = s.now + world.elapsed s.steps; steps = suc s.steps }) p;
  }

  save-Forgotten : Keeps Forgotten (save world)
  unfolding save
  save-Forgotten = Keeps-bind (Keeps-gets _) λ raises. Keeps-bind await-Forgotten λ _.
      Triple-if raises (λ b. Keeps-raise _) (λ b. Triple-modify {Q = λ _. Forgotten} _ (λ s p. p))

  forget :
      (s : Store)
      → Issued s
      → Forgotten (
          mark_scope_stale scope (record s {
            scopes = pop scope s.scopes;
            confirmed = unconfirm_all (records_of (get scope s.scopes)) s.confirmed;
          }))
  unfolding mark_scope_stale
  forget s p = (
    simp get-pop (ground (arith, eq_iff scope scope)),
    simp get-put (ground (arith, p, eq_iff scope scope)),
  )

  reset_locked-Forgotten :
      Triple Issued (reset_locked world scope) (λ _. Forgotten) (λ _. Forgotten)
  unfolding reset_locked
  reset_locked-Forgotten = Triple-bind await-Issued λ _.
      Triple-bind {R = λ _ s. Forgotten (mark_scope_stale scope s)}
        (Triple-modify _ (λ s p. forget s p))
        λ _. Triple-bind {R = λ _. Forgotten} (Triple-modify _ (λ s p. p)) λ _. save-Forgotten

  overtaken : (s : Store) → Forgotten s → is_current scope (some n) s ≡ false
  unfolding is_current
  overtaken s p = ground (arith, p.1)

  in-Forgotten :
      (lock : String) (method : Method) (inventory : Inventory) (cleaned : Bool)
      → Keeps Forgotten (reconcile_in world scope lock method inventory cleaned (some n))
  unfolding reconcile_in
  in-Forgotten lock method inventory cleaned =
      Triple-bind {R = λ t s. Forgotten s × (t ≡ some n)} (Triple-pure (some n) (λ s p. (p, refl)))
        λ ticket. Triple-fact λ e.
          Triple-read (λ (s : Store). s)
            λ v.
              Triple-if (not v.loaded || not (is_current scope ticket v))
                (λ b. Triple-pure tt (λ s p. p.0))
                λ b. Triple-absurd λ s p.
                  let q : is_current scope ticket v ≡ false =
                    subst (λ t. is_current scope t v ≡ false) (sym e)
                      (overtaken v (subst Forgotten p.1 p.0)) in
                  ground (arith, b, q)

scope_of-supported :
    {P : Store → Type 0} (world : World) (lock : String) (method : Method)
    → Triple P
        (scope_of world lock method)
        (λ x s. P s × (x ≡ world.scope_name lock method))
        (λ _ _. method ≡ unsupported)
scope_of-supported world lock keypad_pin = Triple-pure _ (λ s p. (p, refl))
scope_of-supported world lock fingerprint = Triple-pure _ (λ s p. (p, refl))
scope_of-supported world lock ic_card = Triple-pure _ (λ s p. (p, refl))
scope_of-supported world lock unsupported = Triple-raise _ (λ s p. refl)

module _ (world : World) (lock : String) (method : Method) (n : ℕ) where
  -- After a reset under a ticket that was issued, whether its save raises or not, nothing is kept of the
  -- scope and a later ticket stands, unless the method has no scope; and a reconciliation under the old
  -- ticket keeps it so, so a read that was under way cannot bring the records back.
  pub reset-Forgotten :
      Triple
        (Issued world (world.scope_name lock method) n)
        (reset world lock method)
        (λ _. Forgotten world (world.scope_name lock method) n)
        (λ _ s. Forgotten world (world.scope_name lock method) n s ⊎ (method ≡ unsupported))
      × ((inventory : Inventory) (cleaned : Bool)
          → Keeps
              (Forgotten world (world.scope_name lock method) n)
              (reconcile world lock method inventory cleaned (some n)))
  unfolding reset reconcile
  reset-Forgotten =
      let scope = world.scope_name lock method in
      (
        Triple-bind
            (weaken (λ s p. p) (scope_of-supported world lock method) (λ _ s p. p) (λ _ s p. inr p))
            λ x. Triple-fact λ e.
              subst
                (λ y.
                  Triple (Issued world scope n) (reset_locked world y)
                    (λ _. Forgotten world scope n)
                    (λ _ s. Forgotten world scope n s ⊎ (method ≡ unsupported)))
                (sym e)
                (weaken (λ s p. p) (reset_locked-Forgotten world scope n) (λ _ s p. p)
                  (λ _ s p. inl p)),
        λ inventory cleaned. Triple-bind (scope_of-name world lock method) λ x. Triple-fact λ e.
            subst
              (λ y.
                Keeps (Forgotten world scope n)
                  (reconcile_in world y lock method inventory cleaned (some n)))
              (sym e) (in-Forgotten world scope n lock method inventory cleaned),
      )
