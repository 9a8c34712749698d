-- ===== src/AccessRecords/Freshness.antt =====
-- When access_records.py calls the records of a scope fresh.
use ha_ttlock_ble.Base.{
  ℕ, suc, ◌+◌, String, Bool, true, false, not, ◌||◌, Option, none, some, List, [], ◌∷◌, length, ltb,
  ◌≡◌, refl, sym, ◌∙◌, subst, arith, ◌⊎◌, inl, inr,
}
use ha_ttlock_ble.Base.Texts.{get, get-pop}
use ha_ttlock_ble.Base.Exec.Triple.{
  Triple, Keeps, Triple-bind, Triple-read, Triple-if, Triple-raise, Triple-pure, Triple-gets,
  Triple-modify, Keeps-bind, Keeps-raise, Keeps-gets, Triple-fact, weaken,
}
use ha_ttlock_ble.AccessRecords.State.{
  max_records, Method, keypad_pin, fingerprint, ic_card, unsupported, Inventory, Store, World, Pass,
  is_pin, mark_scope_stale, mark_all_stale, is_current, retire, any_foreign,
}
use ha_ttlock_ble.AccessRecords.Reconcile.{
  await, save, scope_of, open_scope, settle_pass, settle_noted, reconcile_locked, reconcile_in,
  reconcile,
}

module _ (world : World) (scope : String) where
  abbrev pub Stale : Store → Type 0
  Stale s = get scope s.fresh ≡ none

  pub mark-Stale : (other : String) (s : Store) → Stale s → Stale (mark_scope_stale other s)
  unfolding mark_scope_stale
  mark-Stale other s p = simp get-pop (ground (arith, p))

  marks-Stale : (others : List String) (s : Store) → Stale s → Stale (mark_all_stale others s)
  unfolding mark_all_stale
  marks-Stale [] s p = p
  marks-Stale (other ∷ others) s p =
      marks-Stale others (mark_scope_stale other s) (mark-Stale other s p)

  pub await-Stale : Keeps Stale (await world)
  unfolding await
  await-Stale = record {
    at = λ s p.
        marks-Stale (world.marks s.steps)
          (record s { now = s.now + world.elapsed s.steps; steps = suc s.steps }) p;
  }

  pub save-Stale : Keeps Stale (save world)
  unfolding save
  save-Stale = Keeps-bind (Keeps-gets _) λ raises.
      Keeps-bind await-Stale λ _.
        Triple-if raises (λ b. Keeps-raise _) (λ b. Triple-modify {Q = λ _. Stale} _ (λ s p. p))

  module _ (n : ℕ) where
    -- stale, or read under the ticket that is still the newest
    abbrev pub Current : Store → Type 0
    Current s = Stale s ⊎ (is_current scope (some n) s ≡ true)

    settle-Current :
        (method : Method) (epoch : String) (p : Pass)
        → Triple Stale (settle_pass world scope method epoch (some n) p) (λ _. Current) (λ _. Stale)
    unfolding settle_pass is_current
    settle-Current method epoch p = Triple-bind {R = λ _. Stale} (Triple-modify _ (λ s q. q)) λ _.
        Triple-if (ltb max_records (length (retire (is_pin method) p.seen p.records)))
          (λ b. Triple-raise _ (λ s q. q))
          λ b. Triple-bind {R = λ _. Stale} (Triple-modify _ (λ s q. q)) λ _.
            Triple-bind save-Stale λ _. Triple-read (is_current scope (some n)) λ current.
              Triple-if current (λ c. Triple-modify _ (λ s q. inr (q.1 ∙ c)))
                (λ c. Triple-pure tt (λ s q. inl q.0))

    noted-Current :
        (method : Method) (epoch : String) (o : Option Pass)
        → Triple Stale
            (settle_noted world scope method epoch (some n) o)
            (λ _. Current)
            (λ _. Stale)
    noted-Current method epoch none = Triple-raise _ (λ s q. q)
    noted-Current method epoch (some p) = settle-Current method epoch p

    locked-Current :
        (lock : String) (method : Method) (inventory : Inventory)
        → Triple Stale
            (reconcile_locked world scope lock method (some n) inventory)
            (λ _. Current)
            (λ _. Stale)
    unfolding reconcile_locked open_scope
    locked-Current lock method inventory = Triple-bind await-Stale λ _.
        Triple-bind {R = λ _. Stale} (Triple-gets _ (λ s p. p)) λ current.
          Triple-if (not current) (λ b. Triple-pure tt (λ s p. inl p))
            λ b. Triple-bind {R = λ _. Stale} (Triple-modify _ (λ s p. p)) λ _.
              Triple-bind {R = λ _. Stale} (Triple-gets _ (λ s p. p)) λ v. noted-Current method _ _

-- What a read that may have made its scope fresh had.
abbrev pub IsProven : World → String → Method → Inventory → Bool → ℕ → Store → Type 0
IsProven world lock method inventory cleaned n s =
    Stale world (world.scope_name lock method) s
    ⊎ ((cleaned ≡ true)
        × (inventory.records_complete ≡ true)
        × (is_current (world.scope_name lock method) (some n) s ≡ true))

pub scope_of-name :
    {P : Store → Type 0} (world : World) (lock : String) (method : Method)
    → Triple P
        (scope_of world lock method)
        (λ x s. P s × (x ≡ world.scope_name lock method))
        (λ _. P)
scope_of-name world lock keypad_pin = Triple-pure _ (λ s p. (p, refl))
scope_of-name world lock fingerprint = Triple-pure _ (λ s p. (p, refl))
scope_of-name world lock ic_card = Triple-pure _ (λ s p. (p, refl))
scope_of-name world lock unsupported = Triple-raise _ (λ s p. p)

proven :
    (world : World) (lock : String) (method : Method) (inventory : Inventory) (cleaned : Bool)
    (n : ℕ) (s : Store)
    → (not cleaned || not inventory.records_complete) ≡ false
    → Current world (world.scope_name lock method) n s
    → IsProven world lock method inventory cleaned n s
proven world lock method inventory cleaned n s b (inl p) = inl p
proven world lock method inventory cleaned n s b (inr p) = inr (ground arith, ground arith, p)

module _ (world : World) (lock : String) (method : Method) (inventory : Inventory) (cleaned : Bool)
    (n : ℕ) where
  abbrev Proven : Unit {0} → Store → Type 0
  Proven _ s = IsProven world lock method inventory cleaned n s

  in-IsProven :
      Triple
        (Stale world (world.scope_name lock method))
        (reconcile_in world (world.scope_name lock method) lock method inventory cleaned (some n))
        Proven
        (λ _. Stale world (world.scope_name lock method))
  unfolding reconcile_in
  in-IsProven =
      let scope = world.scope_name lock method in
      Triple-bind {R = λ t s. Stale world scope s × (t ≡ some n)}
        (Triple-pure (some n) (λ s p. (p, refl)))
        λ ticket. Triple-fact λ e.
          Triple-bind {R = λ _. Stale world scope} (Triple-gets _ (λ s p. p)) λ v.
            Triple-if (not v.loaded || not (is_current scope ticket v))
              (λ b. Triple-pure tt (λ s p. inl p))
              λ b.
                Triple-if (not cleaned || not inventory.records_complete)
                  (λ b. Triple-pure tt (λ s p. inl p))
                  λ clean.
                    Triple-if (any_foreign method inventory.records)
                      (λ b. Triple-raise _ (λ s p. p))
                      λ b.
                        Triple-if (ltb max_records (length inventory.records))
                          (λ b. Triple-raise _ (λ s p. p))
                          λ b.
                            subst
                              (λ t.
                                Triple (Stale world scope)
                                  (reconcile_locked world scope lock method t inventory) Proven
                                  (λ _. Stale world scope))
                              (sym e)
                              (weaken (λ s p. p)
                                (locked-Current world scope n lock method inventory)
                                (λ _ s p. proven world lock method inventory cleaned n s clean p)
                                (λ e s p. p))

  -- A reconciliation under a ticket makes a stale scope fresh only when the link was torn down for
  -- certain, the inventory was complete, and no later read took the ticket's place; one that raises
  -- leaves it stale.
  pub reconcile-IsProven :
      Triple
        (Stale world (world.scope_name lock method))
        (reconcile world lock method inventory cleaned (some n))
        Proven
        (λ _. Stale world (world.scope_name lock method))
  unfolding reconcile
  reconcile-IsProven = Triple-bind (scope_of-name world lock method) λ x. Triple-fact λ e.
      subst
        (λ y.
          Triple (Stale world (world.scope_name lock method))
            (reconcile_in world y lock method inventory cleaned (some n)) Proven
            (λ _. Stale world (world.scope_name lock method)))
        (sym e) in-IsProven
