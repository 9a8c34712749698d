-- ===== src/AccessRecords/Keeping.antt =====
-- A reconciliation of access_records.py retains the records of every scope, on every path.
use ha_ttlock_ble.Base.{
  ℕ, suc, ◌+◌, String, Bool, not, ◌||◌, Option, none, some, List, [], ◌∷◌, length, ltb, ◌≡◌, refl,
  sym, ap, ◌∙◌, subst, Bool-cases, inl, inr, str_eq, eq_iff,
}
use ha_ttlock_ble.Base.Texts.{get, put, get-put}
use ha_ttlock_ble.Base.Exec.Triple.{
  Triple, Keeps, Triple-bind, Triple-read, Triple-if, Triple-raise, Triple-pure, Triple-gets,
  Triple-modify, Keeps-bind, Keeps-pure, Keeps-raise, Keeps-gets, weaken,
}
use ha_ttlock_ble.AccessRecords.State.{
  max_records, Method, keypad_pin, fingerprint, ic_card, unsupported, PrivateRecord, Scope,
  Inventory, Store, World, Pass, is_pin, mark_scope_stale, mark_all_stale, is_current, retire,
  any_foreign,
}
use ha_ttlock_ble.AccessRecords.Reconcile.{
  await, save, scope_of, note_items, or_new, open_scope, settle_pass, settle_noted,
  reconcile_locked, ticket_of, reconcile_in, reconcile,
}
use ha_ttlock_ble.AccessRecords.Retention.{
  Retained, Retained-refl, Retained-trans, retire-Retained, PassRetained, items-Retained,
}

abbrev pub records_of : Option Scope → List PrivateRecord
records_of none = []
records_of (some s) = s.records

pub scope_of-Keeps :
    {P : Store → Type 0} (world : World) (lock : String) (method : Method)
    → Keeps P (scope_of world lock method)
scope_of-Keeps world lock keypad_pin = Keeps-pure _
scope_of-Keeps world lock fingerprint = Keeps-pure _
scope_of-Keeps world lock ic_card = Keeps-pure _
scope_of-Keeps world lock unsupported = Keeps-raise _

module _ (world : World) (method : Method) (k : String) (old : List PrivateRecord) where
  -- the records `old` of the scope `k` are retained
  abbrev pub Keeping : Store → Type 0
  Keeping s = Retained (is_pin method) old (records_of (get k s.scopes))

  stale-scopes : (scope : String) (s : Store) → (mark_scope_stale scope s).scopes ≡ s.scopes
  unfolding mark_scope_stale
  stale-scopes scope s = refl

  all_stale-scopes :
      (scopes : List String) (s : Store) → (mark_all_stale scopes s).scopes ≡ s.scopes
  unfolding mark_all_stale
  all_stale-scopes [] s = refl
  all_stale-scopes (scope ∷ scopes) s =
      all_stale-scopes scopes (mark_scope_stale scope s) ∙ stale-scopes scope s

  await-Keeping : Keeps Keeping (await world)
  unfolding await
  await-Keeping = record {
    at = λ s p.
        subst (λ x. Retained (is_pin method) old (records_of (get k x)))
          (sym (
            all_stale-scopes (world.marks s.steps)
              (record s { now = s.now + world.elapsed s.steps; steps = suc s.steps })))
          p;
  }

  save-Keeping : Keeps Keeping (save world)
  unfolding save
  save-Keeping = Keeps-bind (Keeps-gets _) λ raises. Keeps-bind await-Keeping λ _.
      Triple-if raises (λ b. Keeps-raise _) (λ b. Triple-modify {Q = λ _. Keeping} _ (λ s p. p))

  put-Keeping :
      (scope : String) (new : Scope) (s : Store)
      → Retained (is_pin method) (records_of (get scope s.scopes)) new.records
      → Keeping s
      → Keeping (record s { scopes = put scope new s.scopes })
  put-Keeping scope new s h p = simp get-put (elim (Bool-cases (str_eq scope k)) [
    | inl here ↦ rw here (
        Retained-trans (is_pin method) old (records_of (get k s.scopes)) new.records p (
          subst (λ x. Retained (is_pin method) (records_of (get x s.scopes)) new.records)
            ((eq_iff scope k).0 here) h))
    | inr away ↦ rw away p
  ])

  -- the scope that a pass is about, as it was read
  abbrev Reading : String → List PrivateRecord → Store → Type 0
  Reading scope before s = Keeping s × (records_of (get scope s.scopes) ≡ before)

  settle-Keeping :
      (scope epoch : String) (ticket : Option ℕ) (before : List PrivateRecord) (p : Pass)
      → Retained (is_pin method) before p.records
      → Triple
          (Reading scope before)
          (settle_pass world scope method epoch ticket p)
          (λ _. Keeping)
          (λ _. Keeping)
  unfolding settle_pass
  settle-Keeping scope epoch ticket before p h =
      Triple-bind {R = λ _. Reading scope before} (Triple-modify _ (λ s r. r)) λ _.
        Triple-if (ltb max_records (length (retire (is_pin method) p.seen p.records)))
          (λ b. Triple-raise _ (λ s r. r.0))
          λ b.
            Triple-bind {R = λ _. Keeping}
              (Triple-modify _ (λ s r.
                put-Keeping scope
                  (record { epoch = epoch; records = retire (is_pin method) p.seen p.records }) s
                  (subst (λ x. Retained (is_pin method) x (retire (is_pin method) p.seen p.records))
                    (sym r.1)
                    (Retained-trans (is_pin method) before p.records
                      (retire (is_pin method) p.seen p.records) h
                      (retire-Retained (is_pin method) p.seen p.records)))
                  r.0))
              λ _. Triple-bind save-Keeping λ _.
                Triple-bind {R = λ _. Keeping} (Triple-gets _ (λ s r. r)) λ current.
                  Triple-if current (λ c. Triple-modify _ (λ s r. r))
                    (λ c. Triple-pure tt (λ s r. r))

  noted-Keeping :
      (scope epoch lock : String) (ticket : Option ℕ) (before : List PrivateRecord)
      (o : Option Pass)
      → PassRetained world lock method epoch before o
      → Triple
          (Reading scope before)
          (settle_noted world scope method epoch ticket o)
          (λ _. Keeping)
          (λ _. Keeping)
  noted-Keeping scope epoch lock ticket before none h = Triple-raise _ (λ s r. r.0)
  noted-Keeping scope epoch lock ticket before (some p) h =
      settle-Keeping scope epoch ticket before p h

  opened :
      (o : Option Scope) (epoch : String)
      → Retained (is_pin method) (records_of o) (or_new world o epoch).records
  opened none epoch = tt
  opened (some s) epoch = Retained-refl (is_pin method) s.records

  open-Keeping : (scope : String) (s : Store) → Keeping s → Keeping (open_scope world scope s)
  unfolding open_scope
  open-Keeping scope s p =
      put-Keeping scope (or_new world (get scope s.scopes) (world.token_hex s.drawn)) s
        (opened (get scope s.scopes) (world.token_hex s.drawn)) p

  or_new-records :
      (o : Option Scope) (epoch : String) → records_of o ≡ (or_new world o epoch).records
  or_new-records none epoch = refl
  or_new-records (some s) epoch = refl

  locked-Keeping :
      (scope lock : String) (ticket : Option ℕ) (inventory : Inventory)
      → Keeps Keeping (reconcile_locked world scope lock method ticket inventory)
  unfolding reconcile_locked
  locked-Keeping scope lock ticket inventory = Triple-bind await-Keeping λ _.
      Triple-bind {R = λ _. Keeping} (Triple-gets _ (λ s p. p)) λ current.
        Triple-if (not current) (λ b. Triple-pure tt (λ s p. p))
          λ b. Triple-bind {R = λ _. Keeping} (Triple-modify _ (open-Keeping scope)) λ _.
            Triple-read (λ s. s)
              λ v.
                let state = or_new world (get scope v.scopes) "" in
                weaken
                  (λ s p. (
                    p.0,
                    ap (λ (x : Store). records_of (get scope x.scopes)) p.1
                        ∙ or_new-records (get scope v.scopes) "",
                  ))
                  (noted-Keeping scope state.epoch lock ticket state.records
                    (note_items world lock method state.epoch state.records inventory.records
                      (record {
                        records = state.records;
                        seen = [];
                        observed = [];
                        drawn = v.drawn;
                      }))
                    (items-Retained world lock method state.epoch state.records inventory.records
                      (record {
                        records = state.records;
                        seen = [];
                        observed = [];
                        drawn = v.drawn;
                      })
                      (Retained-refl (is_pin method) state.records)))
                  (λ _ s p. p) (λ e s p. p)

  ticket-Keeping :
      (scope : String) (revision : Option ℕ) → Keeps Keeping (ticket_of world scope revision)
  ticket-Keeping scope none =
      Triple-bind {R = λ _. Keeping}
        (Triple-modify _ (λ s p.
          subst (λ x. Retained (is_pin method) old (records_of (get k x)))
            (sym (stale-scopes scope s)) p))
        λ _. Triple-gets _ (λ s p. p)
  ticket-Keeping scope (some n) = Keeps-pure (some n)

  -- A reconciliation keeps every record that a scope had where it stands, with its base, its reference,
  -- its type and its name, whether it returns or raises: when it is for PINs an active record stays
  -- active, and when it is for another method a retired record stays retired.
  pub reconcile-Keeping :
      (lock : String) (inventory : Inventory) (cleaned : Bool) (revision : Option ℕ)
      → Keeps Keeping (reconcile world lock method inventory cleaned revision)
  unfolding reconcile reconcile_in
  reconcile-Keeping lock inventory cleaned revision =
      Triple-bind (scope_of-Keeps world lock method) λ scope.
        Triple-bind (ticket-Keeping scope revision) λ ticket.
          Triple-bind {R = λ _. Keeping} (Triple-gets _ (λ s p. p)) λ s.
            Triple-if (not s.loaded || not (is_current scope ticket s))
              (λ b. Triple-pure tt (λ s p. p))
              λ b.
                Triple-if (not cleaned || not inventory.records_complete)
                  (λ b. Triple-pure tt (λ s p. p))
                  λ b.
                    Triple-if (any_foreign method inventory.records)
                      (λ b. Triple-raise _ (λ s p. p))
                      λ b.
                        Triple-if (ltb max_records (length inventory.records))
                          (λ b. Triple-raise _ (λ s p. p))
                          λ b. locked-Keeping scope lock ticket inventory
