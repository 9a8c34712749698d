-- ===== src/AccessRecords/Naming.antt =====
-- That naming a private record of access_records.py writes its alias and nothing else.
use ha_ttlock_ble.Base.{
  suc, ◌+◌, String, true, false, not, ◌&&◌, Option, none, some, List, [], ◌∷◌, ◌≡◌, refl, sym, ◌∙◌,
  ap, subst, arith, str_eq, eq_iff, Bool-cases, inl, inr, ◌⊎◌,
}
use ha_ttlock_ble.Base.Texts.{has, get, put, get-put, has-add}
use ha_ttlock_ble.Base.Errors.{Exc}
use ha_ttlock_ble.Base.Exec.Triple.{
  Triple-both, Triple, Keeps, Triple-bind, Triple-read, Triple-if, Triple-raise, Triple-gets,
  Triple-modify, Triple-fact, Triple-absurd, weaken,
}
use ha_ttlock_ble.AccessRecords.State.{
  Method, PrivateRecord, Scope, Store, World, mark_scope_stale, mark_all_stale,
}
use ha_ttlock_ble.AccessRecords.Reconcile.{await, save}
use ha_ttlock_ble.AccessRecords.Names.{strip, is_bad_name}
use ha_ttlock_ble.AccessRecords.Editing.{
  is_fresh, is_observed, can_name, records_of, write_name, named_scope, name_found, name_locked,
  assign_name,
}
use ha_ttlock_ble.AccessRecords.Freshness.{Stale, await-Stale, scope_of-name}

-- The second list is the first with the name written on the first active record of the reference.
pub data Renamed (reference name : String) : List PrivateRecord → List PrivateRecord → Type 0 where
  named :
      {rs : List PrivateRecord} (r : PrivateRecord)
      → r.reference ≡ reference
      → r.active ≡ true
      → Renamed reference name (r ∷ rs) (record r { alias = name } ∷ rs)
  passed :
      {rs ts : List PrivateRecord} (r : PrivateRecord)
      → (str_eq r.reference reference && r.active) ≡ false
      → Renamed reference name rs ts
      → Renamed reference name (r ∷ rs) (r ∷ ts)

write_name-Renamed :
    (reference name : String) (rs : List PrivateRecord)
    → can_name reference rs ≡ true
    → Renamed reference name rs (write_name reference name rs)
unfolding write_name can_name
write_name-Renamed reference name [] h = cc
write_name-Renamed reference name (r ∷ rs) h =
    elim (Bool-cases (str_eq r.reference reference && r.active)) [
      | inl e ↦
          let same : r.reference ≡ reference = ground (arith, e, eq_iff r.reference reference) in
          rw e (named r same (ground (arith, e)))
      | inr e ↦ rw e (passed r e (write_name-Renamed reference name rs (ground (arith, h, e))))
    ]

marks-scopes : (others : List String) (s : Store) → (mark_all_stale others s).scopes ≡ s.scopes
unfolding mark_all_stale mark_scope_stale
marks-scopes [] s = refl
marks-scopes (other ∷ others) s = marks-scopes others (mark_scope_stale other s)

-- The scope was there and keeps its epoch; only the alias of one record differs.
abbrev pub RenamedScope : (reference name : String) → Option Scope → Option Scope → Type 0
RenamedScope reference name (some x) (some y) =
    (y.epoch ≡ x.epoch) × Renamed reference name x.records y.records
RenamedScope reference name _ _ = ⊥

-- Only the named scope differs, and there only the alias of a record of the reference.
pub record InScope (before : List (String × Scope)) (scope reference name : String)
    (after : List (String × Scope)) : Type 0 where
  pub elsewhere : (k : String) → str_eq scope k ≡ false → get k after ≡ get k before
  pub there : RenamedScope reference (strip name) (get scope before) (get scope after)

module _ (before : List (String × Scope)) (scope reference name : String) where
  abbrev pub Start : Store → Type 0
  Start s = s.scopes ≡ before

  abbrev pub In : Store → Type 0
  In s = InScope before scope reference name s.scopes

  named-scope :
      (o : Option Scope)
      → can_name reference (records_of o) ≡ true
      → RenamedScope reference (strip name) o (some (named_scope reference (strip name) o))
  named-scope none h = unfold can_name in cc
  named-scope (some x) h = (refl, write_name-Renamed reference (strip name) x.records h)

  write-In :
      (d : List (String × Scope))
      → d ≡ before
      → can_name reference (records_of (get scope d)) ≡ true
      → InScope before scope reference name
          (put scope (named_scope reference (strip name) (get scope d)) d)
  write-In d e h =
      let x = named_scope reference (strip name) (get scope d) in
      let found : get scope (put scope x d) ≡ some x =
        simp get-put (ground (arith, eq_iff scope scope)) in
      record {
        elsewhere = λ k a. simp get-put (ground (arith, a, ap (get k) e));
        there = subst (RenamedScope reference (strip name) (get scope before)) (sym found) (
            subst (λ l. RenamedScope reference (strip name) (get scope l) (some x)) e
              (named-scope (get scope d) h));
      }

  module _ (world : World) where
    await-Start : {E : Exc → Store → Type 0} → Triple Start (await world) (λ _. Start) E
    unfolding await
    await-Start = record { at = λ s p. marks-scopes (world.marks s.steps) _ ∙ p }

    await-In : {E : Exc → Store → Type 0} → Triple In (await world) (λ _. In) E
    unfolding await
    await-In = record {
      at = λ s p.
          subst (InScope before scope reference name)
            (sym (
              marks-scopes (world.marks s.steps)
                (record s { now = s.now + world.elapsed s.steps; steps = suc s.steps })))
            p;
    }

    -- a raise leaves the scopes as they were, or the name written
    abbrev pub Tried : Exc → Store → Type 0
    Tried e s = Start s ⊎ In s

    save-In : Triple In (save world) (λ _. In) Tried
    unfolding save
    save-In = Triple-bind {R = λ _. In} (Triple-gets _ (λ s p. p)) λ raises.
        Triple-bind await-In λ _.
          Triple-if raises (λ b. Triple-raise _ (λ s p. inr p)) (λ b. Triple-modify _ (λ s p. p))

    -- what holds once the name is given
    abbrev Done : Unit {0} → Store → Type 0
    Done _ s = In s × (has reference s.confirmed ≡ true)

    found-Renamed : Triple Start (name_found world scope reference name) Done Tried
    unfolding name_found
    found-Renamed =
        Triple-read
          (λ (s : Store).
            can_name reference (records_of (get scope s.scopes)) && is_observed scope reference s)
          λ found.
            Triple-if (not found) (λ b. Triple-raise _ (λ s p. inl p.0))
              λ b.
                Triple-bind {R = λ _. In}
                  (Triple-modify _ (λ s p. write-In s.scopes p.0 (ground (arith, p.1, b))))
                  λ _. Triple-bind save-In λ _. Triple-modify _ (λ s p. (
                    p,
                    has-add reference reference s.confirmed
                        ∙ ground (arith, eq_iff reference reference),
                  ))

    locked-Renamed : Triple Start (name_locked world scope reference name) Done Tried
    unfolding name_locked
    locked-Renamed = Triple-bind await-Start λ _.
        Triple-bind {R = λ _. Start} (Triple-gets _ (λ s p. p)) λ fresh.
          Triple-if (not fresh) (λ b. Triple-raise _ (λ s p. inl p))
            λ b. Triple-bind {R = λ _. Start} (Triple-gets _ (λ s p. p)) λ known.
              Triple-if (not known) (λ b. Triple-raise _ (λ s p. inl p)) (λ b. found-Renamed)

module _ (world : World) (lock : String) (method : Method) (reference name : String)
    (before : List (String × Scope)) where
  abbrev pub IsNamed : Store → Type 0
  IsNamed = In before (world.scope_name lock method) reference name

  -- Once an attempt to name a record returns, the name without the white space around it is the alias of
  -- the first active record of that reference in that scope, the epoch of the scope, its other records
  -- and every other scope are as they were, the name is a valid one and the reference is confirmed; an
  -- attempt that raises leaves all scopes as they were, or with that one alias written.
  pub assign_name-Renamed :
      Triple
        (λ s. s.scopes ≡ before)
        (assign_name world lock method reference name)
        (λ _ s. IsNamed s × (has reference s.confirmed ≡ true) × (is_bad_name name ≡ false))
        (λ _ s. (s.scopes ≡ before) ⊎ IsNamed s)
  unfolding assign_name
  assign_name-Renamed =
      Triple-if (is_bad_name name) (λ b. Triple-raise _ (λ s p. inl p))
        λ good.
          Triple-bind
            (weaken (λ s p. p) (scope_of-name world lock method) (λ _ s p. p) (λ _ s p. inl p))
            λ x. Triple-fact λ e.
              subst
                (λ y.
                  Triple (Start before (world.scope_name lock method) reference name)
                    (name_locked world y reference name)
                    (λ _ s.
                      IsNamed s × (has reference s.confirmed ≡ true) × (is_bad_name name ≡ false))
                    (λ _ s. (s.scopes ≡ before) ⊎ IsNamed s))
                (sym e)
                (weaken (λ s p. p)
                  (locked-Renamed before (world.scope_name lock method) reference name world)
                  (λ _ s p. (p.0, p.1, good)) (λ _ s p. p))

  -- a scope that is stale, and the records as they were
  abbrev pub Unread : Store → Type 0
  Unread s = Stale world (world.scope_name lock method) s × (s.scopes ≡ before)

  Unread-not_fresh : (s : Store) → Unread s → is_fresh (world.scope_name lock method) s ≡ false
  unfolding is_fresh
  Unread-not_fresh s p = rw (p.0) refl

  await-Unread : Keeps Unread (await world)
  await-Unread =
      Triple-both (await-Stale world (world.scope_name lock method))
        (await-Start before (world.scope_name lock method) reference name world)

  locked-Unread :
      Triple Unread
        (name_locked world (world.scope_name lock method) reference name)
        (λ _ _. ⊥)
        (λ _ s. s.scopes ≡ before)
  unfolding name_locked
  locked-Unread =
      let scope = world.scope_name lock method in
      Triple-bind (weaken (λ s p. p) await-Unread (λ _ s p. p) (λ _ s p. p.1)) λ _.
        Triple-read (is_fresh scope) λ fresh.
          Triple-if (not fresh) (λ b. Triple-raise _ (λ s p. p.0.1))
            λ b. Triple-absurd λ s p. let q = Unread-not_fresh s p.0 in ground (arith, b, q, p.1)

  -- A name is never given in a scope that was not read, or was marked stale since: the attempt raises and
  -- every record stays as it was.
  pub assign_name-Unread :
      Triple Unread
        (assign_name world lock method reference name)
        (λ _ _. ⊥)
        (λ _ s. s.scopes ≡ before)
  unfolding assign_name
  assign_name-Unread =
      Triple-if (is_bad_name name) (λ b. Triple-raise _ (λ s p. p.1))
        λ good.
          Triple-bind
            (weaken (λ s p. p) (scope_of-name world lock method) (λ _ s p. p) (λ _ s p. p.1))
            λ x. Triple-fact λ e.
              subst
                (λ y.
                  Triple Unread (name_locked world y reference name) (λ _ _. ⊥)
                    (λ _ s. s.scopes ≡ before))
                (sym e) locked-Unread
