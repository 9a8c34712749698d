-- ===== src/AccessRecords/Showing.antt =====
-- What a snapshot of access_records.py says of a record that it does not call stale.
use ha_ttlock_ble.Base.{
  ℕ, ◌-◌, ◌<◌, String, Bool, true, false, Option, none, some, List, [], ◌∷◌, ◌≡◌, refl, arith,
  Bool-cases, inl, inr,
}
use ha_ttlock_ble.Base.Texts.{has, get}
use ha_ttlock_ble.AccessRecords.State.{Method, PrivateRecord, Store, is_pin}
use ha_ttlock_ble.AccessRecords.Editing.{
  fresh_seconds, Row, observed_now, not_observed, previously_observed_unverified, within, is_fresh,
  is_observed, row, records_of, rows, snapshot_in,
}

-- What backs the verdict of a row: nothing, a read that did not see the record, or one that did and
-- ended less than 300 seconds ago.
pub data Verdict (scope : String) (s : Store) (reference : String) (q : Row) : Type 0 where
  unread :
      is_fresh scope s ≡ false
      → q.stale ≡ true
      → q.present ≡ none
      → q.observation ≡ previously_observed_unverified
      → Verdict scope s reference q
  missed :
      is_fresh scope s ≡ true
      → is_observed scope reference s ≡ false
      → q.stale ≡ true
      → q.present ≡ some false
      → q.observation ≡ not_observed
      → Verdict scope s reference q
  backed :
      (t : ℕ)
      → get scope s.fresh ≡ some t
      → s.now - t < fresh_seconds
      → is_observed scope reference s ≡ true
      → q.stale ≡ false
      → q.present ≡ some true
      → q.observation ≡ observed_now
      → Verdict scope s reference q

pub record IsBacked (scope : String) (s : Store) (r : PrivateRecord) (q : Row) : Type 0 where
  pub reference : q.reference ≡ r.reference
  pub name : q.name ≡ r.alias
  pub confirmed : q.alias_confirmed_this_session ≡ has r.reference s.confirmed
  pub verdict : Verdict scope s r.reference q

pub data AreBacked (scope : String) (s : Store) : List PrivateRecord → List Row → Type 0 where
  no_rows : AreBacked scope s [] []
  one_more :
      {r : PrivateRecord} {q : Row} {rs : List PrivateRecord} {qs : List Row}
      → IsBacked scope s r q
      → AreBacked scope s rs qs
      → AreBacked scope s (r ∷ rs) (q ∷ qs)

within-some :
    (now : ℕ) (o : Option ℕ)
    → within now o ≡ true
    → (t : ℕ) × (o ≡ some t) × (now - t < fresh_seconds)
within-some now none e = ground arith
within-some now (some t) e = (t, refl, ground (arith, e))

row-Verdict :
    (pin : Bool) (scope : String) (s : Store) (r : PrivateRecord)
    → Verdict scope s r.reference (row (is_fresh scope s) pin scope s r)
unfolding row is_fresh
row-Verdict pin scope s r = elim (Bool-cases (is_fresh scope s)) [
  | inr stale ↦ unread stale (rw stale refl) (rw stale refl) (rw stale refl)
  | inl fresh ↦ elim (Bool-cases (is_observed scope r.reference s)) [
    | inr away ↦
        missed fresh away (rw fresh (rw away refl)) (rw fresh (rw away refl))
          (rw fresh (rw away refl))
    | inl here ↦
        let read = within-some s.now (get scope s.fresh) fresh in
        backed read.0 read.1 read.2 here (rw fresh (rw here refl)) (rw fresh (rw here refl))
          (rw fresh (rw here refl))
  ]
]

row-IsBacked :
    (pin : Bool) (scope : String) (s : Store) (r : PrivateRecord)
    → IsBacked scope s r (row (is_fresh scope s) pin scope s r)
unfolding row
row-IsBacked pin scope s r = record {
  reference = refl;
  name = refl;
  confirmed = refl;
  verdict = row-Verdict pin scope s r;
}

rows-AreBacked :
    (pin : Bool) (scope : String) (s : Store) (rs : List PrivateRecord)
    → AreBacked scope s rs (rows (is_fresh scope s) pin scope s rs)
rows-AreBacked pin scope s [] = no_rows
rows-AreBacked pin scope s (r ∷ rs) =
    one_more (row-IsBacked pin scope s r) (rows-AreBacked pin scope s rs)

-- A snapshot shows every record of the scope in its order with its reference, name and confirmation; in a
-- scope that is not fresh every row is stale and unverified, and in a fresh one a row is present, and not
-- stale, exactly when its reference is among the observed ones of the scope, whose mark of freshness is
-- then less than 300 seconds old.
pub snapshot_in-AreBacked :
    (scope lock : String) (method : Method) (s : Store)
    → AreBacked scope s (records_of (get scope s.scopes)) (snapshot_in scope lock method s).records
unfolding snapshot_in
snapshot_in-AreBacked scope lock method s =
    rows-AreBacked (is_pin method) scope s (records_of (get scope s.scopes))
