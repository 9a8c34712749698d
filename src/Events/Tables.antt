-- ===== src/Events/Tables.antt =====
-- That the tables of event.py do not overlap, so that their order says nothing.
use ha_ttlock_ble.Base.{
  String, Bool, true, false, not, ◌&&◌, Option, none, some, List, [], ◌∷◌, str_eq, eq_iff, ◌≡◌, ◌↔◌,
  inl, inr, refl, sym, ◌∙◌, ap, subst, arith, All, Bool-cases,
}
use ha_ttlock_ble.Base.Texts.{has}
use ha_ttlock_ble.Events.{
  event_tables, method_types, is_in, first_label, LogEntry, Names, on_log_entry,
}

-- no name of the first list stands in the second
disjoint : List String → List String → Bool
disjoint [] names = true
disjoint (n ∷ ns) names = not (has n names) && disjoint ns names

-- a table shares neither its label nor a name with any later one
apart : String → List String → List (String × List String) → Bool
apart label names [] = true
apart label names ((l, ns) ∷ tables) =
    not (str_eq l label) && disjoint names ns && apart label names tables

separate : List (String × List String) → Bool
separate [] = true
separate ((label, names) ∷ tables) =
    not (str_eq label "other") && apart label names tables && separate tables

disjoint-has :
    (names ns : List String) (x : String)
    → disjoint names ns ≡ true
    → has x names ≡ true
    → has x ns ≡ false
unfolding disjoint has
disjoint-has [] ns x h k = cc
disjoint-has (n ∷ names) ns x h k = elim (Bool-cases (str_eq n x)) [
  | inl e ↦ let same : n ≡ x = (eq_iff n x).0 e in ap (λ y. has y ns) (sym same) ∙ ground (arith, h)
  | inr e ↦ disjoint-has names ns x (ground (arith, h)) (ground (arith, k, e))
]

disjoint-is_in :
    (names ns : List String) (x : Option String)
    → disjoint names ns ≡ true
    → is_in x names ≡ true
    → is_in x ns ≡ false
disjoint-is_in names ns none h k = refl
disjoint-is_in names ns (some x) h k = disjoint-has names ns x h k

-- an answer is a label of a table, or "other"
answer-apart :
    (label : String) (names : List String) (tables : List (String × List String))
    (x : Option String)
    → apart label names tables ≡ true
    → str_eq label "other" ≡ false
    → str_eq (first_label tables x) label ≡ false
unfolding apart first_label
answer-apart label names [] x h o = ground (arith, o, eq_iff "other" label, eq_iff label "other")
answer-apart label names ((l, ns) ∷ tables) x h o =
    ground (arith, h, answer-apart label names tables x)

-- a table behind another one that has the record type does not have it, and has another label
module _ (label : String) (names : List String) (all : List (String × List String))
    (x : Option String) (here : is_in x names ≡ true) where
  says-behind :
      (tables : List (String × List String))
      → apart label names tables ≡ true
      → All (λ t. (label ≡ t.0) ↔ (is_in x t.1 ≡ true)) tables
  unfolding apart
  says-behind [] h = tt
  says-behind ((l, ns) ∷ tables) h = (
    ground (arith, h, eq_iff l label, disjoint-is_in names ns x),
    says-behind tables (ground (arith, h)),
  )

-- Whatever the order of the tables: the answer is a table's label exactly for the names of that table.
first_label-tables :
    (tables : List (String × List String)) (x : Option String)
    → separate tables ≡ true
    → All (λ t. (first_label tables x ≡ t.0) ↔ (is_in x t.1 ≡ true)) tables
unfolding separate first_label
first_label-tables [] x h = tt
first_label-tables ((label, names) ∷ tables) x h =
    let first = first_label ((label, names) ∷ tables) x in
    elim (Bool-cases (is_in x names)) [
      | inl here ↦
          let e : first ≡ label = rw here refl in
          (
            (λ q. here, λ q. e),
            subst (λ l. All (λ t. (l ≡ t.0) ↔ (is_in x t.1 ≡ true)) tables) (sym e)
                (says-behind label names tables x here tables (ground (arith, h))),
          )
      | inr away ↦
          let e : first ≡ first_label tables x = rw away refl in
          let other = answer-apart label names tables x (ground (arith, h)) (ground (arith, h)) in
          (
            (
              λ q. ground (arith, other, sym e ∙ q, eq_iff (first_label tables x) label),
              λ q. cc (q, away),
            ),
            subst (λ l. All (λ t. (l ≡ t.0) ↔ (is_in x t.1 ≡ true)) tables) (sym e)
                (first_label-tables tables x (ground (arith, h))),
          )
    ]

event_tables-separate : separate event_tables ≡ true
unfolding separate apart disjoint has
event_tables-separate = refl

method_types-separate : separate method_types ≡ true
unfolding separate apart disjoint has
method_types-separate = refl

-- The type of a fired event is the name of a table exactly if the record type stands in that table, and
-- so is its method: no record type stands in two tables, so the order of the tests does not matter.
pub on_log_entry-tables :
    (names : Names) (e : LogEntry)
    → All
        (λ t.
          ((on_log_entry names e).0 ≡ t.0) ↔ (is_in (names.log_operate e.record_type) t.1 ≡ true))
        event_tables
      × All
          (λ t.
            ((on_log_entry names e).1.method ≡ t.0)
            ↔ (is_in (names.log_operate e.record_type) t.1 ≡ true))
          method_types
unfolding on_log_entry
on_log_entry-tables names e = (
  first_label-tables event_tables (names.log_operate e.record_type) event_tables-separate,
  first_label-tables method_types (names.log_operate e.record_type) method_types-separate,
)
