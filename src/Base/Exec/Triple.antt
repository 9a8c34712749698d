-- ===== src/Base/Exec/Triple.antt =====
-- Hoare triples for `Exec`: from `P`, a return satisfies `Q` and a raise satisfies `E`.
use mathlib.Core.Path.{◌≡◌, refl}
use mathlib.Core.Bool.{Bool, true, false}
use ha_ttlock_ble.Base.Tests.{if◌then◌else◌}
use ha_ttlock_ble.Base.Errors.{Exc}
use ha_ttlock_ble.Base.Exec.{
  Exec, Result, ok, err, pure, raise, gets, lift, modify, catch, handle, continue, ◌>>=◌,
}

module _ {S A : Type 0} where
  -- what holds of a result and the state beside it
  abbrev pub Post : (A → S → Type 0) → (Exc → S → Type 0) → Result A × S → Type 0
  Post Q E (ok a, s) = Q a s
  Post Q E (err e, s) = E e s

  pub record Triple (P : S → Type 0) (m : Exec S A) (Q : A → S → Type 0) (E : Exc → S → Type 0)
      : Type 0 where
    pub at : (s : S) → P s → Post Q E (m s)

  -- `m` keeps `P`, whether it returns or raises
  abbrev pub Keeps : (S → Type 0) → Exec S A → Type 0
  Keeps P m = Triple P m (λ _. P) (λ _. P)

module _ {S A : Type 0} {Q : A → S → Type 0} {E : Exc → S → Type 0} where
  handled :
      {F : Exc → S → Type 0} (h : Exc → Exec S A) (r : Result A × S)
      → ((e : Exc) → Triple (F e) (h e) Q E)
      → Post Q F r
      → Post Q E (handle h r)
  handled h (ok a, s) kh q = q
  handled h (err e, s) kh q = (kh e).at s q

module _ {S A B : Type 0} {Q : B → S → Type 0} {E : Exc → S → Type 0} where
  continued :
      {R : A → S → Type 0} (f : A → Exec S B) (r : Result A × S)
      → ((a : A) → Triple (R a) (f a) Q E)
      → Post R E r
      → Post Q E (continue f r)
  continued f (ok a, s) kf q = (kf a).at s q
  continued f (err e, s) kf q = q

module _ {S A : Type 0} {P : S → Type 0} {Q : A → S → Type 0} {E : Exc → S → Type 0} where
  pub Triple-pure : (a : A) → ((s : S) → P s → Q a s) → Triple P (pure a) Q E
  Triple-pure a h = record { at = h }

  pub Triple-raise : (e : Exc) → ((s : S) → P s → E e s) → Triple P (raise e) Q E
  Triple-raise e h = record { at = h }

  pub Triple-gets : (f : S → A) → ((s : S) → P s → Q (f s) s) → Triple P (gets f) Q E
  Triple-gets f h = record { at = h }

  pub Triple-lift :
      (r : Result A)
      → ((a : A) → r ≡ ok a → (s : S) → P s → Q a s)
      → ((e : Exc) → r ≡ err e → (s : S) → P s → E e s)
      → Triple P (lift r) Q E
  Triple-lift (ok a) h k = record { at = h a refl }
  Triple-lift (err e) h k = record { at = k e refl }

  -- a fact that no state changes
  pub Triple-fact : {F : Type 0} {m : Exec S A} → (F → Triple P m Q E) → Triple (λ s. P s × F) m Q E
  Triple-fact k = record { at = λ s p. (k p.1).at s p.0 }

  pub Triple-absurd : {m : Exec S A} → ((s : S) → P s → ⊥) → Triple P m Q E
  Triple-absurd h = record { at = λ s p. absurd (h s p) }

  pub Triple-if :
      (b : Bool) {m n : Exec S A}
      → (b ≡ true → Triple P m Q E)
      → (b ≡ false → Triple P n Q E)
      → Triple P (if b then m else n) Q E
  Triple-if true km kn = km refl
  Triple-if false km kn = kn refl

  pub Triple-catch :
      {F : Exc → S → Type 0} {m : Exec S A} {h : Exc → Exec S A}
      → Triple P m Q F
      → ((e : Exc) → Triple (F e) (h e) Q E)
      → Triple P (catch m h) Q E
  unfolding catch
  Triple-catch {m = m} {h = h} km kh = record { at = λ s p. handled h (m s) kh (km.at s p) }

  pub weaken :
      {P' : S → Type 0} {Q' : A → S → Type 0} {E' : Exc → S → Type 0} {m : Exec S A}
      → ((s : S) → P s → P' s)
      → Triple P' m Q' E'
      → ((a : A) (s : S) → Q' a s → Q a s)
      → ((e : Exc) (s : S) → E' e s → E e s)
      → Triple P m Q E
  weaken {Q' = Q'} {E' = E'} {m = m} pre km post raised = record {
    at = λ s p. go (m s) (km.at s (pre s p));
  }
    where
      go : (r : Result A × S) → Post Q' E' r → Post Q E r
      go (ok a, s) h = post a s h
      go (err e, s) h = raised e s h

module _ {S : Type 0} {P : S → Type 0} {Q : Unit {0} → S → Type 0} {E : Exc → S → Type 0} where
  pub Triple-modify : (f : S → S) → ((s : S) → P s → Q tt (f s)) → Triple P (modify f) Q E
  Triple-modify f h = record { at = h }

module _ {S A : Type 0} (Q Q' : A → S → Type 0) (E E' : Exc → S → Type 0) where
  both :
      (r : Result A × S)
      → Post Q E r
      → Post Q' E' r
      → Post (λ a s. Q a s × Q' a s) (λ e s. E e s × E' e s) r
  both (ok a, s) p q = (p, q)
  both (err e, s) p q = (p, q)

module _ {S A : Type 0} {Q Q' : A → S → Type 0} {E E' : Exc → S → Type 0} where
  pub Triple-both :
      {P P' : S → Type 0} {m : Exec S A}
      → Triple P m Q E
      → Triple P' m Q' E'
      → Triple (λ s. P s × P' s) m (λ a s. Q a s × Q' a s) (λ e s. E e s × E' e s)
  Triple-both {m = m} h k = record { at = λ s p. both Q Q' E E' (m s) (h.at s p.0) (k.at s p.1) }

module _ {S A B : Type 0} {P : S → Type 0} {Q : B → S → Type 0} {E : Exc → S → Type 0} where
  pub Triple-bind :
      {R : A → S → Type 0} {m : Exec S A} {f : A → Exec S B}
      → Triple P m R E
      → ((a : A) → Triple (R a) (f a) Q E)
      → Triple P (m >>= f) Q E
  unfolding ◌>>=◌
  Triple-bind {m = m} {f = f} km kf = record { at = λ s p. continued f (m s) kf (km.at s p) }

  -- what was read is known while the state is still the one that it was read from
  pub Triple-read :
      (g : S → A) {f : A → Exec S B}
      → ((a : A) → Triple (λ s. P s × (g s ≡ a)) (f a) Q E)
      → Triple P (gets g >>= f) Q E
  unfolding ◌>>=◌
  Triple-read g kf = record { at = λ s p. (kf (g s)).at s (p, refl) }

module _ {S A : Type 0} {P : S → Type 0} where
  pub Keeps-pure : (a : A) → Keeps P (pure a)
  Keeps-pure a = Triple-pure a (λ s p. p)

  pub Keeps-raise : (e : Exc) → Keeps {A = A} P (raise e)
  Keeps-raise e = Triple-raise e (λ s p. p)

  pub Keeps-gets : (f : S → A) → Keeps P (gets f)
  Keeps-gets f = Triple-gets f (λ s p. p)

  pub Keeps-if : (b : Bool) {m n : Exec S A} → Keeps P m → Keeps P n → Keeps P (if b then m else n)
  Keeps-if b km kn = Triple-if b (λ _. km) (λ _. kn)

  pub Keeps-catch :
      {m : Exec S A} {h : Exc → Exec S A}
      → Keeps P m
      → ((e : Exc) → Keeps P (h e))
      → Keeps P (catch m h)
  Keeps-catch km kh = Triple-catch km kh

module _ {S A B : Type 0} {P : S → Type 0} where
  pub Keeps-bind :
      {m : Exec S A} {f : A → Exec S B} → Keeps P m → ((a : A) → Keeps P (f a)) → Keeps P (m >>= f)
  Keeps-bind km kf = Triple-bind km kf

pub ruleset keeps_rules = (Keeps-pure, Keeps-raise, Keeps-gets, Keeps-if, Keeps-catch, Keeps-bind)
