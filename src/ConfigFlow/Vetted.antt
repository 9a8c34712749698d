-- ===== src/ConfigFlow/Vetted.antt =====
-- What a step of config_flow.py asks Home Assistant to store.
use ha_ttlock_ble.Base.{
  ℕ, suc, String, Bool, false, not, Option, none, some, List, [], ◌∷◌, ◌≡◌, refl, sym, ◌∙◌, ap,
  subst, arith, ◌⊎◌, inl, inr,
}
use ha_ttlock_ble.Base.Codes.{Text}
use ha_ttlock_ble.Base.Errors.{
  Exc, api, authentication, communication, verification_required, api_client_error,
}
use ha_ttlock_ble.Base.Exec.{Exec}
use ha_ttlock_ble.Base.Exec.Triple.{
  Triple, Triple-bind, Triple-read, Triple-if, Triple-raise, Triple-pure, Triple-modify,
  Triple-catch, Triple-fact, weaken,
}
use ha_ttlock_ble.ManualKey
use ha_ttlock_ble.ManualKey.{Input, VirtualKey, FormError}
use ha_ttlock_ble.CloudClient
use ha_ttlock_ble.CloudClient.{
  Reply, replied, cloud_error, http_error, crashed, answered, suppressed,
}
use ha_ttlock_ble.ConfigFlow.{
  Entry, FlowStep, FlowError, FlowResult, Flow, counter, World, no_error, outside_at,
  any_lock_configured, abort_if_any_lock_configured, cloud_login, fetch_failed, fetch_keys,
  finalize_create_entry, finalize_update_entry, show_menu, show_form, create_entry, update_entry,
}
use ha_ttlock_ble.ConfigFlow.Apart.{AreApart, any-AreApart}

abbrev pub Anything : Exc → Flow → Type 0
Anything e s = Unit

answered-lem :
    {A : Type 0} {P : Flow → Type 0} (r : Reply A)
    → Triple P (answered r) (λ a s. P s × (r ≡ replied a)) Anything
unfolding answered
answered-lem (replied a) = Triple-pure a (λ s p. (p, refl))
answered-lem (cloud_error b) = Triple-raise _ (λ s p. tt)
answered-lem http_error = Triple-raise _ (λ s p. tt)
answered-lem crashed = Triple-raise _ (λ s p. tt)

suppressed-lem :
    {P : Flow → Type 0} (r : Reply (Unit {0})) → Triple P (suppressed r) (λ _. P) Anything
suppressed-lem (replied a) = Triple-pure tt (λ s p. p)
suppressed-lem (cloud_error b) = Triple-pure tt (λ s p. p)
suppressed-lem http_error = Triple-raise _ (λ s p. tt)
suppressed-lem crashed = Triple-raise _ (λ s p. tt)

module _ (world : World) where
  module _ (u p : Text) where
    -- the account that the handler remembers
    abbrev pub Remembers : Flow → Type 0
    Remembers s = (s.username ≡ u) × (s.password ≡ p)

    abbrev After : ℕ → Flow → Type 0
    After n s = Remembers s × (s.awaits ≡ suc n)

    call-lem :
        {A : Type 0} {Q : A → Flow → Type 0} (k : ℕ → Exec Flow A)
        → ((n : ℕ) → Triple (After n) (k n) Q Anything)
        → Triple Remembers (CloudClient.call world.cloud counter k) Q Anything
    unfolding CloudClient.call
    call-lem k h =
        Triple-read (λ s. s.awaits)
          λ n. Triple-bind {R = λ _. After n} (Triple-modify _ (λ s q. (q.0, ap suc q.1))) λ _. h n

    -- a login that succeeded, and the number of the await after it
    abbrev LoggedIn : Flow → Type 0
    LoggedIn s = Remembers s × (n : ℕ) × (world.cloud.login u p n ≡ replied tt) × (s.awaits ≡ suc n)

    login-lem :
        Triple Remembers (CloudClient.login world.cloud counter u p) (λ _. LoggedIn) Anything
    unfolding CloudClient.login
    login-lem =
        Triple-bind {R = λ _. Remembers}
          (call-lem _ λ n.
            weaken (λ s q. q.0) (suppressed-lem (world.cloud.discover_site n)) (λ _ s q. q)
              (λ e s q. tt))
          λ _. call-lem _ λ n.
            weaken (λ s q. q) (answered-lem (world.cloud.login u p n))
              (λ a s q. (q.0.0, n, q.1, q.0.1)) (λ e s q. tt)

    cloud_login-lem : Triple Remembers (cloud_login world) (λ _. LoggedIn) Anything
    cloud_login-lem =
        Triple-read (λ (s : Flow). s)
          λ v.
            weaken {P' = λ s. Remembers s × ((v.username ≡ u) × (v.password ≡ p))}
              (λ s q. (q.0, subst Remembers q.1 q.0))
              (Triple-fact λ e.
                subst
                  (λ x.
                    Triple Remembers (CloudClient.login world.cloud counter x v.password)
                      (λ _. LoggedIn) Anything)
                  (sym e.0)
                  (subst
                    (λ y.
                      Triple Remembers (CloudClient.login world.cloud counter u y) (λ _. LoggedIn)
                        Anything)
                    (sym e.1) login-lem))
              (λ _ s q. q) (λ e s q. q)

    -- the keys that the cloud listed right after a login that succeeded
    abbrev pub Listed : List VirtualKey → Type 0
    Listed keys =
        (n : ℕ) × (world.cloud.login u p n ≡ replied tt)
        × (world.cloud.list_keys (suc n) ≡ replied keys)

    abbrev Fetched : List VirtualKey × List FlowError → Flow → Type 0
    Fetched r s = (no_error r.1 ≡ false) ⊎ (Remembers s × Listed r.0)

    list_keys-lem :
        Triple LoggedIn
          (CloudClient.list_keys world.cloud counter)
          (λ keys s. Remembers s × Listed keys)
          Anything
    unfolding CloudClient.list_keys CloudClient.call
    list_keys-lem =
        Triple-read (λ (s : Flow). s.awaits)
          λ m.
            Triple-bind
              {R = λ _ s.
                Remembers s × (n : ℕ) × (world.cloud.login u p n ≡ replied tt) × (m ≡ suc n)}
              (Triple-modify _ (λ s q. (q.0.0, q.0.1, q.0.2, sym q.1 ∙ q.0.3)))
              λ _.
                weaken (λ s q. q) (answered-lem (world.cloud.list_keys m))
                  (λ keys s q. (q.0.0, (q.0.1, q.0.2, ap world.cloud.list_keys (sym q.0.3) ∙ q.1)))
                  (λ e s q. tt)

    fetch_failed-lem : (e : Exc) → Triple (Anything e) (fetch_failed world e) Fetched Anything
    fetch_failed-lem (api authentication) = Triple-pure _ (λ s q. inl refl)
    fetch_failed-lem (api communication) = Triple-pure _ (λ s q. inl refl)
    fetch_failed-lem (api verification_required) = Triple-pure _ (λ s q. inl refl)
    fetch_failed-lem (api api_client_error) = Triple-pure _ (λ s q. inl refl)
    fetch_failed-lem _ = Triple-raise _ (λ s q. tt)

    fetch_keys-lem : Triple Remembers (fetch_keys world) Fetched Anything
    unfolding fetch_keys
    fetch_keys-lem =
        Triple-catch {F = Anything}
          (Triple-bind cloud_login-lem
            λ _. Triple-bind list_keys-lem λ keys. Triple-pure (keys, []) (λ s q. inr q))
          fetch_failed-lem

  -- the keys are those that a form built which was accepted
  abbrev pub Entered : List VirtualKey → Type 0
  Entered keys =
      (i : Input) × (n : ℕ) × (k : VirtualKey) × (ManualKey.async_validate (outside_at world n) i
        ≡ [])
      × (ManualKey.build world.outside i ≡ some k)
      × (keys ≡ k ∷ [])

  abbrev pub IsSourced : Option (Text × Text) → List VirtualKey → Type 0
  IsSourced none keys = Entered keys
  IsSourced (some (u, p)) keys = Listed u p keys

  -- What is asked to be stored has its source, and shares no lock with another entry of that moment.
  abbrev pub Vetted : FlowResult → Flow → Type 0
  Vetted show_menu s = Unit
  Vetted (show_form step errors) s = Unit
  Vetted (create_entry title d) s =
      IsSourced d.account d.keys × AreApart world none d.keys (world.entries s.awaits)
  Vetted (update_entry e i d title) s =
      IsSourced d.account d.keys × AreApart world (some e.entry_id) d.keys (world.entries s.awaits)

  pub apart-lem :
      {P : Flow → Type 0} (ignored : Option String) (keys : List VirtualKey)
      → Triple P
          (abort_if_any_lock_configured world ignored keys)
          (λ _ s. P s × AreApart world ignored keys (world.entries s.awaits))
          Anything
  unfolding abort_if_any_lock_configured
  apart-lem ignored keys =
      Triple-read (λ (s : Flow). any_lock_configured world ignored keys (world.entries s.awaits))
        λ found.
          Triple-if found (λ b. Triple-raise _ (λ s q. tt))
            (λ b. Triple-pure tt (λ s q. (q.0, any-AreApart world ignored keys _ (q.1 ∙ b))))

  unless_error : {A : Type 0} (x : Bool) → not x ≡ false → ((x ≡ false) ⊎ A) → A
  unless_error x b (inl e) = ground (arith, b, e)
  unless_error x b (inr a) = a

  module _ (u p : Text) where
    listed_lem :
        (v : Flow) (keys : List VirtualKey)
        → Remembers u p v
        → Listed u p keys
        → Listed v.username v.password keys
    listed_lem v keys r l = (
      l.0,
      ap (λ x. world.cloud.login x v.password l.0) r.0
          ∙ ap (λ y. world.cloud.login u y l.0) r.1
          ∙ l.1,
      l.2,
    )

    -- from the fetched keys to what is stored of them
    abbrev Clear : Option String → List VirtualKey → Flow → Type 0
    Clear ignored keys s =
        (Remembers u p s × Listed u p keys) × AreApart world ignored keys (world.entries s.awaits)

    clear_lem :
        (ignored : Option String) (r : List VirtualKey × List FlowError)
        → not (no_error r.1) ≡ false
        → Triple
            (Fetched u p r)
            (abort_if_any_lock_configured world ignored r.0)
            (λ _. Clear ignored r.0)
            Anything
    clear_lem ignored r b =
        weaken {P' = λ s. Remembers u p s × Listed u p r.0} (λ s q. unless_error (no_error r.1) b q)
          (apart-lem ignored r.0) (λ _ s q. q) (λ e s q. q)

    stored-lem :
        (ignored : Option String) (keys : List VirtualKey) (v s : Flow)
        → Clear ignored keys s
        → s ≡ v
        → Listed v.username v.password keys × AreApart world ignored keys (world.entries s.awaits)
    stored-lem ignored keys v s q e = (listed_lem v keys (subst (Remembers u p) e q.0.0) q.0.1, q.1)

    pub finalize_create_entry-lem :
        (step : FlowStep)
        → Triple (Remembers u p) (finalize_create_entry world step) Vetted Anything
    unfolding finalize_create_entry
    finalize_create_entry-lem step = Triple-bind (fetch_keys-lem u p) λ r.
        Triple-if (not (no_error r.1)) (λ b. Triple-pure _ (λ s q. tt))
          λ b. Triple-bind (clear_lem none r b) λ _.
            Triple-read (λ (s : Flow). s)
              λ v. Triple-pure _ (λ s q. stored-lem none r.0 v s q.0 q.1)

    pub finalize_update_entry-lem :
        (step : FlowStep) (e : Entry)
        → Triple (Remembers u p) (finalize_update_entry world step e) Vetted Anything
    unfolding finalize_update_entry
    finalize_update_entry-lem step e = Triple-bind (fetch_keys-lem u p) λ r.
        Triple-if (not (no_error r.1)) (λ b. Triple-pure _ (λ s q. tt))
          λ b. Triple-bind (clear_lem (some e.entry_id) r b) λ _.
            Triple-read (λ (s : Flow). s)
              λ v. Triple-pure _ (λ s q. stored-lem (some e.entry_id) r.0 v s q.0 q.1)
