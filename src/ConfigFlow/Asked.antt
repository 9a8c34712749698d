-- ===== src/ConfigFlow/Asked.antt =====
-- Every step of config_flow.py asks only for what Vetted describes.
use ha_ttlock_ble.Base.{false, not, Option, none, some, List, [], ◌∷◌, ◌≡◌, refl}
use ha_ttlock_ble.Base.Codes.{Text}
use ha_ttlock_ble.Base.Exec.{Exec, Result, ok, err}
use ha_ttlock_ble.Base.Exec.Triple.{
  Triple, Post, Triple-bind, Triple-read, Triple-if, Triple-raise, Triple-pure, Triple-fact,
}
use ha_ttlock_ble.ManualKey
use ha_ttlock_ble.ManualKey.{Input, VirtualKey, FormError}
use ha_ttlock_ble.ConfigFlow.{
  Entry, FlowStep, Flow, World, no_error, needs_code, outside_at, finalize_create_entry,
  finalize_update_entry, cloud_step, verify_code_step, reauth_confirm_step, reconfigure_step,
}
use ha_ttlock_ble.ConfigFlow.Steps.{
  Request, user, cloud, manual, verify_code, reauth, reauth_confirm, reconfigure,
  reconfigure_manual, Credentials, form_errors, step_verify_code, step_cloud, key_or_raise,
  stored_form, step_manual, step_reconfigure_manual, step_credentials, reconfigure_by, Request,
  run_step, user, cloud, manual, verify_code, reauth, reauth_confirm, reconfigure,
  reconfigure_manual,
}
use ha_ttlock_ble.ConfigFlow.Vetted.{
  finalize_create_entry-lem, finalize_update_entry-lem, apart-lem, Anything, Vetted,
}

ended : {A : Type 0} (r : Result A × Flow) → Post (λ _ _. Unit {0}) Anything r
ended (ok a, s) = tt
ended (err e, s) = tt

whatever :
    {A : Type 0} {P : Flow → Type 0} (m : Exec Flow A) → Triple P m (λ _ _. Unit {0}) Anything
whatever m = record { at = λ s p. ended (m s) }

no_error-form_errors : (l : List FormError) → not (no_error (form_errors l)) ≡ false → l ≡ []
no_error-form_errors [] h = refl
no_error-form_errors (e ∷ l) h = cc

module _ (world : World) where
  abbrev Any : Flow → Type 0
  Any s = Unit

  create-lem :
      (step : FlowStep) → Triple Any (finalize_create_entry world step) (Vetted world) Anything
  create-lem step = record {
    at = λ s q. (finalize_create_entry-lem world s.username s.password step).at s (refl, refl);
  }

  update-lem :
      (step : FlowStep) (e : Entry)
      → Triple Any (finalize_update_entry world step e) (Vetted world) Anything
  update-lem step e = record {
    at = λ s q. (finalize_update_entry-lem world s.username s.password step e).at s (refl, refl);
  }

  step_verify_code-lem :
      (code : Option Text) → Triple Any (step_verify_code world code) (Vetted world) Anything
  unfolding step_verify_code
  step_verify_code-lem none = Triple-pure _ (λ s q. tt)
  step_verify_code-lem (some code) = Triple-bind (whatever _) λ errors.
      Triple-if (no_error errors) (λ b. create-lem verify_code_step)
        (λ b. Triple-pure _ (λ s q. tt))

  step_cloud-lem :
      (given : Option Credentials) → Triple Any (step_cloud world given) (Vetted world) Anything
  unfolding step_cloud
  step_cloud-lem none = Triple-pure _ (λ s q. tt)
  step_cloud-lem (some given) = Triple-bind (whatever _) λ _. Triple-bind (whatever _) λ _.
      Triple-bind (whatever _) λ _. Triple-bind (whatever _) λ errors.
        Triple-if (no_error errors) (λ b. create-lem cloud_step)
          λ b.
            Triple-if (needs_code errors) (λ c. step_verify_code-lem none)
              (λ c. Triple-pure _ (λ s q. tt))

  key_or_raise-lem :
      {P : Flow → Type 0} (o : Option VirtualKey)
      → Triple P (key_or_raise world o) (λ k s. P s × (o ≡ some k)) Anything
  key_or_raise-lem none = Triple-raise _ (λ s q. tt)
  key_or_raise-lem (some k) = Triple-pure k (λ s q. (q, refl))

  step_manual-lem : (i : Option Input) → Triple Any (step_manual world i) (Vetted world) Anything
  unfolding step_manual
  step_manual-lem none = Triple-pure _ (λ s q. tt)
  step_manual-lem (some i) =
      Triple-read (λ (s : Flow). s)
        λ v.
          let errors = ManualKey.async_validate (outside_at world v.awaits) i in
          Triple-if (not (no_error (form_errors errors))) (λ b. Triple-pure _ (λ s q. tt))
            λ b. Triple-bind (key_or_raise-lem (ManualKey.build world.outside i)) λ k.
              Triple-fact λ e. Triple-bind (whatever _) λ _. Triple-bind (whatever _) λ _.
                Triple-bind (apart-lem world {P = Any} none (k ∷ [])) λ _.
                  Triple-pure _
                    (λ s q. ((i, v.awaits, k, no_error-form_errors errors b, e, refl), q.1))

  stored_form-lem :
      (keys : List VirtualKey) → Triple Any (stored_form world keys) (Vetted world) Anything
  stored_form-lem [] = Triple-raise _ (λ s q. tt)
  stored_form-lem (k ∷ ks) = Triple-pure _ (λ s q. tt)

  reconfigure_manual-lem :
      (e : Entry) (i : Option Input)
      → Triple Any (step_reconfigure_manual world e i) (Vetted world) Anything
  unfolding step_reconfigure_manual
  reconfigure_manual-lem e none = stored_form-lem e.stored.keys
  reconfigure_manual-lem e (some i) =
      Triple-read (λ (s : Flow). s)
        λ v.
          let errors = ManualKey.async_validate (outside_at world v.awaits) i in
          Triple-if (not (no_error (form_errors errors))) (λ b. Triple-pure _ (λ s q. tt))
            λ b. Triple-bind (key_or_raise-lem (ManualKey.build world.outside i)) λ k.
              Triple-fact λ q. Triple-bind (apart-lem world (some e.entry_id) (k ∷ [])) λ _.
                Triple-pure _
                  (λ s r. ((i, v.awaits, k, no_error-form_errors errors b, q, refl), r.1))

  step_credentials-lem :
      (e : Entry) (step : FlowStep) (given : Option Credentials)
      → Triple Any (step_credentials world e step given) (Vetted world) Anything
  unfolding step_credentials
  step_credentials-lem e step none = Triple-pure _ (λ s q. tt)
  step_credentials-lem e step (some given) = Triple-bind (whatever _) λ _.
      Triple-bind (whatever _) λ _. Triple-bind (whatever _) λ _. Triple-bind (whatever _) λ errors.
        Triple-if (no_error errors) (λ b. update-lem step e) (λ b. Triple-pure _ (λ s q. tt))

  reconfigure_by-lem :
      (account : Option (Text × Text)) (e : Entry) (given : Option Credentials)
      → Triple Any (reconfigure_by world account e given) (Vetted world) Anything
  reconfigure_by-lem none e given = reconfigure_manual-lem e none
  reconfigure_by-lem (some account) e given = step_credentials-lem e reconfigure_step given

  -- Whatever step a dialog runs, with whatever input and answers of the cloud: when it asks to create or
  -- update an entry, the keys are those that the cloud listed right after a login with the account that
  -- is stored, or the one key that an accepted form built; and no key stands for a lock that another
  -- entry holds at that moment.
  pub run_step-Vetted :
      (request : Request) → Triple (λ _. Unit {0}) (run_step world request) (Vetted world) Anything
  unfolding run_step
  run_step-Vetted user = Triple-pure _ (λ s q. tt)
  run_step-Vetted (cloud given) = step_cloud-lem given
  run_step-Vetted (manual i) = step_manual-lem i
  run_step-Vetted (verify_code code) = step_verify_code-lem code
  run_step-Vetted (reauth e) = step_credentials-lem e reauth_confirm_step none
  run_step-Vetted (reauth_confirm e given) = step_credentials-lem e reauth_confirm_step given
  run_step-Vetted (reconfigure e given) = reconfigure_by-lem e.stored.account e given
  run_step-Vetted (reconfigure_manual e i) = reconfigure_manual-lem e i
