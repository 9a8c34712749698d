-- ===== src/Setup/Form.antt =====
-- That the options form of options_flow.py shows what the setup of __init__.py uses.
use ha_ttlock_ble.Base.{none, some, ◌≡◌, refl}
use ha_ttlock_ble.Setup.{Options, settings, form_defaults, options_form, options_entry, step_init}

-- The form of the options, submitted as it is shown, stores options of which the setup makes what it made
-- of the old ones, whatever keys were absent.
pub step_init-settings :
    (o : Options)
    → (shown : Options) × (step_init o none ≡ options_form shown)
      × (step_init o (some shown) ≡ options_entry shown)
      × (settings shown ≡ settings o)
unfolding step_init settings form_defaults
step_init-settings o = (form_defaults o, refl, refl, refl)
