-- ===== src/Services/Writes.antt =====
-- What the actions of services.py ask of a connection.
use ha_ttlock_ble.Base.{
  ℕ, ◌<◌, String, true, false, not, Option, none, some, List, [], ◌∷◌, ◌++◌, length, if◌then◌else◌,
  leb, bool_eq, ◌≡◌, refl, ap, arith, ◌⊎◌, inl, inr, Exists,
}
use ha_ttlock_ble.Base.Errors.{Exc}
use ha_ttlock_ble.Base.Exec.{Result, ok, err, ◌>>=◌}
use ha_ttlock_ble.Base.Exec.Triple.{
  Triple, Post, Triple-bind, Triple-if, Triple-raise, Triple-pure, Triple-fact,
}
use ha_ttlock_ble.Services.{
  PasscodeType, LockDate, Command, Sent, Bus, Host, Call, Action, is_valid_code, validate_code,
  local_date, period_window, device_macs, find_connection, found_or, connection_for,
  connection_for_device, is_permitted, legacy_connection, send, dates_of, add_passcode,
  delete_passcode, clear_passcodes, get_auto_lock, set_auto_lock, handle, permanent, period, add,
  delete, clear, get_auto_lock_time, set_auto_lock_time, add_passcode_action,
  delete_passcode_action, clear_passcodes_action, get_auto_lock_action, set_auto_lock_action,
}
use ha_ttlock_ble.Services.Allowed.{
  find-Serves, permitted-Permits, Exists-map, Serves-Holds, Serves, IsLegacyTarget,
}

module _ (host : Host) where
  -- the connection belongs to the device
  abbrev pub IsTarget : String → ℕ → Type 0
  IsTarget device_id c =
      (identifiers : List (String × String)) × (host.device device_id ≡ some identifiers)
      × Exists (Serves host (device_macs host identifiers) c) host.entries

  abbrev pub local_wall : LockDate → ℕ
  local_wall d = if d.aware then host.as_local d.wall else d.wall

  -- The dates of a passcode: the firmware's, or the ones given, in order.
  abbrev pub IsWindow : PasscodeType → Call → String × String → Type 0
  IsWindow permanent call dates = dates ≡ ("0001311400", "9912311400")
  IsWindow period call dates =
      (x : String) × (y : String) × (a : LockDate) × (b : LockDate) × (call.start ≡ some x)
      × (call.end ≡ some y)
      × (host.parse_datetime x ≡ some a)
      × (host.parse_datetime y ≡ some b)
      × (local_wall a < local_wall b)
      × (dates ≡ (host.format_date (local_wall a), host.format_date (local_wall b)))

  -- What an action may send.
  abbrev pub MaySend : Action → Call → ℕ → Command → Type 0
  MaySend add_passcode_action call c command =
      IsLegacyTarget host call.device_id c
      × (is_valid_code host call.code ≡ true)
      × (dates : String × String) × IsWindow call.passcode_type call dates
      × (command ≡ add call.code call.passcode_type dates.0 dates.1)
  MaySend delete_passcode_action call c command =
      IsLegacyTarget host call.device_id c
      × (is_valid_code host call.code ≡ true)
      × (command ≡ delete call.code call.passcode_type)
  MaySend clear_passcodes_action call c command =
      IsLegacyTarget host call.device_id c × (command ≡ clear)
  MaySend get_auto_lock_action call c command =
      IsTarget call.device_id c × (command ≡ get_auto_lock_time)
  MaySend set_auto_lock_action call c command =
      IsTarget call.device_id c × (command ≡ set_auto_lock_time call.seconds)

  module _ (action : Action) (call : Call) (before : List Sent) where
    abbrev Start : Bus → Type 0
    Start s = s.sent ≡ before

    -- one command was sent
    abbrev pub One : Bus → Type 0
    One s =
        (c : ℕ) × (command : Command) × (s.sent
          ≡ before ++ record { target = c; command = command } ∷ [])
        × MaySend action call c command

    abbrev pub AtMostOne : Exc → Bus → Type 0
    AtMostOne e s = (s.sent ≡ before) ⊎ One s

    reply-lem : (n : ℕ) (s : Bus) → One s → Post (λ _. One) AtMostOne (host.reply n, s)
    reply-lem n s q = replied (host.reply n) q
      where
        replied : (r : Result ℕ) → One s → Post (λ _. One) AtMostOne (r, s)
        replied (ok a) q = q
        replied (err e) q = inr q

    send-lem :
        (c : ℕ) (command : Command)
        → MaySend action call c command
        → Triple Start (send host c command) (λ _. One) AtMostOne
    unfolding send ◌>>=◌
    send-lem c command may = record {
      at = λ s q.
          reply-lem (length s.sent) _
            (c, command, ap (λ l. l ++ record { target = c; command = command } ∷ []) q, may);
    }

    found_or-lem :
        (identifiers : List (String × String)) (o : Option ℕ)
        → find_connection host (device_macs host identifiers) host.entries ≡ o
        → host.device call.device_id ≡ some identifiers
        → Triple Start (found_or host o) (λ c s. Start s × IsTarget call.device_id c) AtMostOne
    found_or-lem identifiers none h d = Triple-raise _ (λ s q. inl q)
    found_or-lem identifiers (some c) h d = Triple-pure c (λ s q.
        (q, (identifiers, d, find-Serves host (device_macs host identifiers) host.entries h)))

    connection_for-lem :
        (o : Option (List (String × String)))
        → host.device call.device_id ≡ o
        → Triple Start
            (connection_for host o)
            (λ c s. Start s × IsTarget call.device_id c)
            AtMostOne
    connection_for-lem none d = Triple-raise _ (λ s q. inl q)
    connection_for-lem (some identifiers) d = found_or-lem identifiers _ refl d

    connection-lem :
        Triple Start
          (connection_for_device host call.device_id)
          (λ c s. Start s × IsTarget call.device_id c)
          AtMostOne
    unfolding connection_for_device
    connection-lem = connection_for-lem (host.device call.device_id) refl

    legacy-lem :
        Triple Start
          (legacy_connection host call.device_id)
          (λ c s. Start s × IsLegacyTarget host call.device_id c)
          AtMostOne
    unfolding legacy_connection
    legacy-lem = Triple-bind connection-lem λ c.
        Triple-if (is_permitted host c host.entries)
          (λ b. Triple-pure c (λ s q. (
            q.0,
            (
              q.1.0,
              q.1.1,
              q.1.2,
              permitted-Permits host c host.entries b (
                  Exists-map host (Serves-Holds host (device_macs host q.1.0) c) host.entries
                    q.1.2),
            ),
          )))
          (λ b. Triple-raise _ (λ s q. inl q.0))

    code-lem :
        {P : Bus → Type 0}
        → ((s : Bus) → P s → Start s)
        → Triple P
            (validate_code host call.code)
            (λ _ s. P s × (is_valid_code host call.code ≡ true))
            AtMostOne
    code-lem start =
        Triple-if (is_valid_code host call.code) (λ b. Triple-pure tt (λ s q. (q, b)))
          (λ b. Triple-raise _ (λ s q. inl (start s q)))

    -- the date that was read from a text
    abbrev Parsed : String → LockDate → Type 0
    Parsed x d = (a : LockDate) × (host.parse_datetime x ≡ some a) × (d.wall ≡ local_wall a)

    parse-lem :
        (x : String) (o : Option LockDate)
        → host.parse_datetime x ≡ o
        → Triple Start (local_date host o) (λ d s. Start s × Parsed x d) AtMostOne
    parse-lem x none h = Triple-raise _ (λ s q. inl q)
    parse-lem x (some a) h = Triple-pure _ (λ s q. (q, (a, h, ground arith)))

    window_lem :
        (x y : String) (d e : LockDate)
        → call.start ≡ some x
        → call.end ≡ some y
        → Parsed x d
        → Parsed y e
        → leb e.wall d.wall ≡ false
        → IsWindow period call (host.format_date d.wall, host.format_date e.wall)
    window_lem x y d e hs he (a, ha, wa) (b, hb, wb) late =
        (x, y, a, b, hs, he, ha, hb, rw (← wa, ← wb) (ground (arith, late)), rw (wa, wb) refl)

    period-lem :
        (start end : Option String)
        → call.start ≡ start
        → call.end ≡ end
        → Triple Start
            (period_window host start end)
            (λ dates s. Start s × IsWindow period call dates)
            AtMostOne
    unfolding period_window
    period-lem none end hs he = Triple-raise _ (λ s q. inl q)
    period-lem (some x) none hs he = Triple-raise _ (λ s q. inl q)
    period-lem (some x) (some y) hs he = Triple-bind (parse-lem x (host.parse_datetime x) refl) λ d.
        Triple-fact λ pd. Triple-bind (parse-lem y (host.parse_datetime y) refl) λ e.
          Triple-fact λ pe.
            Triple-if (not (bool_eq d.aware e.aware)) (λ b. Triple-raise _ (λ s q. inl q))
              λ b.
                Triple-if (leb e.wall d.wall) (λ c. Triple-raise _ (λ s q. inl q))
                  (λ c. Triple-pure _ (λ s q. (q, window_lem x y d e hs he pd pe c)))

    dates-lem :
        (t : PasscodeType)
        → Triple Start (dates_of host t call) (λ dates s. Start s × IsWindow t call dates) AtMostOne
    dates-lem permanent = Triple-pure _ (λ s q. (q, refl))
    dates-lem period = period-lem call.start call.end refl refl

  -- Of a bus on which some commands were sent, an action that returns has sent exactly one more, and one
  -- that raises at most one: its own command, with a valid code and the window of dates that was asked
  -- for, to a connection of a loaded entry that serves the device; a write of passcodes goes only to a
  -- connection that a loaded entry holds with its private records loaded and without the opt-out for that
  -- address.
  pub handle-MaySend :
      (action : Action) (call : Call) (before : List Sent)
      → Triple
          (λ s. s.sent ≡ before)
          (handle host action call)
          (λ _. One action call before)
          (AtMostOne action call before)
  unfolding handle add_passcode delete_passcode clear_passcodes get_auto_lock set_auto_lock
  handle-MaySend add_passcode_action call before =
      Triple-bind (code-lem add_passcode_action call before (λ s q. q)) λ _. Triple-fact λ code.
        Triple-bind (dates-lem add_passcode_action call before call.passcode_type) λ dates.
          Triple-fact λ window. Triple-bind (legacy-lem add_passcode_action call before) λ c.
            Triple-fact λ target.
              send-lem add_passcode_action call before c _ (target, code, dates, window, refl)
  handle-MaySend delete_passcode_action call before =
      Triple-bind (code-lem delete_passcode_action call before (λ s q. q)) λ _. Triple-fact λ code.
        Triple-bind (legacy-lem delete_passcode_action call before) λ c.
          Triple-fact λ target. send-lem delete_passcode_action call before c _ (target, code, refl)
  handle-MaySend clear_passcodes_action call before =
      Triple-bind (legacy-lem clear_passcodes_action call before)
        λ c. Triple-fact λ target. send-lem clear_passcodes_action call before c _ (target, refl)
  handle-MaySend get_auto_lock_action call before =
      Triple-bind (connection-lem get_auto_lock_action call before)
        λ c. Triple-fact λ target. send-lem get_auto_lock_action call before c _ (target, refl)
  handle-MaySend set_auto_lock_action call before =
      Triple-bind (connection-lem set_auto_lock_action call before)
        λ c. Triple-fact λ target. send-lem set_auto_lock_action call before c _ (target, refl)
