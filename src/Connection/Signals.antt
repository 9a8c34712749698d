-- ===== src/Connection/Signals.antt =====
-- The connectivity that connection.py announces through the dispatcher, beside the state of the link.
use ha_ttlock_ble.Base.{
  ℕ, Bool, true, false, not, ◌&&◌, none, some, is_some, List, [], ◌∷◌, ◌++◌, ◌≡◌, refl, bool_eq,
  arith, Bool-cases, inl, inr,
}
use ha_ttlock_ble.Base.Exec.Triple.{Triple, Triple-both, weaken}
use ha_ttlock_ble.Connection.Ownership.{IsOwned, first}
use ha_ttlock_ble.Connection.Acquiring.{ensure_connected-Acquired}
use ha_ttlock_ble.Connection.Command.Resolved.{Acquired-IsOwned}
use ha_ttlock_ble.Connection.State.{
  Conn, Env, Intent, Signal, connection_signal, event_signal, log_signal, OwnedClient, Candidate,
  Interrupt, link_dropped, pushed, stop_requested, control_requested, control_finished, interrupt,
  is_generation, holds, broadcast_connection_state, Reachability, unavailable, diagnosed,
  undiagnosed,
}
use ha_ttlock_ble.Connection.Cleanup.{release_cleaned}
use ha_ttlock_ble.Connection.Acquire.{
  install_pending, install_client, begin_acquisition, record_reachability, ensure_connected,
}
use ha_ttlock_ble.Connection.Frame.{IsStable, ensure_connected-Keeps}

-- Each connectivity signal differs from the one before it, the first from `last`; the last one is `now`.
abbrev pub Alternates : Bool → List Signal → Bool → Type 0
Alternates last [] now = last ≡ now
Alternates last (connection_signal b ∷ s) now = (b ≡ not last) × Alternates b s now
Alternates last (event_signal e ∷ s) now = Alternates last s now
Alternates last (log_signal e ∷ s) now = Alternates last s now

Alternates-flip :
    (last : Bool) (s : List Signal) (now : Bool)
    → Alternates last s now
    → Alternates last (s ++ connection_signal (not now) ∷ []) (not now)
Alternates-flip last [] now h = (ground arith, refl)
Alternates-flip last (connection_signal b ∷ s) now h = (h.0, Alternates-flip b s now h.1)
Alternates-flip last (event_signal e ∷ s) now h = Alternates-flip last s now h
Alternates-flip last (log_signal e ∷ s) now h = Alternates-flip last s now h

Alternates-event :
    (last : Bool) (s : List Signal) (now : Bool) (e : ℕ)
    → Alternates last s now
    → Alternates last (s ++ event_signal e ∷ []) now
Alternates-event last [] now e h = h
Alternates-event last (connection_signal b ∷ s) now e h = (h.0, Alternates-event b s now e h.1)
Alternates-event last (event_signal f ∷ s) now e h = Alternates-event last s now e h
Alternates-event last (log_signal f ∷ s) now e h = Alternates-event last s now e h

-- A lock starts as announced down, and a link that was lost is announced as down unless a stop does it.
pub record IsAnnounced (c : Conn) : Type 0 where
  pub alternates : Alternates false c.signals c.broadcast_connected
  pub lost : c.disconnected ≡ true → c.closing_event ≡ false → c.broadcast_connected ≡ false

flipped : (b a : Bool) → bool_eq b a ≡ false → b ≡ not a
flipped b a h = ground arith

broadcast-Alternates :
    (b : Bool) (c : Conn)
    → Alternates false c.signals c.broadcast_connected
    → Alternates false
        (broadcast_connection_state b c).signals
        (broadcast_connection_state b c).broadcast_connected
unfolding broadcast_connection_state
broadcast-Alternates b c p = elim (Bool-cases (bool_eq b c.broadcast_connected)) [
  | inl same ↦ rw same p
  | inr new ↦ rw new (
      rw (flipped b c.broadcast_connected new)
        (Alternates-flip false c.signals c.broadcast_connected p))
]

broadcast-lost :
    (b : Bool) (c : Conn)
    → (c.disconnected ≡ true → b ≡ false)
    → (broadcast_connection_state b c).disconnected ≡ true
    → (broadcast_connection_state b c).broadcast_connected ≡ false
unfolding broadcast_connection_state
broadcast-lost b c h = ground arith

broadcast-IsAnnounced :
    (b : Bool) (c : Conn)
    → Alternates false c.signals c.broadcast_connected
    → (c.disconnected ≡ true → b ≡ false)
    → IsAnnounced (broadcast_connection_state b c)
broadcast-IsAnnounced b c p h = record {
  alternates = broadcast-Alternates b c p;
  lost = λ d o. broadcast-lost b c h d;
}

interrupt-IsAnnounced : (i : Interrupt) (c : Conn) → IsAnnounced c → IsAnnounced (interrupt i c)
unfolding interrupt
interrupt-IsAnnounced (link_dropped none) c p =
    broadcast-IsAnnounced false (record c { disconnected = true }) p.alternates (λ h. refl)
interrupt-IsAnnounced (link_dropped (some g)) c p =
    elim (Bool-cases (is_generation c.owned_client_generation g)) [
      | inl current ↦
          rw current (
            broadcast-IsAnnounced false (record c { disconnected = true }) p.alternates (λ h. refl))
      | inr retired ↦ rw retired p
    ]
interrupt-IsAnnounced (pushed e) c p = record {
  alternates = Alternates-event false c.signals c.broadcast_connected e p.alternates;
  lost = p.lost;
}
interrupt-IsAnnounced stop_requested c p = record {
  alternates = p.alternates;
  lost = λ d o. ground arith;
}
interrupt-IsAnnounced control_requested c p = record { alternates = p.alternates; lost = p.lost }
interrupt-IsAnnounced control_finished c p = record { alternates = p.alternates; lost = p.lost }

release-IsAnnounced :
    (k : OwnedClient) (b : Bool) (c : Conn) → IsAnnounced c → IsAnnounced (release_cleaned k b c)
unfolding release_cleaned
release-IsAnnounced k b c p = elim (Bool-cases (b && holds c.pending_client k)) [
  | inl gone ↦ rw gone (
      broadcast-IsAnnounced false
        (record c { pending_client = none; owned_client_generation = none }) p.alternates
        (λ h. refl))
  | inr kept ↦ rw kept p
]

install-IsAnnounced :
    (k : OwnedClient) (r : Candidate) (c : Conn)
    → IsAnnounced c
    → IsAnnounced (install_client k r c)
unfolding install_client
install-IsAnnounced k r c p =
    broadcast-IsAnnounced true
      (record c {
        pending_client = none;
        client = some k;
        last_connection_rssi = r.rssi;
        disconnected = false;
      })
      p.alternates (λ h. ground arith)

reach-IsAnnounced :
    (r : Reachability) (c : Conn) → IsAnnounced c → IsAnnounced (record_reachability r c)
unfolding record_reachability
reach-IsAnnounced unavailable c p = p
reach-IsAnnounced undiagnosed c p = p
reach-IsAnnounced (diagnosed t) c p = record { alternates = p.alternates; lost = p.lost }

pub IsAnnounced-IsStable : IsStable IsAnnounced
unfolding install_pending begin_acquisition
IsAnnounced-IsStable = record {
  ticked = λ c t s p. record { alternates = p.alternates; lost = p.lost };
  interrupted = interrupt-IsAnnounced;
  cleaning = λ k c p. record { alternates = p.alternates; lost = p.lost };
  cleaned = λ c p. record { alternates = p.alternates; lost = p.lost };
  released = release-IsAnnounced;
  tearing = λ k c p. record { alternates = p.alternates; lost = p.lost };
  pending = λ n k c p. record { alternates = p.alternates; lost = p.lost };
  installed = install-IsAnnounced;
  begun = λ c p. record { alternates = p.alternates; lost = p.lost };
  failing = λ f c p. record { alternates = p.alternates; lost = p.lost };
  reached = reach-IsAnnounced;
}

-- The announcements are those of the link: they alternate and the last one is the state on record, which
-- is up while a client is installed whose link is not lost, down without a client, and down once the link
-- is lost while no stop is under way.
pub record IsCurrent (c : Conn) : Type 0 where
  pub alternates : Alternates false c.signals c.broadcast_connected
  pub up : is_some c.client ≡ true → c.disconnected ≡ false → c.broadcast_connected ≡ true
  pub down : first c.client c.pending_client ≡ none → c.broadcast_connected ≡ false
  pub lost : c.disconnected ≡ true → c.closing_event ≡ false → c.broadcast_connected ≡ false

current : (c : Conn) → IsOwned c → IsAnnounced c → IsCurrent c
current c p a = record {
  alternates = a.alternates;
  up = p.held.informed;
  down = λ h. ground (arith, p.held.announced);
  lost = a.lost;
}

module _ (env : Env) where
  -- From a state in order whose announcements are right, and whatever happens meanwhile, an acquisition
  -- leaves announcements of the link that are right: they alternate and the last one is the state on
  -- record, which is connected while a client is installed whose link was neither lost nor stopped,
  -- disconnected when no client is owned, and disconnected once the link is lost and no stop was asked
  -- for.
  pub ensure_connected-IsCurrent :
      (active_scan : Bool) (intent : Intent)
      → Triple
          (λ c. IsOwned c × IsAnnounced c)
          (ensure_connected env active_scan intent)
          (λ _. IsCurrent)
          (λ _. IsCurrent)
  ensure_connected-IsCurrent active_scan intent =
      weaken (λ c p. p)
        (Triple-both (ensure_connected-Acquired env active_scan intent)
          (ensure_connected-Keeps env IsAnnounced-IsStable active_scan intent))
        (λ r c p. current c (Acquired-IsOwned r c p.0) p.1) (λ e c p. current c p.0.0 p.1)
