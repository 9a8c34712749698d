-- ===== src/Connection/Wire.antt =====
-- What was written to the BLE link (connection.py): only a bolt command adds to it, so any property of it
-- outlasts teardown and acquisition.
use ha_ttlock_ble.Base.{ℕ, Bool, none, some, List, ◌≡◌, refl, arith, subst, sym}
use ha_ttlock_ble.Connection.State.{
  Conn, OwnedClient, Candidate, Interrupt, link_dropped, pushed, stop_requested, control_requested,
  control_finished, interrupt, broadcast_connection_state, Reachability, unavailable, diagnosed,
  undiagnosed,
}
use ha_ttlock_ble.Connection.Cleanup.{release_cleaned}
use ha_ttlock_ble.Connection.Acquire.{
  install_pending, install_client, begin_acquisition, record_reachability,
}
use ha_ttlock_ble.Connection.Frame.{IsStable}

interrupt-wire : (i : Interrupt) (c : Conn) → (interrupt i c).tracking.wire ≡ c.tracking.wire
unfolding interrupt broadcast_connection_state
interrupt-wire (link_dropped none) c = ground arith
interrupt-wire (link_dropped (some g)) c = ground arith
interrupt-wire (pushed e) c = refl
interrupt-wire stop_requested c = refl
interrupt-wire control_requested c = refl
interrupt-wire control_finished c = refl

release-wire :
    (k : OwnedClient) (b : Bool) (c : Conn)
    → (release_cleaned k b c).tracking.wire ≡ c.tracking.wire
unfolding release_cleaned broadcast_connection_state
release-wire k b c = ground arith

install-wire :
    (k : OwnedClient) (r : Candidate) (c : Conn)
    → (install_client k r c).tracking.wire ≡ c.tracking.wire
unfolding install_client broadcast_connection_state
install-wire k r c = ground arith

reached-wire :
    (r : Reachability) (c : Conn) → (record_reachability r c).tracking.wire ≡ c.tracking.wire
unfolding record_reachability
reached-wire unavailable c = refl
reached-wire undiagnosed c = refl
reached-wire (diagnosed t) c = refl

pub wire-IsStable : (Q : List ℕ → Type 0) → IsStable (λ c. Q c.tracking.wire)
unfolding install_pending begin_acquisition
wire-IsStable Q = record {
  ticked = λ c t s p. p;
  interrupted = λ i c p. subst Q (sym (interrupt-wire i c)) p;
  cleaning = λ k c p. p;
  cleaned = λ c p. p;
  released = λ k b c p. subst Q (sym (release-wire k b c)) p;
  tearing = λ k c p. p;
  pending = λ n k c p. p;
  installed = λ k r c p. subst Q (sym (install-wire k r c)) p;
  begun = λ c p. p;
  failing = λ f c p. p;
  reached = λ r c p. subst Q (sym (reached-wire r c)) p;
}
