-- ===== src/Connection/Ownership.antt =====
-- Who owns the BLE link (connection.py): at most one client, known by its generation, and let go only when
-- its teardown is certain.
use ha_ttlock_ble.Base.{
  ℕ, suc, ◌+◌, true, false, Option, none, some, is_some, ◌≡◌, List, [], ◌∷◌, arith,
}
use ha_ttlock_ble.Base.Errors.{Exc}
use ha_ttlock_ble.Base.Exec.Triple.{Triple}
use ha_ttlock_ble.Connection.State.{
  Conn, Env, OwnedClient, Interrupt, link_dropped, pushed, stop_requested, control_requested,
  control_finished, interrupt, interrupts, suspend, broadcast_connection_state,
}

abbrev pub generation_of : Option OwnedClient → Option ℕ
generation_of none = none
generation_of (some k) = some k.generation

-- `self._client or self._pending_client`
abbrev pub first : Option OwnedClient → Option OwnedClient → Option OwnedClient
first none p = p
first (some k) p = some k

-- What holds whatever cleanup is running.
pub record IsHeld (c : Conn) : Type 0 where
  pub exclusive : is_some c.client ≡ true → c.pending_client ≡ none
  pub generation : c.owned_client_generation ≡ generation_of (first c.client c.pending_client)
  pub announced : c.broadcast_connected ≡ true → is_some (first c.client c.pending_client) ≡ true
  pub informed : is_some c.client ≡ true → c.disconnected ≡ false → c.broadcast_connected ≡ true

-- What holds between two operations.
pub record IsOwned (c : Conn) : Type 0 where
  pub held : IsHeld c
  pub settled : c.cleanup_task ≡ none

interrupt-IsHeld : (i : Interrupt) (c : Conn) → IsHeld c → IsHeld (interrupt i c)
unfolding interrupt broadcast_connection_state
interrupt-IsHeld (link_dropped none) c h = ground arith
interrupt-IsHeld (link_dropped (some g)) c h = ground arith
interrupt-IsHeld (pushed e) c h = ground arith
interrupt-IsHeld stop_requested c h = ground arith
interrupt-IsHeld control_requested c h = ground arith
interrupt-IsHeld control_finished c h = ground arith

-- nothing that runs during an await changes what is owned
pub record SameOwner (c d : Conn) : Type 0 where
  pub client : d.client ≡ c.client
  pub pending : d.pending_client ≡ c.pending_client
  pub cleanup : d.cleanup_task ≡ c.cleanup_task
  pub created : d.next_client_generation ≡ c.next_client_generation

interrupt-SameOwner : (i : Interrupt) (c : Conn) → SameOwner c (interrupt i c)
unfolding interrupt broadcast_connection_state
interrupt-SameOwner (link_dropped none) c = ground arith
interrupt-SameOwner (link_dropped (some g)) c = ground arith
interrupt-SameOwner (pushed e) c = ground arith
interrupt-SameOwner stop_requested c = ground arith
interrupt-SameOwner control_requested c = ground arith
interrupt-SameOwner control_finished c = ground arith

interrupts-SameOwner : (is : List Interrupt) (c : Conn) → SameOwner c (interrupts is c)
unfolding interrupts
interrupts-SameOwner [] c = ground arith
interrupts-SameOwner (i ∷ is) c =
    ground (arith, interrupt-SameOwner i c, interrupts-SameOwner is (interrupt i c))

interrupts-IsHeld : (is : List Interrupt) (c : Conn) → IsHeld c → IsHeld (interrupts is c)
unfolding interrupts
interrupts-IsHeld [] c h = h
interrupts-IsHeld (i ∷ is) c h = interrupts-IsHeld is (interrupt i c) (interrupt-IsHeld i c h)

pub IsHeld-same :
    (c d : Conn)
    → IsHeld c
    → (d.client ≡ c.client)
      × (d.pending_client ≡ c.pending_client)
      × (d.owned_client_generation ≡ c.owned_client_generation)
      × (d.broadcast_connected ≡ c.broadcast_connected)
      × (d.disconnected ≡ c.disconnected)
    → IsHeld d
IsHeld-same c d h e = ground arith

pub same_owner : (c d e : Conn) → SameOwner c d → SameOwner d e → SameOwner c e
same_owner c d e p q = ground arith

module _ (env : Env) where
  module _ {E : Exc → Conn → Type 0} where
    pub suspend-Triple :
        {P : Conn → Type 0}
        → ((c : Conn) → P c → IsHeld c)
        → ((c d : Conn) → SameOwner c d → IsHeld d → P c → P d)
        → Triple P (suspend env) (λ _. P) E
    unfolding suspend
    suspend-Triple held keeps = record {
      at = λ c p.
          let ticked = record c { now = c.now + env.elapsed c.steps; steps = suc c.steps } in
          keeps c (interrupts (env.during c.steps) ticked)
            (same_owner c ticked (interrupts (env.during c.steps) ticked) (ground arith)
              (interrupts-SameOwner (env.during c.steps) ticked))
            (interrupts-IsHeld (env.during c.steps) ticked
              (IsHeld-same c ticked (held c p) (ground arith)))
            p;
    }
