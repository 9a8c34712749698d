-- ===== src/Connection/Requests/Backoff.antt =====
-- How long the loop that keeps a session open (connection.py) waits between its turns.
use ha_ttlock_ble.Base.{
  ℕ, zero, suc, ◌*◌, ◌≤◌, min, ◌≡◌, refl, Option, none, some, List, [], ◌∷◌, arith, All, ◌⊎◌, inl,
  inr,
}
use Prim.Native.Nat.{◌^◌}
use Prim.Native.Nat.pow.{suc as pow_suc}
use ha_ttlock_ble.Base.Errors.{cancelled}
use ha_ttlock_ble.Base.Exec.{Result, ok, err}
use ha_ttlock_ble.Connection.State.{OwnedClient}
use ha_ttlock_ble.Connection.Requests.{next_backoff, turn_of, maintain}

-- the backoff after so many turns in a row that failed
abbrev pub backoff_after : ℕ → ℕ → ℕ
backoff_after zero b = b
backoff_after (suc n) b = next_backoff (backoff_after n b)

twice : (n : ℕ) → 2 ^ suc n ≡ 2 ^ n * 2
twice n = λ i. pow_suc 2 n i

-- After n turns in a row that failed, the loop waits twice as long each time, from one second up to five
-- minutes.
pub backoff_after-next_backoff : (n : ℕ) → backoff_after n 1000 ≡ min (1000 * 2 ^ n) 300000
unfolding next_backoff
backoff_after-next_backoff zero = refl
backoff_after-next_backoff (suc n) = omega (arith, backoff_after-next_backoff n, twice n)

-- a wait of the loop: the cooldown after a session, or a backoff between one second and five minutes
abbrev pub IsWait : ℕ → ℕ → Type 0
IsWait cooldown s = (s ≡ cooldown) ⊎ ((1000 ≤ s) × (s ≤ 300000))

-- Whatever its acquisitions bring, the maintenance loop, begun with a backoff between one second and five
-- minutes, waits the cooldown or such a backoff after each turn.
pub maintain-IsWait :
    (cooldown backoff : ℕ) (rs : List (Result (Option OwnedClient)))
    → 1000 ≤ backoff
    → backoff ≤ 300000
    → All (IsWait cooldown) (maintain cooldown backoff rs)
unfolding maintain turn_of next_backoff
maintain-IsWait cooldown backoff [] l h = tt
maintain-IsWait cooldown backoff (ok none ∷ rs) l h =
    (inr (l, h), maintain-IsWait cooldown (min (backoff * 2) 300000) rs (omega arith) (omega arith))
maintain-IsWait cooldown backoff (ok (some k) ∷ rs) l h =
    (inl refl, maintain-IsWait cooldown 1000 rs (omega arith) (omega arith))
maintain-IsWait cooldown backoff (err cancelled ∷ rs) l h = tt
maintain-IsWait cooldown backoff (err e ∷ rs) l h =
    (inr (l, h), maintain-IsWait cooldown (min (backoff * 2) 300000) rs (omega arith) (omega arith))
