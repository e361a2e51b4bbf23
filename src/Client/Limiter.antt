-- ===== src/Client/Limiter.antt =====
-- internal/ratelimit.go. What a rate.Limiter of golang.org/x/time/rate makes of its history is a
-- parameter: how long its Wait blocks, in nanoseconds, and the error it may end in, given the calls
-- of Wait before, newest first, and the time.
use mathlib.Core.List.{List, [], ◌∷◌}
use mcp_pipedrive.Prelude.{Option, none, some, ℕ, ◌+◌}
use mcp_pipedrive.Result.{Error}

-- rate.NewLimiter: an event each `every` nanoseconds, and a burst
pub record Rate : Type 0 where
  pub every : ℕ
  pub burst : ℕ

-- a call of a limiter's Wait, and its time
pub record Wait : Type 0 where
  pub limiter : Rate
  pub called : ℕ

-- MultiLimiter.Wait, after some calls of Wait: the time at its end, all calls, and the first error
unfoldable pub wait_all :
    (Rate → List Wait → ℕ → ℕ × Option Error)
    → List Rate
    → List Wait
    → ℕ
    → (ℕ × List Wait) × Option Error
wait_all wait [] waits now = ((now, waits), none)
wait_all wait (r ∷ rs) waits now =
    let (slept, failure) = wait r waits now in
    let called = record { limiter = r; called = now } ∷ waits in
    let rest = wait_all wait rs called (now + slept) in
    elim failure [ none ↦ rest | some e ↦ ((now + slept, called), some e) ]

-- NewPipedriveLimiter
abbrev pub pipedrive_limiter : List Rate
pipedrive_limiter =
    record { every = 200_000_000; burst = 10 }
    ∷ record { every = 300_000_000; burst = 200 }
    ∷ record { every = 720_000_000; burst = 500 }
    ∷ []
