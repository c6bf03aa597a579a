-- ===== src/Idler.antt =====
-- core/cmd/caelo-service/main.go, `idler`, the goroutine in `main` that waits for it, and the
-- accept loop: when the service ends by itself. The state is the idler's fields, its timer and
-- channel, the watching goroutine, and what it all depends on: the connections open and whether
-- the tunnel is up. A step is what one goroutine does under the idler's mutex, or one operation on
-- the listener, on the channel or on the controller, so that the others may come in between
-- `listener.Accept` and `busy`, and between `Status` and `busy`.
pub mod Exit
pub mod Resident
pub mod Race
mod Tests
use caelo.Base.{ℕ, suc, ◌+◌, ◌-◌, ◌<◌, ◌≡◌, ◌⊎◌, Bool, true, false, ◌||◌, ltb, leb, if◌then◌else◌}

-- `main`'s goroutine: waiting for `expired`, before its test of the tunnel, before `busy` where it
-- found the tunnel up, back after that, or in `stopEverything`, which ends the process.
pub data Watcher : Type 0 where
  waiting checking keeping returned stopping : Watcher

pub record Service : Type 0 where
  pub holders : ℕ
  pub fired : Bool
  pub armed : Bool  -- the timer is running
  pub firing : ℕ  -- calls of `fire` that the timer started and that wait for the mutex
  pub tokens : ℕ  -- in the channel `expired`, whose capacity is 1
  pub watcher : Watcher
  pub accepted : Bool  -- the accept loop has a connection that `busy` has not counted yet
  -- connections that are being served: counted by `busy`, and their goroutine not at its `idle` yet
  pub opened : ℕ
  pub up : Bool  -- controller.Status().Up

-- newIdler, in a service that has just begun.
unfoldable pub begin : Service
begin = record {
  holders = 0;
  fired = false;
  armed = true;
  firing = 0;
  tokens = 0;
  watcher = waiting;
  accepted = false;
  opened = 0;
  up = false;
}

-- fire; it sends where no holder is left and it has not fired. The send waits for room in the
-- channel, so such a step needs `tokens < 1`.
unfoldable pub fire : Service → Service
fire s = if ltb 0 s.holders || s.fired then s else record s { fired = true; tokens = s.tokens + 1 }

unfoldable pub busy : Service → Service
busy s = record s { holders = s.holders + 1; fired = false; armed = false }

-- idle; `holders` is an int that stops at 0 here as it does there.
unfoldable pub idle : Service → Service
idle s =
    if leb (s.holders - 1) 0
    then record s { holders = 0; armed = true }
    else record s { holders = s.holders - 1 }

pub data Step : Service → Service → Type 0 where
  -- `listener.Accept()`
  accepts : (s : Service) → s.accepted ≡ false → Step s (record s { accepted = true })
  -- `idler.busy()` of the accept loop, and the goroutine that serves
  counts :
      (s : Service)
      → s.accepted ≡ true
      → Step s (busy (record s { accepted = false; opened = s.opened + 1 }))
  -- a request that is being served raises the tunnel or takes it down
  serves : (s : Service) (up : Bool) → 0 < s.opened → Step s (record s { up = up })
  -- `defer idler.idle()`
  closes : (s : Service) → 0 < s.opened → Step s (idle (record s { opened = s.opened - 1 }))
  -- the timer's end starts a goroutine
  expires :
      (s : Service) → s.armed ≡ true → Step s (record s { armed = false; firing = s.firing + 1 })
  fires :
      (s : Service)
      → 0 < s.firing
      → (0 < s.holders) ⊎ (s.fired ≡ true) ⊎ (s.tokens < 1)
      → Step s (fire (record s { firing = s.firing - 1 }))
  -- `<-idler.expired`
  wakes :
      (s : Service)
      → s.watcher ≡ waiting
      → 0 < s.tokens
      → Step s (record s { tokens = s.tokens - 1; watcher = checking })
  -- `if controller.Status().Up`
  finds_up :
      (s : Service) → s.watcher ≡ checking → s.up ≡ true → Step s (record s { watcher = keeping })
  -- `idler.busy(); return`
  keeps : (s : Service) → s.watcher ≡ keeping → Step s (busy (record s { watcher = returned }))
  -- `stopEverything("idle")`
  finds_down :
      (s : Service) → s.watcher ≡ checking → s.up ≡ false → Step s (record s { watcher = stopping })

pub data Reach (s : Service) : Service → Type 0 where
  here : Reach s s
  next : {t u : Service} → Reach s t → Step t u → Reach s u
