-- ===== src/Cli/Ended.antt =====
-- core/cmd/caelo-tun/main.go: how the command ends.
use caelo.Base.{ℕ, zero, suc, ◌≤◌, true, Option, none, some, ◌≡◌, ◌≢◌, refl, Result, ok, err, arith}
use caelo.Base.Int.{ℤ, pos, negsuc, is_positive}
use caelo.Base.Text.{Text}
use caelo.Systunnel.{Machine, Controller, Status, World, Failure, new, start}
use caelo.Systunnel.Calls.{new-IsSound}
use caelo.Systunnel.Sound.{IsSound, IsDown, stop-IsDown, Outcome, start-Outcome, Outcome-IsSound}
use caelo.Systunnel.Started.{IsStarted}
use caelo.Cli.{
  Signal, never, unnoticed, noticed, wait_for_stop, Ending, unreadable, failed, finished, killed,
  stop_after, until_signal, after_start, run,
}

-- No wait is longer than the duration, or goes on after the signal.
abbrev pub IsBefore : ℤ → Signal → ℕ → Type 0
IsBefore (pos n) never t = t ≤ n
IsBefore (pos n) unnoticed t = t ≤ 0
IsBefore (pos n) (noticed s) t = (t ≤ n) × (t ≤ s)
IsBefore (negsuc n) signal t = ⊥

module _ (m : Machine) where
  -- The process was ended with the tunnel of this file up.
  abbrev pub IsLeft : Result Text Text → Signal → Controller m → Type 0
  IsLeft (ok text) unnoticed c = IsStarted m text c
  IsLeft _ _ _ = ⊥

  abbrev pub IsEnded :
      ℤ → Signal → Result Text Text → Option (Ending m × ℕ × Controller m × World m) → Type 0
  IsEnded duration signal file none = ⊥
  IsEnded duration signal file (some (killed, t, c, w)) = IsLeft file signal c
  IsEnded duration signal file (some (unreadable why, t, c, w)) =
      IsDown m c × IsBefore duration signal t
  IsEnded duration signal file (some (failed e, t, c, w)) = IsDown m c × IsBefore duration signal t
  IsEnded duration signal file (some (finished, t, c, w)) =
      IsDown m c × IsBefore duration signal t × (signal ≢ unnoticed)

  at_once :
      (duration : ℤ) (signal : Signal) → is_positive duration ≡ true → IsBefore duration signal 0
  at_once (pos n) never h = omega arith
  at_once (pos n) unnoticed h = omega arith
  at_once (pos n) (noticed s) h = (omega arith, omega arith)
  at_once (negsuc n) signal h = cc

  up_until :
      (pass : ℕ → World m → World m) (duration : ℤ) (signal : Signal) (text : Text)
      (c : Controller m) (w : World m)
      → is_positive duration ≡ true
      → IsStarted m text c
      → IsSound m c
      → IsEnded duration signal (ok text) (until_signal m pass duration signal c w)
  unfolding until_signal wait_for_stop stop_after
  up_until pass (pos zero) signal text c w h up sound = cc
  up_until pass (negsuc n) signal text c w h up sound = cc
  up_until pass (pos (suc n)) never text c w h up sound =
      (stop-IsDown m c (pass (suc n) w) sound, omega arith, λ k. cc)
  up_until pass (pos (suc n)) unnoticed text c w h up sound = up
  up_until pass (pos (suc n)) (noticed s) text c w h up sound =
      (stop-IsDown m c _ sound, (omega arith, omega arith), λ k. cc)

  started :
      (pass : ℕ → World m → World m) (duration : ℤ) (signal : Signal) (text : Text)
      (r : Result (Failure m) Status) (c : Controller m) (w : World m)
      → is_positive duration ≡ true
      → Outcome m text r c
      → IsEnded duration signal (ok text) (after_start m pass duration signal r c w)
  unfolding stop_after
  started pass duration signal text (ok s) c w h o =
      up_until pass duration signal text c w h o.0 (Outcome-IsSound m text (ok s) c o)
  started pass duration signal text (err e) c w h o =
      (stop-IsDown m c w (Outcome-IsSound m text (err e) c o), at_once duration signal h)

  -- Run for a positive duration, and with no signal while Start or the last Stop runs, caelo-tun ends,
  -- whatever its file holds and whether or not the tunnel comes up. It waits no longer than the duration, nor beyond a signal that comes in the wait, and it
  -- leaves the controller down, but for one case: a signal that comes once the tunnel is up and before
  -- the wait begins ends the process with the tunnel up.
  pub run-IsEnded :
      (pass : ℕ → World m → World m) (duration : ℤ) (signal : Signal) (file : Result Text Text)
      (w : World m)
      → is_positive duration ≡ true
      → IsEnded duration signal file (run m pass duration signal file w)
  unfolding run
  run-IsEnded pass duration signal (err why) w h = (
    record { no_device = refl; no_state = refl; no_meter = refl; empty = refl },
    at_once duration signal h,
  )
  run-IsEnded pass duration signal (ok text) w h =
      let (r, c, w') = start m text (new m) w in
      started pass duration signal text r c w' h (start-Outcome m text (new m) w (new-IsSound m))
