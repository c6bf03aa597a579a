-- ===== src/Libcaelo/Alone.antt =====
-- core/libcaelo/libcaelo.go: which devices run after any sequence of calls.
use caelo.Base.{
  ℕ, Bool, true, false, not, ◌&&◌, ◌||◌, ◌==◌, Option, none, some, List, [], ◌∷◌, ◌≡◌, refl, sym,
  ap, ◌∙◌, subst, Result, ok, err, arith,
}
use caelo.Base.Int.{ℤ}
use caelo.Base.Text.{Text}
use caelo.Probe.Closed.{TimesOnly, run_closes, Same-Steady}
use caelo.Tunnel.Kept.{check-Keeps}
use caelo.Tunnel as Tunnel
use caelo.Tunnel.{Session, Info}
use caelo.Tunnel.Replaced.{Runs, holds, IsReplaced, connect-IsReplaced}
use caelo.Userspace.{Userspace, Tracked}
use caelo.Userspace.Kept.{Same}
use caelo.Answer.{Outside}
use caelo.Libcaelo.{
  State, Call, version_of, connect, check, probe_one, measure_one, disconnect, status, describe,
  read_log, set_verbose, clear_log, verify_release, call, run, caelo_connect, caelo_check, probe,
  caelo_probe, caelo_measure_latency, caelo_disconnect, caelo_set_verbose, caelo_clear_log, options,
  milliseconds,
}

module _ (u : Userspace) (t : Tracked u) where
  -- The session's device runs, if it has one, and no other does.
  abbrev pub IsAlone : Session u → u.World → Type 0
  IsAlone s w = (d : ℕ) → t.is_open d w ≡ holds u t s.device d

  alone-Runs : (s : Session u) (w : u.World) → IsAlone s w → Runs u t s.device w
  alone-Runs s w h = by_device s.device h
    where
      by_device : (dev : Option ℕ) → ((d : ℕ) → t.is_open d w ≡ holds u t dev d) → Runs u t dev w
      by_device none k = tt
      by_device (some dev) k = k dev ∙ ground arith

  replaced-IsAlone :
      (s : Session u) (w : u.World) (x : Result Tunnel.Failure Info × Session u × u.World)
      → IsAlone s w
      → IsReplaced u t s w x
      → IsAlone x.1 x.2
  replaced-IsAlone s w (err e, s', w') h (same, k) =
      subst (λ z. IsAlone z w') (sym same) (λ d. k d ∙ h d)
  replaced-IsAlone s w (ok info, s', w') h (dev, device, endpoint, off, k) = λ d.
      k d
      ∙ ap (λ b. d == dev || (not (holds u t s.device d) && b)) (h d)
      ∙ only d dev (holds u t s.device d)
      ∙ ap (λ x. holds u t x d) (sym device)
    where
      only : (d dev : ℕ) (b : Bool) → (d == dev || (not b && b)) ≡ (d == dev)
      only d dev true = ground arith
      only d dev false = ground arith

  disconnect-IsAlone :
      (s : Session u) (w : u.World)
      → IsAlone s w
      → let (s', w') = Tunnel.disconnect u s w in IsAlone s' w'
  unfolding Tunnel.disconnect Tunnel.cleared Tunnel.close_if
  disconnect-IsAlone s w h = by_device s.device h
    where
      by_device :
          (dev : Option ℕ)
          → ((d : ℕ) → t.is_open d w ≡ holds u t dev d)
          → (d : ℕ) → t.is_open d (Tunnel.close_if u dev w) ≡ false
      by_device none k d = k d
      by_device (some dev) k d = t.close_stops dev w d ∙ rw (k d) (ground arith)

  module _ (o : Outside u) (times : TimesOnly u t o.time_exit) where
    abbrev pub Alone : State u o → Type 0
    Alone s = IsAlone s.session s.world

    -- A call that leaves the session and every device.
    same-Alone :
        (s : Session u) (w w' : u.World)
        → ((d : ℕ) → t.is_open d w' ≡ t.is_open d w)
        → IsAlone s w
        → IsAlone s w'
    same-Alone s w w' k h = λ d. k d ∙ h d

    probe-Alone :
        (measure : Bool) (conf url : Text) (timeout : ℤ) (s : State u o)
        → Alone s
        → Alone (probe u o measure conf url timeout s).1
    unfolding probe
    probe-Alone measure conf url timeout s h =
        same-Alone s.session s.world _
          (run_closes u t o.time_exit o.round_trip times o.read_conf conf
            (options u o url timeout measure s.world) s.world)
          h

    call-Alone : (c : Call u o) (s : State u o) → Alone s → Alone (call u o c s).1
    unfolding call caelo_connect caelo_check caelo_probe caelo_measure_latency caelo_disconnect
        caelo_set_verbose caelo_clear_log
    call-Alone (connect conf) s h =
        replaced-IsAlone s.session s.world (Tunnel.connect u o.read_conf conf s.session s.world) h (
          connect-IsReplaced u t o.read_conf conf s.session s.world
            (alone-Runs s.session s.world h))
    call-Alone (check url timeout) s h =
        same-Alone s.session s.world _
          (λ d.
            (check-Keeps u (Same u t d (t.is_open d s.world))
                (Same-Steady u t d (t.is_open d s.world)) s.session url (milliseconds timeout)).from
              s.world refl)
          h
    call-Alone (probe_one conf url timeout) s h = probe-Alone false conf url timeout s h
    call-Alone (measure_one conf url timeout) s h = probe-Alone true conf url timeout s h
    call-Alone disconnect s h = disconnect-IsAlone s.session s.world h
    call-Alone (set_verbose on) s h = λ d. t.log_keeps _ s.world d ∙ h d
    call-Alone clear_log s h = λ d. t.log_keeps _ s.world d ∙ h d
    call-Alone version_of s h = h
    call-Alone status s h = h
    call-Alone (describe conf) s h = h
    call-Alone read_log s h = h
    call-Alone (verify_release path signature keys) s h = h

    -- After any sequence of calls, made one after another from a state whose session's device runs, if
    -- it has one, and no other does, the same holds: no probe and no failed connect leaves a device
    -- behind, and no call stops the session's but the one that replaces it or takes it down.
    pub run-Alone : (cs : List (Call u o)) (s : State u o) → Alone s → Alone (run u o cs s)
    unfolding run
    run-Alone [] s h = h
    run-Alone (c ∷ cs) s h = run-Alone cs (call u o c s).1 (call-Alone c s h)
