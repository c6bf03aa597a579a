-- ===== src/Libcaelo/Flooded.antt =====
-- core/libcaelo/libcaelo.go: what a probe does to a full log.
use caelo.Base.{
  Bool, false, ◌<◌, ◌≤◌, List, [], ◌∷◌, ◌≡◌, ok, if◌then◌else◌, arith, length, length-append,
  length-rest, rest, All,
}
use caelo.Base.Effect.{wrap, lift, act, ◌>>=◌}
use caelo.Base.Int.{ℤ}
use caelo.Base.Text.{Text}
use caelo.Awg
use caelo.Diag as Diag
use caelo.Diag.{Ring, capacity, logf, switch_line}
use caelo.Probe as Probe
use caelo.Probe.{has_any}
use caelo.Userspace.{Userspace}
use caelo.Answer.{Outside}
use caelo.Libcaelo.{
  State, Call, clear_log, set_verbose, probe_one, version_of, connect, check, measure_one,
  disconnect, status, describe, read_log, verify_release, call, run, caelo_probe, caelo_set_verbose,
  probe, options,
}
use caelo.Libcaelo.Logged.{Quiet, IsOther, other-P, with_device-P, kept-P, quiet-P}

abbrev IsFull : Ring → Type 0
IsFull r = capacity ≤ length r.lines

abbrev pub IsOver : Ring → Type 0
IsOver r = capacity < length r.lines

logf-IsOver : (t : Text) (r : Ring) → IsOver r → IsOver (logf t r)
unfolding logf
logf-IsOver t r h = ground (arith, length-append r.lines (t ∷ []))

logf-IsFull : (t : Text) (r : Ring) → IsFull r → IsFull (logf t r)
unfolding logf
logf-IsFull t r h = ground (
  arith,
  length-append r.lines (t ∷ []),
  length-append (rest r.lines) (t ∷ []),
  length-rest r.lines,
)

switch-IsOver : (on : Bool) (t : Text) (r : Ring) → IsFull r → IsOver (Diag.set_verbose on t r)
unfolding Diag.set_verbose
switch-IsOver on t r h = omega (arith, length-append r.lines (t ∷ []))

module _ (u : Userspace) (o : Outside u) (q : Quiet u o) where
  over-IsFull : (r : Ring) → IsOver r → IsFull r
  over-IsFull r h = omega arith

  -- A probe that gets a netstack device, on a log that is full.
  flood :
      (measure : Bool) (conf url : Text) (timeout : ℤ) (s : State u o) (cfg : Awg.Config u.Addr)
      (net : u.Net)
      → IsFull (u.log s.world)
      → o.read_conf conf ≡ ok cfg
      → (u.create_net_tun cfg.addresses
          (if has_any cfg.dns then cfg.dns else u.default_dns ∷ [])
          cfg.mtu
          s.world).0
        ≡ ok net
      → IsOver (u.log (probe u o measure conf url timeout s).1.world)
  unfolding probe Probe.run Probe.set_verbose wrap lift act ◌>>=◌
  flood measure conf url timeout s cfg net full k1 k2 =
      let opts = options u o url timeout measure s.world in
      let made =
        u.create_net_tun cfg.addresses (if has_any cfg.dns then cfg.dns else u.default_dns ∷ [])
          cfg.mtu s.world in
      let w1 = made.1 in
      let full1 = quiet-P u o q IsFull logf-IsFull s.world w1 (q.tun _ _ _ s.world) full in
      let w2 =
        u.with_log (Diag.set_verbose opts.verbose (switch_line (u.now w1) opts.verbose) (u.log w1))
          w1 in
      let over2 : IsOver (u.log w2) =
        kept-P u o q IsOver logf-IsOver _ w1
          (switch-IsOver opts.verbose (switch_line (u.now w1) opts.verbose) (u.log w1) full1) in
      rw (Probe.run, k1, k2)
        ((with_device-P u o q IsOver logf-IsOver (Probe.with_defaults opts) cfg net).from w2 over2)

  -- The calls that do not clear the log.
  abbrev pub IsKept : Call u o → Type 0
  IsKept clear_log = ⊥
  IsKept _ = Unit {0}

  other-IsOver :
      (c : Call u o) (s : State u o)
      → IsOther u o c
      → IsOver (u.log s.world)
      → IsOver (u.log (call u o c s).1.world)
  other-IsOver =
      other-P u o q IsOver logf-IsOver
        (λ r0 r t h0 h. switch-IsOver r0.verbose t r (over-IsFull r h))

  call-IsOver :
      (c : Call u o) (s : State u o)
      → IsKept c
      → IsOver (u.log s.world)
      → IsOver (u.log (call u o c s).1.world)
  unfolding call caelo_set_verbose
  call-IsOver clear_log s k h = elim k [ ]
  call-IsOver (set_verbose on) s k h =
      kept-P u o q IsOver logf-IsOver _ s.world
        (switch-IsOver _ _ (u.log s.world) (over-IsFull (u.log s.world) h))
  call-IsOver version_of s k h = h
  call-IsOver status s k h = h
  call-IsOver (describe conf) s k h = h
  call-IsOver read_log s k h = h
  call-IsOver (verify_release path signature keys) s k h = h
  call-IsOver (connect conf) s k h = other-IsOver (connect conf) s tt h
  call-IsOver (check url timeout) s k h = other-IsOver (check url timeout) s tt h
  call-IsOver (probe_one conf url timeout) s k h = other-IsOver (probe_one conf url timeout) s tt h
  call-IsOver (measure_one conf url timeout) s k h =
      other-IsOver (measure_one conf url timeout) s tt h
  call-IsOver disconnect s k h = other-IsOver disconnect s tt h

  run-IsOver :
      (cs : List (Call u o)) (s : State u o)
      → All IsKept cs
      → IsOver (u.log s.world)
      → IsOver (u.log (run u o cs s).world)
  unfolding run
  run-IsOver [] s k h = h
  run-IsOver (c ∷ cs) s k h = run-IsOver cs (call u o c s).1 k.1 (call-IsOver c s k.0 h)

  -- From a log of `capacity` lines, caelo_probe with a configuration that it can read and make a
  -- netstack device for, leaves more lines than `capacity`, and no call takes the log back to
  -- `capacity` lines until caelo_clear_log does.
  pub probe_floods :
      (conf url : Text) (timeout : ℤ) (cs : List (Call u o)) (s : State u o)
      (cfg : Awg.Config u.Addr) (net : u.Net)
      → length (u.log s.world).lines ≡ capacity
      → o.read_conf conf ≡ ok cfg
      → (u.create_net_tun cfg.addresses
          (if has_any cfg.dns then cfg.dns else u.default_dns ∷ [])
          cfg.mtu
          s.world).0
        ≡ ok net
      → All IsKept cs
      → capacity < length (u.log (run u o (probe_one conf url timeout ∷ cs) s).world).lines
  unfolding run call caelo_probe
  probe_floods conf url timeout cs s cfg net full k1 k2 kept =
      run-IsOver cs _ kept (flood false conf url timeout s cfg net (omega (arith, full)) k1 k2)
