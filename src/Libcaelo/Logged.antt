-- ===== src/Libcaelo/Logged.antt =====
-- core/libcaelo/libcaelo.go: what the calls do to the log of core/internal/diag.
use caelo.Base.{ℕ, Bool, true, false, List, [], ◌∷◌, ◌≡◌, sym, subst}
use caelo.Base.Effect.Keeps.{Keeps}
use caelo.Base.Int.{ℤ}
use caelo.Base.Text.{Text}
use caelo.Awg
use caelo.Diag as Diag
use caelo.Diag.{Ring, Call as LogCall, logf, capacity, switch_line, log}
use caelo.Diag.Overflow.{logs}
use caelo.Probe as Probe
use caelo.Probe.{Options, has_any}
use caelo.Probe.Kept.{with_device-Keeps, run-Keeps}
use caelo.Tunnel.Kept.{check-Keeps, connect-Keeps, disconnect-Keeps}
use caelo.Userspace.{Userspace}
use caelo.Userspace.Kept.{Steady, Lived}
use caelo.Answer.{Outside}
use caelo.Libcaelo.{
  State, Call, version_of, connect, check, probe_one, measure_one, disconnect, status, describe,
  read_log, set_verbose, clear_log, verify_release, call, caelo_connect, caelo_check, probe,
  caelo_probe, caelo_measure_latency, caelo_disconnect, options, milliseconds,
}

-- Between the two worlds nothing happened to the log but lines, written with Logf or Verbosef.
abbrev pub LogsOnly : (u : Userspace) → u.World → u.World → Type 0
LogsOnly u w w' = (ls : List Text) × (u.log w' ≡ Diag.run (logs ls) (u.log w))

-- The calls outside do no more to the log than that, and what was kept as the log is the log.
pub record Quiet (u : Userspace) (o : Outside u) : Type 0 where
  pub log_with : (r : Ring) (w : u.World) → u.log (u.with_log r w) ≡ r
  pub tun :
      (a b : List u.Addr) (mtu : ℤ) (w : u.World) → LogsOnly u w (u.create_net_tun a b mtu w).1
  pub new : (net : u.Net) (w : u.World) → LogsOnly u w (u.new_device net w).1
  pub set : (dev : ℕ) (t : Text) (w : u.World) → LogsOnly u w (u.ipc_set dev t w).1
  pub up : (dev : ℕ) (w : u.World) → LogsOnly u w (u.device_up dev w).1
  pub close : (dev : ℕ) (w : u.World) → LogsOnly u w (u.close_device dev w)
  pub request :
      (net : u.Net) (timeout : ℤ) (r : u.Request) (w : u.World)
      → LogsOnly u w (u.do_request net timeout r w).1
  pub exit : (net : u.Net) (target : Text) (w : u.World) → LogsOnly u w (o.time_exit net target w).1

module _ (u : Userspace) (o : Outside u) where
  -- The calls that neither switch verbose logging nor clear the log.
  abbrev pub IsOther : Call u o → Type 0
  IsOther (set_verbose on) = ⊥
  IsOther clear_log = ⊥
  IsOther _ = Unit {0}

module _ (u : Userspace) (o : Outside u) (q : Quiet u o) where
  -- What a line keeps of the log, and a switch to what verbose logging was.
  module _ (R : Ring → Type 0) (line : (t : Text) (r : Ring) → R r → R (logf t r)) where
    abbrev P : u.World → Type 0
    P w = R (u.log w)

    logs-R : (ls : List Text) (r : Ring) → R r → R (Diag.run (logs ls) r)
    unfolding Diag.run
    logs-R [] r h = h
    logs-R (l ∷ ls) r h = logs-R ls (logf l r) (line l r h)

    pub quiet-P : (w w' : u.World) → LogsOnly u w w' → P w → P w'
    quiet-P w w' (ls, e) h = subst R (sym e) (logs-R ls (u.log w) h)

    pub kept-P : (r : Ring) (w : u.World) → R r → P (u.with_log r w)
    kept-P r w h = subst R (sym (q.log_with r w)) h

    P-Steady : Steady u P
    P-Steady = record {
      tun = λ a b mtu. record { from = λ w h. quiet-P w _ (q.tun a b mtu w) h };
      set = λ dev t. record { from = λ w h. quiet-P w _ (q.set dev t w) h };
      up = λ dev. record { from = λ w h. quiet-P w _ (q.up dev w) h };
      request = λ net timeout r. record { from = λ w h. quiet-P w _ (q.request net timeout r w) h };
      line = λ t w h. kept-P (logf t (u.log w)) w (line t (u.log w) h);
    }

    P-Lived : Lived u P
    P-Lived = record {
      steady = P-Steady;
      made = λ net w h. quiet-P w _ (q.new net w) h;
      closed = λ dev w h. quiet-P w _ (q.close dev w) h;
    }

    -- A device's life, from its making to its closing.
    pub with_device-P :
        (options : Options) (cfg : Awg.Config u.Addr) (net : u.Net)
        → Keeps P (Probe.with_device u o.time_exit o.round_trip options cfg net)
    with_device-P options cfg net =
        with_device-Keeps u P P-Steady o.time_exit o.round_trip
          (λ net' target w h. quiet-P w _ (q.exit net' target w) h) options P-Lived.made
          P-Lived.closed cfg net

    module _
        (switch : (r0 r : Ring) (t : Text) → R r0 → R r → R (Diag.set_verbose r0.verbose t r)) where
      probe-P :
          (measure : Bool) (conf url : Text) (timeout : ℤ) (s : State u o)
          → P s.world
          → P (probe u o measure conf url timeout s).1.world
      unfolding probe options
      probe-P measure conf url timeout s h =
          let opts = options u o url timeout measure s.world in
          (run-Keeps u P P-Steady o.time_exit o.round_trip
              (λ net target w k. quiet-P w _ (q.exit net target w) k) opts
              (λ w k.
                kept-P _ w
                  (switch (u.log s.world) (u.log w) (switch_line (u.now w) opts.verbose) h k))
              (λ cfg net. with_device-P (Probe.with_defaults opts) cfg net) o.read_conf conf).from
            s.world h

      pub other-P :
          (c : Call u o) (s : State u o) → IsOther u o c → P s.world → P (call u o c s).1.world
      unfolding call caelo_connect caelo_check caelo_probe caelo_measure_latency caelo_disconnect
      other-P (connect conf) s k h = connect-Keeps u P P-Lived o.read_conf conf s.session s.world h
      other-P (check url timeout) s k h =
          (check-Keeps u P P-Steady s.session url (milliseconds timeout)).from s.world h
      other-P (probe_one conf url timeout) s k h = probe-P false conf url timeout s h
      other-P (measure_one conf url timeout) s k h = probe-P true conf url timeout s h
      other-P disconnect s k h = disconnect-Keeps u P P-Lived s.session s.world h
      other-P (set_verbose on) s k h = elim k [ ]
      other-P clear_log s k h = elim k [ ]
      other-P version_of s k h = h
      other-P status s k h = h
      other-P (describe conf) s k h = h
      other-P read_log s k h = h
      other-P (verify_release path signature keys) s k h = h
