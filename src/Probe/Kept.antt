-- ===== src/Probe/Kept.antt =====
-- core/internal/probe/probe.go: what Run keeps of the world, if the calls that it makes keep it.
use caelo.Base.{ℕ, List, Option, none, some}
use caelo.Base.Effect.Keeps.{Keeps, Keeps-act, keeps_rules}
use caelo.Base.Int.{ℤ}
use caelo.Base.Text.{Text}
use caelo.Awg
use caelo.Diag as Diag
use caelo.Diag.{logf, switch_line}
use caelo.Userspace.{Userspace}
use caelo.Userspace.Kept.{Steady}
use caelo.Probe.{
  Options, LatencySources, say, set_verbose, figure_without_exit, figure, measure_latency, fetch,
  latency_if, use_device, with_device, run, with_defaults,
}

module _ (u : Userspace) (P : u.World → Type 0) (k : Steady u P) where
  set-P : (dev : ℕ) (t : Text) → Keeps P (u.ipc_set dev t)
  set-P = k.set

  up-P : (dev : ℕ) → Keeps P (u.device_up dev)
  up-P = k.up

  tun-P : (a b : List u.Addr) (mtu : ℤ) → Keeps P (u.create_net_tun a b mtu)
  tun-P = k.tun

  request-P : (net : u.Net) (timeout : ℤ) (r : u.Request) → Keeps P (u.do_request net timeout r)
  request-P = k.request

  fetch-Keeps : (net : u.Net) (timeout : ℤ) (url : Text) → Keeps P (fetch u net timeout url)
  unfolding fetch
  fetch-Keeps net timeout url = search (keeps_rules, request-P) depth 12

  say-Keeps : (message : Text) → Keeps P (say u message)
  unfolding say
  say-Keeps message = Keeps-act _ (λ w p. k.line _ w p)

  figure_without_exit-Keeps :
      (s : LatencySources u) (o : Option ℕ)
      → Keeps P s.request
      → Keeps P (figure_without_exit u s o)
  unfolding figure_without_exit
  figure_without_exit-Keeps s none q = search (keeps_rules, say-Keeps) depth 12
  figure_without_exit-Keeps s (some rtt) q = search (keeps_rules, say-Keeps) depth 12

  figure-Keeps : (s : LatencySources u) (o : Option ℕ) → Keeps P s.request → Keeps P (figure u s o)
  unfolding figure
  figure-Keeps s none q = search (keeps_rules, figure_without_exit-Keeps) depth 12
  figure-Keeps s (some rtt) q = search keeps_rules

  measure_latency-Keeps :
      (s : LatencySources u)
      → ((w : u.World) → P w → P (s.exit w).1)
      → Keeps P s.request
      → Keeps P (measure_latency u s)
  unfolding measure_latency
  measure_latency-Keeps s e q = search (keeps_rules, figure-Keeps, Keeps-act) depth 12

  module _ (time_exit : u.Net → Text → u.World → Option ℕ × u.World)
      (round_trip : u.World → Option ℕ)
      (timed : (net : u.Net) (target : Text) (w : u.World) → P w → P (time_exit net target w).1)
      (o : Options) where
    latency_if-Keeps : (net : u.Net) → Keeps P (latency_if u time_exit round_trip o net)
    unfolding latency_if
    latency_if-Keeps net = search (keeps_rules, fetch-Keeps, measure_latency-Keeps, timed) depth 12

    pub use_device-Keeps :
        (cfg : Awg.Config u.Addr) (net : u.Net) (dev : ℕ)
        → Keeps P (use_device u time_exit round_trip o cfg net dev)
    unfolding use_device
    use_device-Keeps cfg net dev =
        search (keeps_rules, fetch-Keeps, latency_if-Keeps, set-P, up-P) depth 14

    pub with_device-Keeps :
        ((net : u.Net) (w : u.World) → P w → P (u.new_device net w).1)
        → ((dev : ℕ) (w : u.World) → P w → P (u.close_device dev w))
        → (cfg : Awg.Config u.Addr) (net : u.Net)
        → Keeps P (with_device u time_exit round_trip o cfg net)
    unfolding with_device
    with_device-Keeps made closed cfg net = record {
      from = λ w p.
          closed (u.new_device net w).0 _
            ((use_device-Keeps cfg net (u.new_device net w).0).from _ (made net w p));
    }

    -- The switch of verbose logging that Run makes.
    abbrev pub Switches : Type 0
    Switches =
        (w : u.World)
        → P w
        → P (u.with_log (Diag.set_verbose o.verbose (switch_line (u.now w) o.verbose) (u.log w)) w)

    set_verbose-Keeps : Switches → Keeps P (set_verbose u o.verbose)
    unfolding set_verbose
    set_verbose-Keeps switched = Keeps-act _ switched

    -- Run, where a device's life and the switch of verbose logging keep it too.
    pub run-Keeps :
        Switches
        → ((cfg : Awg.Config u.Addr) (net : u.Net)
            → Keeps P (with_device u time_exit round_trip (with_defaults o) cfg net))
        → (read_conf : Text → Awg.Go (Awg.Config u.Addr)) (text : Text)
        → Keeps P (run u time_exit round_trip read_conf text o)
    unfolding run
    run-Keeps switched lived read_conf text =
        search (keeps_rules, tun-P, set_verbose-Keeps, lived) depth 14
