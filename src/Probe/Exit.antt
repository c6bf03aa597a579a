-- ===== src/Probe/Exit.antt =====
-- core/internal/probe/probe.go: timeExit. What passes the meter while the connection is dialled and
-- closed is an argument, with whether the dial succeeded.
use caelo.Base.{ℕ, Bool, true, false, List, ok, ◌>>=◌, if◌then◌else◌, ◌≡◌, refl, sym, subst}
use caelo.Rtt
use caelo.Rtt.{Meter, Event, forget, latency}
use caelo.Rtt.Bounds.{IsValid, IsReport, run-IsValid, forget-IsValid, latency_reported}
use caelo.Tcp.{Go}

-- The figure, where the dial gave a connection.
unfoldable pub exit_figure : Bool → ℕ → Meter → (ℕ × Bool) × Meter
exit_figure dialled now m = if dialled then latency now m else ((0, false), m)

unfoldable pub time_exit : List Event → Bool → ℕ → Meter → Go ((ℕ × Bool) × Meter)
unfolding forget exit_figure
time_exit seen dialled now m = do m' ← Rtt.run seen (forget m); ok (exit_figure dialled now m')

exit_figure-IsReport :
    (dialled : Bool) (now : ℕ) (m : Meter)
    → IsValid m
    → let (figure, m') = exit_figure dialled now m in IsValid m' × IsReport figure.1 figure.0
unfolding exit_figure
exit_figure-IsReport false now m v = (v, refl)
exit_figure-IsReport true now m v =
    let (v', seen, r) = latency_reported now m v in
    (v', subst (λ b. IsReport b (latency now m).0.0) (sym seen) r)

-- From a valid meter, timing the exit runs to its end without a panic, whatever passes meanwhile, and
-- leaves a valid meter; the figure is 0 where none is reported, and else positive and at most 5 s.
pub time_exit_returns :
    (seen : List Event) (dialled : Bool) (now : ℕ) (m : Meter)
    → IsValid m
    → (r : (ℕ × Bool) × Meter) × (time_exit seen dialled now m ≡ ok r)
      × IsValid r.1
      × IsReport r.0.1 r.0.0
unfolding time_exit
time_exit_returns seen dialled now m v =
    let (m', ran, v') = run-IsValid seen (forget m) (forget-IsValid m v) in
    let (v2, report) = exit_figure-IsReport dialled now m' v' in
    rw (time_exit, ran) (exit_figure dialled now m', refl, v2, report)
