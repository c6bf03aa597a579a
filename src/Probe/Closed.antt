-- ===== src/Probe/Closed.antt =====
-- core/internal/probe/probe.go: Run closes the device that it made, however it ends.
use caelo.Base.{ℕ, Bool, false, ◌≡◌, refl, sym, subst, ◌∙◌, Option}
use caelo.Base.Effect.Using.{closed_again}
use caelo.Base.Effect.Keeps.{Keeps}
use caelo.Base.Text.{Text}
use caelo.Awg
use caelo.Userspace.{Userspace, Tracked}
use caelo.Userspace.Kept.{Same, request-Kept, set-Kept, up-Kept, tun-Kept, Steady}
use caelo.Probe.Kept.{use_device-Keeps, run-Keeps}
use caelo.Probe.{Options, use_device, with_device, run, with_defaults}

module _ (u : Userspace) (t : Tracked u) where
  -- Whether the device runs is what it was.
  module _ (d : ℕ) (b : Bool) where
    pub Same-Steady : Steady u (Same u t d b)
    Same-Steady = record {
      tun = tun-Kept u t d b;
      set = set-Kept u t d b;
      up = up-Kept u t d b;
      request = request-Kept u t d b;
      line = λ line w h. t.log_keeps _ w d ∙ h;
    }

  -- Timing the exit opens no device and closes none.
  abbrev pub TimesOnly : (u.Net → Text → u.World → Option ℕ × u.World) → Type 0
  TimesOnly time_exit =
      (net : u.Net) (target : Text) (w : u.World) (d : ℕ)
      → t.is_open d (time_exit net target w).1 ≡ t.is_open d w

  module _ (time_exit : u.Net → Text → u.World → Option ℕ × u.World)
      (round_trip : u.World → Option ℕ) (only : TimesOnly time_exit) (o : Options) where
    used :
        (d : ℕ) (b : Bool) (cfg : Awg.Config u.Addr) (net : u.Net) (dev : ℕ)
        → Keeps (Same u t d b) (use_device u time_exit round_trip o cfg net dev)
    used d b cfg net dev =
        use_device-Keeps u (Same u t d b) (Same-Steady d b) time_exit round_trip
          (λ net' target w h. only net' target w d ∙ h) o cfg net dev

    with_device_closes :
        (cfg : Awg.Config u.Addr) (net : u.Net) (w : u.World) (d : ℕ)
        → t.is_open d (with_device u time_exit round_trip o cfg net w).1 ≡ t.is_open d w
    unfolding with_device
    with_device_closes cfg net w d =
        let dev = (u.new_device net w).0 in
        let w1 = (u.new_device net w).1 in
        let w2 = (use_device u time_exit round_trip o cfg net dev w1).1 in
        let still = (used d (t.is_open d w1) cfg net dev).from w1 refl in
        closed_again dev d (t.is_open d w) (t.is_open d w1) (t.is_open d w2)
          (t.is_open d (u.close_device dev w2))
          (λ e. subst (λ x. t.is_open x w ≡ false) (sym e) (t.new_fresh net w))
          (t.new_opens net w d) still (t.close_stops dev w2 d)

  -- However Run ends, the devices that run are those that ran before it: its own is closed.
  pub run_closes :
      (time_exit : u.Net → Text → u.World → Option ℕ × u.World) (round_trip : u.World → Option ℕ)
      → TimesOnly time_exit
      → (read_conf : Text → Awg.Go (Awg.Config u.Addr)) (text : Text) (o : Options) (w : u.World)
        (d : ℕ)
      → t.is_open d (run u time_exit round_trip read_conf text o w).1 ≡ t.is_open d w
  run_closes time_exit round_trip only read_conf text o w d =
      let b = t.is_open d w in
      (run-Keeps u (Same u t d b) (Same-Steady d b) time_exit round_trip
          (λ net target v h. only net target v d ∙ h) o (λ v h. t.log_keeps _ v d ∙ h)
          (λ cfg net. record {
            from = λ v h.
                with_device_closes time_exit round_trip only (with_defaults o) cfg net v d ∙ h;
          })
          read_conf text).from
        w refl
