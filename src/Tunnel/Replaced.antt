-- ===== src/Tunnel/Replaced.antt =====
-- core/internal/tunnel/session.go: what Connect leaves of the devices that ran, by how it ended.
use caelo.Base.{
  ℕ, Bool, true, false, not, ◌&&◌, ◌||◌, ◌==◌, ◌≡◌, refl, sym, subst, ap, ◌∙◌, Option, none, some,
  [], ◌∷◌, Result, ok, err, arith, if◌then◌else◌,
}
use caelo.Base.Effect.{continue, wrap, lift, map_err, ◌>>=◌}
use caelo.Base.Effect.Using.{closed_again}
use caelo.Base.Effect.Keeps.{Keeps, keeps_rules}
use caelo.Base.Text.{Text, codes}
use caelo.Awg
use caelo.Userspace.{Userspace, Tracked}
use caelo.Userspace.Kept.{Same, set-Kept, up-Kept}
use caelo.Probe.{has_any}
use caelo.Tunnel.{
  Failure, Info, Session, Built, reading, wrapped, or_close, start_device, configure, built_on,
  build_from, make_device, build, swap, close_if, info_of, settle, connect,
}

module _ (u : Userspace) (t : Tracked u) where
  -- Nothing else runs than before.
  abbrev pub SameOpen : u.World → u.World → Type 0
  SameOpen w w' = (d : ℕ) → t.is_open d w' ≡ t.is_open d w

  -- The device was not running, and now it runs beside those that did.
  abbrev pub Opened : ℕ → u.World → u.World → Type 0
  Opened dev w w' =
      (t.is_open dev w ≡ false) × ((d : ℕ) → t.is_open d w' ≡ (d == dev || t.is_open d w))

  -- A device that is made runs, and one that could not be made is closed again.
  abbrev pub IsBuild : u.World → Result Failure (Built u) × u.World → Type 0
  IsBuild w (ok b, w') = Opened b.device w w'
  IsBuild w (err e, w') = SameOpen w w'

  start_device-Kept :
      (d : ℕ) (b : Bool) (cfg : Awg.Config u.Addr) (dev : ℕ)
      → Keeps (Same u t d b) (start_device u cfg dev)
  unfolding start_device
  start_device-Kept d b cfg dev = search (keeps_rules, set-Kept u t d b, up-Kept u t d b)

  start_device-SameOpen :
      (cfg : Awg.Config u.Addr) (dev : ℕ) (w : u.World) → SameOpen w (start_device u cfg dev w).1
  start_device-SameOpen cfg dev w d = (start_device-Kept d (t.is_open d w) cfg dev).from w refl

  -- The new device of `w1`, with what its configuration ended in.
  made :
      (cfg : Awg.Config u.Addr) (net : u.Net) (w : u.World) (r : Result Failure (Unit {0}))
      (w2 : u.World)
      → SameOpen (u.new_device net w).1 w2
      → (let (r', w3) = or_close u (u.new_device net w).0 r w2 in
          IsBuild w (built_on u cfg net (u.new_device net w).0 r', w3))
  made cfg net w (ok _) w2 same = (t.new_fresh net w, λ d. same d ∙ t.new_opens net w d)
  made cfg net w (err e) w2 same = λ d.
      closed_again (u.new_device net w).0 d (t.is_open d w) (t.is_open d (u.new_device net w).1)
        (t.is_open d w2) (t.is_open d (u.close_device (u.new_device net w).0 w2))
        (λ h. subst (λ x. t.is_open x w ≡ false) (sym h) (t.new_fresh net w)) (t.new_opens net w d)
        (same d) (t.close_stops (u.new_device net w).0 w2 d)

  make_device-IsBuild :
      (cfg : Awg.Config u.Addr) (net : u.Net) (w : u.World) → IsBuild w (make_device u cfg net w)
  unfolding make_device configure
  make_device-IsBuild cfg net w =
      let (dev, w1) = u.new_device net w in
      let (r, w2) = start_device u cfg dev w1 in
      made cfg net w r w2 (start_device-SameOpen cfg dev w1)

  -- What was built later was built before, if nothing changed between.
  IsBuild-from :
      (w w1 : u.World) (x : Result Failure (Built u) × u.World)
      → SameOpen w w1
      → IsBuild w1 x
      → IsBuild w x
  IsBuild-from w w1 (ok b, w') same h =
      (sym (same b.device) ∙ h.0, λ d. h.1 d ∙ ap (λ x. d == b.device || x) (same d))
  IsBuild-from w w1 (err e, w') same h = λ d. h d ∙ same d

  build_from-IsBuild : (cfg : Awg.Config u.Addr) (w : u.World) → IsBuild w (build_from u cfg w)
  unfolding build_from wrap ◌>>=◌
  build_from-IsBuild cfg w =
      on_net
        (u.create_net_tun cfg.addresses (if has_any cfg.dns then cfg.dns else u.default_dns ∷ [])
          cfg.mtu w).0
        _
        (t.tun_keeps cfg.addresses (if has_any cfg.dns then cfg.dns else u.default_dns ∷ []) cfg.mtu
          w)
    where
      on_net :
          (r : Result Text u.Net) (w1 : u.World)
          → SameOpen w w1
          → IsBuild w (
              continue
                (map_err (wrapped (codes "creating netstack device")) r)
                (make_device u cfg)
                w1)
      on_net (ok net) w1 same = IsBuild-from w w1 _ same (make_device-IsBuild cfg net w1)
      on_net (err e) w1 same = same

  pub build-IsBuild :
      (read_conf : Text → Awg.Go (Awg.Config u.Addr)) (text : Text) (w : u.World)
      → IsBuild w (build u read_conf text w)
  unfolding build lift ◌>>=◌
  build-IsBuild read_conf text w = on_conf (read_conf text)
    where
      on_conf :
          (r : Awg.Go (Awg.Config u.Addr))
          → IsBuild w (continue (map_err reading r) (build_from u) w)
      on_conf (ok cfg) = build_from-IsBuild cfg w
      on_conf (err e) = λ d. refl

  abbrev pub Runs : Option ℕ → u.World → Type 0
  Runs none w = Unit {0}
  Runs (some dev) w = t.is_open dev w ≡ true

  abbrev pub holds : Option ℕ → ℕ → Bool
  holds none d = false
  holds (some dev) d = d == dev

  -- A failed Connect leaves the session and every device as they were. A successful one puts a device
  -- that was not running in the session, and what runs is that and all that ran before but the one
  -- that the session held.
  abbrev pub IsReplaced : Session u → u.World → Result Failure Info × Session u × u.World → Type 0
  IsReplaced s w (err e, s', w') = (s' ≡ s) × SameOpen w w'
  IsReplaced s w (ok info, s', w') =
      (dev : ℕ) × (s'.device ≡ some dev)
      × (s'.endpoint ≡ info.endpoint)
      × (t.is_open dev w ≡ false)
      × ((d : ℕ) → t.is_open d w' ≡ (d == dev || (not (holds s.device d) && t.is_open d w)))

  close_other :
      (d dev p : ℕ) (x : Bool)
      → (dev ≡ p → ⊥)
      → (not (d == p) && (d == dev || x)) ≡ (d == dev || (not (d == p) && x))
  close_other d dev p x apart = ground arith

  close_previous :
      (previous : Option ℕ) (dev : ℕ) (w w' : u.World)
      → Runs previous w
      → Opened dev w w'
      → (d : ℕ)
      → t.is_open d (close_if u previous w')
        ≡ (d == dev || (not (holds previous d) && t.is_open d w))
  unfolding close_if
  close_previous none dev w w' h o d = o.1 d
  close_previous (some p) dev w w' h o d =
      t.close_stops p w' d
      ∙ ap (λ x. not (d == p) && x) (o.1 d)
      ∙ close_other d dev p (t.is_open d w)
          (λ e. let clash = subst (λ x. t.is_open x w ≡ false) e o.0 in cc)

  settle-IsReplaced :
      (r : Result Failure (Built u)) (w' : u.World) (s : Session u) (w : u.World)
      → Runs s.device w
      → IsBuild w (r, w')
      → IsReplaced s w (settle u r s w')
  unfolding settle swap info_of
  settle-IsReplaced (err e) w' s w h b = (refl, b)
  settle-IsReplaced (ok b) w' s w h o =
      (b.device, refl, refl, o.0, close_previous s.device b.device w w' h o)

  -- Connect, on a session whose device runs if it has one: when it fails it leaves the session and
  -- all running devices as they were, and when it succeeds the session has a device that was not
  -- running before, which runs beside all the others but the session's previous one, now closed.
  pub connect-IsReplaced :
      (read_conf : Text → Awg.Go (Awg.Config u.Addr)) (text : Text) (s : Session u) (w : u.World)
      → Runs s.device w
      → IsReplaced s w (connect u read_conf text s w)
  unfolding connect
  connect-IsReplaced read_conf text s w h =
      let (r, w') = build u read_conf text w in
      settle-IsReplaced r w' s w h (build-IsBuild read_conf text w)
