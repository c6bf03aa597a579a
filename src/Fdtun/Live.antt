-- ===== src/Fdtun/Live.antt =====
-- What is behind a session that Start brought up, and that its fields belong together.
use caelo.Base.{◌≡◌, refl, true, false, Option, none, some, Result, ok, err}
use caelo.Base.Effect.{map_err}
use caelo.Base.Effect.Gives.{OnOk, Gives, Gives-any, Gives-bind}
use caelo.Base.Int.{ℤ}
use caelo.Base.Text.{Text}
use caelo.Awg
use caelo.Rtt
use caelo.Rtt.{Meter, milliseconds}
use caelo.Fdtun.{
  Phone, Status, no_status, Failure, Session, new, read_config, bring_up, stop_device, stop,
  settled, start, has_obfuscation, reading,
}

module _ (p : Phone) (read_conf : Text → Awg.Go (Awg.Config p.Addr)) where
  abbrev S : Type 0
  S = Session p read_conf

  -- A session of the configuration that was read from the text.
  pub record IsLive (text : Text) (s : S) : Type 0 where
    pub conf : Awg.Config p.Addr
    pub device : p.Device
    pub bind : p.Bind
    pub parsed : read_conf text ≡ ok conf
    pub has_device : s.device ≡ some device
    pub has_bind : s.bind ≡ some bind
    pub has_meter : s.meter ≡ some Rtt.new
    pub is_up : s.status.up ≡ true
    pub endpoint : s.status.endpoint ≡ conf.peer.endpoint
    pub obfuscated : s.status.obfuscated ≡ has_obfuscation p read_conf conf.obfuscation

  read_config-Gives :
      (text : Text) → Gives (λ conf. read_conf text ≡ ok conf) (read_config p read_conf text)
  unfolding read_config
  read_config-Gives text = record { from = λ w. read (read_conf text) refl }
    where
      read :
          (r : Awg.Go (Awg.Config p.Addr))
          → read_conf text ≡ r
          → OnOk {E = Failure p read_conf} (λ conf. read_conf text ≡ ok conf) (map_err reading r)
      read (ok conf) e = e
      read (err e) _ = tt

  bring_up-Gives : (fd : ℤ) (text : Text) → Gives (IsLive text) (bring_up p read_conf fd text)
  unfolding bring_up
  bring_up-Gives fd text = Gives-bind _ _ (read_config-Gives text) λ conf parsed.
      Gives-bind _ _ (Gives-any _) λ tun _. Gives-bind _ _ (Gives-any _) λ (bind, dev) _.
        Gives-bind _ _ (Gives-any _) λ _ _. record {
          from = λ w. record {
            conf = conf;
            device = dev;
            bind = bind;
            parsed = parsed;
            has_device = refl;
            has_bind = refl;
            has_meter = refl;
            is_up = refl;
            endpoint = refl;
            obfuscated = refl;
          };
        }

  -- Device, bind and meter are there together, and exactly while the status says up; else the
  -- session is a new one.
  abbrev pub Belong : Option p.Device → Option p.Bind → Option Meter → Status → Type 0
  Belong none none none s = s ≡ no_status
  Belong (some dev) (some bind) (some meter) s = s.up ≡ true
  Belong _ _ _ s = ⊥

  pub record IsSound (s : S) : Type 0 where
    pub belong : Belong s.device s.bind s.meter s.status

  pub new-IsSound : IsSound (new p read_conf)
  new-IsSound = record { belong = refl }

  stop_device-IsSound :
      (device : Option p.Device) (s : S) (w : p.World)
      → IsSound s
      → IsSound (stop_device p read_conf device s w).0
  unfolding stop_device
  stop_device-IsSound none s w v = v
  stop_device-IsSound (some dev) s w v = new-IsSound

  -- How a Start can end: live with the configuration of the text, or sound.
  abbrev pub Outcome : Text → Result (Failure p read_conf) Status → S → Type 0
  Outcome text (ok s) c = IsLive text c × IsSound c × (s ≡ c.status)
  Outcome text (err e) c = IsSound c × (c.status.up ≡ false)

  IsLive-IsSound : (text : Text) (s : S) → IsLive text s → IsSound s
  IsLive-IsSound text s l = record { belong = rw (l.has_device, l.has_bind, l.has_meter) l.is_up }

  -- After a stop the session is down.
  stop_device-down :
      (device : Option p.Device) (bind : Option p.Bind) (meter : Option Meter) (s : S) (w : p.World)
      → Belong device bind meter s.status
      → (stop_device p read_conf device s w).0.status ≡ no_status
  unfolding stop_device
  stop_device-down none none none s w b = b
  stop_device-down none none (some meter) s w b = absurd b
  stop_device-down none (some bind) meter s w b = absurd b
  stop_device-down (some dev) bind meter s w b = refl

  settled-Outcome :
      (text : Text) (r : Result (Failure p read_conf) S) (s : S) (w : p.World)
      → OnOk (IsLive text) r
      → IsSound s
      → s.status ≡ no_status
      → let (r', s', w') = settled p read_conf r s w in Outcome text r' s'
  settled-Outcome text (ok up) s w l v d = (l, IsLive-IsSound text up l, refl)
  settled-Outcome text (err e) s w l v d = (v, rw d refl)

  -- Start on a sound session succeeds only with the tunnel of the configuration read from the text,
  -- and else leaves the session sound and down, also if a tunnel was up before.
  pub session_start-Outcome :
      (fd : ℤ) (text : Text) (s : S) (w : p.World)
      → IsSound s
      → let (r, s', w') = start p read_conf fd text s w in Outcome text r s'
  unfolding start stop
  session_start-Outcome fd text s w v =
      settled-Outcome text (bring_up p read_conf fd text (stop p read_conf s w).1).0
        (stop p read_conf s w).0 (bring_up p read_conf fd text (stop p read_conf s w).1).1
        ((bring_up-Gives fd text).from _) (stop_device-IsSound s.device s w v)
        (stop_device-down s.device s.bind s.meter s w v.belong)
