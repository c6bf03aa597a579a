-- ===== src/Systunnel/Sound.antt =====
-- The controller's fields belong together, after every method.
use caelo.Base.{◌≡◌, refl, true, Option, none, some, Result, ok, err}
use caelo.Base.Effect.Gives.{OnOk}
use caelo.Base.Text.{Text}
use caelo.Rtt.{Meter}
use caelo.System
use caelo.System.{Problem, restore}
use caelo.Systunnel.{
  Machine, Status, no_status, Controller, Failure, World, bring_up, stop_device, stop, start,
  settled,
}
use caelo.Systunnel.Started.{IsStarted, bring_up-Gives}

module _ (m : Machine) where
  -- Device, state and meter are there together, and exactly while the status says that the tunnel
  -- is up; else the status is empty.
  abbrev pub Belong : Option m.Device → Option System.State → Option Meter → Status → Type 0
  Belong none none none s = s ≡ no_status
  Belong (some dev) (some state) (some meter) s = s.up ≡ true
  Belong _ _ _ s = ⊥

  pub record IsSound (c : Controller m) : Type 0 where
    pub belong : Belong c.device c.state c.meter c.status

  -- What Stop leaves.
  pub record IsDown (c : Controller m) : Type 0 where
    pub no_device : c.device ≡ none
    pub no_state : c.state ≡ none
    pub no_meter : c.meter ≡ none
    pub empty : c.status ≡ no_status

  pub IsDown-IsSound : (c : Controller m) → IsDown c → IsSound c
  IsDown-IsSound c d = record { belong = rw (d.no_device, d.no_state, d.no_meter) d.empty }

  IsStarted-IsSound : (text : Text) (c : Controller m) → IsStarted m text c → IsSound c
  IsStarted-IsSound text c s = record {
    belong = rw (s.has_device, s.has_state, s.has_meter) s.is_up;
  }

  stop_device-IsDown :
      (device : Option m.Device) (state : Option System.State) (meter : Option Meter)
      (c : Controller m) (w : World m)
      → Belong device state meter c.status
      → c.device ≡ device
      → c.state ≡ state
      → c.meter ≡ meter
      → IsDown (stop_device m device state c w).1
  unfolding stop_device
  stop_device-IsDown none none none c w b d s k = record {
    no_device = d;
    no_state = s;
    no_meter = k;
    empty = b;
  }
  stop_device-IsDown (some dev) (some state) (some meter) c w b d s k = record {
    no_device = refl;
    no_state = refl;
    no_meter = refl;
    empty = refl;
  }
  stop_device-IsDown none none (some meter) c w b d s k = absurd b
  stop_device-IsDown none (some state) meter c w b d s k = absurd b
  stop_device-IsDown (some dev) none meter c w b d s k = absurd b
  stop_device-IsDown (some dev) (some state) none c w b d s k = absurd b

  -- Stop leaves a sound controller down, whatever Restore reports.
  pub stop-IsDown : (c : Controller m) (w : World m) → IsSound c → IsDown (stop m c w).1
  unfolding stop
  stop-IsDown c w v = stop_device-IsDown c.device c.state c.meter c w v.belong refl refl refl

  -- How a Start can end.
  abbrev pub Outcome : Text → Result (Failure m) Status → Controller m → Type 0
  Outcome text (ok s) c = IsStarted m text c × (s ≡ c.status)
  Outcome text (err e) c = IsDown c

  settled-Outcome :
      (text : Text) (r : Result (Failure m) (Controller m)) (c : Controller m) (w : World m)
      → OnOk (IsStarted m text) r
      → IsDown c
      → let (r', c', w') = settled m r c w in Outcome text r' c'
  settled-Outcome text (ok up) c w s d = (s, refl)
  settled-Outcome text (err e) c w s d = d

  -- Start succeeds only with a tunnel that it brought up: the configuration was read from the text
  -- given, the status that it returns is the controller's, and the server answered the device's
  -- handshake. When it fails, the controller is down, also if a tunnel was up before.
  pub start-Outcome :
      (text : Text) (c : Controller m) (w : World m)
      → IsSound c
      → let (r, c', w') = start m text c w in Outcome text r c'
  unfolding start
  start-Outcome text c w v =
      settled-Outcome text (bring_up m text (stop m c w).2).0 (stop m c w).1
        (bring_up m text (stop m c w).2).1 ((bring_up-Gives m text).from _) (stop-IsDown c w v)

  pub Outcome-IsSound :
      (text : Text) (r : Result (Failure m) Status) (c : Controller m)
      → Outcome text r c
      → IsSound c
  Outcome-IsSound text (ok s) c o = IsStarted-IsSound text c o.0
  Outcome-IsSound text (err e) c o = IsDown-IsSound c o
