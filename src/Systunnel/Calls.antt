-- ===== src/Systunnel/Calls.antt =====
-- Status, and the methods of a controller one after another.
use caelo.Base.{ℕ, ◌≡◌, refl, not, Option, none, some, List, [], ◌∷◌, if-both}
use caelo.Base.Text.{Text}
use caelo.Rtt.{Meter, milliseconds}
use caelo.System
use caelo.Systunnel.{Machine, Status, Controller, World, new, stop, start, status}
use caelo.Systunnel.Sound.{
  Belong, IsSound, IsDown-IsSound, stop-IsDown, Outcome-IsSound, start-Outcome,
}

module _ (m : Machine) where
  -- What Status says of a controller: that it is up as the controller has it, with the same
  -- interface, endpoint, protocol and start.
  pub record Agrees (s : Status) (c : Controller m) : Type 0 where
    pub up : s.up ≡ c.status.up
    pub interface : s.interface ≡ c.status.interface
    pub endpoint : s.endpoint ≡ c.status.endpoint
    pub protocol : s.protocol ≡ c.status.protocol
    pub since_unix : s.since_unix ≡ c.status.since_unix

  Belong-milliseconds :
      (now : ℕ) (device : Option m.Device) (state : Option System.State) (meter : Option Meter)
      (s : Status)
      → Belong m device state meter s
      → Belong m device state (milliseconds now meter).1 s
  unfolding milliseconds
  Belong-milliseconds now none none none s b = b
  Belong-milliseconds now (some dev) (some state) (some meter) s b = b
  Belong-milliseconds now none none (some meter) s b = absurd b
  Belong-milliseconds now none (some state) meter s b = absurd b
  Belong-milliseconds now (some dev) none meter s b = absurd b
  Belong-milliseconds now (some dev) (some state) none s b = absurd b

  -- What Status returns and leaves, beside the controller that it was asked of.
  abbrev pub Reports : Controller m → Status × Controller m × World m → Type 0
  Reports c (s, c', w') =
      Agrees s c' × IsSound m c' × (c'.device ≡ c.device) × (c'.status ≡ c.status)

  Agrees-self : (c : Controller m) → Agrees c.status c
  Agrees-self c = record {
    up = refl;
    interface = refl;
    endpoint = refl;
    protocol = refl;
    since_unix = refl;
  }

  -- Status reports what is up without disturbing it: its report agrees with the controller, which
  -- keeps its device and its status and stays sound.
  pub status-Reports : (c : Controller m) (w : World m) → IsSound m c → Reports c (status m c w)
  unfolding status
  status-Reports c w v =
      if-both (Reports c) (not c.status.up) (λ _. (Agrees-self c, v, refl, refl))
        λ _. (
          record {
            up = refl;
            interface = refl;
            endpoint = refl;
            protocol = refl;
            since_unix = refl;
          },
          record { belong = Belong-milliseconds _ c.device c.state c.meter c.status v.belong },
          refl,
          refl,
        )

  pub data Call : Type 0 where
    started : Text → Call
    stopped : Call
    asked : Call

  pub call : Call → Controller m → World m → Controller m × World m
  call (started text) c w = let (_, c', w') = start m text c w in (c', w')
  call stopped c w = let (_, c', w') = stop m c w in (c', w')
  call asked c w = let (_, c', w') = status m c w in (c', w')

  pub calls : List Call → Controller m → World m → Controller m × World m
  calls [] c w = (c, w)
  calls (k ∷ ks) c w = let (c', w') = call k c w in calls ks c' w'

  call-IsSound :
      (k : Call) (c : Controller m) (w : World m) → IsSound m c → IsSound m (call k c w).0
  unfolding call
  call-IsSound (started text) c w v =
      Outcome-IsSound m text (start m text c w).0 (start m text c w).1 (start-Outcome m text c w v)
  call-IsSound stopped c w v = IsDown-IsSound m _ (stop-IsDown m c w v)
  call-IsSound asked c w v = (status-Reports c w v).1

  -- From a sound controller, after any calls, in any world and whatever fails, its device, state and
  -- meter are there together exactly while its status says up, and else its status is empty.
  pub calls-IsSound :
      (ks : List Call) (c : Controller m) (w : World m) → IsSound m c → IsSound m (calls ks c w).0
  unfolding calls
  calls-IsSound [] c w v = v
  calls-IsSound (k ∷ ks) c w v = calls-IsSound ks _ _ (call-IsSound k c w v)

  pub new-IsSound : IsSound m (new m)
  new-IsSound = record { belong = refl }
