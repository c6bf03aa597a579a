-- ===== src/Fdtun.antt =====
-- core/internal/fdtun/session.go and mtu.go: a tunnel on a device that the host platform opened. The
-- parameter `Phone` is what the code calls outside itself (the descriptor's device, the AmneziaWG
-- device and its sockets, the clock); `read_conf` is awg.Parse. The mutex makes each method one
-- step.
pub mod Live
mod Tests
use caelo.Base.{
  ℕ, Bool, true, false, not, Option, none, some, List, [], ◌∷◌, if◌then◌else◌, Result, ok, err,
}
use caelo.Base.Effect.{Effect, wrap, map_err, ◌>>=◌, ◌>>◌}
use caelo.Base.Int.{ℤ, pos, negsuc, is_positive}
use caelo.Base.Text.{Text, codes}
use caelo.Awg
use caelo.Awg.Uapi.{ipc}
use caelo.Handshake
use caelo.Rtt
use caelo.Rtt.{Meter, milliseconds}

pub record Phone : Type 1 where
  pub World : Type 0
  pub Addr : Type 0
  pub Tun : Type 0
  pub Device : Type 0
  pub Bind : Type 0
  pub adopt : ℤ → ℤ → Effect World Text Tun
  pub default_bind : World → Bind × World
  -- a device over a tun, and the MTU that it is told in place of the tun's own
  pub new_device : Tun × Option ℤ → Bind → World → Device × World
  pub ipc_set : Device → Text → Effect World Text (Unit {0})
  pub device_up : Device → Effect World Text (Unit {0})
  pub disable_roaming : Device → World → World
  pub close_device : Device → World → World
  pub ipc_get : Device → Effect World Text Text
  -- whether the bind shows its sockets, and what it shows
  pub can_peek : Bind → Bool
  pub peek_v4 : Bind → Result Text ℤ
  pub peek_v6 : Bind → Result Text ℤ
  pub clock : World → ℕ
  pub unix_now : World → ℕ

pub record Status : Type 0 where
  pub up : Bool
  pub endpoint : Text
  pub protocol : Text
  pub obfuscated : Bool
  pub since_unix : ℕ
  pub handshake_unix : ℕ
  pub latency_ms : ℕ

-- Status{}
abbrev pub no_status : Status
no_status = record {
  up = false;
  endpoint = [];
  protocol = [];
  obfuscated = false;
  since_unix = 0;
  handshake_unix = 0;
  latency_ms = 0;
}

module _ (p : Phone) (read_conf : Text → Awg.Go (Awg.Config p.Addr)) where
  open p use {
    World, Tun, Device, Bind, adopt, default_bind, new_device, ipc_set, device_up, disable_roaming,
    close_device, ipc_get, can_peek, peek_v4, peek_v6, clock, unix_now,
  }

  pub data Failure : Type 0 where
    reading : Awg.Err → Failure
    wrapped : Text → Text → Failure

  abbrev pub M : Type 0 → Type 0
  M A = Effect World Failure A

  pub record Session : Type 0 where
    pub device : Option Device
    pub bind : Option Bind
    pub status : Status
    pub meter : Option Meter

  -- New
  abbrev pub new : Session
  new = record { device = none; bind = none; status = no_status; meter = none }

  -- withMTU
  abbrev pub with_mtu : Tun → ℤ → Tun × Option ℤ
  with_mtu tun mtu = if is_positive mtu then (tun, some mtu) else (tun, none)

  abbrev pub or_close : {A : Type 0} → Device → Result Failure A → World → Result Failure A × World
  or_close dev (ok a) w = (ok a, w)
  or_close dev (err e) w = (err e, close_device dev w)

  -- IpcSet and Up; a failure closes the device.
  pub configure : Awg.Config p.Addr → Device → M (Unit {0})
  configure cfg dev w =
      let (r, w') =
        (do
          wrap (wrapped (codes "configuring the device")) (ipc_set dev (ipc cfg))
          wrap (wrapped (codes "bringing the device up")) (device_up dev))
          w in
      or_close dev r w'

  abbrev pub has_obfuscation : List (Text × Text) → Bool
  has_obfuscation [] = false
  has_obfuscation (_ ∷ _) = true

  abbrev pub status_of : Awg.Config p.Addr → ℕ → Status
  status_of cfg now = record {
    up = true;
    endpoint = cfg.peer.endpoint;
    protocol = if has_obfuscation cfg.obfuscation then codes "AmneziaWG" else codes "WireGuard";
    obfuscated = has_obfuscation cfg.obfuscation;
    since_unix = now;
    handshake_unix = 0;
    latency_ms = 0;
  }

  pub read_config : Text → M (Awg.Config p.Addr)
  read_config text w = (map_err reading (read_conf text), w)

  -- The bind and the device over the tun.
  pub open_device : Tun × Option ℤ → M (Bind × Device)
  open_device tun w =
      let (bind, w1) = default_bind w in
      let (dev, w2) = new_device tun bind w1 in (ok (bind, dev), w2)

  -- Start, past the tunnel that was up.
  pub bring_up : ℤ → Text → M Session
  bring_up fd text = do
    cfg ← read_config text
    tun ← wrap (wrapped (codes "adopting the tun descriptor")) (adopt fd cfg.mtu)
    (bind, dev) ← open_device (with_mtu tun cfg.mtu)
    configure cfg dev
    λ w.
        let w' = disable_roaming dev w in
        (
          ok (record {
            device = some dev;
            bind = some bind;
            status = status_of cfg (unix_now w');
            meter = some Rtt.new;
          }),
          w',
        )

  pub stop_device : Option Device → Session → World → Session × World
  stop_device none s w = (s, w)
  stop_device (some dev) s w = (new, close_device dev w)

  -- Stop
  pub stop : Session → World → Session × World
  stop s w = stop_device s.device s w

  abbrev pub settled :
      Result Failure Session → Session → World → Result Failure Status × Session × World
  settled (ok up) down w = (ok up.status, up, w)
  settled (err e) down w = (err e, down, w)

  -- Start
  pub start : ℤ → Text → Session → World → Result Failure Status × Session × World
  start fd text s w =
      let (s1, w1) = stop s w in let (r, w2) = bring_up fd text w1 in settled r s1 w2

  abbrev pub or_minus_one : Result Text ℤ → ℤ
  or_minus_one (ok fd) = fd
  or_minus_one (err e) = negsuc 0

  -- SocketFds, of `s.bind`.
  pub socket_fds : Option Bind → ℤ × ℤ
  socket_fds none = (negsuc 0, negsuc 0)
  socket_fds (some bind) =
      if can_peek bind
      then (or_minus_one (peek_v4 bind), or_minus_one (peek_v6 bind))
      else (negsuc 0, negsuc 0)

  -- The handshake time in the device's state; uapi fails when nothing is up.
  pub handshake_of : Result Text Text → ℕ
  handshake_of (err e) = 0
  handshake_of (ok uapi) = elim (Handshake.parse uapi) [ none ↦ 0 | some at ↦ at ]

  abbrev pub last_handshake : Option Device → World → ℕ × World
  last_handshake none w = (0, w)
  last_handshake (some dev) w = let (r, w') = ipc_get dev w in (handshake_of r, w')

  -- Status
  pub status : Session → World → Status × Session × World
  status s w =
      if not s.status.up
      then (s.status, s, w)
      else let (ms, meter) = milliseconds (clock w) s.meter in
        let (at, w') = last_handshake s.device w in
        (record s.status { handshake_unix = at; latency_ms = ms }, record s { meter = meter }, w')
