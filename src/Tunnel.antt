-- ===== src/Tunnel.antt =====
-- core/internal/tunnel/session.go: one userspace tunnel for the process. Connect is three pieces, as
-- the mutex has it: `build` before the lock, `swap` under it, and the previous device's Close after
-- it. Log lines are left out.
pub mod Kept
pub mod Steps
pub mod Replaced
pub mod Owned
mod Tests
use caelo.Base.{
  ℕ, Bool, true, false, not, Option, none, some, List, [], ◌∷◌, ◌++◌, if◌then◌else◌, Result, ok,
  err, ltb, length, ◌+◌, ◌-◌, ◌/◌,
}
use caelo.Base.Effect.{Effect, wrap, lift, look, map_err, pure, fail, ◌>>=◌, ◌>>◌}
use caelo.Base.Int.{ℤ, pos, is_positive}
use caelo.Base.Text.{Text, codes, is_empty, trim_space}
use caelo.Awg
use caelo.Awg.Uapi.{ipc}
use caelo.Probe.{max_body, read_limited, has_any}
use caelo.Userspace.{Reader, Reply, Userspace}

pub data Failure : Type 0 where
  not_connected : Failure
  reading : Awg.Err → Failure
  plain : Text → Failure
  wrapped : Text → Text → Failure
  too_large : Text → ℕ → Failure

pub record Info : Type 0 where
  pub endpoint : Text
  pub mtu : ℤ
  pub obfuscated : Bool
  pub protocol : Text

pub record Reachability : Type 0 where
  pub address : Text
  pub status : Text
  pub elapsed_ms : ℕ

-- The body that Check takes.
unfoldable pub check_body : Text → Reply → Result Failure (List ℕ)
unfolding read_limited
check_body url reply = elim (read_limited (max_body + 1) reply.body) [
  | err why ↦ err (wrapped (codes "reading response") why)
  | ok body ↦ if ltb max_body (length body) then err (too_large url max_body) else ok body
]

module _ (u : Userspace) where
  open u use {
    World, Addr, Net, default_dns, create_net_tun, new_device, ipc_set, device_up, close_device,
    new_request, do_request, text_of, clock,
  }

  abbrev pub M : Type 0 → Type 0
  M A = Effect World Failure A

  pub record Session : Type 0 where
    pub device : Option ℕ
    pub net : Option Net
    pub endpoint : Text
    pub up_since : ℕ

  -- New
  abbrev pub new : Session
  new = record { device = none; net = none; endpoint = []; up_since = 0 }

  -- A device that runs, and what it was made of.
  pub record Built : Type 0 where
    pub device : ℕ
    pub net : Net
    pub cfg : Awg.Config Addr

  abbrev pub or_close : {A : Type 0} → ℕ → Result Failure A → World → Result Failure A × World
  or_close dev (ok a) w = (ok a, w)
  or_close dev (err e) w = (err e, close_device dev w)

  -- IpcSet and Up.
  unfoldable pub start_device : Awg.Config Addr → ℕ → M (Unit {0})
  unfolding wrap
  start_device cfg dev = do
    wrap (wrapped (codes "configuring device")) (ipc_set dev (ipc cfg))
    wrap (wrapped (codes "bringing device up")) (device_up dev)

  -- A failure closes the device.
  unfoldable pub configure : Awg.Config Addr → ℕ → M (Unit {0})
  unfolding start_device
  configure cfg dev w = let (r, w') = start_device cfg dev w in or_close dev r w'

  abbrev pub built_on : Awg.Config Addr → Net → ℕ → Result Failure (Unit {0}) → Result Failure Built
  built_on cfg net dev (ok _) = ok (record { device = dev; net = net; cfg = cfg })
  built_on cfg net dev (err e) = err e

  unfoldable pub make_device : Awg.Config Addr → Net → M Built
  unfolding configure
  make_device cfg net w =
      let (dev, w1) = new_device net w in
      let (r, w2) = configure cfg dev w1 in (built_on cfg net dev r, w2)

  unfoldable pub build_from : Awg.Config Addr → M Built
  unfolding make_device wrap
  build_from cfg = do
    net ← wrap (wrapped (codes "creating netstack device")) (
        create_net_tun cfg.addresses (if has_any cfg.dns then cfg.dns else default_dns ∷ [])
          cfg.mtu)
    make_device cfg net

  -- Connect, up to the lock.
  unfoldable pub build : (Text → Awg.Go (Awg.Config Addr)) → Text → M Built
  unfolding build_from lift
  build read_conf text = do cfg ← lift (map_err reading (read_conf text)); build_from cfg

  -- Connect, under the lock.
  unfoldable pub swap : Built → ℕ → Session → Session
  swap b now s = record {
    device = some b.device;
    net = some b.net;
    endpoint = b.cfg.peer.endpoint;
    up_since = now;
  }

  -- if previous != nil { previous.Close() }
  unfoldable pub close_if : Option ℕ → World → World
  close_if none w = w
  close_if (some dev) w = close_device dev w

  unfoldable pub info_of : Awg.Config Addr → Info
  info_of cfg = record {
    endpoint = cfg.peer.endpoint;
    mtu = cfg.mtu;
    obfuscated = has_any cfg.obfuscation;
    protocol = if has_any cfg.obfuscation then codes "AmneziaWG" else codes "WireGuard";
  }

  -- Connect, from the lock on.
  unfoldable pub settle :
      Result Failure Built → Session → World → Result Failure Info × Session × World
  unfolding swap close_if info_of
  settle (err e) s w = (err e, s, w)
  settle (ok b) s w = (ok (info_of b.cfg), swap b (clock w) s, close_if s.device w)

  unfoldable pub connect :
      (Text → Awg.Go (Awg.Config Addr))
      → Text
      → Session
      → World
      → Result Failure Info × Session × World
  unfolding build settle
  connect read_conf text s w = let (r, w') = build read_conf text w in settle r s w'

  -- Disconnect, under the lock; `upSince` stays.
  unfoldable pub cleared : Session → Session
  cleared s = record s { device = none; net = none; endpoint = [] }

  unfoldable pub disconnect : Session → World → Session × World
  unfolding cleared close_if
  disconnect s w = (cleared s, close_if s.device w)

  -- Up
  unfoldable pub up : Session → Bool × Text
  up s = elim s.device [ none ↦ (false, s.endpoint) | some _ ↦ (true, s.endpoint) ]

  -- Check, through the netstack that was there when it took the lock.
  unfoldable pub check_through : Net → Text → ℤ → M Reachability
  unfolding check_body lift look wrap pure
  check_through net url timeout = do
    request ← wrap plain (lift (new_request url))
    started ← look clock
    reply ←
        wrap (wrapped (codes "reaching " ++ url ++ codes " through the tunnel"))
          (do_request net timeout request)
    body ← lift (check_body url reply)
    ended ← look clock
    pure (record {
      address = trim_space (text_of body);
      status = reply.status;
      elapsed_ms = (ended - started) / 1000000;
    })

  unfoldable pub check : Session → Text → ℤ → M Reachability
  unfolding check_through fail
  check s url timeout = elim s.net [
    | none ↦ fail not_connected
    | some net ↦
        check_through net (if is_empty url then codes "https://ifconfig.me/ip" else url)
          (if is_positive timeout then timeout else pos 20000000000)
  ]
