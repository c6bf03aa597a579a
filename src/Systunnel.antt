-- ===== src/Systunnel.antt =====
-- core/internal/systunnel/controller.go: the tunnel that carries the whole machine's traffic. What
-- is not of this repository (the tun device, the AmneziaWG device, the resolver, the clock) is the
-- parameter `Machine`, with the `Host` of package system in it; so is encoding/json. The mutex makes each method one step.
pub mod Started
pub mod Sound
pub mod Calls
pub mod Sandbox
mod Tests
use caelo.Base.{
  ℕ, suc, ◌+◌, ◌*◌, ◌/◌, Bool, true, false, not, ◌&&◌, Option, none, some, List, [], ◌∷◌, ◌++◌, map,
  if◌then◌else◌, Result, ok, err,
}
use caelo.Base.Effect.{Effect, pure, fail, wrap, map_err, ◌>>=◌, ◌>>◌}
use caelo.Base.Int.{ℤ, pos}
use caelo.Base.Text.{Text, codes, is_empty, trim_space, has_prefix}
use caelo.Awg
use caelo.Awg.Endpoint.{Endpoint, endpoint_config}
use caelo.Awg.Conf.{Netip, parse_config}
use caelo.Awg.Uapi.{ipc}
use caelo.Handshake
use caelo.Handshake.{Poll, poll_interval, wait}
use caelo.Rtt
use caelo.Rtt.{Meter, milliseconds}
use caelo.System
use caelo.System.{Host, Problem, snapshot, apply, restore}

pub record Machine : Type 1 where
  pub host : Host
  pub netip : Netip
  pub Tun : Type 0
  pub Device : Type 0
  -- json.Unmarshal into an Endpoint
  pub decode_endpoint : Text → Option Endpoint
  pub address_text : netip.Addr → Text
  -- net.SplitHostPort (the host), net.ParseIP (that there is one, and that it is of IPv4) and
  -- net.LookupHost
  pub split_host_port : Text → Result Text Text
  pub is_ip : Text → Bool
  pub is_ip4 : Text → Bool
  pub lookup_host : Text → Effect host.World Text (List Text)
  pub create_tun : Text → ℤ → Effect host.World Text Tun
  pub tun_name : Tun → Effect host.World Text Text
  pub close_tun : Tun → host.World → host.World
  pub new_device : Tun → host.World → Device × host.World
  pub ipc_set : Device → Text → Effect host.World Text (Unit {0})
  pub device_up : Device → Effect host.World Text (Unit {0})
  pub close_device : Device → host.World → host.World
  pub ipc_get : Device → Effect host.World Text Text
  -- what the rounds of handshake.Wait see, one after another, and the world after them
  pub polls : Device → host.World → (ℕ → Poll) × host.World
  pub clock : host.World → ℕ
  pub unix_now : host.World → ℕ

pub record Status : Type 0 where
  pub up : Bool
  pub interface : Text
  pub endpoint : Text
  pub protocol : Text
  pub obfuscated : Bool
  pub since_unix : ℕ
  pub handshake_unix : ℕ
  pub latency_ms : ℕ

-- Status{}
abbrev pub no_status : Status
no_status = record {
  up = false;
  interface = [];
  endpoint = [];
  protocol = [];
  obfuscated = false;
  since_unix = 0;
  handshake_unix = 0;
  latency_ms = 0;
}

abbrev pub handshake_timeout : ℕ
handshake_timeout = 10 * 1_000_000_000

abbrev pub is_nil : {A : Type 0} → List A → Bool
is_nil [] = true
is_nil (_ ∷ _) = false

-- awg.LooksLikeJSON
unfoldable pub looks_like_json : Text → Bool
looks_like_json text = has_prefix (trim_space text) (codes "{")

module _ (m : Machine) where
  open m use {
    host, netip, Tun, Device, decode_endpoint, address_text, split_host_port, is_ip, is_ip4,
    lookup_host, create_tun, tun_name, close_tun, new_device, ipc_set, device_up, close_device,
    ipc_get, polls, clock, unix_now,
  }

  abbrev pub World : Type 0
  World = host.World

  abbrev pub Conf : Type 0
  Conf = Awg.Config netip.Addr

  pub data Failure : Type 0 where
    reading : Awg.Err → Failure
    said : Text → Failure
    wrapped : Text → Text → Failure
    system : Problem → Failure
    not_restored : List (Text × Problem) → Failure

  abbrev pub M : Type 0 → Type 0
  M A = Effect World Failure A

  -- The fields of Controller. `state` and `meter` are nil where `device` is.
  pub record Controller : Type 0 where
    pub device : Option Device
    pub state : Option System.State
    pub network : System.Config
    pub status : Status
    pub meter : Option Meter

  -- &Controller{}, with no network yet.
  abbrev pub new : Controller
  new = record {
    device = none;
    state = none;
    network = record { interface = []; address = []; mtu = pos 0; endpoint_host = []; dns = [] };
    status = no_status;
    meter = none;
  }

  -- ParseEndpoint, on what was decoded.
  pub parse_endpoint : Option Endpoint → Awg.Go Conf
  parse_endpoint none = err (Awg.said (codes "reading the endpoint"))
  parse_endpoint (some e) = endpoint_config netip e

  -- awg.Parse
  pub parse : Text → Awg.Go Conf
  parse text =
      if looks_like_json text
      then parse_endpoint (decode_endpoint text)
      else parse_config netip text

  pub read_config : Text → M Conf
  read_config text w = (map_err reading (parse text), w)

  pub first_ip4 : List Text → Option Text
  first_ip4 [] = none
  first_ip4 (a ∷ l) = let rest = first_ip4 l in if is_ip a && is_ip4 a then some a else rest

  pub pick_ip4 : Text → Option Text → M Text
  pick_ip4 host none = fail (said (codes "endpoint has no IPv4 address: " ++ host))
  pick_ip4 host (some a) = pure a

  -- EndpointAddress, once the host is split off.
  pub host_address : Text → Result Text Text → M Text
  host_address endpoint (err e) = fail (wrapped (codes "endpoint is not host:port: " ++ endpoint) e)
  host_address endpoint (ok host) = if is_ip host then pure host else do
    addrs ← wrap (wrapped (codes "resolving endpoint " ++ host)) (lookup_host host)
    pick_ip4 host (first_ip4 addrs)

  -- EndpointAddress
  pub endpoint_address : Text → M Text
  endpoint_address endpoint =
      if is_empty endpoint
      then fail (said (codes "the configuration has no Endpoint"))
      else host_address endpoint (split_host_port endpoint)

  -- The call, with the world put in order if it fails.
  abbrev pub or_undo :
      {A : Type 0} → (World → World) → Result Failure A → World → Result Failure A × World
  or_undo undo (ok a) w = (ok a, w)
  or_undo undo (err e) w = (err e, undo w)

  pub on_error : {A : Type 0} → (World → World) → M A → M A
  on_error undo call w = let (r, w') = call w in or_undo undo r w'

  -- The interface, its name, and the device over it.
  pub open_device : Conf → M (Text × Device)
  open_device cfg = do
    tun ←
        wrap (wrapped (codes "creating the tunnel interface")) (create_tun (codes "caelo0") cfg.mtu)
    name ←
        on_error (close_tun tun)
          (wrap (wrapped (codes "naming the tunnel interface")) (tun_name tun))
    λ w. let (dev, w') = new_device tun w in (ok (name, dev), w')

  -- `cfg.Addresses[0]`, which a configuration that was read always has.
  abbrev pub first_address : List netip.Addr → Text
  first_address [] = []
  first_address (a ∷ _) = address_text a

  abbrev pub dns_of : List netip.Addr → List Text
  dns_of [] = codes "1.1.1.1" ∷ []
  dns_of (a ∷ l) = map address_text (a ∷ l)

  abbrev pub network_of : Conf → Text → Text → System.Config
  network_of cfg name endpoint_host = record {
    interface = name;
    address = first_address cfg.addresses;
    mtu = cfg.mtu;
    endpoint_host = endpoint_host;
    dns = dns_of cfg.dns;
  }

  -- handshake.Wait(read, HandshakeTimeout), with as many rounds as it can take.
  abbrev pub rounds : ℕ
  rounds = suc (handshake_timeout / poll_interval + 1)

  pub wait_answer : Device → World → Bool × World
  wait_answer dev w =
      let (poll, w') = polls dev w in
      (elim (wait rounds (clock w + handshake_timeout) poll 0) [ none ↦ false | some b ↦ b ], w')

  pub must_answer : Device → M (Unit {0})
  must_answer dev w =
      let (answered, w') = wait_answer dev w in
      (if answered then ok tt else err (said (codes "the server did not answer the handshake")), w')

  abbrev pub restored : System.State → System.Config → World → World
  restored state network w = (restore host state network w).1

  -- From IpcSet to the handshake; a failure after Apply began restores first, and every one closes
  -- the device.
  pub connect : Conf → Device → System.State → System.Config → M (Unit {0})
  connect cfg dev state network = on_error (close_device dev) (do
    wrap (wrapped (codes "configuring the device")) (ipc_set dev (ipc cfg))
    wrap (wrapped (codes "bringing the device up")) (device_up dev)
    on_error (restored state network) (do wrap system (apply host state network); must_answer dev))

  abbrev pub protocol_of : Conf → Text
  protocol_of cfg = if is_nil cfg.obfuscation then codes "WireGuard" else codes "AmneziaWG"

  abbrev pub status_of : Conf → Text → ℕ → Status
  status_of cfg name now = record {
    up = true;
    interface = name;
    endpoint = cfg.peer.endpoint;
    protocol = protocol_of cfg;
    obfuscated = not (is_nil cfg.obfuscation);
    since_unix = now;
    handshake_unix = 0;
    latency_ms = 0;
  }

  -- Start, past the tunnel that was up.
  pub bring_up : Text → M Controller
  bring_up text = do
    cfg ← read_config text
    endpoint_host ← endpoint_address cfg.peer.endpoint
    state ← wrap system (snapshot host)
    (name, dev) ← open_device cfg
    let network = network_of cfg name endpoint_host
    connect cfg dev state network
    λ w. (
      ok (record {
        device = some dev;
        state = some state;
        network = network;
        status = status_of cfg name (unix_now w);
        meter = some Rtt.new;
      }),
      w,
    )

  -- stopLocked, with a device and the state that belongs to it.
  pub stop_device :
      Option Device
      → Option System.State
      → Controller
      → World
      → List (Text × Problem) × Controller × World
  stop_device (some dev) (some state) c w =
      let (problems, w') = restore host state c.network w in
      (
        problems,
        record c { device = none; meter = none; state = none; status = no_status },
        close_device dev w',
      )
  stop_device (some dev) none c w = (
    [],
    record c { device = none; meter = none; state = none; status = no_status },
    close_device dev w,
  )
  stop_device none _ c w = ([], c, w)

  -- Stop
  pub stop : Controller → World → List (Text × Problem) × Controller × World
  stop c w = stop_device c.device c.state c w

  -- The controller takes the tunnel that came up; with none it stays as it was.
  abbrev pub settled :
      Result Failure Controller → Controller → World → Result Failure Status × Controller × World
  settled (ok up) down w = (ok up.status, up, w)
  settled (err e) down w = (err e, down, w)

  -- Start: a tunnel already up is torn down first, whatever comes after.
  pub start : Text → Controller → World → Result Failure Status × Controller × World
  start text c w = let (_, c1, w1) = stop c w in let (r, w2) = bring_up text w1 in settled r c1 w2

  -- The time of the last handshake in a dump, where there is one.
  pub handshake_of : Result Text Text → ℕ
  handshake_of (err e) = 0
  handshake_of (ok uapi) = elim (Handshake.parse uapi) [ none ↦ 0 | some at ↦ at ]

  abbrev pub last_handshake : Option Device → World → ℕ × World
  last_handshake none w = (0, w)
  last_handshake (some dev) w = let (r, w') = ipc_get dev w in (handshake_of r, w')

  -- Status
  pub status : Controller → World → Status × Controller × World
  status c w =
      if not c.status.up
      then (c.status, c, w)
      else let (at, w') = last_handshake c.device w in
        let (ms, meter) = milliseconds (clock w') c.meter in
        (record c.status { handshake_unix = at; latency_ms = ms }, record c { meter = meter }, w')
