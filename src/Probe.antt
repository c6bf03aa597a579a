-- ===== src/Probe.antt =====
-- core/internal/probe/probe.go: a response through the tunnel and the best figure there is for the
-- round trip. `Failure` is an error with what it was wrapped in.
pub mod Clock
pub mod Exit
pub mod Whole
pub mod Kept
pub mod Closed
pub mod Paired
mod Tests
use caelo.Base.{
  ℕ, Bool, true, false, Option, none, some, List, [], ◌∷◌, ◌++◌, if◌then◌else◌, Result, ok, err,
  ltb, leb, length, take, max, ◌+◌, ◌-◌, ◌*◌, ◌/◌,
}
use caelo.Base.Effect.{Effect, wrap, lift, look, act, map_err, pure, ◌>>=◌, ◌>>◌}
use caelo.Base.Int.{ℤ, pos, is_positive}
use caelo.Base.Text.{Text, codes, trim_space, is_empty}
use caelo.Awg
use caelo.Awg.Uapi.{ipc}
use caelo.Diag.{logf, switch_line}
use caelo.Diag as Diag
use caelo.Diag.Redact.{stamped}
use caelo.Userspace.{Reader, Reply, Userspace}

-- MaxBody
abbrev pub max_body : ℕ
max_body = 256 * 1024

pub data Failure : Type 0 where
  reading : Awg.Err → Failure
  plain : Text → Failure
  wrapped : Text → Text → Failure
  too_large : Text → ℕ → Failure
  measuring : Failure → Failure

-- io.ReadAll(io.LimitReader(body, n)): nothing past the limit is asked for.
unfoldable pub read_limited : ℕ → Reader → Result Text (List ℕ)
read_limited n r =
    if leb n (length r.bytes)
    then ok (take n r.bytes)
    else elim r.failure [ none ↦ ok r.bytes | some why ↦ err why ]

-- max(d.Milliseconds(), 1)
unfoldable pub at_least_one : ℕ → ℕ
at_least_one ns = max (ns / 1000000) 1

-- What is made of a body that was read up to the limit.
unfoldable pub accept_body : Text → Reply → List ℕ → Result Failure (List ℕ)
accept_body url reply body =
    if ltb max_body (length body) then err (too_large url max_body) else elim reply.close_error [
      | some why ↦ err (wrapped (codes "closing response") why)
      | none ↦ ok body
    ]

-- The body of a response, or why it is refused.
unfoldable pub read_reply : Text → Reply → Result Failure (List ℕ)
unfolding read_limited accept_body
read_reply url reply = elim (read_limited (max_body + 1) reply.body) [
  | err why ↦ err (wrapped (codes "reading response") why)
  | ok body ↦ accept_body url reply body
]

pub record Options : Type 0 where
  pub url : Text
  pub timeout : ℤ
  pub verbose : Bool
  pub measure_latency : Bool
  pub latency_target : Text

-- Result
pub record Found : Type 0 where
  pub endpoint : Text
  pub mtu : ℤ
  pub obfuscated : Bool
  pub status : Text
  pub body : Text
  pub elapsed : ℕ
  pub elapsed_ms : ℕ
  pub latency_ms : Option ℕ

-- The defaults that Run sets.
unfoldable pub with_defaults : Options → Options
with_defaults o = record o {
  url = if is_empty o.url then codes "https://ifconfig.me/ip" else o.url;
  timeout = if is_positive o.timeout then o.timeout else pos 30000000000;
}

unfoldable pub target_of : Options → Text
target_of o = if is_empty o.latency_target then codes "1.1.1.1:443" else o.latency_target

abbrev pub has_any : {A : Type 0} → List A → Bool
has_any [] = false
has_any (_ ∷ _) = true

module _ (u : Userspace) where
  open u use {
    World, Addr, Net, default_dns, create_net_tun, new_device, ipc_set, device_up, close_device,
    new_request, do_request, text_of, clock, log, with_log, now,
  }

  abbrev pub M : Type 0 → Type 0
  M A = Effect World Failure A

  -- diag.Logf
  unfoldable pub say : Text → M (Unit {0})
  unfolding act logf stamped
  say message = act (λ w. (tt, with_log (logf (stamped (now w) message) (log w)) w))

  -- diag.SetVerbose
  unfoldable pub set_verbose : Bool → M (Unit {0})
  unfolding act switch_line
  set_verbose on =
      act (λ w. (tt, with_log (Diag.set_verbose on (switch_line (now w) on) (log w)) w))

  -- latencySources: the ways to time the round trip, best first.
  pub record LatencySources : Type 0 where
    pub exit : World → Option ℕ × World
    pub handshake : World → Option ℕ
    pub request : M ℕ

  -- measureLatency, with what the handshake gave.
  unfoldable pub figure_without_exit : LatencySources → Option ℕ → M ℕ
  unfolding at_least_one pure wrap say
  figure_without_exit s (some rtt) = do
    say (codes "probe: the exit did not answer; reporting the handshake")
    pure (at_least_one rtt)
  figure_without_exit s none = do
    say (codes "probe: neither the exit nor the handshake was timed; measuring a request instead")
    latency ← wrap measuring s.request
    pure (at_least_one latency)

  -- measureLatency, with what the exit gave.
  unfoldable pub figure : LatencySources → Option ℕ → M ℕ
  unfolding at_least_one pure look figure_without_exit
  figure s (some rtt) = pure (at_least_one rtt)
  figure s none = do by_handshake ← look s.handshake; figure_without_exit s by_handshake

  -- measureLatency
  unfoldable pub measure_latency : LatencySources → M ℕ
  unfolding act figure
  measure_latency s = do by_exit ← act s.exit; figure s by_exit

  -- fetch
  unfoldable pub fetch : Net → ℤ → Text → M (Text × Text × ℕ)
  unfolding read_reply wrap pure lift look
  fetch net timeout url = do
    request ← wrap plain (lift (new_request url))
    started ← look clock
    reply ←
        wrap (wrapped (codes "fetching " ++ url ++ codes " through the tunnel"))
          (do_request net timeout request)
    body ← lift (read_reply url reply)
    ended ← look clock
    pure (reply.status, trim_space (text_of body), ended - started)

  -- How the exit and the handshake of a tunnel are timed.
  module _ (time_exit : Net → Text → World → Option ℕ × World) (round_trip : World → Option ℕ) where
    unfoldable pub latency_if : Options → Net → M (Option ℕ)
    unfolding measure_latency fetch target_of pure
    latency_if o net =
        if o.measure_latency
        then (do
          ms ← measure_latency (record {
            exit = time_exit net (target_of o);
            handshake = round_trip;
            request = fetch net o.timeout o.url >>= λ r. pure r.2;
          })
          pure (some ms))
        else pure none

    -- Run, with the device up and until it is closed.
    unfoldable pub use_device : Options → Awg.Config Addr → Net → ℕ → M Found
    unfolding latency_if fetch
    use_device o cfg net dev = do
      wrap (wrapped (codes "configuring device")) (ipc_set dev (ipc cfg))
      wrap (wrapped (codes "bringing device up")) (device_up dev)
      (status, body, elapsed) ← fetch net o.timeout o.url
      latency ← latency_if o net
      pure (record {
        endpoint = cfg.peer.endpoint;
        mtu = cfg.mtu;
        obfuscated = has_any cfg.obfuscation;
        status = status;
        body = body;
        elapsed = elapsed;
        elapsed_ms = elapsed / 1000000;
        latency_ms = latency;
      })

    -- From the device's making to the deferred Close.
    unfoldable pub with_device : Options → Awg.Config Addr → Net → M Found
    unfolding use_device
    with_device o cfg net w =
        let (dev, w1) = new_device net w in
        let (r, w2) = use_device o cfg net dev w1 in (r, close_device dev w2)

    unfoldable pub run : (Text → Awg.Go (Awg.Config Addr)) → Text → Options → M Found
    unfolding with_device with_defaults set_verbose
    run read_conf text options = do
      cfg ← lift (map_err reading (read_conf text))
      net ← wrap (wrapped (codes "creating netstack device")) (
          create_net_tun cfg.addresses (if has_any cfg.dns then cfg.dns else default_dns ∷ [])
            cfg.mtu)
      set_verbose options.verbose
      with_device (with_defaults options) cfg net
