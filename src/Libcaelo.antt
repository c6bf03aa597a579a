-- ===== src/Libcaelo.antt =====
-- core/libcaelo/libcaelo.go: the C interface. A C string is a text, and the answer of a call is the
-- text that it returns, which `Answer` makes.
pub mod Reads
pub mod Verified
pub mod Told
pub mod Alone
pub mod Logged
pub mod Verbose
pub mod Flooded
mod Sandbox
mod Tests
use caelo.Base.{
  ℕ, Bool, true, false, not, Option, none, some, List, [], ◌∷◌, ◌++◌, map, if◌then◌else◌, Result,
  ok, err,
}
use caelo.Base.Effect.{Effect}
use caelo.Base.Int.{ℤ, pos, is_zero, times}
use caelo.Base.Map
use caelo.Base.Text.{Text, codes, text_eq, text_key}
use caelo.Awg
use caelo.Diag as Diag
use caelo.Diag.{Ring, switch_line}
use caelo.Probe as Probe
use caelo.Probe.{has_any, Found, Options}
use caelo.Release.{
  KeysError, FileVerdict, Ed25519, parse_trusted, verify_file, unreadable, verdict, trusted,
  untrusted,
}
use caelo.Tunnel as Tunnel
use caelo.Tunnel.{Session, Info, Reachability}
use caelo.Userspace.{Userspace}
use caelo.Answer.{
  Json, flag, number, text, texts, Object, Problem, of_tunnel, of_probe, of_conf, of_json, of_keys,
  of_file, Outside, find_dep, amneziawg, info_object, reachability_object, found_object,
  latency_field, unencoded, marshal, failure_text, failure, accepted, success, answer,
}

-- time.Duration(timeoutMs)*time.Millisecond
unfoldable pub milliseconds : ℤ → ℤ
unfolding times
milliseconds n = times n 1000000

module _ (u : Userspace) (o : Outside u) where
  open o use {
    encode, decode, decode_keys, addr_text, read_file, build_info, version, error_text, ed25519,
    read_conf, time_exit, round_trip,
  }

  pub record State : Type 0 where
    pub session : Session u
    pub world : u.World

  unfoldable pub caelo_version : Text
  unfolding marshal amneziawg
  caelo_version =
      marshal u o
        ((codes "core", text version) ∷ (codes "amneziawg", text (amneziawg build_info)) ∷ [])

  unfoldable pub caelo_connect : Text → State → Text × State
  unfolding info_object success failure
  caelo_connect conf s =
      let (r, session', w') = Tunnel.connect u read_conf conf s.session s.world in
      (answer u o of_tunnel info_object r, record { session = session'; world = w' })

  unfoldable pub caelo_check : Text → ℤ → State → Text × State
  unfolding reachability_object success failure milliseconds
  caelo_check url timeout s =
      let (r, w') = Tunnel.check u s.session url (milliseconds timeout) s.world in
      (answer u o of_tunnel reachability_object r, record s { world = w' })

  -- probe.Options, with the verbose logging that there is.
  unfoldable pub options : Text → ℤ → Bool → u.World → Options
  unfolding milliseconds
  options url timeout measure w = record {
    url = url;
    timeout = milliseconds timeout;
    verbose = Diag.verbose (u.log w);
    measure_latency = measure;
    latency_target = [];
  }

  unfoldable pub probe : Bool → Text → Text → ℤ → State → Text × State
  unfolding found_object success failure options
  probe measure conf url timeout s =
      let (r, w') =
        Probe.run u time_exit round_trip read_conf conf (options url timeout measure s.world)
          s.world in
      (answer u o of_probe found_object r, record s { world = w' })

  unfoldable pub caelo_probe : Text → Text → ℤ → State → Text × State
  unfolding probe
  caelo_probe = probe false

  unfoldable pub caelo_measure_latency : Text → Text → ℤ → State → Text × State
  unfolding probe
  caelo_measure_latency = probe true

  abbrev pub plain_ok : Object
  plain_ok = (codes "ok", flag true) ∷ []

  unfoldable pub caelo_disconnect : State → Text × State
  unfolding marshal
  caelo_disconnect s =
      let (session', w') = Tunnel.disconnect u s.session s.world in
      (marshal u o plain_ok, record { session = session'; world = w' })

  unfoldable pub caelo_status : State → Text
  unfolding marshal
  caelo_status s =
      let (up, endpoint) = Tunnel.up u s.session in
      marshal u o
        ((codes "ok", flag true) ∷ (codes "up", flag up) ∷ (codes "endpoint", text endpoint) ∷ [])

  -- The resolvers of caelo_describe.
  unfoldable pub resolvers : List Text → List Text
  resolvers dns = if has_any dns then dns else codes "1.1.1.1" ∷ []

  unfoldable pub description : Awg.Config u.Addr → Object
  unfolding resolvers
  description cfg =
      (codes "ok", flag true)
      ∷ (codes "addresses", texts (map addr_text cfg.addresses))
      ∷ (codes "mtu", number cfg.mtu)
      ∷ (codes "dns", texts (resolvers (map addr_text cfg.dns)))
      ∷ (codes "allowed_ips", texts cfg.peer.allowed_ips)
      ∷ (codes "endpoint", text cfg.peer.endpoint)
      ∷ (codes "obfuscated", flag (has_any cfg.obfuscation))
      ∷ []

  unfoldable pub caelo_describe : Text → Text
  unfolding description marshal failure
  caelo_describe conf = elim (read_conf conf) [
    | err e ↦ failure u o (of_conf e)
    | ok cfg ↦ marshal u o (description cfg)
  ]

  unfoldable pub caelo_log : State → Text
  unfolding marshal
  caelo_log s = marshal u o (
      (codes "ok", flag true)
      ∷ (codes "verbose", flag (Diag.verbose (u.log s.world)))
      ∷ (codes "lines", texts (Diag.lines (u.log s.world)))
      ∷ [])

  -- What diag keeps, after one of its functions.
  abbrev pub on_log : (Ring → Ring) → State → State
  on_log f s = record s { world = u.with_log (f (u.log s.world)) s.world }

  unfoldable pub caelo_set_verbose : ℤ → State → Text × State
  unfolding marshal switch_line
  caelo_set_verbose on s =
      let s' =
        on_log
          (Diag.set_verbose (not (is_zero on)) (switch_line (u.now s.world) (not (is_zero on))))
          s in
      (
        marshal u o (
            (codes "ok", flag true) ∷ (codes "verbose", flag (Diag.verbose (u.log s'.world))) ∷ []),
        s',
      )

  unfoldable pub caelo_clear_log : State → Text × State
  unfolding marshal
  caelo_clear_log s = (marshal u o plain_ok, on_log Diag.clear s)

  abbrev pub verified : FileVerdict → Text
  verified (unreadable why) = failure u o (of_file (unreadable why))
  verified (verdict trusted) = marshal u o plain_ok
  verified (verdict untrusted) = failure u o (of_file (verdict untrusted))

  -- An `err` is a panic of ed25519.Verify.
  unfoldable pub caelo_verify_release : Text → Text → Text → State → Result Text Text
  unfolding marshal failure parse_trusted
  caelo_verify_release path signature keys s = elim (decode_keys keys) [
    | err why ↦ ok (failure u o (of_json why))
    | ok encoded ↦ elim (parse_trusted encoded) [
      | err e ↦ ok (failure u o (of_keys e))
      | ok trusted_keys ↦
          elim (verify_file ed25519 (λ p. read_file p s.world) path signature trusted_keys) [
            | err panic ↦ err panic
            | ok v ↦ ok (verified v)
          ]
    ]
  ]

  pub data Call : Type 0 where
    version_of : Call
    connect : Text → Call
    check : Text → ℤ → Call
    probe_one : Text → Text → ℤ → Call
    measure_one : Text → Text → ℤ → Call
    disconnect : Call
    status : Call
    describe : Text → Call
    read_log : Call
    set_verbose : ℤ → Call
    clear_log : Call
    verify_release : Text → Text → Text → Call

  abbrev pub returned : Text × State → Result Text Text × State
  returned (t, s) = (ok t, s)

  -- A call of the library: what it returns, or a panic, and what it leaves.
  unfoldable pub call : Call → State → Result Text Text × State
  unfolding caelo_version caelo_connect caelo_check caelo_probe caelo_measure_latency
      caelo_disconnect caelo_status caelo_describe caelo_log caelo_set_verbose caelo_clear_log
      caelo_verify_release
  call version_of s = (ok caelo_version, s)
  call (connect conf) s = returned (caelo_connect conf s)
  call (check url timeout) s = returned (caelo_check url timeout s)
  call (probe_one conf url timeout) s = returned (caelo_probe conf url timeout s)
  call (measure_one conf url timeout) s = returned (caelo_measure_latency conf url timeout s)
  call disconnect s = returned (caelo_disconnect s)
  call status s = (ok (caelo_status s), s)
  call (describe conf) s = (ok (caelo_describe conf), s)
  call read_log s = (ok (caelo_log s), s)
  call (set_verbose on) s = returned (caelo_set_verbose on s)
  call clear_log s = returned (caelo_clear_log s)
  call (verify_release path signature keys) s = (caelo_verify_release path signature keys s, s)

  -- The state after a sequence of calls.
  unfoldable pub run : List Call → State → State
  unfolding call
  run [] s = s
  run (c ∷ cs) s = run cs (call c s).1
