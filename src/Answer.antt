-- ===== src/Answer.antt =====
-- core/libcaelo/libcaelo.go: success, failure and marshal, with the objects that are answered, and what the
-- file calls outside the core: encoding/json, the file system, the build info, and awg.Parse,
-- timeExit and the clock's roundTrip, which are passed in as in `Tunnel` and `Probe`.
-- core/internal/version: AmneziaWG.
use caelo.Base.{
  ℕ, Bool, true, false, Option, none, some, List, [], ◌∷◌, if◌then◌else◌, Result, ok, err,
}
use caelo.Base.Int.{ℤ, pos}
use caelo.Base.Map
use caelo.Base.Text.{Text, codes, text_eq, text_key}
use caelo.Awg
use caelo.Probe as Probe
use caelo.Probe.{has_any, Found, Options}
use caelo.Release.{KeysError, FileVerdict, Ed25519}
use caelo.Tunnel as Tunnel
use caelo.Tunnel.{Session, Info, Reachability}
use caelo.Userspace.{Userspace}

-- The values that the answers hold.
pub data Json : Type 0 where
  flag : Bool → Json
  number : ℤ → Json
  text : Text → Json
  texts : List Text → Json

abbrev pub Object : Type 0
Object = List (Text × Json)

-- The error of a call, by the package that made it.
pub data Problem : Type 0 where
  of_tunnel : Tunnel.Failure → Problem
  of_probe : Probe.Failure → Problem
  of_conf : Awg.Err → Problem
  of_json : Text → Problem
  of_keys : KeysError → Problem
  of_file : FileVerdict → Problem

-- `error_text` is Error() of an error, which fmt made where it was built.
pub record Outside (u : Userspace) : Type 0 where
  pub encode : Object → Result Text Text
  pub decode : Text → Result Text Object
  pub decode_keys : Text → Result Text (List Text)
  pub addr_text : u.Addr → Text
  pub read_file : Text → u.World → Result Text (List ℕ)
  pub build_info : Option (List (Text × Text))
  pub version : Text
  pub error_text : Problem → Text
  pub ed25519 : Ed25519
  pub read_conf : Text → Awg.Go (Awg.Config u.Addr)
  pub time_exit : u.Net → Text → u.World → Option ℕ × u.World
  pub round_trip : u.World → Option ℕ

-- AmneziaWG, over the dependencies of the build info: a path and a version.
unfoldable pub find_dep : List (Text × Text) → Text
unfolding text_eq
find_dep [] = codes "unknown"
find_dep ((path, version) ∷ deps) =
    if text_eq path (codes "github.com/amnezia-vpn/amneziawg-go/v3") then version else find_dep deps

unfoldable pub amneziawg : Option (List (Text × Text)) → Text
unfolding find_dep
amneziawg none = codes "unknown"
amneziawg (some deps) = find_dep deps

unfoldable pub info_object : Info → Object
info_object i =
    (codes "endpoint", text i.endpoint)
    ∷ (codes "mtu", number i.mtu)
    ∷ (codes "obfuscated", flag i.obfuscated)
    ∷ (codes "protocol", text i.protocol)
    ∷ []

unfoldable pub reachability_object : Reachability → Object
reachability_object r =
    (codes "address", text r.address)
    ∷ (codes "status", text r.status)
    ∷ (codes "elapsed_ms", number (pos r.elapsed_ms))
    ∷ []

-- omitempty
abbrev pub latency_field : Option ℕ → Object
latency_field none = []
latency_field (some ms) = (codes "latency_ms", number (pos ms)) ∷ []

unfoldable pub found_object : Found → Object
found_object r =
    (codes "endpoint", text r.endpoint)
    ∷ (codes "mtu", number r.mtu)
    ∷ (codes "obfuscated", flag r.obfuscated)
    ∷ (codes "status", text r.status)
    ∷ (codes "body", text r.body)
    ∷ (codes "elapsed_ms", number (pos r.elapsed_ms))
    ∷ latency_field r.latency_ms

abbrev pub unencoded : Text
unencoded = codes "{\"ok\":false,\"error\":\"failed to encode result\"}"

module _ (u : Userspace) (o : Outside u) where
  open o use {
    encode, decode, decode_keys, addr_text, read_file, build_info, version, error_text, ed25519,
    read_conf, time_exit, round_trip,
  }

  unfoldable pub marshal : Object → Text
  marshal v = elim (encode v) [ ok encoded ↦ encoded | err _ ↦ unencoded ]

  unfoldable pub failure_text : Text → Text
  unfolding marshal
  failure_text why = marshal ((codes "ok", flag false) ∷ (codes "error", text why) ∷ [])

  -- failure
  unfoldable pub failure : Problem → Text
  unfolding failure_text
  failure e = failure_text (error_text e)

  -- success, with the value encoded and read back as a map.
  unfoldable pub accepted : Object → Text
  unfolding marshal
  accepted payload = marshal (Map.insert (codes "ok") (flag true) payload)

  -- success
  unfoldable pub success : Object → Text
  unfolding accepted failure
  success v = elim (encode v) [
    | err why ↦ failure (of_json why)
    | ok encoded ↦ elim (decode encoded) [
      | err why ↦ failure (of_json why)
      | ok payload ↦ accepted payload
    ]
  ]

  abbrev pub answer : {E A : Type 0} → (E → Problem) → (A → Object) → Result E A → Text
  answer problem object (ok a) = success (object a)
  answer problem object (err e) = failure (problem e)
