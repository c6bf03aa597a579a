-- ===== src/Cli.antt =====
-- The two command lines: core/cmd/caelo-tun/main.go, from run on, and describe of
-- core/cmd/caelo-probe/main.go. A line that is printed is a text.
pub mod Ended
pub mod Silent
mod Tests
use caelo.Base.{
  ℕ, suc, Bool, true, false, Option, none, some, List, [], ◌∷◌, ◌++◌, if◌then◌else◌, Result, ok,
  err, min,
}
use caelo.Base.Int.{ℤ, pos, negsuc, itoa}
use caelo.Base.Map
use caelo.Base.Text.{Text, codes, is_empty, byte_length, text_key}
use caelo.Awg
use caelo.Probe as Probe
use caelo.Probe.{has_any, Options, Found}
use caelo.Userspace.{Userspace}
use caelo.Systunnel.{Machine, Controller, Status, World, Failure, new, start, stop}

abbrev pub shaping_keys : List Text
shaping_keys =
    codes "jc"
    ∷ codes "jmin"
    ∷ codes "jmax"
    ∷ codes "s1"
    ∷ codes "s2"
    ∷ codes "s3"
    ∷ codes "s4"
    ∷ []

abbrev pub header_keys : List Text
header_keys = codes "h1" ∷ codes "h2" ∷ codes "h3" ∷ codes "h4" ∷ []

abbrev pub signature_keys : List Text
signature_keys = codes "i1" ∷ codes "i2" ∷ codes "i3" ∷ codes "i4" ∷ codes "i5" ∷ []

-- The settings with these keys, as `key=value `.
unfoldable pub settings : List Text → List (Text × Text) → Text
unfolding Map.lookup
settings [] m = []
settings (key ∷ keys) m = elim (Map.lookup key m) [
  | none ↦ settings keys m
  | some value ↦ key ++ codes "=" ++ value ++ codes " " ++ settings keys m
]

unfoldable pub signatures : List Text → List (Text × Text) → List Text
unfolding Map.lookup byte_length itoa
signatures [] m = []
signatures (key ∷ keys) m = elim (Map.lookup key m) [
  | none ↦ signatures keys m
  | some value ↦
      (codes "signature   "
        ++ key
        ++ codes " ("
        ++ itoa (pos (byte_length value))
        ++ codes " bytes of chain)")
      ∷ signatures keys m
]

abbrev pub header_lines : Text → List Text
header_lines header = if is_empty header then [] else (codes "header      " ++ header) ∷ []

-- describe, where there is a parameter of the obfuscation.
unfoldable pub describe_obfuscation : List (Text × Text) → List Text
unfolding settings signatures
describe_obfuscation m =
    (codes "obfuscation " ++ settings shaping_keys m) ∷ header_lines (settings header_keys m)
    ++ signatures signature_keys m

-- describe; `addresses` is how fmt prints the addresses.
unfoldable pub describe : {A : Type 0} → (List A → Text) → Awg.Config A → List Text
unfolding describe_obfuscation itoa
describe addresses cfg =
    (codes "endpoint    " ++ cfg.peer.endpoint)
    ∷ (codes "address     " ++ addresses cfg.addresses)
    ∷ (codes "mtu         " ++ itoa cfg.mtu)
    ∷ (if has_any cfg.obfuscation
        then describe_obfuscation cfg.obfuscation
        else codes "obfuscation none — plain WireGuard" ∷ [])

-- SIGINT or SIGTERM: never, after Start returned a tunnel that is up and before waitForStop asks to be
-- told, or so long after that. One that comes while Start or the last Stop runs is left out.
pub data Signal : Type 0 where
  never : Signal
  unnoticed : Signal
  noticed : ℕ → Signal

-- waitForStop: how long it takes, by when a signal comes, if one does; `none` is for ever.
unfoldable pub wait_for_stop : ℤ → Option ℕ → Option ℕ
wait_for_stop (pos (suc n)) none = some (suc n)
wait_for_stop (pos (suc n)) (some signal) = some (min signal (suc n))
wait_for_stop _ signal = signal

module _ (m : Machine) where
  -- What run returns: an error, or nil. It does not return where the signal ends the process.
  pub data Ending : Type 0 where
    unreadable : Text → Ending
    failed : Failure m → Ending
    finished : Ending
    killed : Ending

  -- The deferred Stop.
  unfoldable pub stop_after :
      Ending → ℕ → Controller m → World m → Ending × ℕ × Controller m × World m
  stop_after ending waited c w = let (problems, c', w') = stop m c w in (ending, waited, c', w')

  -- run, from where it waits; `pass` is what goes on meanwhile.
  unfoldable pub wait_and_stop :
      (ℕ → World m → World m)
      → Option ℕ
      → Controller m
      → World m
      → Option (Ending × ℕ × Controller m × World m)
  unfolding stop_after
  wait_and_stop pass none c w = none
  wait_and_stop pass (some t) c w = some (stop_after finished t c (pass t w))

  -- run, with a tunnel that is up. Before signal.Notify, a signal ends the process at once, and
  -- nothing that was deferred runs.
  unfoldable pub until_signal :
      (ℕ → World m → World m)
      → ℤ
      → Signal
      → Controller m
      → World m
      → Option (Ending × ℕ × Controller m × World m)
  unfolding wait_and_stop wait_for_stop
  until_signal pass duration never c w = wait_and_stop pass (wait_for_stop duration none) c w
  until_signal pass duration unnoticed c w = some (killed, 0, c, w)
  until_signal pass duration (noticed t) c w =
      wait_and_stop pass (wait_for_stop duration (some t)) c w

  -- run, with what Start gave.
  abbrev pub after_start :
      (ℕ → World m → World m)
      → ℤ
      → Signal
      → Result (Failure m) Status
      → Controller m
      → World m
      → Option (Ending × ℕ × Controller m × World m)
  after_start pass duration signal (err e) c w = some (stop_after (failed e) 0 c w)
  after_start pass duration signal (ok s) c w = until_signal pass duration signal c w

  -- run of caelo-tun, with the file read: how it ends, how long it waited in waitForStop, and what it
  -- leaves; `none` where it never ends.
  unfoldable pub run :
      (ℕ → World m → World m)
      → ℤ
      → Signal
      → Result Text Text
      → World m
      → Option (Ending × ℕ × Controller m × World m)
  unfolding stop_after until_signal
  run pass duration signal (err why) w = some (unreadable why, 0, new m, w)
  run pass duration signal (ok text) w =
      let (r, c, w') = start m text (new m) w in after_start pass duration signal r c w'

-- What run of caelo-probe is given, beside the configuration file; `elapsed_text` is how fmt prints a
-- time rounded to milliseconds.
pub record Flags : Type 0 where
  pub config_path : Text
  pub target : Text
  pub timeout : ℤ
  pub verbose : Bool
  pub check : Bool

pub data Refusal : Type 0 where
  no_file : Text → Refusal
  reading_file : Text → Awg.Err → Refusal
  probing : Probe.Failure → Refusal

module _ (u : Userspace) (elapsed_text : ℕ → Text) (addresses : List u.Addr → Text)
    (version amneziawg : Text) where
  abbrev pub probe_options : Flags → Options
  probe_options f = record {
    url = f.target;
    timeout = f.timeout;
    verbose = f.verbose;
    measure_latency = false;
    latency_target = [];
  }

  abbrev pub found_lines : Flags → Found → List Text
  found_lines f found =
      []
      ∷ (codes "core        " ++ version ++ codes " (amneziawg-go " ++ amneziawg ++ codes ")")
      ∷ (f.target ++ codes " → " ++ found.status ++ codes " in " ++ elapsed_text found.elapsed)
      ∷ found.body
      ∷ []

  -- run of caelo-probe, with what Run gave.
  abbrev pub print_found :
      Flags
      → List Text
      → Result Probe.Failure Found
      → u.World
      → List Text × Result Refusal (Unit {0}) × u.World
  print_found f printed (ok found) w = (printed ++ found_lines f found, ok tt, w)
  print_found f printed (err e) w = (printed, err (probing e), w)

  -- run of caelo-probe, with the file read: what it prints, and how it ends.
  unfoldable pub probe :
      (u.Net → Text → u.World → Option ℕ × u.World)
      → (u.World → Option ℕ)
      → (Text → Awg.Go (Awg.Config u.Addr))
      → Flags
      → Result Text Text
      → u.World
      → List Text × Result Refusal (Unit {0}) × u.World
  unfolding describe Probe.run
  probe time_exit round_trip read_conf f (err why) w = ([], err (no_file why), w)
  probe time_exit round_trip read_conf f (ok raw) w = elim (read_conf raw) [
    | err e ↦ ([], err (reading_file f.config_path e), w)
    | ok cfg ↦
        let (r, w') = Probe.run u time_exit round_trip read_conf raw (probe_options f) w in
        if f.check
        then (describe addresses cfg, ok tt, w)
        else print_found f (describe addresses cfg) r w'
  ]
