-- ===== src/Cli/Tests.antt =====
-- The commands at concrete inputs.
use caelo.Base.{ℕ, ◌+◌, true, false, none, some, List, [], ◌∷◌, ◌++◌, ◌≡◌, refl, ok, err}
use caelo.Base.Int.{pos}
use caelo.Base.Text.{Text, codes, text_key}
use caelo.Awg
use caelo.Cli.{Flags, probe, describe, noticed, wait_for_stop, run}
use caelo.Cli.Ended.{IsEnded, run-IsEnded}
use caelo.Cli.Silent.{IsDescribed, describe-insert}
use caelo.Systunnel.Sandbox.{computer, conf}
use caelo.Userspace.Sandbox as Sandbox

abbrev shaped : Awg.Config Text
shaped = record Sandbox.conf {
  obfuscation = (codes "jc", codes "4") ∷ (codes "i1", codes "<b 0x00>") ∷ [];
}

described :
    describe (λ l. codes "[10.0.0.2]") shaped
    ≡ codes "endpoint    198.51.100.2:51820"
      ∷ codes "address     [10.0.0.2]"
      ∷ codes "mtu         1280"
      ∷ codes "obfuscation jc=4 "
      ∷ codes "signature   i1 (8 bytes of chain)"
      ∷ []
unfolding describe caelo.Base.Text.text_eq
described = refl

for_ever : wait_for_stop (pos 0) none ≡ none
unfolding wait_for_stop
for_ever = refl

interrupted : wait_for_stop (pos 9) (some 4) ≡ some 4
unfolding wait_for_stop
interrupted = refl

abbrev flags : Flags
flags = record {
  config_path = codes "t.conf";
  target = codes "url";
  timeout = pos 0;
  verbose = false;
  check = true;
}

-- With -check nothing is dialled.
checked :
    probe Sandbox.sandbox
      (λ n. [])
      (λ l. [])
      []
      []
      (λ net target w. (none, w))
      (λ w. none)
      Sandbox.read_conf
      flags
      (ok [])
      (4 ∷ [])
    ≡ (describe (λ l. []) Sandbox.conf, ok tt, 4 ∷ [])
unfolding probe
checked = refl

describe-insert_example : IsDescribed (λ l. []) shaped (codes "on")
describe-insert_example = describe-insert (λ l. []) shaped (codes "on") refl

run-IsEnded_example :
    IsEnded computer
      (pos 9)
      (noticed 4)
      (ok conf)
      (run computer (λ t w. w + t) (pos 9) (noticed 4) (ok conf) 0)
run-IsEnded_example = run-IsEnded computer (λ t w. w + t) (pos 9) (noticed 4) (ok conf) 0 refl
