-- ===== src/Probe/Tests.antt =====
-- A probe in the sandbox, and each theorem at a concrete input.
use caelo.Base.{ℕ, true, false, ◌≡◌, refl, Option, none, some, List, [], ◌∷◌, ok, err}
use caelo.Base.Int.{pos}
use caelo.Base.Text.{Text, codes}
use caelo.Userspace.Sandbox.{sandbox, sandbox_tracked, listed, reply, read_conf}
use caelo.Probe.{wrapped, Options, measure_latency, read_limited, read_reply, run}
use caelo.Probe.Closed.{run_closes}
use caelo.Base.Effect.{◌>>=◌}
use caelo.Base.Text.{trim_space}

abbrev options : Options
options = record {
  url = [];
  timeout = pos 0;
  verbose = false;
  measure_latency = true;
  latency_target = [];
}

abbrev exit_in_4_ms : Unit {0} → Text → List ℕ → Option ℕ × List ℕ
exit_in_4_ms net target w = (some 4000000, w)

abbrev no_handshake : List ℕ → Option ℕ
no_handshake w = none

-- The probe's device is closed, and the one that ran before it goes on.
run_again : run sandbox exit_in_4_ms no_handshake read_conf [] options (1 ∷ []) ≡ (
  ok (record {
    endpoint = codes "198.51.100.2:51820";
    mtu = pos 1280;
    obfuscated = false;
    status = codes "200 OK";
    body = codes "203.0.113.1";
    elapsed = 0;
    elapsed_ms = 0;
    latency_ms = some 4;
  }),
  1 ∷ [],
)
unfolding run ◌>>=◌ trim_space
run_again = refl

-- Neither the exit nor the handshake, and a request of half a millisecond.
fell_back :
    measure_latency sandbox
      (record { exit = λ w. (none, w); handshake = no_handshake; request = λ w. (ok 500000, w) })
      []
    ≡ (ok 1, [])
unfolding measure_latency ◌>>=◌
fell_back = refl

broken_body :
    read_reply []
      (record reply { body = record { bytes = 1 ∷ []; failure = some (codes "reset") } })
    ≡ err (wrapped (codes "reading response") (codes "reset"))
unfolding read_reply
broken_body = refl

cut_at_limit : read_limited 2 (record { bytes = 1 ∷ 2 ∷ 3 ∷ []; failure = none }) ≡ ok (1 ∷ 2 ∷ [])
unfolding read_limited
cut_at_limit = refl

run_closes_example :
    listed 2 (run sandbox exit_in_4_ms no_handshake read_conf [] options (1 ∷ [])).1 ≡ false
run_closes_example =
    run_closes sandbox sandbox_tracked exit_in_4_ms no_handshake (λ net target w d. refl) read_conf
      [] options (1 ∷ []) 2
