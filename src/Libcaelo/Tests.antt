-- ===== src/Libcaelo/Tests.antt =====
-- The library in its sandbox, and each theorem at a concrete input.
use caelo.Base.{
  ℕ, zero, suc, ◌+◌, ◌<◌, Bool, true, false, none, some, List, [], ◌∷◌, ◌≡◌, refl, ok, err, arith,
  length,
}
use caelo.Base.Int.{pos, negsuc}
use caelo.Base.Text.{Text, codes}
use caelo.Diag.{Ring, capacity}
use caelo.Userspace.Sandbox.{conf, listed}
use caelo.Answer.{amneziawg, failure, of_keys, flag, text}
use caelo.Libcaelo.{
  State, Call, connect, probe_one, disconnect, status, set_verbose, call, run, caelo_status,
  caelo_describe, caelo_version, caelo_set_verbose, caelo_clear_log, milliseconds,
  caelo_verify_release, description, resolvers,
}
use caelo.Libcaelo.Alone.{run-Alone}
use caelo.Libcaelo.Flooded.{probe_floods}
use caelo.Libcaelo.Sandbox.{logged, logged_tracked, outside, outside-Lawful, outside-Quiet, encode}
use caelo.Libcaelo.Told.{IsAnswer, call-IsAnswer}
use caelo.Libcaelo.Verbose.{run-last_asked, is_verbose}
use caelo.Release.{not_base64}
use caelo.Tunnel as Tunnel

abbrev started : State logged outside
started = record {
  session = Tunnel.new logged;
  world = ([], record { lines = []; verbose = false });
}

abbrev calls : List (Call logged outside)
calls =
    connect [] ∷ probe_one [] [] (pos 100) ∷ set_verbose (negsuc 0) ∷ connect [] ∷ connect [] ∷ []

-- The third connect fails, since device 3 does not come up; the second device stays.
devices : (run logged outside calls started).world.0 ≡ 2 ∷ []
unfolding run Tunnel.connect caelo.Base.Effect.◌>>=◌ caelo.Probe.run
devices = refl

is_down : (run logged outside (disconnect ∷ []) (run logged outside calls started)).world.0 ≡ []
unfolding run Tunnel.disconnect Tunnel.connect caelo.Base.Effect.◌>>=◌ caelo.Probe.run
is_down = refl

status_down :
    caelo_status logged outside started
    ≡ encode ((codes "ok", flag true) ∷ (codes "up", flag false) ∷ (codes "endpoint", text []) ∷ [])
unfolding caelo_status Tunnel.up
status_down = refl

described : caelo_describe logged outside [] ≡ encode (description logged outside conf)
unfolding description caelo_describe
described = refl

versions :
    caelo_version logged outside
    ≡ encode ((codes "core", text (codes "dev")) ∷ (codes "amneziawg", text (codes "unknown")) ∷ [])
unfolding caelo_version
versions = refl

set_and_cleared :
    (caelo_clear_log logged outside (caelo_set_verbose logged outside (pos 1) started).1).1.world.1
    ≡ record { lines = []; verbose = true }
unfolding caelo_clear_log caelo.Diag.clear caelo_set_verbose caelo.Diag.set_verbose
set_and_cleared = refl

-- A key that is no base64.
not_verified :
    caelo_verify_release logged outside [] [] (codes "!") started
    ≡ ok (failure logged outside (of_keys (not_base64 (codes "!"))))
unfolding caelo_verify_release
not_verified = refl

resolver_added : resolvers logged outside [] ≡ codes "1.1.1.1" ∷ []
unfolding resolvers
resolver_added = refl

duration : milliseconds (negsuc 1) ≡ negsuc 1999999
unfolding milliseconds
duration = refl

not_linked : amneziawg (some ((codes "a", codes "b") ∷ [])) ≡ codes "unknown"
unfolding amneziawg
not_linked = refl

call-IsAnswer_example :
    IsAnswer logged outside outside-Lawful
      (connect [])
      started
      (call logged outside (connect []) started).0
call-IsAnswer_example = call-IsAnswer logged outside outside-Lawful (connect []) started

run-Alone_example : listed 2 (run logged outside calls started).world.0 ≡ true
unfolding run Tunnel.connect caelo.Base.Effect.◌>>=◌ caelo.Probe.run
run-Alone_example =
    run-Alone logged logged_tracked outside (λ net target w d. refl) calls started (λ d. refl) 2

run-last_asked_example : is_verbose logged outside (run logged outside calls started) ≡ true
run-last_asked_example = run-last_asked logged outside outside-Quiet calls started

abbrev blank : ℕ → List Text
blank zero = []
blank (suc n) = [] ∷ blank n

abbrev full : State logged outside
full = record started { world = ([], record { lines = blank 400; verbose = false }) }

probe_floods_example :
    400
    < length
        (run logged outside
          (probe_one [] [] (pos 100) ∷ connect [] ∷ status ∷ [])
          full).world.1.lines
probe_floods_example =
    probe_floods logged outside outside-Quiet [] [] (pos 100) (connect [] ∷ status ∷ []) full conf
      tt refl refl refl (tt, (tt, tt))
