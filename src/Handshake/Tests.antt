-- ===== src/Handshake/Tests.antt =====
-- A dump of a device, and readings of it.
use caelo.Base.{
  ℕ, zero, suc, ◌+◌, ◌*◌, ◌/◌, ◌≡◌, refl, Bool, true, false, Option, none, some, [], ◌∷◌, ◌++◌,
  arith,
}
use caelo.Base.Text.{Text, codes}
use caelo.Handshake.{parse, Poll, poll_interval, has_answered, wait}
use caelo.Handshake.Wait.{Sleeps, QuietUntil, wait_total}

abbrev dump : Text
dump =
    codes "public_key=ab"
    ++ 10 ∷ codes "last_handshake_time_sec=1700000000"
    ++ 10 ∷ codes "last_handshake_time_sec=0"
    ++ 10 ∷ []

dump_time : parse dump ≡ some 1700000000
unfolding parse
dump_time = refl

-- A device that had no handshake yet.
no_handshake : parse (codes "public_key=ab" ++ 10 ∷ codes "last_handshake_time_sec=0") ≡ none
unfolding parse
no_handshake = refl

-- The peer answers in the third round.
abbrev third_answer : ℕ → Option Text
third_answer (suc (suc i)) = some dump
third_answer _ = none

abbrev third_round : ℕ → Poll
third_round i = record { uapi = third_answer i; now = 1_000 + i * 200_000_000 }

sleeps : Sleeps third_round
sleeps i = omega arith

quiet : QuietUntil 900_000_000 third_round 0 2
unfolding has_answered
quiet zero h k = (refl, omega arith)
quiet (suc zero) h k = (refl, omega arith)
quiet (suc (suc j)) h k = absurd (omega arith)

answers_then : has_answered (third_round 2).uapi ≡ true
unfolding has_answered
answers_then = refl

-- It never answers, and the third round is past the deadline.
abbrev silent : ℕ → Poll
silent i = record { uapi = none; now = 1_000 + i * 200_000_000 }

silent_until : QuietUntil 300_000_000 silent 0 2
unfolding has_answered
silent_until j h k = (refl, omega arith)

silent_then : has_answered (silent 2).uapi ≡ false
unfolding has_answered
silent_then = refl

wait_total_example :
    (b : Bool) × (wait (suc (900_000_000 / poll_interval + 1)) (0 + 900_000_000) third_round 0
      ≡ some b)
wait_total_example = wait_total 0 900_000_000 third_round sleeps (omega arith)
