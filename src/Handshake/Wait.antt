-- ===== src/Handshake/Wait.antt =====
-- When Wait returns, and with what.
use native.Mathlib.Nat.{zero-add, add-zero, suc-add, add-suc}
use caelo.Base.{
  ℕ, zero, suc, ◌+◌, ◌*◌, ◌/◌, ◌≤◌, ◌<◌, ◌≡◌, inl, inr, Bool, true, false, some, arith, ap, ◌∙◌,
  ltb, Bool-cases,
}
use caelo.Handshake.{Poll, has_answered, poll_interval, wait}

-- The clock moves on by at least the sleep between two rounds.
abbrev pub Sleeps : (ℕ → Poll) → Type 0
Sleeps poll = (i : ℕ) → (poll i).now + poll_interval ≤ (poll (suc i)).now

-- One round, whichever way it goes.
wait_round :
    (rounds deadline : ℕ) (poll : ℕ → Poll) (i : ℕ)
    → ((poll i).now ≤ deadline → (b : Bool) × (wait rounds deadline poll (suc i) ≡ some b))
    → (b : Bool) × (wait (suc rounds) deadline poll i ≡ some b)
unfolding wait
wait_round rounds deadline poll i more = elim (Bool-cases (has_answered (poll i).uapi)) [
  | inl a ↦ (true, rw a)
  | inr a ↦ elim (Bool-cases (ltb deadline (poll i).now)) [
    | inl t ↦ (false, rw (a, t))
    | inr t ↦ let (b, e) = more (ground arith) in (b, rw (a, t) e)
  ]
]

wait_total_from :
    (rounds deadline : ℕ) (poll : ℕ → Poll) (i : ℕ)
    → Sleeps poll
    → deadline < (poll i).now + rounds * poll_interval
    → (b : Bool) × (wait (suc rounds) deadline poll i ≡ some b)
wait_total_from zero deadline poll i s h =
    wait_round zero deadline poll i (λ late. absurd (omega arith))
wait_total_from (suc rounds) deadline poll i s h =
    wait_round (suc rounds) deadline poll i
      (λ _. wait_total_from rounds deadline poll (suc i) s (omega (arith, s i)))

-- Wait returns: with a sleep of at least 200 ms between two rounds, and a clock that does not run
-- backwards before the first one is over, a timeout of `t` nanoseconds takes at most `t / 200 ms`
-- and two more rounds.
pub wait_total :
    (start timeout : ℕ) (poll : ℕ → Poll)
    → Sleeps poll
    → start ≤ (poll 0).now
    → (b : Bool) × (wait (suc (timeout / poll_interval + 1)) (start + timeout) poll 0 ≡ some b)
wait_total start timeout poll s h =
    wait_total_from (timeout / poll_interval + 1) (start + timeout) poll 0 s (omega arith)

-- No answer and no deadline passed, up to a round.
abbrev pub QuietUntil : ℕ → (ℕ → Poll) → ℕ → ℕ → Type 0
QuietUntil deadline poll i k =
    (j : ℕ) → i ≤ j → j < k → (has_answered (poll j).uapi ≡ false) × ((poll j).now ≤ deadline)

wait_step :
    (rounds deadline : ℕ) (poll : ℕ → Poll) (i : ℕ)
    → has_answered (poll i).uapi ≡ false
    → (poll i).now ≤ deadline
    → wait (suc rounds) deadline poll i ≡ wait rounds deadline poll (suc i)
unfolding wait
wait_step rounds deadline poll i a t =
    let early : ltb deadline (poll i).now ≡ false = ground arith in rw (a, early)

wait_reaches :
    (d rounds deadline : ℕ) (poll : ℕ → Poll) (i : ℕ)
    → QuietUntil deadline poll i (i + d)
    → wait (d + rounds) deadline poll i ≡ wait rounds deadline poll (i + d)
wait_reaches zero rounds deadline poll i q = rw (zero-add, add-zero)
wait_reaches (suc d) rounds deadline poll i q =
    let (a, t) = q i (omega arith) (omega arith) in
    rw (suc-add, add-suc)
      (wait_step (d + rounds) deadline poll i a t
        ∙ wait_reaches d rounds deadline poll (suc i) (λ j h k. q j (omega arith) (omega arith))
        ∙ ap (wait rounds deadline poll) (suc-add i d))

-- Wait returns true at the first round whose read shows a handshake, when no deadline passed
-- before it, late or not in that round.
pub wait_answered :
    (k rounds deadline : ℕ) (poll : ℕ → Poll)
    → QuietUntil deadline poll 0 k
    → has_answered (poll k).uapi ≡ true
    → wait (k + suc rounds) deadline poll 0 ≡ some true
unfolding wait
wait_answered k rounds deadline poll q a =
    let reach = wait_reaches k (suc rounds) deadline poll 0 (λ j h l. q j h (omega arith)) in
    let at : 0 + k ≡ k = omega arith in reach ∙ rw at (rw a)

-- Wait returns false at the first round past the deadline, when no round up to it shows a
-- handshake.
pub wait_expired :
    (k rounds deadline : ℕ) (poll : ℕ → Poll)
    → QuietUntil deadline poll 0 k
    → has_answered (poll k).uapi ≡ false
    → deadline < (poll k).now
    → wait (k + suc rounds) deadline poll 0 ≡ some false
unfolding wait
wait_expired k rounds deadline poll q a t =
    let reach = wait_reaches k (suc rounds) deadline poll 0 (λ j h l. q j h (omega arith)) in
    let at : 0 + k ≡ k = omega arith in
    let past : ltb deadline (poll k).now ≡ true = ground arith in reach ∙ rw at (rw (a, past))
