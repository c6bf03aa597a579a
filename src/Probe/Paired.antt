-- ===== src/Probe/Paired.antt =====
-- core/internal/probe/handshake.go: which two lines of a device's log the clock pairs.
use caelo.Base.{
  ℕ, ◌<◌, Bool, true, false, List, [], ◌∷◌, ◌++◌, ◌≡◌, refl, ap, ◌∙◌, inl, inr, ◌-◌, ◌==◌, ==_iff,
  Bool-cases, All, arith,
}
use caelo.Base.Text.{Text, text_eq}
use caelo.Probe.Clock.{
  HandshakeClock, sending_initiation, received_response, new_handshake_clock, respond, observe,
  observe_all, round_trip,
}

abbrev pub is_initiation : ℕ × Text → Bool
is_initiation line = text_eq line.1 sending_initiation

abbrev pub is_response : ℕ × Text → Bool
is_response line = text_eq line.1 received_response

abbrev pub NotInitiation : ℕ × Text → Type 0
NotInitiation line = is_initiation line ≡ false

abbrev pub NotResponse : ℕ × Text → Type 0
NotResponse line = is_response line ≡ false

abbrev pub IsQuiet : ℕ × Text → Type 0
IsQuiet line = NotInitiation line × NotResponse line

observe_all-append :
    (l m : List (ℕ × Text)) (c : HandshakeClock)
    → observe_all (l ++ m) c ≡ observe_all m (observe_all l c)
unfolding observe_all
observe_all-append [] m c = refl
observe_all-append ((now, format) ∷ l) m c = observe_all-append l m (observe now format c)

observe_quiet : (l : List (ℕ × Text)) (c : HandshakeClock) → All IsQuiet l → observe_all l c ≡ c
unfolding observe_all
observe_quiet [] c h = refl
observe_quiet ((now, format) ∷ l) c h =
    rw (observe_all, observe, h.0.0, h.0.1) (observe_quiet l c h.1)

passed_over :
    (now : ℕ) (format : Text) (c : HandshakeClock)
    → c.sent ≡ 0
    → text_eq format sending_initiation ≡ false
    → observe now format c ≡ c
unfolding observe
passed_over now format c z h = elim (Bool-cases (text_eq format received_response)) [
  | inl k ↦ rw (observe, h, k, respond, (==_iff c.sent 0).1 z) refl
  | inr k ↦ rw (observe, h, k) refl
]

-- While no initiation is out, responses are passed over.
observe_unasked :
    (l : List (ℕ × Text)) (c : HandshakeClock)
    → c.sent ≡ 0
    → All NotInitiation l
    → observe_all l c ≡ c
unfolding observe_all
observe_unasked [] c z h = refl
observe_unasked ((now, format) ∷ l) c z h =
    rw (observe_all, passed_over now format c z h.0) (observe_unasked l c z h.1)

-- Without a response the figure stays.
observe_unanswered :
    (l : List (ℕ × Text)) (c : HandshakeClock)
    → All NotResponse l
    → round_trip (observe_all l c) ≡ round_trip c
unfolding observe_all round_trip
observe_unanswered [] c h = refl
observe_unanswered ((now, format) ∷ l) c h = elim (Bool-cases (text_eq format sending_initiation)) [
  | inl k ↦ rw (observe_all, observe, k) (observe_unanswered l (record c { sent = now }) h.1)
  | inr k ↦ rw (observe_all, observe, k, h.0) (observe_unanswered l c h.1)
]

initiated : (at : ℕ) (c : HandshakeClock) → observe at sending_initiation c ≡ record c { sent = at }
unfolding observe text_eq
initiated at c = refl

abbrev completed : ℕ → ℕ → HandshakeClock
completed sent_at got_at = record { sent = 0; rtt = got_at - sent_at; done = true }

responded :
    (sent_at got_at : ℕ) (c : HandshakeClock)
    → 0 < sent_at
    → observe got_at received_response (record c { sent = sent_at }) ≡ completed sent_at got_at
unfolding observe text_eq respond
responded sent_at got_at c set =
    let unset : (sent_at == 0) ≡ false = ground arith in rw (observe, respond, unset) refl

-- Up to the response.
observe_pair :
    (before between unasked : List (ℕ × Text)) (sent_at got_at : ℕ) (c : HandshakeClock)
    → 0 < sent_at
    → All IsQuiet between
    → All NotInitiation unasked
    → observe_all
        (before ++ (sent_at, sending_initiation) ∷ between ++ (got_at, received_response) ∷ unasked)
        c
      ≡ completed sent_at got_at
unfolding observe_all
observe_pair before between unasked sent_at got_at c set quiet ui =
    observe_all-append (before ++ (sent_at, sending_initiation) ∷ between) _ c
    ∙ ap (observe_all ((got_at, received_response) ∷ unasked)) (
        observe_all-append before ((sent_at, sending_initiation) ∷ between) c
        ∙ observe_quiet between _ quiet
        ∙ initiated sent_at (observe_all before c))
    ∙ ap (observe_all unasked) (responded sent_at got_at (observe_all before c) set)
    ∙ observe_unasked unasked (completed sent_at got_at) refl ui

-- The round trip is from the last initiation before a response to that response: whatever was logged
-- before the initiation, whatever else between the two, and whatever came after the response, as long
-- as no later initiation was answered. `sent_at` is not the zero time.
pub observe_all-pairs :
    (before between unasked unanswered : List (ℕ × Text)) (sent_at got_at : ℕ)
    → 0 < sent_at
    → All IsQuiet between
    → All NotInitiation unasked
    → All NotResponse unanswered
    → round_trip (
        observe_all
          (before
            ++ (sent_at, sending_initiation) ∷ between
            ++ (got_at, received_response) ∷ unasked
            ++ unanswered)
          new_handshake_clock)
      ≡ (got_at - sent_at, true)
unfolding round_trip
observe_all-pairs before between unasked unanswered sent_at got_at set quiet ui ur =
    ap round_trip (observe_all-append _ unanswered new_handshake_clock)
    ∙ observe_unanswered unanswered _ ur
    ∙ ap round_trip
        (observe_pair before between unasked sent_at got_at new_handshake_clock set quiet ui)
