-- ===== src/Probe/Clock.antt =====
-- core/internal/probe/handshake.go: the clock that reads the round trip of a handshake off the lines
-- that the device logs. `sent` is 0 for the zero time; the mutex makes each method one step.
use caelo.Base.{ℕ, Bool, true, false, List, [], ◌∷◌, if◌then◌else◌, ◌-◌, ◌==◌}
use caelo.Base.Text.{Text, codes, text_eq}

abbrev pub sending_initiation : Text
sending_initiation = codes "%v - Sending handshake initiation"

abbrev pub received_response : Text
received_response = codes "%v - Received handshake response"

pub record HandshakeClock : Type 0 where
  pub sent : ℕ
  pub rtt : ℕ
  pub done : Bool

-- newHandshakeClock
abbrev pub new_handshake_clock : HandshakeClock
new_handshake_clock = record { sent = 0; rtt = 0; done = false }

-- The case of a response.
unfoldable pub respond : ℕ → HandshakeClock → HandshakeClock
respond now c = if c.sent == 0 then c else record { sent = 0; rtt = now - c.sent; done = true }

-- observe, of a line that is logged at `now`.
unfoldable pub observe : ℕ → Text → HandshakeClock → HandshakeClock
unfolding respond text_eq
observe now format c =
    if text_eq format sending_initiation
    then record c { sent = now }
    else if text_eq format received_response
    then respond now c
    else c

-- roundTrip
unfoldable pub round_trip : HandshakeClock → ℕ × Bool
round_trip c = (c.rtt, c.done)

-- The lines of a device, each with its time, in their order.
unfoldable pub observe_all : List (ℕ × Text) → HandshakeClock → HandshakeClock
unfolding observe
observe_all [] c = c
observe_all ((now, format) ∷ lines) c = observe_all lines (observe now format c)
