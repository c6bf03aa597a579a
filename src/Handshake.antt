-- ===== src/Handshake.antt =====
-- core/internal/handshake/handshake.go: when a device last heard from its peer. A time is a number
-- of seconds since 1970 in `parse` and of nanoseconds in `wait`; the zero time is `none`.
pub mod Latest
pub mod Wait
mod Tests
use caelo.Base.{
  ℕ, zero, suc, ◌+◌, ◌*◌, Bool, true, false, Option, none, some, List, [], ◌∷◌, ltb, if◌then◌else◌,
}
use caelo.Base.Codec.{parse_int}
use caelo.Base.Int.{ℤ, pos, negsuc}
use caelo.Base.Text.{Text, codes, trim_space, split, cut_prefix}

-- `err != nil || seconds <= 0` is passed over.
abbrev pub positive : Option ℤ → Option ℕ
positive (some (pos (suc n))) = some (suc n)
positive _ = none

abbrev pub seconds_of : Option Text → Option ℕ
seconds_of none = none
seconds_of (some value) = positive (parse_int (trim_space value))

-- What one line of the dump says.
unfoldable pub reading : Text → Option ℕ
unfolding cut_prefix trim_space parse_int
reading line = seconds_of (cut_prefix line (codes "last_handshake_time_sec="))

-- if at.After(latest) { latest = at }
abbrev pub later : Option ℕ → Option ℕ → Option ℕ
later latest none = latest
later none (some at) = some at
later (some latest) (some at) = if ltb latest at then some at else some latest

unfoldable pub parse_lines : Option ℕ → List Text → Option ℕ
unfolding reading
parse_lines latest [] = latest
parse_lines latest (line ∷ lines) = parse_lines (later latest (reading line)) lines

-- Parse
unfoldable pub parse : Text → Option ℕ
unfolding parse_lines split
parse uapi = parse_lines none (split 10 uapi)

-- One round of Wait: what the read returned (`none` is an error) and the clock after it.
pub record Poll : Type 0 where
  pub uapi : Option Text
  pub now : ℕ

abbrev pub is_some : {A : Type 0} → Option A → Bool
is_some none = false
is_some (some a) = true

-- err == nil && !Parse(uapi).IsZero()
unfoldable pub has_answered : Option Text → Bool
unfolding parse
has_answered none = false
has_answered (some uapi) = is_some (parse uapi)

abbrev pub poll_interval : ℕ
poll_interval = 200 * 1_000_000

-- The loop of Wait from its i-th round on; `none` means that the rounds given ran out.
unfoldable pub wait : ℕ → ℕ → (ℕ → Poll) → ℕ → Option Bool
unfolding has_answered
wait zero deadline poll i = none
wait (suc rounds) deadline poll i =
    let more = wait rounds deadline poll (suc i) in
    if has_answered (poll i).uapi
    then some true
    else if ltb deadline (poll i).now
    then some false
    else more
