-- ===== src/Diag.antt =====
-- core/internal/diag/log.go: the recent history of the core. A line arrives here as it is kept,
-- with its time before it and its secrets replaced, as `Redact.stamped` has it; the mutex makes each function one step.
pub mod Redact
pub mod Matched
pub mod Leak
pub mod Hidden
pub mod Recent
pub mod Overflow
mod Tests
use caelo.Base.{ℕ, Bool, true, false, List, [], ◌∷◌, ◌++◌, ◌==◌, if◌then◌else◌, length, rest}
use caelo.Base.Text.{Text, codes}

abbrev pub capacity : ℕ
capacity = 400

pub record Ring : Type 0 where
  pub lines : List Text
  pub verbose : Bool

unfoldable pub empty : Ring
empty = record { lines = []; verbose = false }

-- Logf, from the lock on: the oldest line goes when `len(lines) == capacity`.
unfoldable pub logf : Text → Ring → Ring
logf line s = record s {
  lines = (if length s.lines == capacity then rest s.lines else s.lines) ++ line ∷ [];
}

-- Verbosef; its test of `verbose` and its line, each under the mutex, are one step here.
unfoldable pub verbosef : Text → Ring → Ring
unfolding logf
verbosef line s = if s.verbose then logf line s else s

-- The line that SetVerbose keeps, of its time.
unfoldable pub switch_line : Text → Bool → Text
switch_line time on = time ++ codes "  verbose logging " ++ (if on then codes "on" else codes "off")

-- SetVerbose; `line` is the line that `switch_line` makes.
unfoldable pub set_verbose : Bool → Text → Ring → Ring
set_verbose on line s = record { lines = s.lines ++ line ∷ []; verbose = on }

-- Clear
unfoldable pub clear : Ring → Ring
clear s = record s { lines = [] }

-- Lines, oldest first; Verbose
abbrev pub lines : Ring → List Text
lines s = s.lines

abbrev pub verbose : Ring → Bool
verbose s = s.verbose

pub data Call : Type 0 where
  log : Text → Call
  chatter : Text → Call
  switch : Bool → Text → Call
  forget : Call

unfoldable pub call : Call → Ring → Ring
unfolding logf verbosef set_verbose clear
call (log line) s = logf line s
call (chatter line) s = verbosef line s
call (switch on line) s = set_verbose on line s
call forget s = clear s

unfoldable pub run : List Call → Ring → Ring
unfolding call
run [] s = s
run (c ∷ cs) s = run cs (call c s)
