-- ===== src/Diag/Overflow.antt =====
-- What switching verbose logging does to a full log: `SetVerbose` appends without the test that
-- `Logf` makes, and `Logf` tests for exactly `capacity` lines.
use caelo.Base.{◌+◌, ◌<◌, ◌≡◌, Bool, List, [], ◌∷◌, arith, length, length-append}
use caelo.Base.Text.{Text}
use caelo.Diag.{capacity, Ring, logf, set_verbose, Call, log, run}

abbrev pub logs : List Text → List Call
logs [] = []
logs (l ∷ ls) = log l ∷ logs ls

length-logf_over :
    (line : Text) (s : Ring)
    → capacity < length s.lines
    → length (logf line s).lines ≡ length s.lines + 1
unfolding logf
length-logf_over line s h = ground (arith, length-append s.lines (line ∷ []))

pub length-logs_over :
    (ls : List Text) (s : Ring)
    → capacity < length s.lines
    → length (run (logs ls) s).lines ≡ length s.lines + length ls
unfolding run
length-logs_over [] s h = omega arith
length-logs_over (l ∷ ls) s h =
    let more = length-logf_over l s h in
    omega (arith, more, length-logs_over ls (logf l s) (omega (arith, more)))

-- From a log that holds `capacity` lines, one switch of verbose logging, on or off, takes the
-- bound away: every line logged after it is kept.
pub switch_unbounds :
    (s : Ring) (on : Bool) (line : Text) (ls : List Text)
    → length s.lines ≡ capacity
    → length (run (logs ls) (set_verbose on line s)).lines ≡ capacity + 1 + length ls
unfolding set_verbose
switch_unbounds s on line ls h =
    let full = length-append s.lines (line ∷ []) in
    omega (arith, full, length-logs_over ls (set_verbose on line s) (omega (arith, full)))
