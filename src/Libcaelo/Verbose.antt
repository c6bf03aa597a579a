-- ===== src/Libcaelo/Verbose.antt =====
-- core/libcaelo/libcaelo.go: whether logging is verbose after a sequence of calls.
use caelo.Base.{Bool, not, List, [], ◌∷◌, ◌≡◌, refl, ap, ◌∙◌}
use caelo.Base.Int.{is_zero}
use caelo.Diag as Diag
use caelo.Diag.{Ring, logf, switch_line}
use caelo.Userspace.{Userspace}
use caelo.Answer.{Outside}
use caelo.Libcaelo.{
  State, Call, version_of, connect, check, probe_one, measure_one, disconnect, status, describe,
  read_log, set_verbose, clear_log, verify_release, call, run, caelo_set_verbose, caelo_clear_log,
}
use caelo.Libcaelo.Logged.{Quiet, IsOther, other-P}

module _ (u : Userspace) (o : Outside u) where
  abbrev pub is_verbose : State u o → Bool
  is_verbose s = Diag.verbose (u.log s.world)

  -- What a call says verbose logging is to be, from what it was.
  abbrev pub asked : Call u o → Bool → Bool
  asked (set_verbose on) v = not (is_zero on)
  asked _ v = v

  abbrev pub last_asked : List (Call u o) → Bool → Bool
  last_asked [] v = v
  last_asked (c ∷ cs) v = last_asked cs (asked c v)

  module _ (q : Quiet u o) where
    other-verbose :
        (c : Call u o) (s : State u o) → IsOther u o c → is_verbose (call u o c s).1 ≡ is_verbose s
    unfolding logf Diag.set_verbose
    other-verbose c s k =
        other-P u o q (λ r. r.verbose ≡ is_verbose s) (λ t r h. h) (λ r0 r t h0 h. h0) c s k refl

    call-verbose :
        (c : Call u o) (s : State u o) → is_verbose (call u o c s).1 ≡ asked c (is_verbose s)
    unfolding call caelo_set_verbose caelo_clear_log Diag.set_verbose Diag.clear
    call-verbose (set_verbose on) s =
        ap (λ (r : Ring). r.verbose)
          (q.log_with
            (Diag.set_verbose (not (is_zero on)) (switch_line (u.now s.world) (not (is_zero on)))
              (u.log s.world))
            s.world)
    call-verbose clear_log s =
        ap (λ (r : Ring). r.verbose) (q.log_with (Diag.clear (u.log s.world)) s.world)
    call-verbose version_of s = refl
    call-verbose (connect conf) s = other-verbose (connect conf) s tt
    call-verbose (check url timeout) s = other-verbose (check url timeout) s tt
    call-verbose (probe_one conf url timeout) s = other-verbose (probe_one conf url timeout) s tt
    call-verbose (measure_one conf url timeout) s =
        other-verbose (measure_one conf url timeout) s tt
    call-verbose disconnect s = other-verbose disconnect s tt
    call-verbose status s = refl
    call-verbose (describe conf) s = refl
    call-verbose read_log s = refl
    call-verbose (verify_release path signature keys) s = refl

    -- After any sequence of calls verbose logging is what the last caelo_set_verbose among them asked
    -- for, and what it was before where there is none: no probe silences a tunnel, or makes it talk.
    pub run-last_asked :
        (cs : List (Call u o)) (s : State u o)
        → is_verbose (run u o cs s) ≡ last_asked cs (is_verbose s)
    unfolding run
    run-last_asked [] s = refl
    run-last_asked (c ∷ cs) s =
        run-last_asked cs (call u o c s).1 ∙ ap (last_asked cs) (call-verbose c s)
