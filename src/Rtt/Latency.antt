-- ===== src/Rtt/Latency.antt =====
-- What `Latency` reports, against the samples themselves.
use caelo.Base.{
  ℕ, ◌≤◌, min, ◌≡◌, ◌≢◌, ◌⊎◌, inl, inr, refl, subst, ◌∙◌, ap, Bool, true, List, [], ◌∷◌, arith,
  keep, All,
}
use caelo.Rtt.{Sample, Meter, least_from, held, is_fresh, expire, report, latency}

-- The samples of the last `Window`.
abbrev pub fresh : ℕ → Meter → List Sample
fresh now m = keep (is_fresh now) m.samples

abbrev pub Occurs : ℕ → List Sample → Type 0
Occurs r [] = ⊥
Occurs r (s ∷ l) = (r ≡ s.rtt) ⊎ Occurs r l

-- The shortest round trip among the samples.
pub record IsLeast (r : ℕ) (l : List Sample) : Type 0 where
  pub occurs : Occurs r l
  pub least : All (λ s. r ≤ s.rtt) l

least_from-le :
    (r : ℕ) (l : List Sample) → (least_from r l ≤ r) × All (λ s. least_from r l ≤ s.rtt) l
unfolding least_from
least_from-le r [] = (omega arith, tt)
least_from-le r (s ∷ l) =
    let (below, all) = least_from-le (min r s.rtt) l in (omega arith, (omega arith, all))

least_from-Occurs : (r : ℕ) (l : List Sample) → (least_from r l ≡ r) ⊎ Occurs (least_from r l) l
unfolding least_from
least_from-Occurs r [] = inl refl
least_from-Occurs r (s ∷ l) = choose (least_from-Occurs (min r s.rtt) l)
  where
    choose :
        (least_from (min r s.rtt) l ≡ min r s.rtt) ⊎ Occurs (least_from (min r s.rtt) l) l
        → (least_from (min r s.rtt) l ≡ r) ⊎ Occurs (least_from (min r s.rtt) l) (s ∷ l)
    choose (inl e) = ground arith
    choose (inr o) = inr (inr o)

least_from-IsLeast : (s : Sample) (l : List Sample) → IsLeast (least_from s.rtt l) (s ∷ l)
least_from-IsLeast s l = record {
  occurs = least_from-Occurs s.rtt l;
  least = least_from-le s.rtt l;
}

latency_seen :
    (now : ℕ) (m : Meter)
    → m.seen ≡ true
    → latency now m ≡ report (expire now m).samples (expire now m)
unfolding latency
latency_seen now m h = ground arith

report-IsLeast :
    (l : List Sample) (m : Meter) → l ≢ [] → ((report l m).0.1 ≡ true) × IsLeast (report l m).0.0 l
unfolding report
report-IsLeast [] m h = absurd (h refl)
report-IsLeast (s ∷ l) m h = (refl, least_from-IsLeast s l)

-- Once a round trip was seen, and while some sample is at most 10 seconds old, `Latency` reports
-- the shortest of exactly those samples.
pub latency-IsLeast :
    (now : ℕ) (m : Meter)
    → m.seen ≡ true
    → fresh now m ≢ []
    → ((latency now m).0.1 ≡ true) × IsLeast (latency now m).0.0 (fresh now m)
unfolding expire
latency-IsLeast now m seen some_left =
    rw (latency_seen now m seen) (report-IsLeast (fresh now m) (expire now m) some_left)

report-nil : (l : List Sample) (m : Meter) → l ≡ [] → (report l m).0 ≡ (m.last, true)
unfolding report
report-nil [] m e = refl
report-nil (s ∷ l) m e = cc

-- With no sample left fresh, the figure is the one that the expiring samples gave, or else the one
-- that is kept.
latency_held :
    (now : ℕ) (m : Meter)
    → m.seen ≡ true
    → fresh now m ≡ []
    → (latency now m).0 ≡ (held [] m.samples m.last, true)
unfolding expire
latency_held now m seen none_left = rw (latency_seen now m seen) (
    report-nil (fresh now m) (expire now m) none_left
    ∙ ap (λ l. (held l m.samples m.last, true)) none_left)

report-held :
    (l : List Sample) (m : Meter)
    → m.samples ≡ l
    → held [] (report l m).1.samples (report l m).1.last ≡ (report l m).0.0
unfolding report held
report-held [] m e = rw e
report-held (s ∷ l) m e = rw e

seen-report : (l : List Sample) (m : Meter) → (report l m).1.seen ≡ m.seen
unfolding report
seen-report [] m = refl
seen-report (s ∷ l) m = refl

report-true : (l : List Sample) (m : Meter) → (report l m).0.1 ≡ true
unfolding report
report-true [] m = refl
report-true (s ∷ l) m = refl

held_after :
    (then now : ℕ) (m : Meter)
    → m.seen ≡ true
    → let r = report (expire then m).samples (expire then m) in
      fresh now r.1 ≡ [] → (latency now r.1).0 ≡ r.0
unfolding expire
held_after then now m seen none_left =
    let l = fresh then m in
    let m' = expire then m in
    latency_held now (report l m').1 (seen-report l m' ∙ seen) none_left
    ∙ ground (arith, report-held l m' refl, report-true l m')

-- A quiet tunnel holds its figure: when a question was answered at one time, and at another none
-- of the samples that it left is fresh, the answer is the same, whatever has expired in between.
pub latency_holds :
    (then now : ℕ) (m : Meter)
    → m.seen ≡ true
    → fresh now (latency then m).1 ≡ []
    → (latency now (latency then m).1).0 ≡ (latency then m).0
latency_holds then now m seen none_left =
    let e = latency_seen then m seen in
    rw e (
      held_after then now m seen
        (subst (λ (r : (ℕ × Bool) × Meter). fresh now r.1 ≡ []) e none_left))
