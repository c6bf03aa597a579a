-- ===== src/Handshake/Latest.antt =====
-- What Parse finds in a dump.
use caelo.Base.{
  ℕ, zero, suc, ◌≤◌, ◌<◌, ◌==◌, ◌≡◌, ◌⊎◌, inl, inr, refl, sym, ap, ◌∙◌, Option, none, some, List,
  [], ◌∷◌, ◌++◌, arith, All, Bool-cases, Option-cases,
}
use caelo.Base.Codec.{parse_int}
use caelo.Base.Int.{ℤ, pos, negsuc}
use caelo.Base.Text.{Text, codes, trim_space, cut_prefix}
use caelo.Handshake.{positive, seconds_of, reading}

-- The line is the key, an equals sign and the decimal digits of a positive number of seconds, with
-- space around them or not.
abbrev pub Says : ℕ → Text → Type 0
Says t line =
    (value : Text) × (line ≡ codes "last_handshake_time_sec=" ++ value)
    × (parse_int (trim_space value) ≡ some (pos t))
    × (0 < t)

-- A line that says so stands among the lines.
abbrev pub Occurs : ℕ → List Text → Type 0
Occurs t [] = ⊥
Occurs t (line ∷ lines) = Says t line ⊎ Occurs t lines

-- No time above `t` among them.
abbrev pub NoneAbove : ℕ → List Text → Type 0
NoneAbove t lines = All (λ line. (u : ℕ) → Says u line → u ≤ t) lines

-- No line says a time.
abbrev pub SaysNone : List Text → Type 0
SaysNone lines = All (λ line. (u : ℕ) → ¬ Says u line) lines

-- The latest time that the lines say, or that they say none.
abbrev pub IsLatest : Option ℕ → List Text → Type 0
IsLatest none lines = SaysNone lines
IsLatest (some t) lines = Occurs t lines × NoneAbove t lines

cut_prefix-++ : (p v : Text) → cut_prefix (p ++ v) p ≡ some v
unfolding cut_prefix
cut_prefix-++ [] v = refl
cut_prefix-++ (d ∷ p) v = ground (arith, cut_prefix-++ p v)

cut_prefix_then : (s p v : Text) → cut_prefix s p ≡ some v → s ≡ p ++ v
unfolding cut_prefix
cut_prefix_then s [] v h = cc
cut_prefix_then [] (d ∷ p) v h = cc
cut_prefix_then (c ∷ s) (d ∷ p) v h = elim (Bool-cases (c == d)) [
  | inl e ↦ let same : c ≡ d = ground arith in let rest = cut_prefix_then s p v (ground arith) in cc
  | inr e ↦ ground arith
]

positive_then : (o : Option ℤ) (t : ℕ) → positive o ≡ some t → (o ≡ some (pos t)) × (0 < t)
positive_then none t h = cc
positive_then (some (pos zero)) t h = cc
positive_then (some (pos (suc n))) t h =
    let same : suc n ≡ t = cc in (ap (λ x. some (pos x)) same, omega arith)
positive_then (some (negsuc n)) t h = cc

positive_of : (o : Option ℤ) (t : ℕ) → o ≡ some (pos t) → 0 < t → positive o ≡ some t
positive_of o zero h k = absurd (omega arith)
positive_of o (suc n) h k = rw h refl

reading-Says : (line : Text) (t : ℕ) → reading line ≡ some t → Says t line
unfolding reading
reading-Says line t h = elim (Option-cases (cut_prefix line (codes "last_handshake_time_sec="))) [
  | inl e ↦ let none_read : seconds_of none ≡ some t = ap seconds_of (sym e) ∙ h in cc
  | inr (value, e) ↦
      let read : seconds_of (some value) ≡ some t = ap seconds_of (sym e) ∙ h in
      let (number, above) = positive_then (parse_int (trim_space value)) t read in
      (value, cut_prefix_then line (codes "last_handshake_time_sec=") value e, number, above)
]

Says-reading : (line : Text) (t : ℕ) → Says t line → reading line ≡ some t
unfolding reading
Says-reading line t (value, e, number, above) =
    ap (λ l. seconds_of (cut_prefix l (codes "last_handshake_time_sec="))) e
    ∙ ap seconds_of (cut_prefix-++ (codes "last_handshake_time_sec=") value)
    ∙ positive_of (parse_int (trim_space value)) t number above

only_time : (line : Text) (v u : ℕ) → reading line ≡ some v → Says u line → u ≡ v
only_time line v u e h = let same : some u ≡ some v = sym (Says-reading line u h) ∙ e in cc

-- The same, beside a time that is known already.
record LatestFrom (s : ℕ) (o : Option ℕ) (lines : List Text) : Type 0 where
  time : ℕ
  is : o ≡ some time
  source : (time ≡ s) ⊎ Occurs time lines
  known : s ≤ time
  bound : NoneAbove time lines

above :
    (s v : ℕ) (line : Text) (lines : List Text) (o : Option ℕ)
    → reading line ≡ some v
    → s < v
    → LatestFrom v o lines
    → LatestFrom s o (line ∷ lines)
above s v line lines o e h l = record {
  time = l.time;
  is = l.is;
  source = elim l.source [
    | inl same ↦ inr (inl (reading-Says line l.time (e ∙ ap some (sym same))))
    | inr below ↦ inr (inr below)
  ];
  known = omega (arith, l.known);
  bound = ((λ u k. omega (arith, l.known, only_time line v u e k)), l.bound);
}
