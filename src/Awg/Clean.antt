-- ===== src/Awg/Clean.antt =====
-- Texts without a line end, and the functions that keep them so.
use caelo.Base.{
  ℕ, zero, suc, ◌/◌, ◌%◌, ◌≢◌, inl, inr, Option, none, some, List, [], ◌∷◌, reverse, arith, ltb,
  ◌==◌, if-both, Bool-cases, All, All-append,
}
use mathlib.Core.List.{reverse-cons}
use caelo.Base.Codec.{hex_digit, hex_encode}
use caelo.Base.Int.{ℤ, pos, negsuc, itoa}
use caelo.Base.Text.{
  Text, is_space, trim_left, trim_space, lower_rune, split, cons_to_head, cut, decimal, digits_from,
}

abbrev pub NotEnd : ℕ → Type 0
NotEnd c = c ≢ 10

abbrev pub Clean : Text → Type 0
Clean s = All NotEnd s

cons_to_head-Clean : (c : ℕ) (l : List Text) → NotEnd c → All Clean l → All Clean (cons_to_head c l)
cons_to_head-Clean c [] h k = ((h, tt), tt)
cons_to_head-Clean c (s ∷ l) h k = ((h, k.0), k.1)

-- The lines of any text.
pub split-Clean : (s : Text) → All Clean (split 10 s)
unfolding split
split-Clean [] = (tt, tt)
split-Clean (d ∷ s) = elim (Bool-cases (d == 10)) [
  | inl e ↦ rw e (tt, split-Clean s)
  | inr e ↦ rw e (cons_to_head-Clean d (split 10 s) (ground arith) (split-Clean s))
]

-- The parts of a line, split at another rune.
pub split_line-Clean : (c : ℕ) (s : Text) → Clean s → All Clean (split c s)
unfolding split
split_line-Clean c [] h = (tt, tt)
split_line-Clean c (d ∷ s) h = elim (Bool-cases (d == c)) [
  | inl e ↦ rw e (tt, split_line-Clean c s h.1)
  | inr e ↦ rw e (cons_to_head-Clean d (split c s) h.0 (split_line-Clean c s h.1))
]

pub All-reverse : (P : ℕ → Type 0) (s : Text) → All P s → All P (reverse s)
All-reverse P [] h = h
All-reverse P (c ∷ s) h =
    rw (reverse-cons c s) (All-append P (reverse s) (c ∷ []) (All-reverse P s h.1) (h.0, tt))

trim_left-Clean : (s : Text) → Clean s → Clean (trim_left s)
unfolding trim_left
trim_left-Clean [] h = h
trim_left-Clean (c ∷ s) h = if-both Clean (is_space c) (λ _. trim_left-Clean s h.1) (λ _. h)

pub trim_space-Clean : (s : Text) → Clean s → Clean (trim_space s)
unfolding trim_space
trim_space-Clean s h =
    All-reverse NotEnd _ (trim_left-Clean _ (All-reverse NotEnd _ (trim_left-Clean s h)))

lower_rune-NotEnd : (c : ℕ) → NotEnd c → NotEnd (lower_rune c)
unfolding lower_rune
lower_rune-NotEnd c h = ground arith

-- The two parts of a cut, where there is one.
abbrev pub CleanParts : Option (Text × Text) → Type 0
CleanParts none = Unit {0}
CleanParts (some (a, b)) = Clean a × Clean b

cut-further :
    (d : ℕ) (r : Option (Text × Text))
    → NotEnd d
    → CleanParts r
    → CleanParts (elim r [ none ↦ none | some (a, b) ↦ some (d ∷ a, b) ])
cut-further d none h k = tt
cut-further d (some (a, b)) h k = ((h, k.0), k.1)

pub cut-Clean : (c : ℕ) (s : Text) → Clean s → CleanParts (cut c s)
unfolding cut
cut-Clean c [] h = tt
cut-Clean c (d ∷ s) h =
    if-both CleanParts (d == c) (λ _. (tt, h.1))
      (λ _. cut-further d (cut c s) h.0 (cut-Clean c s h.1))

hex_digit-NotEnd : (n : ℕ) → NotEnd (hex_digit n)
unfolding hex_digit
hex_digit-NotEnd n = ground arith

pub hex_encode-Clean : (raw : List ℕ) → Clean (hex_encode raw)
unfolding hex_encode
hex_encode-Clean [] = tt
hex_encode-Clean (x ∷ xs) =
    (hex_digit-NotEnd (x / 16), (hex_digit-NotEnd (x % 16), hex_encode-Clean xs))

digits_from-Clean : (fuel n : ℕ) (acc : Text) → Clean acc → Clean (digits_from fuel n acc)
unfolding digits_from
digits_from-Clean zero n acc h = h
digits_from-Clean (suc fuel) n acc h =
    if-both Clean (ltb n 10) (λ _. (omega arith, h))
      (λ _. digits_from-Clean fuel (n / 10) _ (omega arith, h))

pub itoa-Clean : (n : ℤ) → Clean (itoa n)
unfolding itoa decimal
itoa-Clean (pos n) = digits_from-Clean (suc n) n [] tt
itoa-Clean (negsuc n) = (omega arith, digits_from-Clean (suc (suc n)) (suc n) [] tt)
