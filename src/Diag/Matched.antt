-- ===== src/Diag/Matched.antt =====
-- core/internal/diag/log.go: how redact goes over a text, up to a match and past it.
use mathlib.Core.List.{append_assoc}
use caelo.Base.{
  ℕ, zero, suc, ◌-◌, ◌≤◌, ◌<◌, Bool, true, false, ◌||◌, Option, none, some, [], ◌∷◌, ◌++◌, ◌≡◌,
  refl, ap, subst, ◌==◌, if◌then◌else◌, length, take, All, length-append, arith,
}
use caelo.Base.Text.{Text, codes}
use caelo.Diag.Redact.{
  fold, is_base64, is_hex, after_word, after_run, after_name, is_assignment, labelled, after_tail,
  base64_key, hex_key, after_secret, index_of_assignment, replacement, redact_from,
}

abbrev pub IsBase64 : ℕ → Type 0
IsBase64 c = is_base64 c ≡ true

abbrev pub IsHex : ℕ → Type 0
IsHex c = is_hex c ≡ true

abbrev pub NotAssignment : ℕ → Type 0
NotAssignment c = is_assignment c ≡ false

pub IsBase64-NotAssignment : (c : ℕ) → IsBase64 c → NotAssignment c
unfolding is_base64 fold is_assignment
IsBase64-NotAssignment c h = ground arith

pub IsHex-IsBase64 : (c : ℕ) → IsHex c → IsBase64 c
unfolding is_hex is_base64
IsHex-IsBase64 c h = ground arith

pub All-map_to : {P Q : ℕ → Type 0} → ((c : ℕ) → P c → Q c) → (s : Text) → All P s → All Q s
All-map_to f [] h = tt
All-map_to f (c ∷ s) h = (f c h.0, All-map_to f s h.1)

pub after_run-append :
    (p : ℕ → Bool) (a s : Text) → All (λ c. p c ≡ true) a → after_run p (length a) (a ++ s) ≡ some s
unfolding after_run
after_run-append p [] s h = refl
after_run-append p (c ∷ a) s h = rw (h.0) (after_run-append p a s h.1)

pub after_run_short : (p : ℕ → Bool) (n : ℕ) (s : Text) → length s < n → after_run p n s ≡ none
unfolding after_run
after_run_short p zero s h = let no : ⊥ = omega arith in elim no [ ]
after_run_short p (suc n) [] h = refl
after_run_short p (suc n) (c ∷ s) h =
    let later = after_run_short p n s (omega arith) in ground arith

pub take-length : (a s : Text) → take (length a) (a ++ s) ≡ a
take-length [] s = refl
take-length (c ∷ a) s = ap (◌∷◌ c) (take-length a s)

pub take_whole : (n : ℕ) (s : Text) → length s ≤ n → take n s ≡ s
take_whole zero [] h = refl
take_whole zero (c ∷ s) h = let no : ⊥ = omega arith in elim no [ ]
take_whole (suc n) [] h = refl
take_whole (suc n) (c ∷ s) h = ap (◌∷◌ c) (take_whole n s (omega arith))

pub index_of_assignment-append :
    (a s : Text) → All NotAssignment a → index_of_assignment (a ++ b'=' ∷ s) ≡ some (length a)
unfolding index_of_assignment is_assignment
index_of_assignment-append [] s h = refl
index_of_assignment-append (c ∷ a) s h = rw (h.0, index_of_assignment-append a s h.1) refl

pub index_of_assignment-none : (a : Text) → All NotAssignment a → index_of_assignment a ≡ none
unfolding index_of_assignment
index_of_assignment-none [] h = refl
index_of_assignment-none (c ∷ a) h = rw (h.0, index_of_assignment-none a h.1) refl

-- The runes of a match are passed over.
pub redact_past :
    (before : Option ℕ) (m s : Text)
    → (before' : Option ℕ) × (redact_from before (length m) (m ++ s) ≡ redact_from before' 0 s)
unfolding redact_from
redact_past before [] s = (before, refl)
redact_past before (c ∷ m) s = redact_past (some c) m s

pub redact_match :
    (before : Option ℕ) (c : ℕ) (m s : Text)
    → after_secret before (c ∷ (m ++ s)) ≡ some s
    → (before' : Option ℕ) × (redact_from before 0 (c ∷ (m ++ s))
        ≡ replacement (c ∷ m) ++ redact_from before' 0 s)
unfolding redact_from
redact_match before c m s h =
    let (before', past) = redact_past (some c) m s in
    let whole : length (c ∷ (m ++ s)) - length s ≡ length (c ∷ m) =
      omega (arith, length-append m s) in
    let tail : length (m ++ s) - length s ≡ length m = omega (arith, length-append m s) in
    (before', rw (redact_from, h) (rw (whole, tail, take-length (c ∷ m) s, past) refl))

pub IsHex-fold : (c : ℕ) → IsHex c → (fold c == b'p') ≡ false
unfolding is_hex fold
IsHex-fold c h = ground arith

pub after_word_other :
    (word : Text) (c : ℕ) (s : Text)
    → (fold c == b'p') ≡ false
    → after_word (b'p' ∷ word) (c ∷ s) ≡ none
unfolding after_word
after_word_other word c s h = rw h refl

pub after_name_other : (c : ℕ) (s : Text) → (fold c == b'p') ≡ false → after_name (c ∷ s) ≡ none
unfolding after_name
after_name_other c s h =
    rw
      (
        after_name,
        after_word_other (codes "rivate") c s h,
        after_word_other (codes "ublic") c s h,
        after_word_other (codes "reshared") c s h,
      )
      refl

pub labelled_other : (c : ℕ) (s : Text) → (fold c == b'p') ≡ false → labelled (c ∷ s) ≡ none
unfolding labelled
labelled_other c s h = rw (labelled, after_name_other c s h) refl

-- A hex digit begins no label.
pub IsHex-labelled : (c : ℕ) (s : Text) → IsHex c → labelled (c ∷ s) ≡ none
IsHex-labelled c s h = labelled_other c s (IsHex-fold c h)

pub base64_key_short : (s : Text) → length s < 42 → base64_key s ≡ none
unfolding base64_key
base64_key_short s h = rw (base64_key, after_run_short is_base64 42 s h) refl

pub hex_key_short : (before : Option ℕ) (s : Text) → length s < 64 → hex_key before s ≡ none
unfolding hex_key
hex_key_short before s h = rw (hex_key, after_run_short is_hex 64 s h) (both_none _)
  where
    both_none : (b : Bool) → ◌≡◌ {A = Option Text} (if b then none else none) none
    both_none true = refl
    both_none false = refl

pub nothing :
    (before : Option ℕ) (c : ℕ) (s : Text)
    → IsHex c
    → length (c ∷ s) < 42
    → after_secret before (c ∷ s) ≡ none
unfolding after_secret
nothing before c s h k =
    rw
      (
        after_secret,
        IsHex-labelled c s h,
        base64_key_short (c ∷ s) k,
        hex_key_short before (c ∷ s) (omega arith),
      )
      refl

-- Hex digits that are too few for a key stay.
pub hex_short_kept :
    (before : Option ℕ) (s : Text) → All IsHex s → length s < 42 → redact_from before 0 s ≡ s
unfolding redact_from
hex_short_kept before [] h k = refl
hex_short_kept before (c ∷ s) h k =
    let none_here = nothing before c s h.0 k in
    rw (redact_from, none_here) (ap (◌∷◌ c) (hex_short_kept (some c) s h.1 (omega arith)))

pub base64_key_found :
    (digits : Text) (c d : ℕ) (s : Text)
    → length digits ≡ 42
    → All IsBase64 digits
    → IsBase64 c
    → (is_base64 d || d == b'=') ≡ true
    → base64_key (digits ++ c ∷ d ∷ s) ≡ some s
unfolding base64_key after_tail
base64_key_found digits c d s n h k l =
    let run : after_run is_base64 42 (digits ++ c ∷ d ∷ s) ≡ some (c ∷ d ∷ s) =
      subst (λ x. after_run is_base64 x (digits ++ c ∷ d ∷ s) ≡ some (c ∷ d ∷ s)) n
        (after_run-append is_base64 digits (c ∷ d ∷ s) h) in
    rw (base64_key, run, after_tail, k, l) refl

pub secret_of :
    (before : Option ℕ) (t s : Text)
    → labelled t ≡ none
    → base64_key t ≡ some s
    → after_secret before t ≡ some s
unfolding after_secret
secret_of before t s h k = rw (after_secret, h, k) refl

-- What is matched as a base64 key is replaced by its replacement, up to the end of the text.
pub redact_base64 :
    (before : Option ℕ) (digits : Text) (c d : ℕ) (s : Text)
    → length digits ≡ 42
    → All IsBase64 digits
    → IsBase64 c
    → (is_base64 d || d == b'=') ≡ true
    → labelled (digits ++ c ∷ d ∷ s) ≡ none
    → (before' : Option ℕ) × (redact_from before 0 (digits ++ c ∷ d ∷ s)
        ≡ replacement (digits ++ c ∷ d ∷ []) ++ redact_from before' 0 s)
redact_base64 before [] c d s n h k l u = let no : ⊥ = omega arith in elim no [ ]
redact_base64 before (e ∷ digits) c d s n h k l u =
    subst
      (λ t.
        (before' : Option ℕ) × (redact_from before 0 (e ∷ t)
          ≡ replacement (e ∷ (digits ++ c ∷ d ∷ [])) ++ redact_from before' 0 s))
      joined (redact_match before e (digits ++ c ∷ d ∷ []) s found)
  where
    joined : (digits ++ c ∷ d ∷ []) ++ s ≡ digits ++ c ∷ d ∷ s
    joined = append_assoc digits (c ∷ d ∷ []) s

    found : after_secret before (e ∷ ((digits ++ c ∷ d ∷ []) ++ s)) ≡ some s
    found = rw joined (
        secret_of before (e ∷ (digits ++ c ∷ d ∷ s)) s u
          (base64_key_found (e ∷ digits) c d s n h k l))
