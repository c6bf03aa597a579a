-- ===== src/Diag/Leak.antt =====
-- core/internal/diag/log.go: keys that redact leaves in a line, whole or in part.
use mathlib.Core.List.{append-nil, append_assoc}
use caelo.Base.{
  ℕ, true, ◌||◌, none, some, [], ◌∷◌, ◌++◌, ◌≡◌, refl, ap, subst, ◌∙◌, ◌==◌, length, All,
  All-append, length-append, arith,
}
use caelo.Base.Text.{Text, codes}
use caelo.Diag.Redact.{is_base64, labelled, index_of_assignment, replacement, redact_from, redact}
use caelo.Diag.Matched.{
  IsBase64, IsHex, NotAssignment, IsBase64-NotAssignment, IsHex-IsBase64, All-map_to, take_whole,
  index_of_assignment-append, index_of_assignment-none, IsHex-labelled, hex_short_kept,
  redact_base64,
}

-- A private key, as it is written in a configuration, with no label before it, stays in the line whole:
-- of 43 base64 digits and the "=" that ends them, redact takes nothing out and writes "<redacted>"
-- after them.
pub bare_key_kept :
    (digits : Text) (last : ℕ)
    → length digits ≡ 42
    → All IsBase64 digits
    → IsBase64 last
    → labelled (digits ++ last ∷ codes "=") ≡ none
    → redact (digits ++ last ∷ codes "=") ≡ digits ++ last ∷ codes "=<redacted>"
unfolding redact redact_from replacement
bare_key_kept digits last n h k u =
    let (before', e) = redact_base64 none digits last b'=' [] n h k (ground arith) u in
    e ∙ append-nil (replacement (digits ++ last ∷ codes "=")) ∙ kept
  where
    all_digits : All NotAssignment (digits ++ last ∷ [])
    all_digits =
        All-append NotAssignment digits (last ∷ []) (All-map_to IsBase64-NotAssignment digits h)
          (IsBase64-NotAssignment last k, tt)

    at_end : index_of_assignment (digits ++ last ∷ codes "=") ≡ some 43
    at_end =
        subst (λ t. index_of_assignment t ≡ some 43) (append_assoc digits (last ∷ []) (codes "="))
          (index_of_assignment-append (digits ++ last ∷ []) [] all_digits
            ∙ ap some (omega (arith, length-append digits (last ∷ []))))

    kept : replacement (digits ++ last ∷ codes "=") ≡ digits ++ last ∷ codes "=<redacted>"
    kept =
        rw
          (
            replacement,
            at_end,
            take_whole 44 (digits ++ last ∷ codes "=")
                (omega (arith, length-append digits (last ∷ codes "="))),
          )
          (append_assoc digits (last ∷ codes "=") (codes "<redacted>"))

-- A private key in hex, of 64 digits with nothing before it, keeps its last 20: the alternative for
-- base64 matches first and takes 44.
pub hex_tail_kept :
    (digits : Text) (c d : ℕ) (tail : Text)
    → length digits ≡ 42
    → length tail ≡ 20
    → All IsHex digits
    → IsHex c
    → IsHex d
    → All IsHex tail
    → redact (digits ++ c ∷ d ∷ tail) ≡ codes "<redacted>" ++ tail
unfolding redact replacement
hex_tail_kept digits c d tail n m h k l t =
    let (before', e) =
      redact_base64 none digits c d tail n base64 (IsHex-IsBase64 c k) second
        (unlabelled digits n h) in
    e ∙ rw (hex_short_kept before' tail t (omega arith), hidden) refl
  where
    base64 : All IsBase64 digits
    base64 = All-map_to IsHex-IsBase64 digits h

    second : (is_base64 d || d == b'=') ≡ true
    second = rw (IsHex-IsBase64 d l) refl

    unlabelled : (a : Text) → length a ≡ 42 → All IsHex a → labelled (a ++ c ∷ d ∷ tail) ≡ none
    unlabelled [] n h = let no : ⊥ = omega arith in elim no [ ]
    unlabelled (x ∷ a) n h = IsHex-labelled x (a ++ c ∷ d ∷ tail) h.0

    plain : All NotAssignment (digits ++ c ∷ d ∷ [])
    plain =
        All-append NotAssignment digits (c ∷ d ∷ [])
          (All-map_to IsBase64-NotAssignment digits base64)
          (
            IsBase64-NotAssignment c (IsHex-IsBase64 c k),
            (IsBase64-NotAssignment d (IsHex-IsBase64 d l), tt),
          )

    hidden : replacement (digits ++ c ∷ d ∷ []) ≡ codes "<redacted>"
    hidden = rw (replacement, index_of_assignment-none (digits ++ c ∷ d ∷ []) plain) refl
