-- ===== src/Diag/Hidden.antt =====
-- core/internal/diag/log.go: what redact takes out of a line.
use mathlib.Core.List.{append-nil}
use caelo.Base.{ℕ, ◌≢◌, false, not, Option, none, some, [], ◌∷◌, ◌++◌, ◌≡◌, refl, subst, ◌∙◌, All}
use caelo.Base.Text.{Text, codes}
use caelo.Diag.Redact.{
  is_blank, after_all, after_value, labelled, after_secret, replacement, redact_from, redact,
}
use caelo.Diag.Matched.{redact_match}

abbrev pub NotBlank : ℕ → Type 0
NotBlank c = is_blank c ≡ false

after_all_whole : (s : Text) → All NotBlank s → after_all (λ d. not (is_blank d)) s ≡ []
unfolding after_all
after_all_whole [] h = refl
after_all_whole (c ∷ s) h = rw (h.0) (after_all_whole s h.1)

after_all_stays : (c : ℕ) (s : Text) → NotBlank c → after_all is_blank (c ∷ s) ≡ c ∷ s
unfolding after_all
after_all_stays c s h = rw h refl

after_value_whole : (c : ℕ) (s : Text) → All NotBlank (c ∷ s) → after_value (c ∷ s) ≡ some []
unfolding after_value
after_value_whole c s h = rw (after_value, h.0, after_all_whole s h.1) refl

labelled_private :
    (c : ℕ) (s : Text) → All NotBlank (c ∷ s) → labelled (codes "private_key=" ++ c ∷ s) ≡ some []
unfolding labelled
labelled_private c s h = rw (after_all_stays c s h.0) (after_value_whole c s h)

labelled_first :
    (before : Option ℕ) (t r : Text) → labelled t ≡ some r → after_secret before t ≡ some r
unfolding after_secret
labelled_first before t r h = rw (after_secret, h) refl

-- A private key after its label is taken out of the line, whatever it is, up to the next blank; here
-- the label and the key are the whole line.
pub label_hides :
    (value : Text)
    → value ≢ []
    → All NotBlank value
    → redact (codes "private_key=" ++ value) ≡ codes "private_key=<redacted>"
unfolding redact redact_from replacement
label_hides [] n h = let no : ⊥ = n refl in elim no [ ]
label_hides (c ∷ s) n h =
    let (before', e) = redact_match none b'p' (codes "rivate_key=" ++ c ∷ s) [] found in
    subst
      (λ t.
        redact_from none 0 (b'p' ∷ t)
        ≡ replacement (codes "private_key=" ++ c ∷ s) ++ redact_from before' 0 [])
      (append-nil (codes "rivate_key=" ++ c ∷ s)) e
    ∙ hidden before'
  where
    found : after_secret none (b'p' ∷ ((codes "rivate_key=" ++ c ∷ s) ++ [])) ≡ some []
    found =
        rw (append-nil (codes "rivate_key=" ++ c ∷ s))
          (labelled_first none (codes "private_key=" ++ c ∷ s) [] (labelled_private c s h))

    hidden :
        (before : Option ℕ)
        → replacement (codes "private_key=" ++ c ∷ s) ++ redact_from before 0 []
          ≡ codes "private_key=<redacted>"
    hidden before = refl
