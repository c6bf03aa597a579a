-- ===== src/Release/Tests.antt =====
-- Keys and a signature that can be evaluated, and each theorem at one of them.
use caelo.Base.{ℕ, zero, suc, ◌==◌, Bool, List, [], ◌∷◌, ◌≡◌, refl, ok, err, length}
use caelo.Base.Text.{Text, codes}
use caelo.Release.{
  Key, wrong_size, no_keys, parse_trusted, trusted, untrusted, unreadable, Ed25519, verify,
  verify_file,
}
use caelo.Release.Checked.{IsChecked, verify-IsChecked}

abbrev zeros : ℕ → List ℕ
zeros zero = []
zeros (suc n) = 0 ∷ zeros n

abbrev in_use : Text
in_use = codes "AAAAAAAAAAAAAAAAAAAAAAAAAAAAAAAAAAAAAAAAAAA="

abbrev spare : Text
spare = codes "BAAAAAAAAAAAAAAAAAAAAAAAAAAAAAAAAAAAAAAAAAA="

abbrev signature : Text
signature =
    codes "AAAAAAAAAAAAAAAAAAAAAAAAAAAAAAAAAAAAAAAAAAAAAAAAAAAAAAAAAAAAAAAAAAAAAAAAAAAAAAAAAAAAAA=="

abbrev keys : List Key
keys = zeros 32 ∷ (4 ∷ zeros 31) ∷ []

abbrev first : Key → ℕ
first [] = 0
first (b ∷ key) = b

-- Accepts with keys whose first byte is 4.
abbrev only_spare : Ed25519
only_spare = record { accepts = λ key message raw. ok (first key == 4) }

both_parsed : parse_trusted (in_use ∷ spare ∷ []) ≡ ok keys
unfolding parse_trusted
both_parsed = refl

none_refused : parse_trusted [] ≡ err no_keys
unfolding parse_trusted
none_refused = refl

short_refused : parse_trusted (codes "AAAA" ∷ []) ≡ err (wrong_size (codes "AAAA") 3)
unfolding parse_trusted
short_refused = refl

spare_accepted : verify only_spare (1 ∷ []) signature keys ≡ ok trusted
unfolding verify
spare_accepted = refl

short_signature : verify only_spare (1 ∷ []) in_use keys ≡ ok untrusted
unfolding verify
short_signature = refl

file_missing :
    verify_file only_spare (λ path. err (codes "no such file")) (codes "a") signature keys
    ≡ ok (unreadable (codes "no such file"))
unfolding verify_file
file_missing = refl

abbrev total :
    (key : Key) (message raw : List ℕ)
    → length key ≡ 32
    → (b : Bool) × (only_spare.accepts key message raw ≡ ok b)
total key message raw h = (first key == 4, refl)

verify-IsChecked_example :
    IsChecked only_spare (1 ∷ []) signature keys (verify only_spare (1 ∷ []) signature keys)
verify-IsChecked_example =
    verify-IsChecked only_spare total (in_use ∷ spare ∷ []) keys (1 ∷ []) signature both_parsed
