-- ===== src/Base/Codec.antt =====
-- What the program uses of encoding/base64 (StdEncoding), encoding/hex and strconv.
use caelo.Base.Tests.{ltb, leb, ◌==◌, if◌then◌else◌}
use caelo.Base.Lists.{keep}
use caelo.Base.Int.{ℤ, pos, negsuc}
use caelo.Base.Text.{Text}
use Prim.Native.Nat.{ℕ, zero, suc, ◌+◌, ◌-◌, ◌*◌, ◌/◌, ◌%◌, ◌^◌}
use mathlib.Core.Bool.{not, ◌&&◌, ◌||◌}
use mathlib.Core.List.{List, [], ◌∷◌}
use mathlib.Core.Option.{Option, none, some}

infixl 5 ◌>>=◌
abbrev ◌>>=◌ : {A B : Type 0} → Option A → (A → Option B) → Option B
none >>= f = none
some a >>= f = f a

-- The value of a base64 digit.
unfoldable pub sextet : ℕ → Option ℕ
sextet c =
    if leb b'A' c && leb c b'Z'
    then some (c - b'A')
    else if leb b'a' c && leb c b'z'
    then some (c - b'a' + 26)
    else if leb b'0' c && leb c b'9'
    then some (c - b'0' + 52)
    else if c == b'+'
    then some 62
    else if c == b'/'
    then some 63
    else none

-- Groups of four digits; the last may end in one `=` or two.
unfoldable pub decode_groups : Text → Option (List ℕ)
unfolding sextet
decode_groups [] = some []
decode_groups (a ∷ b ∷ c ∷ d ∷ rest) =
    let later = decode_groups rest in
    sextet a >>= λ x. sextet b >>= λ y.
    if c == b'='
    then elim rest [ [] ↦ if d == b'=' then some ((x * 4 + y / 16) ∷ []) else none | _ ∷ _ ↦ none ]
    else sextet c >>= λ z.
        if d == b'='
        then elim rest [ [] ↦ some ((x * 4 + y / 16) ∷ (y % 16 * 16 + z / 4) ∷ []) | _ ∷ _ ↦ none ]
        else sextet d >>= λ w. later >>= λ more.
            some ((x * 4 + y / 16) ∷ (y % 16 * 16 + z / 4) ∷ (z % 4 * 64 + w) ∷ more)
decode_groups _ = none

-- base64.StdEncoding.DecodeString, which passes over line ends.
unfoldable pub base64_decode : Text → Option (List ℕ)
unfolding decode_groups keep
base64_decode s = decode_groups (keep (λ c. not (c == 10 || c == 13)) s)

unfoldable pub hex_digit : ℕ → ℕ
hex_digit n = if ltb n 10 then b'0' + n else b'a' + n - 10

-- hex.EncodeToString
unfoldable pub hex_encode : List ℕ → Text
unfolding hex_digit
hex_encode [] = []
hex_encode (x ∷ xs) = hex_digit (x / 16) ∷ hex_digit (x % 16) ∷ hex_encode xs

digits_value : ℕ → Text → Option ℕ
digits_value n [] = some n
digits_value n (c ∷ s) =
    let later = digits_value (n * 10 + (c - b'0')) s in
    if leb b'0' c && leb c b'9' then later else none

-- Digits, at least one.
unfoldable pub magnitude : Text → Option ℕ
unfolding digits_value
magnitude [] = none
magnitude (c ∷ s) = digits_value 0 (c ∷ s)

abbrev pub negated : ℕ → ℤ
negated zero = pos 0
negated (suc n) = negsuc n

-- strconv.Atoi and strconv.ParseInt(s, 10, 64): 64 bits.
unfoldable pub parse_int : Text → Option ℤ
unfolding magnitude
parse_int [] = none
parse_int (c ∷ s) =
    if c == b'-'
    then (magnitude s >>= λ n. if leb n (2 ^ 63) then some (negated n) else none)
    else ((if c == b'+' then magnitude s else magnitude (c ∷ s)) >>= λ n.
        if ltb n (2 ^ 63) then some (pos n) else none)
