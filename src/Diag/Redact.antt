-- ===== src/Diag/Redact.antt =====
-- core/internal/diag/log.go: redact, with the matches of the regular expression `secrets` written
-- out. Under `(?i)` a letter matches the runes that fold to it. Each alternative can match in one way
-- only, so that a matcher gives what is left of the text after its match.
use caelo.Base.{
  ℕ, zero, suc, ◌+◌, ◌-◌, Bool, true, not, ◌&&◌, ◌||◌, Option, none, some, [], ◌∷◌, ◌++◌, leb, ◌==◌,
  if◌then◌else◌, length, take,
}
use caelo.Base.Text.{Text, codes}

infixl 5 ◌>>=◌
abbrev ◌>>=◌ : {A B : Type 0} → Option A → (A → Option B) → Option B
none >>= f = none
some a >>= f = f a

-- The letter that a rune folds to: beside the capitals, the Kelvin sign and the long s.
unfoldable pub fold : ℕ → ℕ
fold c =
    if leb b'A' c && leb c b'Z'
    then c + 32
    else if c == 0x212a
    then b'k'
    else if c == 0x17f
    then b's'
    else c

-- [A-Za-z0-9+/], [0-9a-f], and \s
unfoldable pub is_base64 : ℕ → Bool
unfolding fold
is_base64 c =
    (leb b'a' (fold c) && leb (fold c) b'z') || (leb b'0' c && leb c b'9') || c == b'+' || c == b'/'

unfoldable pub is_hex : ℕ → Bool
unfolding fold
is_hex c = (leb b'a' (fold c) && leb (fold c) b'f') || (leb b'0' c && leb c b'9')

unfoldable pub is_blank : ℕ → Bool
is_blank c = c == 32 || c == 9 || c == 10 || c == 12 || c == 13

-- \w, of which \b is the edge
unfoldable pub is_word : ℕ → Bool
is_word c =
    (leb b'a' c && leb c b'z')
    || (leb b'A' c && leb c b'Z')
    || (leb b'0' c && leb c b'9')
    || c == b'_'

-- What is left after a word, read without regard to case.
unfoldable pub after_word : Text → Text → Option Text
unfolding fold
after_word [] s = some s
after_word (d ∷ word) [] = none
after_word (d ∷ word) (c ∷ s) = let r = after_word word s in if fold c == d then r else none

-- What is left after `n` runes of a class.
unfoldable pub after_run : (ℕ → Bool) → ℕ → Text → Option Text
after_run p zero s = some s
after_run p (suc n) [] = none
after_run p (suc n) (c ∷ s) = let r = after_run p n s in if p c then r else none

-- What is left after all runes of a class.
unfoldable pub after_all : (ℕ → Bool) → Text → Text
after_all p [] = []
after_all p (c ∷ s) = let r = after_all p s in if p c then r else c ∷ s

-- private|public|preshared
unfoldable pub after_name : Text → Option Text
unfolding after_word
after_name s = elim (after_word (codes "private") s) [
  | some r ↦ some r
  | none ↦ elim (after_word (codes "public") s) [
    | some r ↦ some r
    | none ↦ after_word (codes "preshared") s
  ]
]

-- [_ ]?
unfoldable pub after_joint : Text → Text
after_joint [] = []
after_joint (c ∷ s) = if c == b'_' || c == 32 then s else c ∷ s

-- [=:]
unfoldable pub is_assignment : ℕ → Bool
is_assignment c = c == b'=' || c == b':'

unfoldable pub after_assignment : Text → Option Text
unfolding is_assignment
after_assignment [] = none
after_assignment (c ∷ s) = if is_assignment c then some s else none

-- \S+
unfoldable pub after_value : Text → Option Text
unfolding is_blank after_all
after_value [] = none
after_value (c ∷ s) = if is_blank c then none else some (after_all (λ d. not (is_blank d)) s)

-- The first alternative: a label, an assignment and a value.
unfoldable pub labelled : Text → Option Text
unfolding after_name after_joint after_word after_assignment after_value is_blank after_all
labelled s = after_name s >>= λ a. after_word (codes "key") (after_joint a) >>= λ b.
    after_assignment (after_all is_blank b) >>= λ v. after_value (after_all is_blank v)

-- The second: {1,2} takes two where it can.
unfoldable pub after_tail : Text → Option Text
unfolding is_base64
after_tail [] = none
after_tail (c ∷ []) = if is_base64 c || c == b'=' then some [] else none
after_tail (c ∷ d ∷ s) =
    if is_base64 c || c == b'=' then some (if is_base64 d || d == b'=' then s else d ∷ s) else none

unfoldable pub base64_key : Text → Option Text
unfolding after_run is_base64 after_tail
base64_key s = after_run is_base64 42 s >>= after_tail

-- The third, between two edges of a word; `before` is the rune before it.
unfoldable pub ends_word : Text → Bool
unfolding is_word
ends_word [] = true
ends_word (c ∷ s) = not (is_word c)

unfoldable pub hex_key : Option ℕ → Text → Option Text
unfolding after_run is_hex is_word ends_word
hex_key before s =
    if (elim before [ none ↦ true | some c ↦ not (is_word c) ])
    then (after_run is_hex 64 s >>= λ r. if ends_word r then some r else none)
    else none

-- The first alternative that matches here.
unfoldable pub after_secret : Option ℕ → Text → Option Text
unfolding labelled base64_key hex_key
after_secret before s = elim (labelled s) [
  | some r ↦ some r
  | none ↦ elim (base64_key s) [ some r ↦ some r | none ↦ hex_key before s ]
]

-- indexOfAssignment; `none` is -1.
unfoldable pub index_of_assignment : Text → Option ℕ
unfolding is_assignment
index_of_assignment [] = none
index_of_assignment (c ∷ s) =
    let r = index_of_assignment s in
    if is_assignment c then some 0 else elim r [ none ↦ none | some i ↦ some (suc i) ]

-- What a match is replaced with.
unfoldable pub replacement : Text → Text
unfolding index_of_assignment
replacement m = elim (index_of_assignment m) [
  | some i ↦ take (i + 1) m ++ codes "<redacted>"
  | none ↦ codes "<redacted>"
]

-- ReplaceAllStringFunc: from the left, and on after each match; `skip` runes are of the last match.
unfoldable pub redact_from : Option ℕ → ℕ → Text → Text
unfolding after_secret replacement
redact_from before skip [] = []
redact_from before (suc skip) (c ∷ s) = redact_from (some c) skip s
redact_from before zero (c ∷ s) = elim (after_secret before (c ∷ s)) [
  | none ↦ c ∷ redact_from (some c) 0 s
  | some r ↦
      replacement (take (length (c ∷ s) - length r) (c ∷ s))
      ++ redact_from (some c) (length s - length r) s
]

unfoldable pub redact : Text → Text
unfolding redact_from
redact message = redact_from none 0 message

-- The line that Logf keeps, of its time and its message.
unfoldable pub stamped : Text → Text → Text
unfolding redact
stamped time message = time ++ codes "  " ++ redact message
