-- ===== src/Cli/Silent.antt =====
-- core/cmd/caelo-probe/main.go: what describe prints of the obfuscation. The names are those of
-- obfuscationKeys in core/internal/awg/config.go.
use mathlib.Core.List.{append-nil}
use caelo.Base.{
  Bool, true, false, ◌||◌, List, [], ◌∷◌, ◌≡◌, refl, ap, ◌∙◌, ◌++◌, All, Option-cases, Bool-cases,
  inl, inr,
}
use caelo.Base.Map
use caelo.Base.Int.{pos, itoa}
use caelo.Base.Text.{Text, codes, text_eq, text_key, byte_length}
use caelo.Awg
use caelo.Probe.{has_any}
use caelo.Cli.{
  shaping_keys, header_keys, signature_keys, settings, signatures, describe_obfuscation, describe,
}

abbrev is_one_of : Text → List Text → Bool
is_one_of k [] = false
is_one_of k (key ∷ keys) = text_eq k key || is_one_of k keys

abbrev is_looked_up : Text → Bool
is_looked_up k = is_one_of k shaping_keys || (is_one_of k header_keys || is_one_of k signature_keys)

neither : (a b : Bool) → (a || b) ≡ false → (a ≡ false) × (b ≡ false)
neither true b h = cc
neither false b h = (refl, h)

module _ (k v : Text) (m : List (Text × Text)) where
  kept : (key : Text) → text_eq k key ≡ false → Map.lookup key (Map.insert k v m) ≡ Map.lookup key m
  kept key h = Map.lookup-insert k key v m ∙ rw h refl

  settings-insert :
      (keys : List Text)
      → is_one_of k keys ≡ false
      → settings keys (Map.insert k v m) ≡ settings keys m
  unfolding settings
  settings-insert [] h = refl
  settings-insert (key ∷ keys) h =
      let (first, rest) = neither (text_eq k key) (is_one_of k keys) h in
      let later = settings-insert keys rest in
      let same = kept key first in
      elim (Option-cases (Map.lookup key m)) [
        | inl e ↦ rw (settings, same, e) later
        | inr (value, e) ↦ rw (settings, same, e, later) refl
      ]

  signatures-insert :
      (keys : List Text)
      → is_one_of k keys ≡ false
      → signatures keys (Map.insert k v m) ≡ signatures keys m
  unfolding signatures
  signatures-insert [] h = refl
  signatures-insert (key ∷ keys) h =
      let (first, rest) = neither (text_eq k key) (is_one_of k keys) h in
      let later = signatures-insert keys rest in
      let same = kept key first in
      elim (Option-cases (Map.lookup key m)) [
        | inl e ↦ rw (signatures, same, e) later
        | inr (value, e) ↦ rw (signatures, same, e, later) refl
      ]

  has_any-insert : has_any (Map.insert k v m) ≡ true
  unfolding Map.insert
  has_any-insert = by_cases m
    where
      by_cases : (n : List (Text × Text)) → has_any (Map.insert k v n) ≡ true
      by_cases [] = refl
      by_cases ((j, w) ∷ n) = elim (Bool-cases (text_eq j k)) [
        | inl e ↦ rw e refl
        | inr e ↦ rw e refl
      ]

  describe_obfuscation-insert :
      is_looked_up k ≡ false → describe_obfuscation (Map.insert k v m) ≡ describe_obfuscation m
  unfolding describe_obfuscation
  describe_obfuscation-insert h =
      let (shaping, more) =
        neither (is_one_of k shaping_keys) (is_one_of k header_keys || is_one_of k signature_keys)
          h in
      let (header, signature) =
        neither (is_one_of k header_keys) (is_one_of k signature_keys) more in
      rw
        (
          settings-insert shaping_keys shaping,
          settings-insert header_keys header,
          signatures-insert signature_keys signature,
        )
        refl

describe-insert_other :
    {A : Type 0} (addresses : List A → Text) (cfg : Awg.Config A) (k v : Text)
    → has_any cfg.obfuscation ≡ true
    → is_looked_up k ≡ false
    → describe addresses (record cfg { obfuscation = Map.insert k v cfg.obfuscation })
      ≡ describe addresses cfg
unfolding describe
describe-insert_other addresses cfg k v some_there h =
    rw
      (
        has_any-insert k v cfg.obfuscation,
        some_there,
        describe_obfuscation-insert k v cfg.obfuscation h,
      )
      refl

-- The parameters that 3.1 brought.
abbrev pub names_of_3_1 : List Text
names_of_3_1 =
    codes "headerprotectionkey"
    ∷ codes "contentpaddingaddition"
    ∷ codes "rekeyaftertime"
    ∷ codes "rekeytimeout"
    ∷ codes "rejectaftertime"
    ∷ codes "keepalivetimeout"
    ∷ codes "maxhandshakeattempts"
    ∷ codes "randomtrailers"
    ∷ codes "disablecookies"
    ∷ []

-- The parameters of before: the shape, the headers and the signatures.
abbrev pub shape_names : List Text
shape_names =
    codes "jc"
    ∷ codes "jmin"
    ∷ codes "jmax"
    ∷ codes "s1"
    ∷ codes "s2"
    ∷ codes "s3"
    ∷ codes "s4"
    ∷ []

abbrev pub header_names : List Text
header_names = codes "h1" ∷ codes "h2" ∷ codes "h3" ∷ codes "h4" ∷ []

abbrev pub signature_names : List Text
signature_names = codes "i1" ∷ codes "i2" ∷ codes "i3" ∷ codes "i4" ∷ codes "i5" ∷ []

module _ {A : Type 0} (addresses : List A → Text) (cfg : Awg.Config A) (v : Text) where
  -- With one more parameter, describe prints what it printed without.
  abbrev pub Hides : Text → Type 0
  Hides k =
      describe addresses (record cfg { obfuscation = Map.insert k v cfg.obfuscation })
      ≡ describe addresses cfg

  -- With this parameter alone, describe prints these lines of it.
  abbrev pub Prints : Text → List Text → Type 0
  Prints k lines =
      describe addresses (record cfg { obfuscation = (k, v) ∷ [] })
      ≡ (codes "endpoint    " ++ cfg.peer.endpoint)
        ∷ (codes "address     " ++ addresses cfg.addresses)
        ∷ (codes "mtu         " ++ itoa cfg.mtu)
        ∷ lines

  abbrev pub PrintsShaping : Text → Type 0
  PrintsShaping k = Prints k ((codes "obfuscation " ++ (k ++ codes "=" ++ v ++ codes " ")) ∷ [])

  abbrev pub PrintsHeader : Text → Type 0
  PrintsHeader k =
      Prints k
        (codes "obfuscation " ∷ (codes "header      " ++ (k ++ codes "=" ++ v ++ codes " ")) ∷ [])

  abbrev pub PrintsSignature : Text → Type 0
  PrintsSignature k = Prints k (
      codes "obfuscation "
      ∷ (codes "signature   "
          ++ k
          ++ codes " ("
          ++ itoa (pos (byte_length v))
          ++ codes " bytes of chain)")
      ∷ [])

  prints :
      (k : Text) (lines : List Text) → describe_obfuscation ((k, v) ∷ []) ≡ lines → Prints k lines
  unfolding describe
  prints k lines h =
      ap
        (λ (l : List Text).
          (codes "endpoint    " ++ cfg.peer.endpoint)
          ∷ (codes "address     " ++ addresses cfg.addresses)
          ∷ (codes "mtu         " ++ itoa cfg.mtu)
          ∷ l)
        h

  -- The text of one setting, as the loop leaves it.
  alone : (k : Text) → k ++ codes "=" ++ v ++ codes " " ++ [] ≡ k ++ codes "=" ++ v ++ codes " "
  alone k = append-nil (k ++ codes "=" ++ v ++ codes " ")

  prints_setting :
      (k : Text)
      → describe_obfuscation ((k, v) ∷ [])
        ≡ (codes "obfuscation " ++ (k ++ codes "=" ++ v ++ codes " " ++ [])) ∷ []
      → PrintsShaping k
  prints_setting k h =
      prints k _ (h ∙ ap (λ (t : Text). (codes "obfuscation " ++ t) ∷ []) (alone k))

  prints_shaping : All PrintsShaping shape_names
  unfolding describe_obfuscation text_eq
  prints_shaping = (
    prints_setting _ refl,
    (
      prints_setting _ refl,
      (
        prints_setting _ refl,
        (
          prints_setting _ refl,
          (prints_setting _ refl, (prints_setting _ refl, (prints_setting _ refl, tt))),
        ),
      ),
    ),
  )

  prints_magic :
      (k : Text)
      → describe_obfuscation ((k, v) ∷ [])
        ≡ codes "obfuscation "
          ∷ (codes "header      " ++ (k ++ codes "=" ++ v ++ codes " " ++ []))
          ∷ []
      → PrintsHeader k
  prints_magic k h =
      prints k _
        (h ∙ ap (λ (t : Text). codes "obfuscation " ∷ (codes "header      " ++ t) ∷ []) (alone k))

  prints_header : All PrintsHeader header_names
  unfolding describe_obfuscation text_eq
  prints_header =
      (prints_magic _ refl, (prints_magic _ refl, (prints_magic _ refl, (prints_magic _ refl, tt))))

  prints_signature : All PrintsSignature signature_names
  unfolding describe_obfuscation text_eq
  prints_signature = (
    prints _ _ refl,
    (prints _ _ refl, (prints _ _ refl, (prints _ _ refl, (prints _ _ refl, tt)))),
  )

  later_hidden : has_any cfg.obfuscation ≡ true → All Hides names_of_3_1
  unfolding text_eq
  later_hidden h =
      let hides : (k : Text) → is_looked_up k ≡ false → Hides k =
        λ k u. describe-insert_other addresses cfg k v h u in
      (
        hides _ refl,
        (
          hides _ refl,
          (
            hides _ refl,
            (
              hides _ refl,
              (hides _ refl, (hides _ refl, (hides _ refl, (hides _ refl, (hides _ refl, tt))))),
            ),
          ),
        ),
      )

  -- What describe prints of each parameter with the value `v`.
  abbrev pub IsDescribed : Type 0
  IsDescribed =
      All Hides names_of_3_1
      × All PrintsShaping shape_names
      × All PrintsHeader header_names
      × All PrintsSignature signature_names

  -- Whatever its value: each of the nine parameters that 3.1 brought changes nothing in what describe
  -- prints of a configuration that has some parameter already, while each of the sixteen before them,
  -- on its own, is printed: those of the shape and of the headers as they are, and a signature as the
  -- number of the bytes of its value.
  pub describe-insert : has_any cfg.obfuscation ≡ true → IsDescribed
  describe-insert h = (later_hidden h, prints_shaping, prints_header, prints_signature)
