-- ===== src/Subscription/Changed.antt =====
-- examples/subscription-server/main.go: what the version of a set of nodes tells. Two sets of the
-- same version have the same parts, where the shortened sums of the two texts do not collide.
use mathlib.Core.List.{Perm, append_assoc}
use mathlib.Core.List.Perm
use caelo.Base.{
  ℕ, true, false, Option, List, [], ◌∷◌, ◌++◌, ◌≡◌, refl, sym, ap, ◌∙◌, subst, take, Option-cases,
  if-both, inl, inr, arith, ◌==◌, All, All-append,
}
use caelo.Base.Text.{Text, codes, is_empty, text_leb, join, split, cons_to_head}
use caelo.Awg.Clean.{NotEnd, Clean, hex_encode-Clean}
use caelo.Awg.Lines.{split-line}
use caelo.Subscription.{Endpoint, Subscriber, Config}
use caelo.Subscription.Serve.{node_at, respond}
use caelo.Subscription.State.{sort_insert, sort_strings, short_sum, whole, state_answer}
use caelo.Subscription.Version.{part_of, parts_of, summaries-parts, version_of}

sort_insert-perm : (s : Text) (l : List Text) → Perm (sort_insert s l) (s ∷ l)
unfolding sort_insert
sort_insert-perm s [] = Perm.rfl
sort_insert-perm s (t ∷ l) =
    if-both (λ m. Perm m (s ∷ t ∷ l)) (text_leb s t) (λ _. Perm.rfl)
      (λ _. Perm.trans (Perm.cons t (sort_insert-perm s l)) (Perm.swap s t l))

pub sort_strings-perm_self : (l : List Text) → Perm (sort_strings l) l
unfolding sort_strings
sort_strings-perm_self [] = Perm.rfl
sort_strings-perm_self (s ∷ l) =
    Perm.trans (sort_insert-perm s (sort_strings l)) (Perm.cons s (sort_strings-perm_self l))

-- A text that is one line of a joined text.
abbrev IsLine : Text → Type 0
IsLine s = Clean s × (is_empty s ≡ false)

sort_insert-IsLine :
    (s : Text) (l : List Text) → IsLine s → All IsLine l → All IsLine (sort_insert s l)
unfolding sort_insert
sort_insert-IsLine s [] h k = (h, tt)
sort_insert-IsLine s (t ∷ l) h k =
    if-both (All IsLine) (text_leb s t) (λ _. (h, k)) (λ _. (k.0, sort_insert-IsLine s l h k.1))

sort_strings-IsLine : (l : List Text) → All IsLine l → All IsLine (sort_strings l)
unfolding sort_strings
sort_strings-IsLine [] h = tt
sort_strings-IsLine (s ∷ l) h =
    sort_insert-IsLine s (sort_strings l) h.0 (sort_strings-IsLine l h.1)

split-single : (s : Text) → Clean s → split 10 s ≡ s ∷ []
unfolding split
split-single [] h = refl
split-single (d ∷ s) h =
    let other : (d == 10) ≡ false = ground arith in
    rw other (ap (cons_to_head d) (split-single s h.1))

split-join :
    (s : Text) (l : List Text) → All IsLine (s ∷ l) → split 10 (join (codes "\n") (s ∷ l)) ≡ s ∷ l
unfolding join
split-join s [] h = split-single s h.0.0
split-join s (t ∷ l) h =
    ap (split 10) (append_assoc s (codes "\n") (join (codes "\n") (t ∷ l)))
    ∙ split-line s (join (codes "\n") (t ∷ l)) h.0.0
    ∙ ap (◌∷◌ s) (split-join t l h.1)

join-IsLine : (s : Text) (l : List Text) → IsLine s → is_empty (join (codes "\n") (s ∷ l)) ≡ false
unfolding join
join-IsLine s [] h = h.1
join-IsLine [] (t ∷ l) h = let clash : true ≡ false = h.1 in cc
join-IsLine (c ∷ s) (t ∷ l) h = refl

join-injective :
    (l m : List Text)
    → All IsLine l
    → All IsLine m
    → join (codes "\n") l ≡ join (codes "\n") m
    → l ≡ m
unfolding join
join-injective [] [] h k e = refl
join-injective [] (s ∷ m) h k e =
    let clash : true ≡ false = ap is_empty e ∙ join-IsLine s m k.0 in cc
join-injective (s ∷ l) [] h k e =
    let clash : true ≡ false = ap is_empty (sym e) ∙ join-IsLine s l h.0 in cc
join-injective (s ∷ l) (t ∷ m) h k e = sym (split-join s l h) ∙ ap (split 10) e ∙ split-join t m k

part-IsLine :
    (name version : Text) → Clean name → Clean version → IsLine (name ++ codes ":" ++ version)
part-IsLine name version h k = (
  All-append NotEnd (name ++ codes ":") version
      (All-append NotEnd name (codes ":") h (omega arith, tt)) k,
  is_empty-part name,
)
  where
    is_empty-part : (s : Text) → is_empty (s ++ codes ":" ++ version) ≡ false
    is_empty-part [] = refl
    is_empty-part (c ∷ s) = refl

module _ (marshal : Endpoint → Option Text) (sha256 : Text → List ℕ) where
  short_sum-Clean : (s : Text) → Clean (short_sum marshal sha256 s)
  unfolding short_sum
  short_sum-Clean s = hex_encode-Clean (take 8 (sha256 s))

  part_of-IsLine :
      (c : Config) (device name : Text)
      → Clean name
      → All IsLine (part_of marshal sha256 c device name)
  part_of-IsLine c device name h = elim (Option-cases (marshal (node_at c name))) [
    | inl k ↦ rw (part_of, k) tt
    | inr (raw, k) ↦ rw (part_of, k) (part-IsLine name _ h (short_sum-Clean (device ++ raw)), tt)
  ]

  parts_of-IsLine :
      (c : Config) (device : Text) (names : List Text)
      → All Clean names
      → All IsLine (parts_of marshal sha256 c device names)
  parts_of-IsLine c device [] h = tt
  parts_of-IsLine c device (name ∷ names) h =
      All-append IsLine (part_of marshal sha256 c device name)
        (parts_of marshal sha256 c device names) (part_of-IsLine c device name h.0)
        (parts_of-IsLine c device names h.1)

  -- The text that the version of the set is the shortened sum of.
  abbrev summed : Config → Text → List Text → Text
  summed c device names = join (codes "\n") (sort_strings (parts_of marshal sha256 c device names))

  -- Two sets of the same version hold the same nodes with the same versions, up to order, where the
  -- shortened sum does not take the two different texts to one: names without a line end assumed.
  pub same_version :
      (c c' : Config) (who who' : Subscriber) (device : Text)
      → All Clean who.nodes
      → All Clean who'.nodes
      → (short_sum marshal sha256 (summed c device who.nodes)
            ≡ short_sum marshal sha256 (summed c' device who'.nodes)
          → summed c device who.nodes ≡ summed c' device who'.nodes)
      → version_of (state_answer marshal sha256 c who device).body
        ≡ version_of (state_answer marshal sha256 c' who' device).body
      → Perm
          (parts_of marshal sha256 c device who.nodes)
          (parts_of marshal sha256 c' device who'.nodes)
  unfolding state_answer respond whole
  same_version c c' who who' device h h' apart e =
      let texts = apart (
        rw
          (
            summaries-parts marshal sha256 c device who.nodes (record { states = []; parts = [] }),
            summaries-parts marshal sha256 c' device who'.nodes
                (record { states = []; parts = [] }),
          )
          at e) in
      let sorted =
        join-injective _ _ (sort_strings-IsLine _ (parts_of-IsLine c device who.nodes h))
          (sort_strings-IsLine _ (parts_of-IsLine c' device who'.nodes h')) texts in
      let parts = parts_of marshal sha256 c device who.nodes in
      let parts' = parts_of marshal sha256 c' device who'.nodes in
      Perm.trans (Perm.symm (sort_strings-perm_self parts))
        (subst (λ m. Perm m parts') (sym sorted) (sort_strings-perm_self parts'))
