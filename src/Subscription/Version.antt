-- ===== src/Subscription/Version.antt =====
-- examples/subscription-server/main.go: what the version of a set of nodes depends on. The order of
-- the names is forgotten by sorting the parts.
use mathlib.Core.Logic.{∥∥₁_elim}
use mathlib.Core.Path.{subst₂}
use mathlib.Core.List.{Perm, Permᴰ, append-nil, append_assoc, perm_append_comm}
use mathlib.Core.List.Perm
use caelo.Base.{
  ℕ, true, false, Option, none, some, List, [], ◌∷◌, ◌++◌, ◌≡◌, ◌≢◌, refl, sym, ap, ◌∙◌,
  Option-cases, All, map, inl, inr, arith,
}
use caelo.Base.Text.{Text, codes, text_leb}
use caelo.Subscription.{Endpoint, Subscriber, Config, CaeloDocument}
use caelo.Subscription.Answers.{answers_agree}
use caelo.Subscription.Loaded.{IsDefined}
use caelo.Subscription.Serve.{node_at, respond, caelo_answer}
use caelo.Subscription.Http.{Body, state}
use caelo.Subscription.State.{
  sort_insert, sort_strings, Summary, short_sum, summarise, summaries, whole, state_answer,
}

text_leb-total : (s t : Text) → text_leb s t ≡ false → text_leb t s ≡ true
unfolding text_leb
text_leb-total [] t h = cc
text_leb-total (a ∷ s) [] h = refl
text_leb-total (a ∷ s) (b ∷ t) h = ground (arith, text_leb-total s t)

text_leb-antisym : (s t : Text) → text_leb s t ≡ true → text_leb t s ≡ true → s ≡ t
unfolding text_leb
text_leb-antisym [] [] h k = refl
text_leb-antisym [] (b ∷ t) h k = cc
text_leb-antisym (a ∷ s) [] h k = cc
text_leb-antisym (a ∷ s) (b ∷ t) h k = ground (arith, text_leb-antisym s t)

text_leb_trans : (s t u : Text) → text_leb s t ≡ true → text_leb t u ≡ true → text_leb s u ≡ true
unfolding text_leb
text_leb_trans [] t u h k = refl
text_leb_trans (a ∷ s) [] u h k = cc
text_leb_trans (a ∷ s) (b ∷ t) [] h k = cc
text_leb_trans (a ∷ s) (b ∷ t) (c ∷ u) h k = ground (arith, text_leb_trans s t u)

sort_insert_comm :
    (s t : Text) (l : List Text) → sort_insert s (sort_insert t l) ≡ sort_insert t (sort_insert s l)
unfolding sort_insert
sort_insert_comm s t [] = ground (arith, text_leb-total s t, text_leb-antisym s t)
sort_insert_comm s t (u ∷ l) = ground (
  arith,
  text_leb-total s t,
  text_leb-antisym s t,
  text_leb_trans s t u,
  text_leb_trans t s u,
  sort_insert_comm s t l,
)

Permᴰ-sort_strings : {l m : List Text} → Permᴰ l m → sort_strings l ≡ sort_strings m
unfolding sort_strings
Permᴰ-sort_strings Permᴰ.nil = refl
Permᴰ-sort_strings (Permᴰ.cons {a} {l₁ = l} {l₂ = m} h p) =
    rw h (ap (sort_insert _) (Permᴰ-sort_strings p))
Permᴰ-sort_strings (Permᴰ.swap {l = l} h k) = rw (sym h, k) (sort_insert_comm _ _ (sort_strings l))
Permᴰ-sort_strings (Permᴰ.trans p q) = Permᴰ-sort_strings p ∙ Permᴰ-sort_strings q

-- Sorting forgets the order.
pub sort_strings-perm : {l m : List Text} → Perm l m → sort_strings l ≡ sort_strings m
sort_strings-perm p = ∥∥₁_elim p (hlevel) Permᴰ-sort_strings

-- "version" of a state answer.
abbrev pub version_of : Body → Text
version_of (state version nodes) = version
version_of _ = []

module _ (marshal : Endpoint → Option Text) (sha256 : Text → List ℕ) where
  -- What one name adds to the parts.
  abbrev pub part_of : Config → Text → Text → List Text
  part_of c device name = elim (marshal (node_at c name)) [
    | none ↦ []
    | some raw ↦ (name ++ codes ":" ++ short_sum marshal sha256 (device ++ raw)) ∷ []
  ]

  abbrev pub parts_of : Config → Text → List Text → List Text
  parts_of c device [] = []
  parts_of c device (name ∷ names) = part_of c device name ++ parts_of c device names

  summarise-parts :
      (c : Config) (device name : Text) (sum : Summary)
      → (summarise marshal sha256 c device name sum).parts ≡ sum.parts ++ part_of c device name
  unfolding summarise
  summarise-parts c device name sum = elim (Option-cases (marshal (node_at c name))) [
    | inl h ↦ rw (summarise, part_of, h) (sym (append-nil sum.parts))
    | inr (raw, h) ↦ rw (summarise, part_of, h) refl
  ]

  pub summaries-parts :
      (c : Config) (device : Text) (names : List Text) (sum : Summary)
      → (summaries marshal sha256 c device names sum).parts ≡ sum.parts ++ parts_of c device names
  unfolding summaries
  summaries-parts c device [] sum = sym (append-nil sum.parts)
  summaries-parts c device (name ∷ names) sum =
      summaries-parts c device names (summarise marshal sha256 c device name sum)
      ∙ ap (λ p. p ++ parts_of c device names) (summarise-parts c device name sum)
      ∙ append_assoc sum.parts (part_of c device name) (parts_of c device names)

  Permᴰ-parts_of :
      (c : Config) (device : Text) {names names' : List Text}
      → Permᴰ names names'
      → Perm (parts_of c device names) (parts_of c device names')
  Permᴰ-parts_of c device Permᴰ.nil = Perm.rfl
  Permᴰ-parts_of c device (Permᴰ.cons {b = name} h p) =
      rw h (Perm.append_left (part_of c device name) (Permᴰ-parts_of c device p))
  Permᴰ-parts_of c device (Permᴰ.swap {a'} {b'} {l} h k) =
      rw (h, k)
        (subst₂ Perm
          (append_assoc (part_of c device b') (part_of c device a') (parts_of c device l))
          (append_assoc (part_of c device a') (part_of c device b') (parts_of c device l))
          (Perm.append_right (parts_of c device l)
            (perm_append_comm (part_of c device b') (part_of c device a'))))
  Permᴰ-parts_of c device (Permᴰ.trans p q) =
      Perm.trans (Permᴰ-parts_of c device p) (Permᴰ-parts_of c device q)

  parts_of-perm :
      (c : Config) (device : Text) {names names' : List Text}
      → Perm names names'
      → Perm (parts_of c device names) (parts_of c device names')
  parts_of-perm c device p = ∥∥₁_elim p (hlevel) (Permᴰ-parts_of c device)

  same_version :
      (c : Config) (who who' : Subscriber) (device : Text)
      → Perm who.nodes who'.nodes
      → version_of (state_answer marshal sha256 c who device).body
        ≡ version_of (state_answer marshal sha256 c who' device).body
  unfolding state_answer respond whole
  same_version c who who' device p =
      rw
        (
          summaries-parts c device who.nodes (record { states = []; parts = [] }),
          summaries-parts c device who'.nodes (record { states = []; parts = [] }),
          sort_strings-perm (parts_of-perm c device p),
        )
        refl

  other_order :
      (c : Config) (who who' : Subscriber)
      → All (IsDefined c) who.nodes
      → All (IsDefined c) who'.nodes
      → caelo_answer c who ≡ caelo_answer c who'
      → who.nodes ≡ who'.nodes
  other_order c who who' d d' same =
      sym (answers_agree c who d).0
      ∙ ap (λ (a : CaeloDocument). map (λ n. n.id) a.nodes) same
      ∙ (answers_agree c who' d').0

  -- Where a subscriber's names, each defined in the file, are put in another order, the version of the
  -- whole set stays the same on every device, while the document that the client would fetch is
  -- another one.
  pub version-forgets_order :
      (c : Config) (who who' : Subscriber) (device : Text)
      → All (IsDefined c) who.nodes
      → All (IsDefined c) who'.nodes
      → Perm who.nodes who'.nodes
      → who.nodes ≢ who'.nodes
      → (version_of (state_answer marshal sha256 c who device).body
          ≡ version_of (state_answer marshal sha256 c who' device).body)
        × (caelo_answer c who ≢ caelo_answer c who')
  version-forgets_order c who who' device d d' p other =
      (same_version c who who' device p, λ same. other (other_order c who who' d d' same))
