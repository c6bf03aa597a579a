-- ===== src/Subscription/Loaded.antt =====
-- examples/subscription-server/main.go: what reload accepts, and what it leaves in the store.
use caelo.Base.{
  ◌≤◌, Option, none, some, Result, ok, err, ◌≡◌, refl, ◌↔◌, List, [], ◌∷◌, inl, inr, All, arith,
  Option-cases, Result-cases,
}
use caelo.Base.Map.{lookup}
use caelo.Base.Text.{Text, text_key, byte_length}
use caelo.Subscription.{
  Endpoint, Subscriber, Config, Store, ReloadError, check_nodes, check_token, or_then, check,
  take_loaded, reload,
}

abbrev pub IsDefined : Config → Text → Type 0
IsDefined c name = (e : Endpoint) × (lookup name c.nodes ≡ some e)

-- An entry whose token is long enough and whose nodes are all defined.
abbrev pub IsServed : Config → Text × Subscriber → Type 0
IsServed c (token, who) = (24 ≤ byte_length token) × All (IsDefined c) who.nodes

abbrev pub IsServable : Config → Type 0
IsServable c = All (IsServed c) c.subscribers

abbrev pub IsServableFile : Option Config → Type 0
IsServableFile none = ⊥
IsServableFile (some c) = IsServable c

-- What the file holds: nothing when it cannot be read or decoded.
abbrev pub contents :
    (Text → Result Text Text) → (Text → Result Text Config) → Store → Option Config
contents read_file decode s = elim (read_file s.path) [
  | err _ ↦ none
  | ok raw ↦ elim (decode raw) [ err _ ↦ none | ok c ↦ some c ]
]

-- A reload without an error put a servable configuration in the store, and one with an error
-- changed nothing and met a file that is not servable.
abbrev pub IsReloaded : Store → Option Config → Store × Option ReloadError → Type 0
IsReloaded s file (s', none) =
    (c : Config) × (file ≡ some c) × IsServable c × (s' ≡ record s { loaded = c })
IsReloaded s file (s', some e) = (s' ≡ s) × (¬ IsServableFile file)

check_nodes_iff :
    (c : Config) (names : List Text) → (check_nodes c names ≡ none) ↔ All (IsDefined c) names
unfolding check_nodes
check_nodes_iff c [] = (λ h. tt, λ h. refl)
check_nodes_iff c (name ∷ names) = elim (Option-cases (lookup name c.nodes)) [
  | inl h ↦ rw (check_nodes, h) (λ k. cc, λ k. cc)
  | inr (e, h) ↦
      rw (check_nodes, h)
        (λ k. ((e, refl), (check_nodes_iff c names).0 k), λ k. (check_nodes_iff c names).1 k.1)
]

check_token_iff : (token : Text) → (check_token token ≡ none) ↔ (24 ≤ byte_length token)
unfolding check_token
check_token_iff token = ground arith

or_then_iff : (a b : Option ReloadError) → (or_then a b ≡ none) ↔ ((a ≡ none) × (b ≡ none))
or_then_iff none b = (λ h. (refl, h), λ h. h.1)
or_then_iff (some e) b = (λ h. cc, λ h. cc)

check_iff : (c : Config) (l : List (Text × Subscriber)) → (check c l ≡ none) ↔ All (IsServed c) l
unfolding check
check_iff c [] = (λ h. tt, λ h. refl)
check_iff c ((token, who) ∷ l) = (
  λ h.
      let a =
        (or_then_iff (check_nodes c who.nodes) (or_then (check_token token) (check c l))).0 h in
      let b = (or_then_iff (check_token token) (check c l)).0 a.1 in
      (((check_token_iff token).0 b.0, (check_nodes_iff c who.nodes).0 a.0), (check_iff c l).0 b.1),
  λ h. (or_then_iff (check_nodes c who.nodes) (or_then (check_token token) (check c l))).1 (
    (check_nodes_iff c who.nodes).1 h.0.1,
    (or_then_iff (check_token token) (check c l)).1
        ((check_token_iff token).1 h.0.0, (check_iff c l).1 h.1),
  ),
)

take_loaded-IsReloaded : (c : Config) (s : Store) → IsReloaded s (some c) (take_loaded c s)
unfolding take_loaded
take_loaded-IsReloaded c s = elim (Option-cases (check c c.subscribers)) [
  | inl h ↦ rw (take_loaded, h) (c, refl, (check_iff c c.subscribers).0 h, refl)
  | inr (e, h) ↦ rw (take_loaded, h) (refl, λ k. let passed = (check_iff c c.subscribers).1 k in cc)
]

-- Reload replaces what the store serves exactly by a file that can be read, decodes and is
-- servable: every token has at least 24 bytes and every node that a subscriber names is defined.
-- Whatever else the file holds, the error leaves the store as it was.
pub reload-IsReloaded :
    (read_file : Text → Result Text Text) (decode : Text → Result Text Config) (s : Store)
    → IsReloaded s (contents read_file decode s) (reload read_file decode s)
unfolding reload
reload-IsReloaded read_file decode s = elim (Result-cases (read_file s.path)) [
  | inr (why, h) ↦ rw (reload, contents, h) (refl, λ k. k)
  | inl (raw, h) ↦ elim (Result-cases (decode raw)) [
    | inr (why, k) ↦ rw (reload, contents, h, k) (refl, λ k. k)
    | inl (c, k) ↦ rw (reload, contents, h, k) (take_loaded-IsReloaded c s)
  ]
]
