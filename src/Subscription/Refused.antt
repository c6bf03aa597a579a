-- ===== src/Subscription/Refused.antt =====
-- examples/subscription-server/main.go: who is answered with a document, and what everybody else
-- can tell from the answer.
use caelo.Base.{
  ℕ, Bool, false, not, Option, none, some, List, [], ◌≡◌, refl, sym, ◌∙◌, ap, if◌then◌else◌,
  if-both, inl, inr, Bool-cases, arith,
}
use caelo.Base.Map.{lookup}
use caelo.Base.Text.{Text, codes, text_key, text_eq, trim_prefix, cut_suffix}
use caelo.Subscription.{Endpoint, Time, Subscriber, Config, Store}
use caelo.Subscription.Http.{
  Request, Response, method_get, status_ok, status_not_found, status_method_not_allowed, not_found,
  http_error,
}
use caelo.Subscription.Serve.{has_expired, method_not_allowed, respond, answer, serve_known, serve}
use caelo.Subscription.State.{state_answer, state_known, serve_state, route}

-- The token that a path names, with or without "/state" after it.
abbrev pub token_of : Request → Text
token_of r =
    let rest = trim_prefix r.path (codes "/sub/") in
    elim (cut_suffix rest (codes "/state")) [ none ↦ rest | some token ↦ token ]

-- The token is a subscriber's whose time has not run out.
abbrev pub is_live : Time → Store → Text → Bool
is_live now s token = elim (lookup token s.loaded.subscribers) [
  | none ↦ false
  | some who ↦ not (has_expired now who)
]

abbrev pub status_for : Time → Store → Request → ℕ
status_for now s r =
    if not (text_eq r.method method_get)
    then status_method_not_allowed
    else if is_live now s (token_of r)
    then status_ok
    else status_not_found

-- What a request is answered whose token is not live.
abbrev pub refusal : Request → Response
refusal r = if not (text_eq r.method method_get) then method_not_allowed else not_found []

module _ (marshal : Endpoint → Option Text) (sha256 : Text → List ℕ) where
  abbrev is_current : Time → Option Subscriber → Bool
  is_current now o = elim o [ none ↦ false | some who ↦ not (has_expired now who) ]

  -- The three rules of a lookup: its answer, by whether the entry is current.
  serve_known-refused :
      (now : Time) (c : Config) (r : Request) (o : Option Subscriber)
      → is_current now o ≡ false
      → serve_known now c r o ≡ not_found []
  unfolding serve_known
  serve_known-refused now c r none h = refl
  serve_known-refused now c r (some who) h = ground arith

  state_known-refused :
      (now : Time) (c : Config) (r : Request) (o : Option Subscriber)
      → is_current now o ≡ false
      → state_known marshal sha256 now c r o ≡ not_found []
  unfolding state_known
  state_known-refused now c r none h = refl
  state_known-refused now c r (some who) h = ground arith

  answer-status :
      (c : Config) (who : Subscriber) (r : Request) → (answer c who r).status ≡ status_ok
  unfolding answer respond
  answer-status c who r = if-both (λ (a : Response). a.status ≡ status_ok) _ (λ _. refl) (λ _. refl)

  serve_known-status :
      (now : Time) (c : Config) (r : Request) (o : Option Subscriber)
      → (serve_known now c r o).status ≡ (if is_current now o then status_ok else status_not_found)
  unfolding serve_known not_found http_error
  serve_known-status now c r none = refl
  serve_known-status now c r (some who) = elim (Bool-cases (has_expired now who)) [
    | inl h ↦ rw (serve_known, h) refl
    | inr h ↦ rw (serve_known, h) (answer-status c who r)
  ]

  state_known-status :
      (now : Time) (c : Config) (r : Request) (o : Option Subscriber)
      → (state_known marshal sha256 now c r o).status
        ≡ (if is_current now o then status_ok else status_not_found)
  unfolding state_known not_found http_error state_answer respond
  state_known-status now c r none = refl
  state_known-status now c r (some who) = elim (Bool-cases (has_expired now who)) [
    | inl h ↦ rw (state_known, h) refl
    | inr h ↦ rw (state_known, h) refl
  ]

  module _ (now : Time) (s : Store) (r : Request) where
    -- route, and the token, by what cutting "/state" off gave.
    abbrev by_suffix : Option Text → Response
    by_suffix o = elim o [
      | none ↦ serve now s r
      | some token ↦ serve_state marshal sha256 now s r token
    ]

    abbrev token_by : Option Text → Text
    token_by o = elim o [ none ↦ trim_prefix r.path (codes "/sub/") | some token ↦ token ]

    by_suffix-refusal :
        (o : Option Text) → is_live now s (token_by o) ≡ false → by_suffix o ≡ refusal r
    unfolding serve serve_state
    by_suffix-refusal none h =
        ap (λ a. if not (text_eq r.method method_get) then method_not_allowed else a)
          (serve_known-refused now s.loaded r (lookup (token_by none) s.loaded.subscribers) h)
    by_suffix-refusal (some token) h =
        ap (λ a. if not (text_eq r.method method_get) then method_not_allowed else a)
          (state_known-refused now s.loaded r (lookup token s.loaded.subscribers) h)

    by_suffix-status :
        (o : Option Text)
        → (by_suffix o).status ≡ (
            if not (text_eq r.method method_get)
            then status_method_not_allowed
            else if is_live now s (token_by o)
            then status_ok
            else status_not_found)
    unfolding serve serve_state method_not_allowed http_error
    by_suffix-status none = elim (Bool-cases (text_eq r.method method_get)) [
      | inl h ↦
          rw (serve, h)
            (serve_known-status now s.loaded r (lookup (token_by none) s.loaded.subscribers))
      | inr h ↦ rw (serve, h) refl
    ]
    by_suffix-status (some token) = elim (Bool-cases (text_eq r.method method_get)) [
      | inl h ↦
          rw (serve_state, h)
            (state_known-status now s.loaded r (lookup token s.loaded.subscribers))
      | inr h ↦ rw (serve_state, h) refl
    ]

    -- A request whose token is not live is answered by its method alone.
    route-refusal : is_live now s (token_of r) ≡ false → route marshal sha256 now s r ≡ refusal r
    unfolding route
    route-refusal h =
        by_suffix-refusal (cut_suffix (trim_prefix r.path (codes "/sub/")) (codes "/state")) h

    -- Every request is answered: 405 unless it is a GET, else 200 exactly when its token is a
    -- subscriber's whose time has not run out, and 404 when it is not.
    pub route-status : (route marshal sha256 now s r).status ≡ status_for now s r
    unfolding route
    route-status =
        by_suffix-status (cut_suffix (trim_prefix r.path (codes "/sub/")) (codes "/state"))

  -- An unknown token cannot be told from one whose time has run out: for two stores at two times,
  -- neither of which has the request's token as a live one, the answers are the same.
  pub refused_alike :
      (r : Request) (now now' : Time) (s s' : Store)
      → is_live now s (token_of r) ≡ false
      → is_live now' s' (token_of r) ≡ false
      → route marshal sha256 now s r ≡ route marshal sha256 now' s' r
  refused_alike r now now' s s' h h' = route-refusal now s r h ∙ sym (route-refusal now' s' r h')
