-- ===== src/Subscription/State.antt =====
-- examples/subscription-server/main.go: serveState and route. json.Marshal of a node and
-- sha256.Sum256 are parameters, over the texts whose UTF-8 Go hands them.
use caelo.Base.{ℕ, not, Option, none, some, List, [], ◌∷◌, ◌++◌, if◌then◌else◌, take}
use caelo.Base.Map.{lookup}
use caelo.Base.Text.{Text, codes, text_key, text_eq, text_leb, trim_prefix, cut_suffix, join}
use caelo.Base.Codec.{hex_encode}
use caelo.Subscription.{Endpoint, Time, Subscriber, Config, Store}
use caelo.Subscription.Http.{
  NodeState, state, Request, Response, method_get, set_header, get_header, not_found,
}
use caelo.Subscription.Serve.{node_at, has_expired, method_not_allowed, respond, serve}

-- sort.Strings, whose result does not depend on the algorithm: the order is total.
unfoldable pub sort_insert : Text → List Text → List Text
unfolding text_leb
sort_insert s [] = s ∷ []
sort_insert s (t ∷ l) = if text_leb s t then s ∷ t ∷ l else t ∷ sort_insert s l

unfoldable pub sort_strings : List Text → List Text
unfolding sort_insert
sort_strings [] = []
sort_strings (s ∷ l) = sort_insert s (sort_strings l)

-- The two slices that the loop of serveState appends to.
pub record Summary : Type 0 where
  pub states : List NodeState
  pub parts : List Text

module _ (marshal : Endpoint → Option Text) (sha256 : Text → List ℕ) where
  -- hex.EncodeToString(sum[:8])
  unfoldable pub short_sum : Text → Text
  unfolding hex_encode
  short_sum s = hex_encode (take 8 (sha256 s))

  -- One round; a node that does not marshal is passed over.
  unfoldable pub summarise : Config → Text → Text → Summary → Summary
  unfolding node_at short_sum
  summarise c device name sum = elim (marshal (node_at c name)) [
    | none ↦ sum
    | some raw ↦
        let version = short_sum (device ++ raw) in
        record {
          states =
              sum.states
              ++ record { id = name; version = version; server = (node_at c name).tag } ∷ [];
          parts = sum.parts ++ (name ++ codes ":" ++ version) ∷ [];
        }
  ]

  unfoldable pub summaries : Config → Text → List Text → Summary → Summary
  unfolding summarise
  summaries c device [] sum = sum
  summaries c device (name ∷ names) sum = summaries c device names (summarise c device name sum)

  unfoldable pub whole : List Text → Text
  unfolding short_sum sort_strings join
  whole parts = short_sum (join (codes "\n") (sort_strings parts))

  unfoldable pub state_answer : Config → Subscriber → Text → Response
  unfolding summaries whole set_header respond
  state_answer c who device =
      let sum = summaries c device who.nodes (record { states = []; parts = [] }) in
      respond (set_header (codes "Cache-Control") (codes "no-store") []) (codes "application/json")
        (state (whole sum.parts) sum.states)

  unfoldable pub state_known : Time → Config → Request → Option Subscriber → Response
  unfolding not_found has_expired state_answer get_header
  state_known now c r none = not_found []
  state_known now c r (some who) =
      if has_expired now who
      then not_found []
      else state_answer c who (get_header (codes "X-Caelo-Device") r.header)

  unfoldable pub serve_state : Time → Store → Request → Text → Response
  unfolding method_not_allowed state_known lookup
  serve_state now s r token =
      if not (text_eq r.method method_get)
      then method_not_allowed
      else state_known now s.loaded r (lookup token s.loaded.subscribers)

  unfoldable pub route : Time → Store → Request → Response
  unfolding serve_state serve trim_prefix cut_suffix
  route now s r = elim (cut_suffix (trim_prefix r.path (codes "/sub/")) (codes "/state")) [
    | none ↦ serve now s r
    | some token ↦ serve_state now s r token
  ]
