-- ===== src/Subscription/Answers.antt =====
-- examples/subscription-server/main.go: the two documents, side by side and against the file.
use mathlib.Core.List.{append-nil, append_assoc}
use caelo.Base.{some, List, [], ◌∷◌, ◌++◌, map, ◌≡◌, refl, sym, ap, ◌∙◌, All}
use caelo.Base.Map.{lookup}
use caelo.Base.Text.{Text, text_key}
use caelo.Subscription.{Endpoint, CaeloNode, Subscriber, Config, endpoint_type}
use caelo.Subscription.Serve.{
  node_at, typed, add_endpoints, plain_answer, caelo_node, add_nodes, caelo_answer,
}
use caelo.Subscription.Loaded.{IsDefined}

-- The loops append, and so keep the order of the names.
pub add_endpoints-map :
    (c : Config) (done : List Endpoint) (names : List Text)
    → add_endpoints c done names ≡ done ++ map (λ name. typed (node_at c name)) names
unfolding add_endpoints
add_endpoints-map c done [] = sym (append-nil done)
add_endpoints-map c done (name ∷ names) =
    add_endpoints-map c (done ++ typed (node_at c name) ∷ []) names
    ∙ append_assoc done (typed (node_at c name) ∷ []) (map (λ name. typed (node_at c name)) names)

pub add_nodes-map :
    (c : Config) (done : List CaeloNode) (names : List Text)
    → add_nodes c done names ≡ done ++ map (caelo_node c) names
unfolding add_nodes
add_nodes-map c done [] = sym (append-nil done)
add_nodes-map c done (name ∷ names) =
    add_nodes-map c (done ++ caelo_node c name ∷ []) names
    ∙ append_assoc done (caelo_node c name ∷ []) (map (caelo_node c) names)

-- The node that the file defines under the id, with the type that Caelo gives its own.
abbrev pub IsFromFile : Config → CaeloNode → Type 0
IsFromFile c n =
    (e : Endpoint) × (lookup n.id c.nodes ≡ some e)
    × (n.endpoint ≡ record e { type = endpoint_type })

caelo_node-IsFromFile :
    (c : Config) (name : Text) → IsDefined c name → IsFromFile c (caelo_node c name)
unfolding caelo_node node_at typed
caelo_node-IsFromFile c name (e, h) = (e, h, rw (node_at, h) refl)

All-IsFromFile :
    (c : Config) (names : List Text)
    → All (IsDefined c) names
    → All (IsFromFile c) (map (caelo_node c) names)
All-IsFromFile c [] h = tt
All-IsFromFile c (name ∷ names) h = (caelo_node-IsFromFile c name h.0, All-IsFromFile c names h.1)

ids : (c : Config) (names : List Text) → map (λ n. n.id) (map (caelo_node c) names) ≡ names
unfolding caelo_node
ids c [] = refl
ids c (name ∷ names) = ap (◌∷◌ name) (ids c names)

same_endpoints :
    (c : Config) (names : List Text)
    → map (λ n. n.endpoint) (map (caelo_node c) names) ≡ map (λ name. typed (node_at c name)) names
unfolding caelo_node
same_endpoints c [] = refl
same_endpoints c (name ∷ names) = ap (◌∷◌ (typed (node_at c name))) (same_endpoints c names)

-- For a subscriber whose nodes are all defined, the nodes of the richer answer have as ids the
-- subscriber's names in their order, each carries the endpoint that the file defines under its id,
-- with the type "amneziawg", and the plain answer has just these endpoints in the same order.
pub answers_agree :
    (c : Config) (who : Subscriber)
    → All (IsDefined c) who.nodes
    → (map (λ n. n.id) (caelo_answer c who).nodes ≡ who.nodes)
      × All (IsFromFile c) (caelo_answer c who).nodes
      × ((plain_answer c who).endpoints ≡ map (λ n. n.endpoint) (caelo_answer c who).nodes)
unfolding plain_answer caelo_answer
answers_agree c who h =
    rw (add_nodes-map c [] who.nodes, add_endpoints-map c [] who.nodes)
      (ids c who.nodes, All-IsFromFile c who.nodes h, sym (same_endpoints c who.nodes))
