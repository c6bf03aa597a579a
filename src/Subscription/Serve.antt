-- ===== src/Subscription/Serve.antt =====
-- examples/subscription-server/main.go: serve and the two documents that it answers with. The
-- `loaded` of a call is what the store held while it was locked.
use caelo.Base.{Bool, not, Option, none, some, List, [], ◌∷◌, ◌++◌, if◌then◌else◌, ◌&&◌}
use caelo.Base.Int.{pos, is_positive, itoa}
use caelo.Base.Map.{lookup}
use caelo.Base.Text.{Text, codes, text_key, text_eq, trim_prefix, contains}
use caelo.Subscription.{
  Endpoint, Document, CaeloNode, CaeloDocument, Meta, Time, Subscriber, Config, Store, no_endpoint,
  no_meta, endpoint_type, caelo_document_type,
}
use caelo.Subscription.Http.{
  Body, document, caelo_document, Request, Response, method_get, status_ok,
  status_method_not_allowed, set_header, get_header, http_error, not_found, is_zero_time, after,
}

-- loaded.Nodes[name], loaded.Meta[name]: a missing entry reads as the zero value.
unfoldable pub node_at : Config → Text → Endpoint
unfolding lookup
node_at c name = elim (lookup name c.nodes) [ none ↦ no_endpoint | some e ↦ e ]

unfoldable pub meta_at : Config → Text → Meta
unfolding lookup
meta_at c name = elim (lookup name c.meta) [ none ↦ no_meta | some m ↦ m ]

-- node.Type = endpointType
unfoldable pub typed : Endpoint → Endpoint
typed e = record e { type = endpoint_type }

-- The loop of plainAnswer.
unfoldable pub add_endpoints : Config → List Endpoint → List Text → List Endpoint
unfolding node_at typed
add_endpoints c endpoints [] = endpoints
add_endpoints c endpoints (name ∷ names) =
    add_endpoints c (endpoints ++ typed (node_at c name) ∷ []) names

unfoldable pub plain_answer : Config → Subscriber → Document
unfolding add_endpoints
plain_answer c who = record { endpoints = add_endpoints c [] who.nodes }

unfoldable pub caelo_node : Config → Text → CaeloNode
unfolding node_at meta_at typed
caelo_node c name = record {
  id = name;
  country = (meta_at c name).country;
  description = (meta_at c name).description;
  maintenance = (meta_at c name).maintenance;
  endpoint = typed (node_at c name);
}

-- The loop of caeloAnswer.
unfoldable pub add_nodes : Config → List CaeloNode → List Text → List CaeloNode
unfolding caelo_node
add_nodes c nodes [] = nodes
add_nodes c nodes (name ∷ names) = add_nodes c (nodes ++ caelo_node c name ∷ []) names

unfoldable pub caelo_answer : Config → Subscriber → CaeloDocument
unfolding add_nodes
caelo_answer c who = record { version = 1; nodes = add_nodes c [] who.nodes }

unfoldable pub userinfo : Subscriber → Text
unfolding is_zero_time itoa
userinfo who =
    codes "upload=0; download="
    ++ itoa who.used_bytes
    ++ codes "; total="
    ++ itoa who.quota_bytes
    ++ codes "; expire="
    ++ itoa (if is_zero_time who.expires then pos 0 else who.expires.unix)

-- !who.Expires.IsZero() && time.Now().After(who.Expires)
unfoldable pub has_expired : Time → Subscriber → Bool
unfolding is_zero_time after
has_expired now who = not (is_zero_time who.expires) && after now who.expires

-- The answer to a method that is not GET.
unfoldable pub method_not_allowed : Response
unfolding set_header http_error
method_not_allowed =
    http_error (set_header (codes "Allow") method_get []) [] status_method_not_allowed

-- The headers that serve sets before it chooses the document.
unfoldable pub common_header : Config → Subscriber → List (Text × Text)
unfolding set_header userinfo itoa
common_header c who =
    let header =
      set_header (codes "subscription-userinfo") (userinfo who)
        (set_header (codes "Cache-Control") (codes "no-store") []) in
    if is_positive c.update_interval_hours
    then set_header (codes "profile-update-interval") (itoa c.update_interval_hours) header
    else header

unfoldable pub respond : List (Text × Text) → Text → Body → Response
unfolding set_header
respond header kind body = record {
  status = status_ok;
  header = set_header (codes "Content-Type") kind header;
  body = body;
}

unfoldable pub answer : Config → Subscriber → Request → Response
unfolding common_header respond plain_answer caelo_answer get_header contains
answer c who r =
    if contains (get_header (codes "Accept") r.header) caelo_document_type
    then respond (common_header c who) caelo_document_type (caelo_document (caelo_answer c who))
    else respond (common_header c who) (codes "application/json") (document (plain_answer c who))

-- What serve does with the entry of the token.
unfoldable pub serve_known : Time → Config → Request → Option Subscriber → Response
unfolding not_found has_expired answer
serve_known now c r none = not_found []
serve_known now c r (some who) = if has_expired now who then not_found [] else answer c who r

unfoldable pub serve : Time → Store → Request → Response
unfolding method_not_allowed serve_known lookup trim_prefix
serve now s r =
    if not (text_eq r.method method_get)
    then method_not_allowed
    else serve_known now s.loaded r
        (lookup (trim_prefix r.path (codes "/sub/")) s.loaded.subscribers)
