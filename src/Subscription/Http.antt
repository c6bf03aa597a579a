-- ===== src/Subscription/Http.antt =====
-- What the server uses of net/http and time: a request, the answer that is built on a
-- ResponseWriter, and times, of which one may be the zero time.Time.
use caelo.Base.{
  ℕ, Bool, true, false, none, some, List, [], ◌∷◌, ◌++◌, if◌then◌else◌, ltb, leb, ◌==◌, ◌&&◌, ◌||◌,
  ◌+◌, ◌-◌,
}
use caelo.Base.Int.{ℤ, pos, negsuc}
use caelo.Base.Map.{lookup, insert}
use caelo.Base.Text.{Text, codes, text_key}
use caelo.Subscription.{Time, Document, CaeloDocument}

-- A JSON answer of the state: one entry of "nodes".
pub record NodeState : Type 0 where
  pub id : Text
  pub version : Text
  pub server : Text

-- What is handed to json.Encoder, or the text of an error.
pub data Body : Type 0 where
  text : Text → Body
  document : Document → Body
  caelo_document : CaeloDocument → Body
  state : Text → List NodeState → Body

-- Header keys in canonical form, each with its first value.
pub record Request : Type 0 where
  pub method : Text
  pub path : Text
  pub header : List (Text × Text)

pub record Response : Type 0 where
  pub status : ℕ
  pub header : List (Text × Text)
  pub body : Body

-- http.MethodGet, http.StatusMethodNotAllowed
abbrev pub method_get : Text
method_get = codes "GET"

abbrev pub status_ok : ℕ
status_ok = 200

abbrev pub status_method_not_allowed : ℕ
status_method_not_allowed = 405

abbrev pub status_not_found : ℕ
status_not_found = 404

-- textproto.CanonicalMIMEHeaderKey of a valid key: a capital at the start and after a dash.
unfoldable pub canonical_from : Bool → Text → Text
canonical_from start [] = []
canonical_from true (c ∷ key) =
    (if leb b'a' c && leb c b'z' then c - 32 else c) ∷ canonical_from (c == b'-') key
canonical_from false (c ∷ key) =
    (if leb b'A' c && leb c b'Z' then c + 32 else c) ∷ canonical_from (c == b'-') key

-- Header.Set
unfoldable pub set_header : Text → Text → List (Text × Text) → List (Text × Text)
unfolding canonical_from insert
set_header key value header = insert (canonical_from true key) value header

-- Header.Get
unfoldable pub get_header : Text → List (Text × Text) → Text
unfolding canonical_from lookup
get_header key header = elim (lookup (canonical_from true key) header) [ none ↦ [] | some v ↦ v ]

-- http.Error, which ends the message with a line end.
unfoldable pub http_error : List (Text × Text) → Text → ℕ → Response
unfolding set_header
http_error header message code = record {
  status = code;
  header =
      set_header (codes "X-Content-Type-Options") (codes "nosniff")
        (set_header (codes "Content-Type") (codes "text/plain; charset=utf-8") header);
  body = text (message ++ codes "\n");
}

-- http.NotFound
unfoldable pub not_found : List (Text × Text) → Response
unfolding http_error
not_found header = http_error header (codes "404 page not found") status_not_found

-- a < b on int64
unfoldable pub int_ltb : ℤ → ℤ → Bool
int_ltb (pos a) (pos b) = ltb a b
int_ltb (pos a) (negsuc b) = false
int_ltb (negsuc a) (pos b) = true
int_ltb (negsuc a) (negsuc b) = ltb b a

unfoldable pub int_eq : ℤ → ℤ → Bool
int_eq (pos a) (pos b) = a == b
int_eq (negsuc a) (negsuc b) = a == b
int_eq _ _ = false

-- Time.IsZero: the first of January of the year 1.
unfoldable pub is_zero_time : Time → Bool
unfolding int_eq
is_zero_time t = int_eq t.unix (negsuc 62135596799) && t.nanosecond == 0

-- t.After(u)
unfoldable pub after : Time → Time → Bool
unfolding int_ltb int_eq
after t u = int_ltb u.unix t.unix || (int_eq u.unix t.unix && ltb u.nanosecond t.nanosecond)
