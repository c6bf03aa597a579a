-- ===== src/Subscription.antt =====
-- examples/subscription-server/main.go: the documents that the server hands out and the file that
-- it is driven by. Reading that file and the strict json.Decoder are parameters, and so is the
-- encoding of an answer; a field that `omitempty` leaves out is empty here.
pub mod Http
pub mod Serve
pub mod State
pub mod Loaded
pub mod Answers
pub mod Refused
pub mod Version
pub mod Changed
mod Tests
use caelo.Base.{
  ℕ, Bool, true, false, Option, none, some, List, [], ◌∷◌, ◌++◌, if◌then◌else◌, Result, ok, err,
  ltb, length,
}
use caelo.Base.Int.{ℤ, pos}
use caelo.Base.Map.{lookup}
use caelo.Base.Text.{Text, codes, text_key, byte_length}

-- endpointType
abbrev pub endpoint_type : Text
endpoint_type = codes "amneziawg"

-- caeloDocumentType
abbrev pub caelo_document_type : Text
caelo_document_type = codes "application/vnd.caelo.subscription+json"

pub record Peer : Type 0 where
  pub address : Text
  pub port : ℤ
  pub public_key : Text
  pub pre_shared_key : Text
  pub allowed_ips : List Text
  pub persistent_keepalive_interval : ℤ

-- A json.RawMessage is its text.
pub record Endpoint : Type 0 where
  pub type : Text
  pub tag : Text
  pub address : List Text
  pub private_key : Text
  pub mtu : ℤ
  pub dns : List Text
  pub peers : List Peer
  pub jc : Text
  pub jmin : Text
  pub jmax : Text
  pub s1 : Text
  pub s2 : Text
  pub s3 : Text
  pub s4 : Text
  pub h1 : Text
  pub h2 : Text
  pub h3 : Text
  pub h4 : Text
  pub i1 : Text
  pub i2 : Text
  pub i3 : Text
  pub i4 : Text
  pub i5 : Text

-- endpoint{}, which Go reads where a map has no entry.
abbrev pub no_endpoint : Endpoint
no_endpoint = record {
  type = [];
  tag = [];
  address = [];
  private_key = [];
  mtu = pos 0;
  dns = [];
  peers = [];
  jc = [];
  jmin = [];
  jmax = [];
  s1 = [];
  s2 = [];
  s3 = [];
  s4 = [];
  h1 = [];
  h2 = [];
  h3 = [];
  h4 = [];
  i1 = [];
  i2 = [];
  i3 = [];
  i4 = [];
  i5 = [];
}

pub record Document : Type 0 where
  pub endpoints : List Endpoint

pub record CaeloNode : Type 0 where
  pub id : Text
  pub country : Text
  pub description : Text
  pub maintenance : Bool
  pub endpoint : Endpoint

pub record CaeloDocument : Type 0 where
  pub version : ℕ
  pub nodes : List CaeloNode

pub record Meta : Type 0 where
  pub country : Text
  pub description : Text
  pub maintenance : Bool

abbrev pub no_meta : Meta
no_meta = record { country = []; description = []; maintenance = false }

-- time.Time: seconds since 1970 and nanoseconds.
pub record Time : Type 0 where
  pub unix : ℤ
  pub nanosecond : ℕ

pub record Subscriber : Type 0 where
  pub expires : Time
  pub quota_bytes : ℤ
  pub used_bytes : ℤ
  pub nodes : List Text

-- A Go map is its entries, in the order in which a loop visits them.
pub record Config : Type 0 where
  pub update_interval_hours : ℤ
  pub subscribers : List (Text × Subscriber)
  pub nodes : List (Text × Endpoint)
  pub meta : List (Text × Meta)

pub record Store : Type 0 where
  pub path : Text
  pub loaded : Config

-- What reload reports: an error of the file or of the decoder, a node that is not defined, or the
-- length of a short token.
pub data ReloadError : Type 0 where
  reading : Text → Text → ReloadError
  undefined_node : Text → ReloadError
  short_token : ℕ → ReloadError

-- The loop over `who.Nodes`.
unfoldable pub check_nodes : Config → List Text → Option ReloadError
unfolding lookup
check_nodes c [] = none
check_nodes c (name ∷ names) = elim (lookup name c.nodes) [
  | none ↦ some (undefined_node name)
  | some _ ↦ check_nodes c names
]

unfoldable pub check_token : Text → Option ReloadError
unfolding byte_length
check_token token =
    if ltb (byte_length token) 24 then some (short_token (byte_length token)) else none

-- What comes first of two checks.
abbrev pub or_then : Option ReloadError → Option ReloadError → Option ReloadError
or_then (some e) later = some e
or_then none later = later

-- The loop over `loaded.Subscribers`.
unfoldable pub check : Config → List (Text × Subscriber) → Option ReloadError
unfolding check_nodes check_token
check c [] = none
check c ((token, who) ∷ more) =
    or_then (check_nodes c who.nodes) (or_then (check_token token) (check c more))

-- reload, from the file's text on.
unfoldable pub take_loaded : Config → Store → Store × Option ReloadError
unfolding check
take_loaded loaded s = elim (check loaded loaded.subscribers) [
  | some e ↦ (s, some e)
  | none ↦ (record s { loaded = loaded }, none)
]

module _ (read_file : Text → Result Text Text) (decode : Text → Result Text Config) where
  unfoldable pub reload : Store → Store × Option ReloadError
  unfolding take_loaded
  reload s = elim (read_file s.path) [
    | err why ↦ (s, some (reading s.path why))
    | ok raw ↦ elim (decode raw) [
      | err why ↦ (s, some (reading s.path why))
      | ok loaded ↦ take_loaded loaded s
    ]
  ]

unfoldable pub count : Store → ℕ
count s = length s.loaded.subscribers
