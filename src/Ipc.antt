-- ===== src/Ipc.antt =====
-- core/internal/ipc/protocol.go, and what core/cmd/caelo-service/main.go does with a request: `serve`
-- once a line is read, `handle` and `fromStatus`. The socket, the check of the peer and
-- encoding/json are not of this model: a request arrives decoded, or as `none` where it does not
-- decode.
pub mod Answers
mod Tests
use caelo.Base.{
  ℕ, Bool, true, false, not, Option, none, some, List, [], ◌∷◌, Result, ok, err, if◌then◌else◌, ltb,
  ◌==◌,
}
use caelo.Base.Text.{Text, codes, is_empty, text_eq}
use caelo.System.{Problem}
use caelo.Systunnel.{Machine, Status, Controller, Failure, World, start, stop, status}

abbrev pub protocol_version : ℕ
protocol_version = 1

abbrev pub command_connect : Text
command_connect = codes "connect"

abbrev pub command_disconnect : Text
command_disconnect = codes "disconnect"

abbrev pub command_status : Text
command_status = codes "status"

abbrev pub command_version : Text
command_version = codes "version"

-- `protocol` is the field ProtocolVersion, an int that JSON may give any value: `none` stands for
-- the negative ones.
pub record Request : Type 0 where
  pub command : Text
  pub protocol : Option ℕ
  pub config : Text

-- An error is `none` where the code's text is empty.
pub record Response (E : Type 0) : Type 0 where
  pub ok : Bool
  pub error : Option E
  pub up : Bool
  pub interface : Text
  pub endpoint : Text
  pub protocol : Text
  pub obfuscated : Bool
  pub since_unix : ℕ
  pub handshake_unix : ℕ
  pub latency_ms : ℕ
  pub core : Text
  pub amneziawg : Text
  pub protocol_version : ℕ

-- ipc.Response{}
abbrev pub no_response : {E : Type 0} → Response E
no_response = record {
  ok = false;
  error = none;
  up = false;
  interface = [];
  endpoint = [];
  protocol = [];
  obfuscated = false;
  since_unix = 0;
  handshake_unix = 0;
  latency_ms = 0;
  core = [];
  amneziawg = [];
  protocol_version = 0;
}

module _ (m : Machine) (core amneziawg : Text) where
  -- What a response can complain of.
  pub data Complaint : Type 0 where
    malformed : Complaint
    older_application : Complaint
    older_service : Complaint
    unknown_command : Complaint
    failed : Failure m → Complaint
    not_restored : List (Text × Problem) → Complaint

  abbrev pub Reply : Type 0
  Reply = Response Complaint

  abbrev pub refusal : Complaint → Reply
  refusal c = record no_response { error = some c }

  -- fromStatus
  pub from_status : Status → Reply
  from_status s = record no_response {
    ok = true;
    up = s.up;
    interface = s.interface;
    endpoint = s.endpoint;
    protocol = s.protocol;
    obfuscated = s.obfuscated;
    since_unix = s.since_unix;
    handshake_unix = s.handshake_unix;
    latency_ms = s.latency_ms;
  }

  abbrev pub version_reply : Reply
  version_reply = record no_response {
    ok = true;
    core = core;
    amneziawg = amneziawg;
    protocol_version = protocol_version;
  }

  abbrev pub speaks : Option ℕ → Bool
  speaks none = false
  speaks (some p) = p == protocol_version

  -- request.ProtocolVersion < ipc.ProtocolVersion
  abbrev pub is_older : Option ℕ → Bool
  is_older none = true
  is_older (some p) = ltb p protocol_version

  -- An error of Stop is one problem at least.
  abbrev pub stop_reply : List (Text × Problem) → Reply
  stop_reply [] = record no_response { ok = true }
  stop_reply (p ∷ ps) = refusal (not_restored (p ∷ ps))

  abbrev pub start_reply : Result (Failure m) Status → Reply
  start_reply (ok s) = from_status s
  start_reply (err e) = refusal (failed e)

  -- The switch of handle.
  pub dispatch : Request → Controller m → World m → Reply × Controller m × World m
  dispatch r c w =
      if text_eq r.command command_status
      then (let (s, c', w') = status m c w in (from_status s, c', w'))
      else if text_eq r.command command_connect
      then (let (s, c', w') = start m r.config c w in (start_reply s, c', w'))
      else if text_eq r.command command_disconnect
      then (let (p, c', w') = stop m c w in (stop_reply p, c', w'))
      else (refusal unknown_command, c, w)

  -- handle
  pub handle : Request → Controller m → World m → Reply × Controller m × World m
  handle r c w =
      if text_eq r.command command_version
      then (version_reply, c, w)
      else if not (speaks r.protocol)
      then (
        (if is_older r.protocol then refusal older_application else refusal older_service),
        c,
        w,
      )
      else dispatch r c w

  -- serve, from the decoding of the line on.
  pub serve : Option Request → Controller m → World m → Reply × Controller m × World m
  serve none c w = (refusal malformed, c, w)
  serve (some r) c w = handle r c w
