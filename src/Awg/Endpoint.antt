-- ===== src/Awg/Endpoint.antt =====
-- core/internal/awg/endpoint.go: a configuration as a subscription delivers it. encoding/json is
-- not of this model: an endpoint arrives decoded. Its twenty-five obfuscation fields are a function
-- from the keys that Config gives them; a Scalar is the text that UnmarshalJSON keeps.
pub mod Accepted
pub mod Rendered
mod Tests
use caelo.Base.{
  ℕ, Bool, true, false, not, ◌&&◌, ◌||◌, Option, none, some, List, [], ◌∷◌, ◌++◌, if◌then◌else◌,
  Result, ok, err, ◌>>=◌, length, ◌==◌,
}
use caelo.Base.Int.{ℤ, pos, is_positive, is_zero, itoa}
use caelo.Base.Text.{Text, codes, is_empty, text_eq, contains_rune, has_prefix}
use caelo.Awg.{Go, said, label, Peer, Config, obfuscation_keys, key_to_hex, set_obfuscation}
use caelo.Awg.Conf.{Netip, parse_addr_list, default_config}

abbrev pub endpoint_type : Text
endpoint_type = codes "amneziawg"

pub record EndpointPeer : Type 0 where
  pub address : Text
  pub port : ℤ
  pub public_key : Text
  pub pre_shared_key : Text
  pub allowed_ips : List Text
  pub persistent_keepalive_interval : ℤ

pub record Endpoint : Type 0 where
  pub type : Text
  pub address : List Text
  pub private_key : Text
  pub mtu : ℤ
  pub dns : List Text
  pub peers : List EndpointPeer
  pub scalar : Text → Text

-- joinHostPort
pub join_host_port : Text → ℤ → Text
join_host_port host port =
    if contains_rune b':' host && not (has_prefix host (codes "["))
    then codes "[" ++ host ++ codes "]:" ++ itoa port
    else host ++ codes ":" ++ itoa port

-- The key, where there is one.
pub optional_key : Text → Go Text
optional_key key = if is_empty key then ok [] else label (codes "pre_shared_key") (key_to_hex key)

-- SetObfuscation for each field that is not empty. Go visits the map in any order; only one key can
-- fail, and each is set once.
pub set_scalars : {A : Type 0} → (Text → Text) → List Text → Config A → Go (Config A)
set_scalars scalar [] c = ok c
set_scalars scalar (key ∷ keys) c =
    if is_empty (scalar key)
    then set_scalars scalar keys c
    else do c' ← set_obfuscation key (scalar key) c; set_scalars scalar keys c'

-- cfg.Peer, once its keys are read.
abbrev pub peer_of : EndpointPeer → Text → Text → Peer
peer_of peer public_key preshared_key = record {
  public_key = public_key;
  preshared_key = preshared_key;
  endpoint = join_host_port peer.address peer.port;
  allowed_ips = if length peer.allowed_ips == 0 then codes "0.0.0.0/0" ∷ [] else peer.allowed_ips;
  keepalive = peer.persistent_keepalive_interval;
}

pub read_peer : EndpointPeer → Go Peer
read_peer peer = do
  public_key ← label (codes "public_key") (key_to_hex peer.public_key)
  preshared_key ← optional_key peer.pre_shared_key
  if is_empty peer.address || is_zero peer.port
      then err (said (codes "the peer has no address and port"))
      else ok (peer_of peer public_key preshared_key)

module _ (n : Netip) where
  open n use {Addr}

  -- The loops over Address and DNS.
  pub parse_all : Text → List Text → Go (List Addr)
  parse_all what [] = ok []
  parse_all what (value ∷ values) = do
    addrs ← label what (parse_addr_list n value)
    more ← parse_all what values
    ok (addrs ++ more)

  -- Endpoint.Config, from `privateKey` on.
  pub read_endpoint : Endpoint → EndpointPeer → Go (Config Addr)
  read_endpoint e peer = do
    private_key ← label (codes "private_key") (key_to_hex e.private_key)
    addresses ← parse_all (codes "address") e.address
    if length addresses == 0 then err (said (codes "the endpoint has no address")) else do
      dns ← parse_all (codes "dns") e.dns
      p ← read_peer peer
      set_scalars e.scalar obfuscation_keys (record {
        private_key = private_key;
        addresses = addresses;
        mtu = if is_positive e.mtu then e.mtu else pos 1420;
        dns = dns;
        obfuscation = [];
        peer = p;
      })

  -- len(e.Peers) is one.
  pub one_peer : Endpoint → List EndpointPeer → Go (Config Addr)
  one_peer e [] = err (said (codes "the endpoint has no peers"))
  one_peer e (peer ∷ []) = read_endpoint e peer
  one_peer e _ = err (said (codes "the endpoint has too many peers; AmneziaWG describes one"))

  -- Endpoint.Config
  pub endpoint_config : Endpoint → Go (Config Addr)
  endpoint_config e =
      if not (is_empty e.type) && not (text_eq e.type endpoint_type)
      then err (said (codes "endpoint type is not amneziawg: " ++ e.type))
      else one_peer e e.peers
