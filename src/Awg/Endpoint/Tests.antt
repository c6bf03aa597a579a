-- ===== src/Awg/Endpoint/Tests.antt =====
-- An endpoint as a node serves it.
use caelo.Base.{◌≡◌, refl, arith, none, some, [], ◌∷◌, if◌then◌else◌, ok, length}
use caelo.Base.Int.{pos, itoa}
use caelo.Base.Map
use caelo.Base.Text.{Text, codes, is_empty, text_eq, contains_rune, split, trim_space, has_prefix}
use caelo.Awg.{Config, set_obfuscation, key_to_hex}
use caelo.Awg.Clean.{Clean}
use caelo.Awg.Conf.{Netip, parse_addr_list}
use caelo.Awg.Endpoint.{
  Endpoint, endpoint_config, one_peer, read_endpoint, parse_all, read_peer, optional_key,
  set_scalars, join_host_port,
}
use caelo.Awg.Endpoint.Accepted.{IsComplete, endpoint_config-IsComplete}
use caelo.Awg.Endpoint.Rendered.{Fits}

abbrev names : Netip
names = record {
  Addr = Text;
  parse_prefix = λ s. if contains_rune b'/' s then some s else none;
  parse_addr = λ s. if is_empty s then none else some s;
}

abbrev key : Text
key = codes "AAAAAAAAAAAAAAAAAAAAAAAAAAAAAAAAAAAAAAAAAAA="

abbrev zeros : Text
zeros = codes "0000000000000000000000000000000000000000000000000000000000000000"

abbrev scalars : Text → Text
scalars name = if text_eq name (codes "jc") then codes "4" else []

abbrev node : Endpoint
node = record {
  type = codes "amneziawg";
  address = codes "10.8.0.2/32" ∷ [];
  private_key = key;
  mtu = pos 0;
  dns = [];
  peers =
      record {
        address = codes "2001:db8::1";
        port = pos 51820;
        public_key = key;
        pre_shared_key = [];
        allowed_ips = [];
        persistent_keepalive_interval = pos 25;
      }
      ∷ [];
  scalar = scalars;
}

abbrev read : Config Text
read = record {
  private_key = zeros;
  addresses = codes "10.8.0.2/32" ∷ [];
  mtu = pos 1420;
  dns = [];
  obfuscation = (codes "jc", codes "4") ∷ [];
  peer = record {
    public_key = zeros;
    preshared_key = [];
    endpoint = codes "[2001:db8::1]:51820";
    allowed_ips = codes "0.0.0.0/0" ∷ [];
    keepalive = pos 25;
  };
}

node_accepted : endpoint_config names node ≡ ok read
unfolding endpoint_config one_peer read_endpoint parse_all read_peer optional_key set_scalars
    join_host_port set_obfuscation parse_addr_list key_to_hex text_eq split trim_space contains_rune
    Map.insert has_prefix itoa
node_accepted = refl

scalars-Clean : (name : Text) → Clean (scalars name)
scalars-Clean name = ground arith

node-Fits : Fits node
node-Fits = ((omega arith, scalars-Clean))

endpoint_config-IsComplete_example : IsComplete read × (length node.peers ≡ 1)
endpoint_config-IsComplete_example = endpoint_config-IsComplete names node read node_accepted
