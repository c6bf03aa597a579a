-- ===== src/Systunnel/Sandbox.antt =====
-- A machine on which a tunnel comes up, which can be evaluated: its commands succeed, and its server
-- answers in the second round. The world is a clock.
use caelo.Base.{ℕ, zero, suc, ◌+◌, ◌*◌, true, none, some, [], ◌∷◌, ◌++◌, ok, if◌then◌else◌}
use caelo.Base.Text.{Text, codes, is_empty, contains_rune}
use caelo.Awg.Conf.{Netip}
use caelo.Handshake.{Poll}
use caelo.System.{Host, missing}
use caelo.System.Commands.{Command, route_show}
use caelo.Systunnel.{Machine}

abbrev pub output : Command → Text
output route_show = codes "default via 192.168.1.1 dev eth0"
output _ = []

abbrev pub desk : Host
desk = record {
  World = ℕ;
  exec = λ c w. (ok (output c), w + 1_000_000);
  has_resolvectl = λ w. true;
  read_link = λ w. none;
  read_file = λ w. none;
  write_file = λ s w. (ok tt, w);
  symlink = λ s w. (ok tt, w);
  remove_file = λ w. (missing (codes "no such file"), w);
  is_address = λ s. true;
}

abbrev pub names : Netip
names = record {
  Addr = Text;
  parse_prefix = λ s. if contains_rune b'/' s then some s else none;
  parse_addr = λ s. if is_empty s then none else some s;
}

abbrev pub dump : Text
dump = codes "last_handshake_time_sec=1700000000"

abbrev pub answer : ℕ → ℕ → Poll
answer w zero = record { uapi = some []; now = w + 200_000_000 }
answer w (suc i) = record { uapi = some dump; now = w + 400_000_000 + i * 200_000_000 }

abbrev pub computer : Machine
computer = record {
  host = desk;
  netip = names;
  Tun = ℕ;
  Device = ℕ;
  decode_endpoint = λ text. none;
  address_text = λ a. a;
  split_host_port = λ endpoint. ok (codes "203.0.113.7");
  is_ip = λ host. true;
  is_ip4 = λ host. true;
  lookup_host = λ host w. (ok [], w);
  create_tun = λ name mtu w. (ok 1, w);
  tun_name = λ tun w. (ok (codes "caelo0"), w);
  close_tun = λ tun w. w;
  new_device = λ tun w. (tun, w);
  ipc_set = λ dev text w. (ok tt, w);
  device_up = λ dev w. (ok tt, w);
  close_device = λ dev w. w;
  ipc_get = λ dev w. (ok dump, w);
  polls = λ dev w. (answer w, w + 400_000_000);
  clock = λ w. w;
  unix_now = λ w. 1700000001;
}

abbrev pub conf : Text
conf =
    codes "[Interface]"
    ++ 10 ∷ codes "PrivateKey = AAAAAAAAAAAAAAAAAAAAAAAAAAAAAAAAAAAAAAAAAAA="
    ++ 10 ∷ codes "Address = 10.8.0.2/32"
    ++ 10 ∷ codes "[Peer]"
    ++ 10 ∷ codes "PublicKey = AAAAAAAAAAAAAAAAAAAAAAAAAAAAAAAAAAAAAAAAAAA="
    ++ 10 ∷ codes "Endpoint = 203.0.113.7:51820"
    ++ 10 ∷ []

-- A host that has to be looked up, with an address of IPv6 before that of IPv4.
