-- ===== src/Systunnel/Tests.antt =====
-- The controller on a machine where a tunnel comes up, and each theorem there.
use caelo.Base.{◌≡◌, refl, not, ◌&&◌, [], ◌∷◌, ok}
use caelo.Base.Effect
use caelo.Base.Int.{pos}
use caelo.Base.Text.{Text, codes, contains_rune}
use caelo.Awg
use caelo.Handshake
use caelo.Handshake.{Poll}
use caelo.Systunnel.{
  Machine, endpoint_address, host_address, first_ip4, pick_ip4, open_device, on_error, handshake_of,
  new, start,
}
use caelo.Systunnel.Calls.{new-IsSound}
use caelo.Systunnel.Sandbox.{dump, computer, conf}
use caelo.Systunnel.Sound.{Outcome, start-Outcome}

abbrev resolver : Machine
resolver = record computer {
  is_ip = λ host. contains_rune b'.' host && not (contains_rune b'v' host);
  is_ip4 = λ host. contains_rune b'.' host;
  split_host_port = λ endpoint. ok (codes "vpn.example");
  lookup_host = λ host w. (ok (codes "::1" ∷ codes "203.0.113.7" ∷ []), w);
}

resolves : (endpoint_address resolver (codes "vpn.example:51820") 0).0 ≡ ok (codes "203.0.113.7")
unfolding endpoint_address host_address first_ip4 pick_ip4 Effect.pure Effect.wrap Effect.◌>>=◌
    contains_rune
resolves = refl

abbrev peerless : Awg.Config Text
peerless = record {
  private_key = [];
  addresses = [];
  mtu = pos 1420;
  dns = [];
  obfuscation = [];
  peer = record {
    public_key = [];
    preshared_key = [];
    endpoint = [];
    allowed_ips = [];
    keepalive = pos 0;
  };
}

opens : (open_device computer peerless 0).0 ≡ ok (codes "caelo0", 1)
unfolding open_device on_error Effect.wrap Effect.◌>>=◌
opens = refl

dump_read : handshake_of computer (ok dump) ≡ 1700000000
unfolding handshake_of Handshake.parse
dump_read = refl

start-Outcome_example :
    let (r, c, w) = start computer conf (new computer) 0 in Outcome computer conf r c
start-Outcome_example = start-Outcome computer conf (new computer) 0 (new-IsSound computer)
