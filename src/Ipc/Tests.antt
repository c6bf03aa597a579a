-- ===== src/Ipc/Tests.antt =====
-- Requests, on a machine whose commands all fail.
use caelo.Base.{ℕ, ◌+◌, ◌*◌, ◌≡◌, refl, true, false, none, some, [], ok, err}
use caelo.Base.Text.{Text, codes, text_eq}
use caelo.System.{missing}
use caelo.Systunnel.{Machine, new}
use caelo.Systunnel.Calls.{new-IsSound}
use caelo.Ipc.{Request, handle, command_connect, command_version}
use caelo.Ipc.Answers.{Connected, connect-Connected}

abbrev broken : Machine
broken = record {
  host = record {
    World = ℕ;
    exec = λ c w. (err (codes "exit status 1"), w);
    has_resolvectl = λ w. false;
    read_link = λ w. none;
    read_file = λ w. none;
    write_file = λ s w. (err (codes "read-only file system"), w);
    symlink = λ s w. (err (codes "read-only file system"), w);
    remove_file = λ w. (missing (codes "no such file"), w);
    is_address = λ s. true;
  };
  netip = record { Addr = Text; parse_prefix = λ s. some s; parse_addr = λ s. some s };
  Tun = ℕ;
  Device = ℕ;
  decode_endpoint = λ text. none;
  address_text = λ a. a;
  split_host_port = λ endpoint. ok (codes "203.0.113.7");
  is_ip = λ host. true;
  is_ip4 = λ host. true;
  lookup_host = λ host w. (ok [], w);
  create_tun = λ name mtu w. (ok 1, w);
  tun_name = λ tun w. (ok (codes "caelo0"), w);
  close_tun = λ tun w. w;
  new_device = λ tun w. (tun, w);
  ipc_set = λ dev text w. (ok tt, w);
  device_up = λ dev w. (ok tt, w);
  close_device = λ dev w. w;
  ipc_get = λ dev w. (ok [], w);
  polls = λ dev w. ((λ i. record { uapi = none; now = w + i * 200_000_000 }), w);
  clock = λ w. w;
  unix_now = λ w. 1700000001;
}

abbrev connect : Request
connect = record { command = command_connect; protocol = some 1; config = codes "[Interface]" }

abbrev old : Request
old = record connect { protocol = some 0 }

old_command : text_eq old.command command_version ≡ false
unfolding text_eq
old_command = refl

connect-Connected_example :
    let (reply, c, w) = handle broken [] [] connect (new broken) 0 in
    Connected broken [] [] connect.config reply c
connect-Connected_example =
    connect-Connected broken [] [] connect (new broken) 0 (new-IsSound broken) refl refl
