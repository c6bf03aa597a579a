-- ===== src/Fdtun/Tests.antt =====
-- A phone whose device comes up, and its sockets.
use caelo.Base.{ℕ, ◌≡◌, refl, true, none, some, [], ok, err}
use caelo.Base.Effect
use caelo.Base.Int.{pos, negsuc}
use caelo.Base.Text.{Text, codes}
use caelo.Awg
use caelo.Handshake
use caelo.Fdtun.Live.{Outcome, session_start-Outcome, new-IsSound}
use caelo.Fdtun.{
  Phone, start, no_status, new, configure, open_device, status, socket_fds, handshake_of,
}

abbrev phone : Phone
phone = record {
  World = ℕ;
  Addr = Text;
  Tun = ℕ;
  Device = ℕ;
  Bind = ℕ;
  adopt = λ fd mtu w. (ok 3, w);
  default_bind = λ w. (7, w);
  new_device = λ tun bind w. (tun.0, w);
  ipc_set = λ dev text w. (ok tt, w);
  device_up = λ dev w. (err (codes "no such device"), w);
  disable_roaming = λ dev w. w;
  close_device = λ dev w. 0;
  ipc_get = λ dev w. (ok (codes "last_handshake_time_sec=12"), w);
  can_peek = λ bind. true;
  peek_v4 = λ bind. ok (pos 40);
  peek_v6 = λ bind. err (codes "no IPv6");
  clock = λ w. w;
  unix_now = λ w. 1700000001;
}

abbrev conf : Awg.Config Text
conf = record {
  private_key = [];
  addresses = [];
  mtu = pos 1280;
  dns = [];
  obfuscation = [];
  peer = record {
    public_key = [];
    preshared_key = [];
    endpoint = codes "203.0.113.7:51820";
    allowed_ips = [];
    keepalive = pos 0;
  };
}

abbrev read_conf : Text → Awg.Go (Awg.Config Text)
read_conf text = ok conf

-- The device does not come up, and is closed.
closed : (configure phone read_conf conf 3 9).1 ≡ 0
unfolding configure Effect.wrap Effect.◌>>=◌
closed = refl

opened : (open_device phone read_conf (3, none) 9).0 ≡ ok (7, 3)
unfolding open_device
opened = refl

sockets : socket_fds phone read_conf (some 7) ≡ (pos 40, negsuc 0)
unfolding socket_fds
sockets = refl

handshake_seen : handshake_of phone read_conf (ok (codes "last_handshake_time_sec=12")) ≡ 12
unfolding handshake_of Handshake.parse
handshake_seen = refl

nothing_up : (status phone read_conf (new phone read_conf) 5).0 ≡ no_status
unfolding status
nothing_up = refl

-- A phone whose device comes up.
abbrev working : Phone
working = record phone { device_up = λ dev w. (ok tt, w) }

started : (start working read_conf (pos 5) [] (new working read_conf) 9).1.status.up ≡ true
unfolding start caelo.Fdtun.bring_up Effect.◌>>=◌ caelo.Fdtun.read_config Effect.wrap open_device
    configure
started = refl

session_start-Outcome_example :
    let (r, s', w') = start working read_conf (pos 5) [] (new working read_conf) 9 in
    Outcome working read_conf [] r s'
session_start-Outcome_example =
    session_start-Outcome working read_conf (pos 5) [] (new working read_conf) 9
      (new-IsSound working read_conf)
