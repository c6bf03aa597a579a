-- ===== src/Userspace/Sandbox.antt =====
-- A userspace that can be evaluated: its world is the list of the devices that run, and a new device
-- gets a number above all of them.
use caelo.Base.{
  ℕ, suc, ◌+◌, ◌<◌, Bool, false, not, ◌&&◌, ◌||◌, ◌==◌, ◌≡◌, refl, none, List, [], ◌∷◌, Result, ok,
  err, arith, if◌then◌else◌,
}
use caelo.Base.Int.{pos}
use caelo.Base.Text.{Text, codes}
use caelo.Awg
use caelo.Diag.{empty}
use caelo.Userspace.{Reply, Userspace, Tracked}

abbrev pub total : List ℕ → ℕ
total [] = 0
total (x ∷ l) = x + total l

abbrev pub listed : ℕ → List ℕ → Bool
listed d [] = false
listed d (x ∷ l) = d == x || listed d l

abbrev pub without : ℕ → List ℕ → List ℕ
without d [] = []
without d (x ∷ l) = let l' = without d l in if d == x then l' else x ∷ l'

pub listed-above : (d : ℕ) (l : List ℕ) → total l < d → listed d l ≡ false
listed-above d [] h = refl
listed-above d (x ∷ l) h =
    let later = listed-above d l (omega arith) in
    let apart : (d == x) ≡ false = ground arith in rw (apart, later) refl

pub listed-without : (d e : ℕ) (l : List ℕ) → listed d (without e l) ≡ (not (d == e) && listed d l)
listed-without d e [] = ground arith
listed-without d e (x ∷ l) = ground (arith, listed-without d e l)

abbrev pub reply : Reply
reply = record {
  status = codes "200 OK";
  body = record { bytes = codes "203.0.113.1\n"; failure = none };
  close_error = none;
}

-- Device 3 cannot be brought up.
abbrev pub bring_up : ℕ → Result Text (Unit {0})
bring_up dev = if dev == 3 then err (codes "no") else ok tt

abbrev pub sandbox : Userspace
sandbox = record {
  World = List ℕ;
  Addr = Text;
  Net = Unit {0};
  Request = Text;
  default_dns = codes "1.1.1.1";
  create_net_tun = λ a b mtu w. (ok tt, w);
  new_device = λ net w. (suc (total w), suc (total w) ∷ w);
  ipc_set = λ dev text w. (ok tt, w);
  device_up = λ dev w. (bring_up dev, w);
  close_device = without;
  new_request = λ url. ok url;
  do_request = λ net timeout r w. (ok reply, w);
  text_of = λ bytes. bytes;
  clock = λ w. 7;
  log = λ w. empty;
  with_log = λ r w. w;
  now = λ w. codes "12:00:00.000";
}

abbrev pub sandbox_tracked : Tracked sandbox
sandbox_tracked = record {
  is_open = listed;
  tun_keeps = λ a b mtu w d. refl;
  new_fresh = λ n w. listed-above (suc (total w)) w (omega arith);
  new_opens = λ n w d. refl;
  set_keeps = λ e t w d. refl;
  up_keeps = λ e w d. refl;
  close_stops = λ e w d. listed-without d e w;
  request_keeps = λ n t r w d. refl;
  log_keeps = λ r w d. refl;
}

abbrev pub peer : Awg.Peer
peer = record {
  public_key = [];
  preshared_key = [];
  endpoint = codes "198.51.100.2:51820";
  allowed_ips = codes "0.0.0.0/0" ∷ [];
  keepalive = pos 0;
}

-- What the sandbox reads from every text.
abbrev pub conf : Awg.Config Text
conf = record {
  private_key = [];
  addresses = codes "10.0.0.2" ∷ [];
  mtu = pos 1280;
  dns = [];
  obfuscation = [];
  peer = peer;
}

abbrev pub read_conf : Text → Awg.Go (Awg.Config Text)
read_conf text = ok conf
