-- ===== src/Libcaelo/Sandbox.antt =====
-- The outside of core/libcaelo/libcaelo.go, in a form that can be evaluated: a codec that keeps flags
-- and texts, and a userspace that keeps a log.
use caelo.Base.{
  ℕ, zero, suc, true, false, none, some, List, [], ◌∷◌, ◌++◌, map, ◌≡◌, refl, ap, ◌∙◌, ok, arith,
  Bool-cases, inl, inr,
}
use caelo.Base.Int.{pos}
use caelo.Base.Map
use caelo.Base.Text.{Text, codes, text_eq, text_key}
use caelo.Diag as Diag
use caelo.Diag.{Ring, logf}
use caelo.Userspace.{Userspace, Tracked}
use caelo.Userspace.Sandbox.{
  bring_up, reply, without, total, listed, listed-above, listed-without, read_conf,
}
use caelo.Answer.{Json, flag, number, text, texts, Object, Outside}
use caelo.Libcaelo.Logged.{Quiet, LogsOnly}
use caelo.Libcaelo.Reads.{Lawful, mapped}
use mathlib.Core.List.{append_assoc, append-nil}

-- What a value becomes: numbers and lists are lost.
abbrev pub rounded : Json → Json
rounded (flag b) = flag b
rounded (text t) = text t
rounded (number n) = number (pos 0)
rounded (texts l) = number (pos 0)

abbrev tag : Json → List ℕ
tag (text t) = 0 ∷ map suc t ++ 0 ∷ []
tag (flag false) = 1 ∷ []
tag (flag true) = 2 ∷ []
tag (number n) = 3 ∷ []
tag (texts l) = 3 ∷ []

-- A key, each character one up, a zero, and the value.
abbrev pub encode : Object → List ℕ
encode [] = []
encode ((k, v) ∷ m) = map suc k ++ (0 ∷ tag v ++ encode m)

pub data Mode : Type 0 where
  in_key : Text → Mode
  at_tag : Text → Mode
  in_text : Text → Text → Mode

abbrev pub decode : Mode → List ℕ → Object
decode mode [] = []
decode (in_key k) (zero ∷ l) = decode (at_tag k) l
decode (in_key k) (suc c ∷ l) = decode (in_key (k ++ c ∷ [])) l
decode (at_tag k) (zero ∷ l) = decode (in_text k []) l
decode (at_tag k) (suc zero ∷ l) = (k, flag false) ∷ decode (in_key []) l
decode (at_tag k) (suc (suc zero) ∷ l) = (k, flag true) ∷ decode (in_key []) l
decode (at_tag k) (suc (suc (suc n)) ∷ l) = (k, number (pos 0)) ∷ decode (in_key []) l
decode (in_text k t) (zero ∷ l) = (k, text t) ∷ decode (in_key []) l
decode (in_text k t) (suc c ∷ l) = decode (in_text k (t ++ c ∷ [])) l

decode-key :
    (acc k : Text) (l : List ℕ)
    → decode (in_key acc) (map suc k ++ 0 ∷ l) ≡ decode (at_tag (acc ++ k)) l
decode-key acc [] l = rw append-nil refl
decode-key acc (c ∷ k) l =
    decode-key (acc ++ c ∷ []) k l ∙ ap (λ x. decode (at_tag x) l) (append_assoc acc (c ∷ []) k)

decode-text :
    (k acc t : Text) (l : List ℕ)
    → decode (in_text k acc) (map suc t ++ 0 ∷ l) ≡ (k, text (acc ++ t)) ∷ decode (in_key []) l
decode-text k acc [] l = rw append-nil refl
decode-text k acc (c ∷ t) l =
    decode-text k (acc ++ c ∷ []) t l
    ∙ ap (λ x. (k, text x) ∷ decode (in_key []) l) (append_assoc acc (c ∷ []) t)

decode-tag :
    (k : Text) (v : Json) (l : List ℕ)
    → decode (at_tag k) (tag v ++ l) ≡ (k, rounded v) ∷ decode (in_key []) l
decode-tag k (flag false) l = refl
decode-tag k (flag true) l = refl
decode-tag k (number n) l = refl
decode-tag k (texts t) l = refl
decode-tag k (text t) l =
    ap (decode (in_text k [])) (append_assoc (map suc t) (0 ∷ []) l) ∙ decode-text k [] t l

abbrev rounded_all : Object → Object
rounded_all [] = []
rounded_all ((k, v) ∷ m) = (k, rounded v) ∷ rounded_all m

decode-encode : (m : Object) → decode (in_key []) (encode m) ≡ rounded_all m
decode-encode [] = refl
decode-encode ((k, v) ∷ m) =
    decode-key [] k (tag v ++ encode m)
    ∙ decode-tag k v (encode m)
    ∙ ap (λ l. (k, rounded v) ∷ l) (decode-encode m)

lookup-rounded :
    (j : Text) (m : Object) → Map.lookup j (rounded_all m) ≡ mapped rounded (Map.lookup j m)
unfolding Map.lookup
lookup-rounded j [] = refl
lookup-rounded j ((k, v) ∷ m) = elim (Bool-cases (text_eq k j)) [
  | inl e ↦ rw e refl
  | inr e ↦ rw e (lookup-rounded j m)
]

abbrev pub World : Type 0
World = List ℕ × Ring

-- The sandbox with a log: a device that comes up says so.
abbrev pub logged : Userspace
logged = record {
  World = World;
  Addr = Text;
  Net = Unit {0};
  Request = Text;
  default_dns = codes "1.1.1.1";
  create_net_tun = λ a b mtu w. (ok tt, w);
  new_device = λ net w. (suc (total w.0), (suc (total w.0) ∷ w.0, w.1));
  ipc_set = λ dev text w. (ok tt, w);
  device_up = λ dev w. (bring_up dev, (w.0, logf (codes "device up") w.1));
  close_device = λ dev w. (without dev w.0, w.1);
  new_request = λ url. ok url;
  do_request = λ net timeout r w. (ok reply, w);
  text_of = λ bytes. bytes;
  clock = λ w. 7;
  log = λ w. w.1;
  with_log = λ r w. (w.0, r);
  now = λ w. codes "12:00:00.000";
}

abbrev pub logged_tracked : Tracked logged
logged_tracked = record {
  is_open = λ d w. listed d w.0;
  tun_keeps = λ a b mtu w d. refl;
  new_fresh = λ n w. listed-above (suc (total w.0)) w.0 (omega arith);
  new_opens = λ n w d. refl;
  set_keeps = λ e t w d. refl;
  up_keeps = λ e w d. refl;
  close_stops = λ e w d. listed-without d e w.0;
  request_keeps = λ n t r w d. refl;
  log_keeps = λ r w d. refl;
}

abbrev pub outside : Outside logged
outside = record {
  encode = λ v. ok (encode v);
  decode = λ t. ok (decode (in_key []) t);
  decode_keys = λ t. ok (t ∷ []);
  addr_text = λ a. a;
  read_file = λ path w. ok path;
  build_info = none;
  version = codes "dev";
  error_text = λ e. codes "no";
  ed25519 = record { accepts = λ key message raw. ok true };
  read_conf = read_conf;
  time_exit = λ net target w. (some 4000000, w);
  round_trip = λ w. none;
}

pub outside-Lawful : Lawful logged outside
outside-Lawful = record {
  rounded = rounded;
  rounded_flag = λ b. refl;
  rounded_text = λ t. refl;
  read_back = λ v. (
    encode v,
    refl,
    decode (in_key []) (encode v),
    refl,
    λ k. ap (Map.lookup k) (decode-encode v) ∙ lookup-rounded k v,
  );
  log_with = λ r w. refl;
  total = λ key message raw h. (true, refl);
}

-- Nothing was logged.
silent : (w : World) → LogsOnly logged w w
unfolding Diag.run
silent w = ([], refl)

same_log : (w w' : World) → w'.1 ≡ w.1 → LogsOnly logged w w'
unfolding Diag.run
same_log w w' e = ([], e)

up_line : (dev : ℕ) (w : World) → LogsOnly logged w (logged.device_up dev w).1
unfolding Diag.run
up_line dev w = (codes "device up" ∷ [], refl)

pub outside-Quiet : Quiet logged outside
outside-Quiet = record {
  log_with = λ r w. refl;
  tun = λ a b mtu w. silent w;
  new = λ net w. same_log w (logged.new_device net w).1 refl;
  set = λ dev t w. silent w;
  up = up_line;
  close = λ dev w. same_log w (logged.close_device dev w) refl;
  request = λ net timeout r w. silent w;
  exit = λ net target w. silent w;
}
