-- ===== src/System/Windows/Tests.antt =====
-- A machine that can be evaluated: its world says which routes there are. Snapshot, Apply and Restore
-- on it, and the theorems at a concrete configuration.
use caelo.Base.{
  ℕ, Bool, true, false, ◌&&◌, Option, none, some, List, [], ◌∷◌, ◌≡◌, ◌≢◌, refl, sym, ap, ◌∙◌,
  Result, ok, err, if◌then◌else◌, Bool-cases, inl, inr, ◌⊎◌, ◌==◌, arith, ◌^◌, ◌-◌,
}
use caelo.Base.Int.{pos, negsuc}
use caelo.Base.Text.{Text, codes, text_eq}
use caelo.System.Windows.{
  Prefix, Row, IpInterface, IpHelper, Config, State, snapshot, apply, restore, uint32, join_lines,
  wrapped,
}
use caelo.System.Windows.Routing.{Route, Routing}
use caelo.System.Windows.Undone.{apply-restore}
use caelo.Base.Effect.{◌>>=◌}

-- A route: adapter, address, length, router.
pub record Way : Type 0 where
  pub luid : ℕ
  pub address : ℕ
  pub bits : ℕ
  pub router : Option ℕ

abbrev same_router : Option ℕ → Option ℕ → Bool
same_router none none = true
same_router none (some b) = false
same_router (some a) none = false
same_router (some a) (some b) = a == b

abbrev same_way : Way → Way → Bool
same_way x y =
    x.luid == y.luid && x.address == y.address && x.bits == y.bits && same_router x.router y.router

abbrev way : ℕ → Prefix ℕ → Option ℕ → Way
way l p n = record { luid = l; address = p.address; bits = p.bits; router = n }

abbrev Table : Type 0
Table = Way → Bool

abbrev set_way : Way → Bool → Table → Table
set_way x b t y = if same_way x y then b else t y

-- 1 is 0.0.0.0, 2 is 128.0.0.0, 3 is ::, 4 is 8000::, 9 is 198.51.100.2, 10 is 10.8.0.2.
abbrev numbered : Text → Result Text ℕ
numbered t =
    if text_eq t (codes "9")
    then ok 9
    else if text_eq t (codes "a")
    then ok 10
    else err (codes "no")

abbrev rows : List (Row ℕ)
rows =
    record { prefix_length = 24; luid = 5; metric = 0; next_hop = none }
    ∷ record { prefix_length = 0; luid = 5; metric = 25; next_hop = some 20 }
    ∷ record { prefix_length = 0; luid = 8; metric = 1; next_hop = some 22 }
    ∷ record { prefix_length = 0; luid = 6; metric = 10; next_hop = some 21 }
    ∷ []

-- Adapter 8 has gone; 5 and 6 are there.
abbrev settings : ℕ → Result Text IpInterface
settings l =
    if l == 8
    then err (codes "gone")
    else ok (record {
      luid = l;
      nl_mtu = 1500;
      use_automatic_metric = true;
      metric = if l == 5 then 5 else 35;
    })

abbrev machine : IpHelper
machine = record {
  World = Table;
  Addr = ℕ;
  parse_addr = numbered;
  prefix_text = λ p. codes "half";
  ipv4_unspecified = 1;
  ipv4_upper_half = 2;
  ipv6_unspecified = 3;
  ipv6_upper_half = 4;
  forward_table = λ t. ok rows;
  ip_interface = λ l t. settings l;
  set_interface = λ i t. (ok tt, t);
  set_ip_addresses = λ l ps t. (ok tt, t);
  add_route = λ l p n t. (ok tt, set_way (way l p n) true t);
  delete_route = λ l p n t. (ok tt, set_way (way l p n) false t);
  flush_routes = λ l f t. (ok tt, λ x. if l == x.luid then false else t x);
  set_dns = λ l f s t. (err (codes "refused"), t);
  flush_dns = λ l f t. (ok tt, t);
}

abbrev way_of : Route machine → Way
way_of x = way x.luid x.prefix x.next_hop

router-same : (a b : Option ℕ) → same_router a b ≡ true → a ≡ b
router-same none none e = refl
router-same none (some b) e = cc
router-same (some a) none e = cc
router-same (some a) (some b) e = ap some (ground arith)

router_self : (a : Option ℕ) → same_router a a ≡ true
router_self none = refl
router_self (some a) = ground arith

way-ext :
    (l l' a a' b b' : ℕ) (n n' : Option ℕ)
    → l ≡ l'
    → a ≡ a'
    → b ≡ b'
    → n ≡ n'
    → ◌≡◌ {A = Route machine}
        (record { luid = l; prefix = record { address = a; bits = b }; next_hop = n })
        (record { luid = l'; prefix = record { address = a'; bits = b' }; next_hop = n' })
way-ext l l' a a' b b' n n' p q r s = cc

way_self : (x : Way) → same_way x x ≡ true
way_self x = rw (router_self x.router) (ground arith)

same_way-eq : (x y : Route machine) → same_way (way_of x) (way_of y) ≡ true → x ≡ y
same_way-eq x y e =
    way-ext x.luid y.luid x.prefix.address y.prefix.address x.prefix.bits y.prefix.bits x.next_hop
      y.next_hop (ground arith) (ground arith) (ground arith)
      (router-same x.next_hop y.next_hop (ground arith))

same_way_self : (x y : Route machine) → x ≡ y → same_way (way_of x) (way_of y) ≡ true
same_way_self x y e =
    sym (ap (λ (z : Route machine). same_way (way_of x) (way_of z)) e) ∙ way_self (way_of x)

decide : (x y : Route machine) → (x ≡ y) ⊎ (x ≢ y)
decide x y = elim (Bool-cases (same_way (way_of x) (way_of y))) [
  | inl e ↦ inl (same_way-eq x y e)
  | inr e ↦ inr (λ same. let equal = same_way_self x y same in cc)
]

set_keeps :
    (x y : Route machine) (b : Bool) (t : Table)
    → x ≢ y
    → set_way (way_of x) b t (way_of y) ≡ t (way_of y)
set_keeps x y b t k = elim (Bool-cases (same_way (way_of x) (way_of y))) [
  | inl e ↦ elim (k (same_way-eq x y e)) [ ]
  | inr e ↦ rw e refl
]

flush_apart :
    (l : ℕ) (y : Route machine) (t : Table)
    → l ≢ y.luid
    → (if l == y.luid then false else t (way_of y)) ≡ t (way_of y)
flush_apart l y t k = ground arith

machine_routing : Routing machine
machine_routing = record {
  has_route = λ x t. t (way_of x);
  decide = decide;
  add_keeps = λ x y t k. set_keeps x y true t k;
  delete_keeps = λ x y t k. set_keeps x y false t k;
  deleted = λ x t e. rw (way_self (way_of x)) refl;
  flush_keeps = λ l f y t k. flush_apart l y t k;
  address_keeps = λ l ps y t k. refl;
  settings_keep = λ i y t. refl;
  dns_keeps = λ l f servers y t. refl;
  flush_dns_keeps = λ l f y t. refl;
}

-- The first default is over adapter 5, at 30; that over 8 is passed over, and 6 is at 45.
abbrev before : State machine
before = record { default_interface = 5; next_hop = some 20 }

abbrev cfg : Config
cfg = record {
  handle = 7;
  address = codes "a";
  mtu = pos 1280;
  endpoint_host = codes "9";
  dns = codes "a" ∷ [];
}

-- A machine with one route, of adapter 5.
abbrev lan : Route machine
lan = record { luid = 5; prefix = record { address = 30; bits = 24 }; next_hop = none }

abbrev table : Table
table y = same_way (way_of lan) y

snapshot_read : snapshot machine table ≡ ok before
unfolding snapshot
snapshot_read = refl

apply_failed :
    (apply machine before cfg table).0 ≡ err (wrapped (codes "setting DNS") (codes "refused"))
unfolding apply ◌>>=◌ text_eq
apply_failed = refl

pinned :
    (apply machine before cfg table).1 (way 5 (record { address = 9; bits = 32 }) (some 20)) ≡ true
unfolding apply ◌>>=◌ text_eq
pinned = refl

restored : (restore machine before cfg (apply machine before cfg table).1).0 ≡ ok tt
unfolding restore text_eq
restored = refl

wrapped_around : uint32 (negsuc 0) ≡ 2 ^ 32 - 1
unfolding uint32
wrapped_around = refl

lines : join_lines (codes "a" ∷ codes "b" ∷ codes "c" ∷ []) ≡ codes "a\n  b\n  c"
unfolding join_lines
lines = refl

apply-restore_example :
    (restore machine before cfg (apply machine before cfg table).1).1 (way_of lan) ≡ true
unfolding text_eq machine_routing restore
apply-restore_example =
    apply-restore machine machine_routing before cfg table refl refl lan (omega arith)
