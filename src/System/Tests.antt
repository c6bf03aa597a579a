-- ===== src/System/Tests.antt =====
-- A small machine: its routing table is a map from prefixes to interfaces, and it has neither
-- resolvectl nor a link at /etc/resolv.conf.
use caelo.Base.{
  ◌≡◌, refl, true, false, ◌&&◌, Option, none, some, List, [], ◌∷◌, arith, if◌then◌else◌, Result, ok,
  err,
}
use caelo.Base.Effect
use caelo.Base.Int.{pos}
use caelo.Base.Map
use caelo.Base.Text.{Text, codes, text_eq, text_key, split, fields}
use caelo.System.{
  missing, Host, State, Config, scan_fields, run, scan_lines, resolved_is_answering, snapshot_dns,
  snapshot, apply, restore,
}
use caelo.System.Commands.{
  Command, route_show, route_via, route_dev, route_del_dev, route_del, argv, link_mtu, address_add,
  link_up, unreachable_add, unreachable_del, resolvectl_status, resolvectl_dns, resolvectl_domain,
  resolvectl_revert,
}
use caelo.System.Kept.{first_half, second_half, pin}
use caelo.System.Rollback.{apply_restored, pin_lost}
use caelo.System.Routes.{Routing, succeeded, cleared, is_route}

abbrev Table : Type 0
Table = List (Text × Text)

abbrev add : Text → Text → Option Text → Table → Result Text Text × Table
add to dev none t = (ok [], Map.insert to dev t)
add to dev (some d) t = (err (codes "File exists"), t)

abbrev del_dev : Text → Text → Option Text → Table → Result Text Text × Table
del_dev to dev none t = (err (codes "No such process"), t)
del_dev to dev (some d) t =
    if text_eq d dev then (ok [], Map.remove to t) else (err (codes "No such process"), t)

exec : Command → Table → Result Text Text × Table
exec (route_via to via dev) t = add to dev (Map.lookup to t) t
exec (route_dev to dev) t = add to dev (Map.lookup to t) t
exec (route_del_dev to dev) t = del_dev to dev (Map.lookup to t) t
exec (route_del to) t = (ok [], Map.remove to t)
exec route_show t = (ok (codes "default via 192.168.1.1 dev eth0 proto dhcp"), t)
exec _ t = (ok [], t)

abbrev machine : Host
machine = record {
  World = Table;
  exec = exec;
  has_resolvectl = λ t. false;
  read_link = λ t. none;
  read_file = λ t. some (codes "nameserver 192.168.1.1");
  write_file = λ s t. (ok tt, t);
  symlink = λ s t. (ok tt, t);
  remove_file = λ t. (missing (codes "no such file"), t);
  is_address = λ s. true;
}

add-lookup :
    (to dev : Text) (t : Table) (o : Option Text) (x : Text)
    → Map.lookup x (add to dev o t).1
      ≡ (if succeeded (add to dev o t).0 && text_eq to x then some dev else Map.lookup x t)
add-lookup to dev t none x = Map.lookup-insert to x dev t
add-lookup to dev t (some d) x = refl

del_dev-lookup :
    (to dev : Text) (t : Table) (x : Text)
    → Map.lookup x (del_dev to dev (Map.lookup to t) t).1
      ≡ (if text_eq to x then cleared dev (Map.lookup x t) else Map.lookup x t)
del_dev-lookup to dev t x = ground (arith, text_key.beq_iff to x, Map.lookup-remove to x t)

not_both : true ≡ false → ⊥
not_both e = ground arith

others :
    (c : Command) (t : Table) (x : Text)
    → is_route c ≡ false
    → Map.lookup x (exec c t).1 ≡ Map.lookup x t
unfolding exec
others route_show t x e = refl
others (address_add to dev) t x e = refl
others (link_mtu dev mtu) t x e = refl
others (link_up dev) t x e = refl
others (route_via to via dev) t x e = absurd (not_both e)
others (route_dev to dev) t x e = absurd (not_both e)
others (route_del_dev to dev) t x e = absurd (not_both e)
others (route_del to) t x e = absurd (not_both e)
others (unreachable_add to) t x e = refl
others (unreachable_del to) t x e = refl
others resolvectl_status t x e = refl
others (resolvectl_dns dev servers) t x e = refl
others (resolvectl_domain dev) t x e = refl
others (resolvectl_revert dev) t x e = refl

routing : Routing machine
unfolding exec
routing = record {
  route_to = λ t x. Map.lookup x t;
  via_adds = λ to via dev t x. add-lookup to dev t (Map.lookup to t) x;
  via_taken = λ to via dev d t e. rw e refl;
  dev_adds = λ to dev t x. add-lookup to dev t (Map.lookup to t) x;
  del_dev_clears = λ to dev t x. del_dev-lookup to dev t x;
  del_clears = λ to t x. Map.lookup-remove to x t;
  others_keep = others;
  write_keeps = λ s t x. refl;
  symlink_keeps = λ s t x. refl;
  remove_keeps = λ t x. refl;
}

abbrev tunnel : Config
tunnel = record {
  interface = codes "caelo0";
  address = codes "10.8.0.2";
  mtu = pos 1420;
  endpoint_host = codes "203.0.113.7";
  dns = codes "10.8.0.1" ∷ [];
}

abbrev found : State
found = record {
  default_gateway = codes "192.168.1.1";
  default_interface = codes "eth0";
  resolved = false;
  previous_resolv_conf = some (codes "nameserver 192.168.1.1");
  resolv_conf_link = [];
}

abbrev before : Table
before = (codes "192.168.1.0/24", codes "eth0") ∷ []

snapshot-found : (snapshot machine before).0 ≡ ok found
unfolding snapshot exec scan_lines scan_fields snapshot_dns resolved_is_answering Effect.◌>>=◌
    Effect.wrap run split fields text_eq
snapshot-found = refl

mtu_command :
    argv (link_mtu (codes "caelo0") (pos 1420))
    ≡ codes "ip"
      ∷ codes "link"
      ∷ codes "set"
      ∷ codes "dev"
      ∷ codes "caelo0"
      ∷ codes "mtu"
      ∷ codes "1420"
      ∷ []
unfolding argv
mtu_command = refl

absent :
    (routing.route_to before first_half ≡ none)
    × (routing.route_to before second_half ≡ none)
    × (routing.route_to before (pin tunnel) ≡ none)
unfolding routing Map.lookup text_eq
absent = (refl, refl, refl)

apply_restored_example :
    routing.route_to
      (restore machine found tunnel (apply machine found tunnel before).1).1
      (codes "192.168.1.0/24")
    ≡ routing.route_to before (codes "192.168.1.0/24")
apply_restored_example =
    apply_restored machine routing found tunnel before absent.0 absent.1 absent.2
      (codes "192.168.1.0/24")

-- With a route to the endpoint from the start.
abbrev pinned : Table
pinned = (codes "203.0.113.7/32", codes "eth1") ∷ before

pin_lost_example :
    routing.route_to
      (restore machine found tunnel (apply machine found tunnel pinned).1).1
      (pin tunnel)
    ≡ none
pin_lost_example = pin_lost machine routing found tunnel pinned
