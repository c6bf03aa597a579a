-- ===== src/System.antt =====
-- core/internal/system/network_linux.go: the machine's routing and DNS on Linux. What the code
-- calls outside itself (the commands `ip` and `resolvectl`, the file /etc/resolv.conf, and
-- net.ParseIP) is the parameter `Host`; a command is a value, and `argv` is its command line.
pub mod Commands
pub mod Routes
pub mod Kept
pub mod Rollback
pub mod Darwin
pub mod Windows
mod Tests
use caelo.Base.{
  ℕ, Bool, true, false, not, ◌&&◌, ◌||◌, Option, none, some, List, [], ◌∷◌, ◌++◌, if◌then◌else◌,
  Result, ok, err,
}
use caelo.Base.Int.{ℤ, is_positive}
use caelo.Base.Effect.{Effect, pure, fail, wrap, attempt, ◌>>=◌, ◌>>◌}
use caelo.Base.Text.{Text, codes, is_empty, text_eq, split, fields}
use Commands.{
  Command, route_show, address_add, link_mtu, link_up, route_via, route_dev, route_del_dev,
  route_del, unreachable_add, unreachable_del, resolvectl_status, resolvectl_dns, resolvectl_domain,
  resolvectl_revert,
}

-- An `error`: that of a command, one of the operating system's, a message of this file's own, and
-- a message wrapped round another error.
pub data Problem : Type 0 where
  command : Command → Text → Problem
  os : Text → Problem
  said : Text → Problem
  wrapped : Text → Problem → Problem

-- What os.Remove reports: nil, an error for which os.IsNotExist holds, another error.
pub data Removal : Type 0 where
  removed : Removal
  missing : Text → Removal
  refused : Text → Removal

pub record Host : Type 1 where
  pub World : Type 0
  pub exec : Command → Effect World Text Text
  pub has_resolvectl : World → Bool
  pub read_link : World → Option Text
  pub read_file : World → Option Text
  pub write_file : Text → Effect World Text (Unit {0})
  pub symlink : Text → Effect World Text (Unit {0})
  pub remove_file : World → Removal × World
  pub is_address : Text → Bool

pub record State : Type 0 where
  pub default_gateway : Text
  pub default_interface : Text
  pub resolved : Bool
  pub previous_resolv_conf : Option Text
  pub resolv_conf_link : Text

pub record Config : Type 0 where
  pub interface : Text
  pub address : Text
  pub mtu : ℤ
  pub endpoint_host : Text
  pub dns : List Text

abbrev pub default_halves : List Text
default_halves = codes "0.0.0.0/1" ∷ codes "128.0.0.0/1" ∷ []

abbrev pub v6_halves : List Text
v6_halves = codes "::/1" ∷ codes "8000::/1" ∷ []

abbrev pub host_prefix : Text → Text
host_prefix address = address ++ codes "/32"

-- The fields of a default route, taken in pairs: a word after `via`, a word after `dev`.
pub scan_fields : List Text → Text × Text → Text × Text
scan_fields (a ∷ b ∷ more) (gateway, interface) = scan_fields (b ∷ more) (
    if text_eq a (codes "via")
    then (b, interface)
    else if text_eq a (codes "dev")
    then (gateway, b)
    else (gateway, interface))
scan_fields _ found = found

abbrev pub is_default : List Text → Bool
is_default [] = false
is_default (a ∷ _) = text_eq a (codes "default")

-- The first line that begins with `default`.
pub scan_lines : List Text → Text × Text
scan_lines [] = ([], [])
scan_lines (line ∷ more) =
    let later = scan_lines more in
    if is_default (fields line) then scan_fields (fields line) ([], []) else later

module _ (h : Host) where
  open h use {
    World, exec, has_resolvectl, read_link, read_file, write_file, symlink, remove_file, is_address,
  }

  abbrev pub M : Type 0 → Type 0
  M A = Effect World Problem A

  -- run
  pub run : Command → M Text
  run c = wrap (command c) (exec c)

  -- run(…), with "what: %w" on failure.
  pub must : Text → Command → M (Unit {0})
  must what c = do wrap (wrapped what) (run c); pure tt

  pub resolved_is_answering : M Bool
  resolved_is_answering w =
      if not (has_resolvectl w)
      then (ok false, w)
      else let (r, w') = run resolvectl_status w in
        (elim r [ ok _ ↦ ok true | err _ ↦ ok false ], w')

  -- The part of Snapshot after the default route.
  pub snapshot_dns : Text × Text → M State
  snapshot_dns (gateway, interface) = do
    resolved ← resolved_is_answering
    λ w. (
      ok (record {
        default_gateway = gateway;
        default_interface = interface;
        resolved = resolved;
        previous_resolv_conf = if resolved then none else read_file w;
        resolv_conf_link = if resolved then [] else elim (read_link w) [ none ↦ [] | some t ↦ t ];
      }),
      w,
    )

  -- Snapshot
  pub snapshot : M State
  snapshot = do
    output ← wrap (wrapped (codes "finding the default route")) (run route_show)
    let found = scan_lines (split 10 output)
    if is_empty found.0 || is_empty found.1
        then fail (said (codes "no default route: this machine is not on a network"))
        else snapshot_dns found

  -- for _, half := range defaultHalves
  pub route_halves : Text → List Text → M (Unit {0})
  route_halves interface [] = pure tt
  route_halves interface (half ∷ halves) = do
    must (codes "routing " ++ half ++ codes " into the tunnel") (route_dev half interface)
    route_halves interface halves

  -- Failure is not fatal.
  pub block_v6 : List Text → M (Unit {0})
  block_v6 [] = pure tt
  block_v6 (half ∷ halves) = do attempt (run (unreachable_add half)); block_v6 halves

  -- The lines of the file that applyDNS writes, or the first server that is no address.
  pub nameservers : List Text → Result Text Text
  nameservers [] = ok []
  nameservers (server ∷ servers) =
      if not (is_address server) then err server else elim (nameservers servers) [
        | ok file ↦ ok (codes "nameserver " ++ server ++ 10 ∷ file)
        | err bad ↦ err bad
      ]

  abbrev pub resolv_header : Text
  resolv_header =
      codes "# Written by Caelo while a tunnel is up."
      ++ 10 ∷ codes "# The previous contents are restored when it comes down."
      ++ 10 ∷ []

  -- os.Remove, where any error counts.
  pub remove_or_fail : Text → M (Unit {0})
  remove_or_fail what w =
      let (r, w') = remove_file w in
      (
        elim r [
          | removed ↦ ok tt
          | missing e ↦ err (wrapped what (os e))
          | refused e ↦ err (wrapped what (os e))
        ],
        w',
      )

  -- os.Remove, where a file that is not there is none.
  pub remove_present : M (Unit {0})
  remove_present w =
      let (r, w') = remove_file w in
      (elim r [ removed ↦ ok tt | missing e ↦ ok tt | refused e ↦ err (os e) ], w')

  pub write_resolv : State → Text → M (Unit {0})
  write_resolv state file = do
    if is_empty state.resolv_conf_link
        then pure tt
        else remove_or_fail (codes "replacing /etc/resolv.conf")
    wrap (λ e. wrapped (codes "writing /etc/resolv.conf") (os e)) (write_file file)

  pub write_servers : State → Result Text Text → M (Unit {0})
  write_servers state (ok file) = write_resolv state (resolv_header ++ file)
  write_servers state (err server) = fail (said (codes "DNS server is not an address: " ++ server))

  -- applyDNS
  pub apply_dns : State → Config → M (Unit {0})
  apply_dns state cfg =
      if state.resolved
      then (do
        must (codes "setting DNS on " ++ cfg.interface) (resolvectl_dns cfg.interface cfg.dns)
        must (codes "claiming DNS for " ++ cfg.interface) (resolvectl_domain cfg.interface))
      else write_servers state (nameservers cfg.dns)

  abbrev pub has_dns : List Text → Bool
  has_dns [] = false
  has_dns (_ ∷ _) = true

  -- Apply
  pub apply : State → Config → M (Unit {0})
  apply state cfg = do
    must (codes "addressing " ++ cfg.interface)
        (address_add (host_prefix cfg.address) cfg.interface)
    if is_positive cfg.mtu
        then must (codes "setting MTU on " ++ cfg.interface) (link_mtu cfg.interface cfg.mtu)
        else pure tt
    must (codes "bringing up " ++ cfg.interface) (link_up cfg.interface)
    must (codes "pinning the endpoint route")
        (route_via (host_prefix cfg.endpoint_host) state.default_gateway state.default_interface)
    route_halves cfg.interface default_halves
    block_v6 v6_halves
    if has_dns cfg.dns then apply_dns state cfg else pure tt

  -- With no file before, leaving ours would invent configuration.
  pub write_back : Option Text → M (Unit {0})
  write_back none = remove_present
  write_back (some contents) = wrap os (write_file contents)

  -- restoreDNS
  pub restore_dns : State → Config → M (Unit {0})
  restore_dns state cfg =
      if state.resolved
      then (do run (resolvectl_revert cfg.interface); pure tt)
      else if not (is_empty state.resolv_conf_link)
      then (do remove_present; wrap os (symlink state.resolv_conf_link))
      else write_back state.previous_resolv_conf

  -- note(what, call): the problem, if there was one, behind those before it.
  pub note :
      {A : Type 0} → Text → M A → List (Text × Problem) → World → List (Text × Problem) × World
  note what m problems w =
      let (r, w') = m w in (elim r [ ok _ ↦ problems | err e ↦ problems ++ (what, e) ∷ [] ], w')

  pub remove_halves :
      Text → List Text → List (Text × Problem) → World → List (Text × Problem) × World
  remove_halves interface [] problems w = (problems, w)
  remove_halves interface (half ∷ halves) problems w =
      let (problems', w') =
        note (codes "removing route " ++ half) (run (route_del_dev half interface)) problems w in
      remove_halves interface halves problems' w'

  -- Added without complaint, removed without one.
  pub unblock_v6 : List Text → World → World
  unblock_v6 [] w = w
  unblock_v6 (half ∷ halves) w = unblock_v6 halves (run (unreachable_del half) w).1

  -- Restore; the error is nil if there are no problems.
  pub restore : State → Config → World → List (Text × Problem) × World
  restore state cfg w =
      let (p1, w1) = remove_halves cfg.interface default_halves [] w in
      let (p2, w2) =
        note (codes "removing the endpoint route") (run (route_del (host_prefix cfg.endpoint_host)))
          p1 w1 in
      note (codes "restoring DNS") (restore_dns state cfg) p2 (unblock_v6 v6_halves w2)
