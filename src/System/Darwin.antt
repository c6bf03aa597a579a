-- ===== src/System/Darwin.antt =====
-- core/internal/system/network_darwin.go: routing and DNS on macOS. `Mac` is what the code calls
-- outside itself; a command is a value, and `argv` the words that `run` hands to the system.
pub mod Removed
pub mod Undone
mod Tests
use caelo.Base.{
  Bool, true, false, not, ◌&&◌, ◌||◌, Option, none, some, List, [], ◌∷◌, ◌++◌, if◌then◌else◌,
  Result, ok, err,
}
use caelo.Base.Effect.{Effect, wrap, pure, fail, lift, ◌>>=◌, ◌>>◌}
use caelo.Base.Int.{ℤ, is_positive, itoa}
use caelo.Base.Text.{
  Text, codes, text_eq, trim_space, split, cut, fields, has_prefix, contains, is_empty, join,
}
use caelo.System.{Config, default_halves}

abbrev pub has_any : List Text → Bool
has_any [] = false
has_any (_ ∷ _) = true

pub data Command : Type 0 where
  get_default : Command
  inet : Text → Text → Command
  mtu : Text → ℤ → Command
  add_host : Text → Text → Command
  add_net : Text → Text → Command
  delete_net : Text → Text → Command
  delete_host : Text → Command
  list_services : Command
  get_dns : Text → Command
  get_info : Text → Command
  set_dns : Text → List Text → Command
  v6_off : Text → Command
  v6_automatic : Text → Command

unfoldable pub argv : Command → List Text
unfolding itoa
argv get_default = codes "route" ∷ codes "-n" ∷ codes "get" ∷ codes "default" ∷ []
argv (inet i a) =
    codes "ifconfig"
    ∷ i
    ∷ codes "inet"
    ∷ a
    ∷ a
    ∷ codes "netmask"
    ∷ codes "255.255.255.255"
    ∷ codes "up"
    ∷ []
argv (mtu i n) = codes "ifconfig" ∷ i ∷ codes "mtu" ∷ itoa n ∷ []
argv (add_host h g) = codes "route" ∷ codes "-n" ∷ codes "add" ∷ codes "-host" ∷ h ∷ g ∷ []
argv (add_net n i) =
    codes "route" ∷ codes "-n" ∷ codes "add" ∷ codes "-net" ∷ n ∷ codes "-interface" ∷ i ∷ []
argv (delete_net n i) =
    codes "route" ∷ codes "-n" ∷ codes "delete" ∷ codes "-net" ∷ n ∷ codes "-interface" ∷ i ∷ []
argv (delete_host h) = codes "route" ∷ codes "-n" ∷ codes "delete" ∷ codes "-host" ∷ h ∷ []
argv list_services = codes "networksetup" ∷ codes "-listnetworkserviceorder" ∷ []
argv (get_dns s) = codes "networksetup" ∷ codes "-getdnsservers" ∷ s ∷ []
argv (get_info s) = codes "networksetup" ∷ codes "-getinfo" ∷ s ∷ []
argv (set_dns s l) = codes "networksetup" ∷ codes "-setdnsservers" ∷ s ∷ l
argv (v6_off s) = codes "networksetup" ∷ codes "-setv6off" ∷ s ∷ []
argv (v6_automatic s) = codes "networksetup" ∷ codes "-setv6automatic" ∷ s ∷ []

pub record State : Type 0 where
  pub default_gateway : Text
  pub default_interface : Text
  pub network_service : Text
  pub previous_dns : List Text
  pub ipv6_was_enabled : Bool

abbrev pub no_state : State
no_state = record {
  default_gateway = [];
  default_interface = [];
  network_service = [];
  previous_dns = [];
  ipv6_was_enabled = false;
}

-- exec.Command(...).CombinedOutput(), and net.ParseIP(s) != nil
pub record Mac : Type 1 where
  pub World : Type 0
  pub exec : Command → Effect World Text Text
  pub is_ip : Text → Bool

-- One line of `route -n get default`.
unfoldable pub scan_entry : Text → Text → State → State
unfolding text_eq trim_space
scan_entry key value s =
    if text_eq (trim_space key) (codes "gateway")
    then record s { default_gateway = trim_space value }
    else if text_eq (trim_space key) (codes "interface")
    then record s { default_interface = trim_space value }
    else s

unfoldable pub scan_lines : List Text → State → State
unfolding scan_entry cut trim_space
scan_lines [] s = s
scan_lines (line ∷ lines) s = elim (cut b':' (trim_space line)) [
  | none ↦ scan_lines lines s
  | some (key, value) ↦ scan_lines lines (scan_entry key value s)
]

-- strings.Cut(s, ") "): what is after it, and nothing where it is not there.
unfoldable pub after_bracket : Text → Text
unfolding has_prefix
after_bracket [] = []
after_bracket (c ∷ []) = []
after_bracket (c ∷ d ∷ s) =
    let r = after_bracket (d ∷ s) in if has_prefix (c ∷ d ∷ s) (codes ") ") then s else r

-- The loop of serviceForInterface.
unfoldable pub find_service : Text → Text → List Text → Option Text
unfolding has_prefix contains after_bracket trim_space
find_service device current [] = none
find_service device current (line ∷ lines) =
    let named = find_service device (trim_space (after_bracket (trim_space line))) lines in
    let other = find_service device current lines in
    if has_prefix (trim_space line) (codes "(") && contains (trim_space line) (codes ") ")
    then named
    else if contains (trim_space line) (codes "Device: " ++ device ++ codes ")")
    then some current
    else other

module _ (m : Mac) where
  open m use {World, exec, is_ip}

  abbrev pub M : Type 0 → Type 0
  M A = Effect World Text A

  -- A command whose output is not looked at, with what its failure is called.
  unfoldable pub must : Text → Command → M (Unit {0})
  unfolding wrap pure
  must what c = do _ ← wrap (λ why. what ++ codes ": " ++ why) (exec c); pure tt

  unfoldable pub service_for_interface : Text → M Text
  unfolding find_service split fail pure
  service_for_interface device = do
    output ← exec list_services
    elim (find_service device [] (split 10 output)) [
      | some name ↦ pure name
      | none ↦ fail (codes "no network service uses " ++ device)
    ]

  unfoldable pub ips : List Text → List Text
  ips [] = []
  ips (word ∷ words) = if is_ip word then word ∷ ips words else ips words

  -- A command whose failure is passed over.
  unfoldable pub read_dns : State → World → State × World
  unfolding ips fields
  read_dns s w =
      let (r, w') = exec (get_dns s.network_service) w in
      elim r [ ok dns ↦ (record s { previous_dns = ips (fields dns) }, w') | err _ ↦ (s, w') ]

  unfoldable pub read_info : State → World → State × World
  unfolding contains
  read_info s w =
      let (r, w') = exec (get_info s.network_service) w in
      elim r [
        | ok info ↦ (record s { ipv6_was_enabled = not (contains info (codes "IPv6: Off")) }, w')
        | err _ ↦ (s, w')
      ]

  unfoldable pub finish_snapshot : State → M State
  unfolding read_dns read_info
  finish_snapshot s w = let (s1, w1) = read_dns s w in let (s2, w2) = read_info s1 w1 in (ok s2, w2)

  unfoldable pub identify : State → M State
  unfolding service_for_interface finish_snapshot fail
  identify s =
      if is_empty s.default_gateway || is_empty s.default_interface
      then fail (codes "no default route: this machine is not on a network")
      else do
        service ← service_for_interface s.default_interface
        finish_snapshot (record s { network_service = service })

  -- Snapshot
  unfoldable pub snapshot : M State
  unfolding wrap scan_lines split identify
  snapshot = do
    output ← wrap (λ why. codes "finding the default route: " ++ why) (exec get_default)
    identify (scan_lines (split 10 output) no_state)

  -- Apply
  unfoldable pub add_halves : Text → List Text → M (Unit {0})
  unfolding must pure
  add_halves interface [] = pure tt
  add_halves interface (half ∷ halves) = do
    must (codes "routing " ++ half ++ codes " into the tunnel") (add_net half interface)
    add_halves interface halves

  unfoldable pub apply : State → Config → M (Unit {0})
  unfolding add_halves must pure
  apply state cfg = do
    must (codes "configuring " ++ cfg.interface) (inet cfg.interface cfg.address)
    if is_positive cfg.mtu
        then must (codes "setting MTU on " ++ cfg.interface) (mtu cfg.interface cfg.mtu)
        else pure tt
    must (codes "pinning the endpoint route") (add_host cfg.endpoint_host state.default_gateway)
    add_halves cfg.interface default_halves
    if state.ipv6_was_enabled
        then must (codes "disabling IPv6") (v6_off state.network_service)
        else pure tt
    if has_any cfg.dns
        then must (codes "setting DNS") (set_dns state.network_service cfg.dns)
        else pure tt

  -- attempt in Restore
  unfoldable pub attempt : Text → Command → List Text × World → List Text × World
  attempt what c (problems, w) =
      let (r, w') = exec c w in
      elim r [
        | ok _ ↦ (problems, w')
        | err why ↦ (problems ++ (what ++ codes ": " ++ why) ∷ [], w')
      ]

  unfoldable pub delete_halves : Text → List Text → List Text × World → List Text × World
  unfolding attempt
  delete_halves interface [] x = x
  delete_halves interface (half ∷ halves) x =
      delete_halves interface halves
        (attempt (codes "removing route " ++ half) (delete_net half interface) x)

  unfoldable pub restore_dns : State → List Text × World → List Text × World
  unfolding attempt
  restore_dns state x =
      if has_any state.previous_dns
      then attempt (codes "restoring DNS") (set_dns state.network_service state.previous_dns) x
      else attempt (codes "clearing DNS") (set_dns state.network_service (codes "Empty" ∷ [])) x

  unfoldable pub restore_v6 : State → List Text × World → List Text × World
  unfolding attempt
  restore_v6 state x =
      if state.ipv6_was_enabled
      then attempt (codes "re-enabling IPv6") (v6_automatic state.network_service) x
      else x

  abbrev pub report : List Text → Result Text (Unit {0})
  report [] = ok tt
  report (p ∷ ps) =
      err (codes "the machine was not fully restored:\n  " ++ join (codes "\n  ") (p ∷ ps))

  -- Restore
  unfoldable pub restore : State → Config → M (Unit {0})
  unfolding delete_halves attempt restore_dns restore_v6
  restore state cfg w =
      let (problems, w') = restore_v6 state (
        restore_dns state (
          attempt (codes "removing the endpoint route") (delete_host cfg.endpoint_host)
            (delete_halves cfg.interface default_halves ([], w)))) in
      (report problems, w')
