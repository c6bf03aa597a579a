-- ===== src/System/Windows.antt =====
-- core/internal/system/network_windows.go: routing and DNS on Windows. `IpHelper` is what the code
-- calls outside itself: net/netip and the IP Helper API, as winipcfg has it.
pub mod Chosen
pub mod Routing
pub mod Undone
mod Tests
use caelo.Base.{
  ℕ, Bool, true, false, not, Option, none, some, List, [], ◌∷◌, ◌++◌, if◌then◌else◌, Result, ok,
  err, ltb, ◌==◌, ◌+◌, ◌-◌, ◌%◌, ◌^◌,
}
use caelo.Base.Effect.{Effect, wrap, lift, look, pure, fail, map_err, ◌>>=◌, ◌>>◌}
use caelo.Base.Int.{ℤ, pos, negsuc, is_positive}
use caelo.Base.Text.{Text, codes}

pub data Family : Type 0 where
  inet inet6 : Family

-- netip.Prefix
pub record Prefix (Addr : Type 0) : Type 0 where
  pub address : Addr
  pub bits : ℕ

-- What the code reads of a MibIPforwardRow2; an address that is not valid is `none`.
pub record Row (Addr : Type 0) : Type 0 where
  pub prefix_length : ℕ
  pub luid : ℕ
  pub metric : ℕ
  pub next_hop : Option Addr

-- What the code reads and writes of a MibIPInterfaceRow.
pub record IpInterface : Type 0 where
  pub luid : ℕ
  pub nl_mtu : ℕ
  pub use_automatic_metric : Bool
  pub metric : ℕ

pub record IpHelper : Type 1 where
  pub World : Type 0
  pub Addr : Type 0
  pub parse_addr : Text → Result Text Addr
  pub prefix_text : Prefix Addr → Text
  pub ipv4_unspecified : Addr
  pub ipv4_upper_half : Addr
  pub ipv6_unspecified : Addr
  pub ipv6_upper_half : Addr
  pub forward_table : World → Result Text (List (Row Addr))
  pub ip_interface : ℕ → World → Result Text IpInterface
  pub set_interface : IpInterface → Effect World Text (Unit {0})
  pub set_ip_addresses : ℕ → List (Prefix Addr) → Effect World Text (Unit {0})
  -- AddRoute with the metric 0
  pub add_route : ℕ → Prefix Addr → Option Addr → Effect World Text (Unit {0})
  pub delete_route : ℕ → Prefix Addr → Option Addr → Effect World Text (Unit {0})
  pub flush_routes : ℕ → Family → Effect World Text (Unit {0})
  -- SetDNS with no search domains
  pub set_dns : ℕ → Family → List Addr → Effect World Text (Unit {0})
  pub flush_dns : ℕ → Family → Effect World Text (Unit {0})

-- Config, with the fields that this platform reads.
pub record Config : Type 0 where
  pub handle : ℕ
  pub address : Text
  pub mtu : ℤ
  pub endpoint_host : Text
  pub dns : List Text

-- An error of this file: a message, an error with what it was wrapped in, and a text that is no
-- address, with what it was to be.
pub data Problem : Type 0 where
  said : Text → Problem
  wrapped : Text → Text → Problem
  bad_address : Text → Text → Text → Problem

-- ^uint32(0)
abbrev pub no_metric : ℕ
no_metric = 2 ^ 32 - 1

-- uint32(n) of an int
unfoldable pub uint32 : ℤ → ℕ
uint32 (pos n) = n % 2 ^ 32
uint32 (negsuc n) = 2 ^ 32 - 1 - n % 2 ^ 32

abbrev pub has_any : {A : Type 0} → List A → Bool
has_any [] = false
has_any (_ ∷ _) = true

-- joinLines, where something was joined before.
unfoldable pub join_more : Text → List Text → Text
join_more out [] = out
join_more out (line ∷ lines) = join_more (out ++ codes "\n  " ++ line) lines

-- joinLines
unfoldable pub join_lines : List Text → Text
unfolding join_more
join_lines [] = []
join_lines (line ∷ lines) = join_more line lines

module _ (h : IpHelper) where
  open h use {
    World, Addr, parse_addr, prefix_text, ipv4_unspecified, ipv4_upper_half, ipv6_unspecified,
    ipv6_upper_half, forward_table, ip_interface, set_interface, set_ip_addresses, add_route,
    delete_route, flush_routes, set_dns, flush_dns,
  }

  abbrev pub M : Type 0 → Type 0
  M A = Effect World Problem A

  pub record State : Type 0 where
    pub default_interface : ℕ
    pub next_hop : Option Addr

  abbrev pub no_state : State
  no_state = record { default_interface = 0; next_hop = none }

  -- row.Metric + ipif.Metric, of the rows that Snapshot does not skip.
  unfoldable pub cost : World → Row Addr → Option ℕ
  cost w row = if not (row.prefix_length == 0) then none else elim (ip_interface row.luid w) [
    | err _ ↦ none
    | ok ipif ↦ some ((row.metric + ipif.metric) % 2 ^ 32)
  ]

  abbrev pub state_of : Row Addr → State
  state_of row = record { default_interface = row.luid; next_hop = row.next_hop }

  -- The body of Snapshot's loop: `best` and the state after a row.
  unfoldable pub consider : Row Addr → Option ℕ → ℕ × State → ℕ × State
  consider row none (best, state) = (best, state)
  consider row (some total) (best, state) =
      if ltb total best then (total, state_of row) else (best, state)

  unfoldable pub choose : World → List (Row Addr) → ℕ × State → ℕ × State
  unfolding consider cost
  choose w [] found = found
  choose w (row ∷ rows) found = choose w rows (consider row (cost w row) found)

  -- Snapshot, with the table read.
  unfoldable pub checked : State → Result Problem State
  checked state = elim state.next_hop [
    | none ↦ err (said (codes "no default route: this machine is not on a network"))
    | some _ ↦ ok state
  ]

  -- Snapshot
  unfoldable pub snapshot : World → Result Problem State
  unfolding choose checked
  snapshot w = elim (forward_table w) [
    | err why ↦ err (wrapped (codes "reading the routing table") why)
    | ok rows ↦ checked (choose w rows (no_metric, no_state)).1
  ]

  abbrev pub prefix : Addr → ℕ → Prefix Addr
  prefix a n = record { address = a; bits = n }

  -- netip.ParseAddr, with what the text was to be.
  unfoldable pub parse : Text → Text → M Addr
  unfolding lift
  parse what text = lift (map_err (bad_address what text) (parse_addr text))

  abbrev pub fixed_metric : ℤ → IpInterface → IpInterface
  fixed_metric mtu ipif = record ipif {
    nl_mtu = uint32 mtu;
    use_automatic_metric = false;
    metric = 0;
  }

  -- Apply, where the configuration has an MTU.
  unfoldable pub set_mtu : ℕ → ℤ → M (Unit {0})
  unfolding wrap look lift uint32
  set_mtu luid mtu = do
    read ← look (ip_interface luid)
    ipif ← lift (map_err (wrapped (codes "reading the adapter's settings")) read)
    wrap (wrapped (codes "setting MTU and metric")) (set_interface (fixed_metric mtu ipif))

  unfoldable pub add_halves : ℕ → List (Prefix Addr) → M (Unit {0})
  unfolding wrap pure
  add_halves luid [] = pure tt
  add_halves luid (half ∷ halves) = do
    wrap (wrapped (codes "routing " ++ prefix_text half ++ codes " into the tunnel"))
        (add_route luid half (some ipv4_unspecified))
    add_halves luid halves

  -- A failure is passed over.
  unfoldable pub block_v6 : ℕ → List (Prefix Addr) → M (Unit {0})
  block_v6 luid [] w = (ok tt, w)
  block_v6 luid (half ∷ halves) w =
      block_v6 luid halves (add_route luid half (some ipv6_unspecified) w).1

  unfoldable pub parse_servers : List Text → M (List Addr)
  unfolding parse pure
  parse_servers [] = pure []
  parse_servers (server ∷ servers) = do
    addr ← parse (codes "DNS server") server
    rest ← parse_servers servers
    pure (addr ∷ rest)

  unfoldable pub apply_dns : ℕ → List Text → M (Unit {0})
  unfolding parse_servers wrap
  apply_dns luid dns = do
    servers ← parse_servers dns
    wrap (wrapped (codes "setting DNS")) (set_dns luid inet servers)

  abbrev pub v4_halves : List (Prefix Addr)
  v4_halves = prefix ipv4_unspecified 1 ∷ prefix ipv4_upper_half 1 ∷ []

  abbrev pub v6_halves : List (Prefix Addr)
  v6_halves = prefix ipv6_unspecified 1 ∷ prefix ipv6_upper_half 1 ∷ []

  -- Apply, with the two addresses parsed.
  unfoldable pub apply_to : State → Config → Addr → Addr → M (Unit {0})
  unfolding set_mtu add_halves block_v6 apply_dns wrap pure
  apply_to state cfg address endpoint = do
    wrap (wrapped (codes "addressing the tunnel adapter"))
        (set_ip_addresses cfg.handle (prefix address 32 ∷ []))
    if is_positive cfg.mtu then set_mtu cfg.handle cfg.mtu else pure tt
    wrap (wrapped (codes "pinning the endpoint route"))
        (add_route state.default_interface (prefix endpoint 32) state.next_hop)
    add_halves cfg.handle v4_halves
    block_v6 cfg.handle v6_halves
    if has_any cfg.dns then apply_dns cfg.handle cfg.dns else pure tt

  -- Apply
  unfoldable pub apply : State → Config → M (Unit {0})
  unfolding parse apply_to
  apply state cfg = do
    address ← parse (codes "the tunnel address") cfg.address
    endpoint ← parse (codes "the endpoint") cfg.endpoint_host
    apply_to state cfg address endpoint

  -- note(what, err) with the call that made the error.
  unfoldable pub note : Text → Effect World Text (Unit {0}) → List Text × World → List Text × World
  note what m (problems, w) =
      let (r, w') = m w in
      (elim r [ ok _ ↦ problems | err why ↦ problems ++ (what ++ codes ": " ++ why) ∷ [] ], w')

  unfoldable pub unpin : State → Result Text Addr → List Text × World → List Text × World
  unfolding note
  unpin state (err _) x = x
  unpin state (ok endpoint) x =
      note (codes "removing the endpoint route")
        (delete_route state.default_interface (prefix endpoint 32) state.next_hop) x

  abbrev pub report : List Text → Result Text (Unit {0})
  report [] = ok tt
  report (p ∷ ps) = err (codes "the machine was not fully restored:\n  " ++ join_lines (p ∷ ps))

  -- Restore, up to what it reports.
  unfoldable pub undo : State → Config → World → List Text × World
  unfolding note unpin
  undo state cfg w =
      let (problems, w1) =
        note (codes "clearing the tunnel's routes") (flush_routes cfg.handle inet) (
          note (codes "clearing the tunnel's DNS") (flush_dns cfg.handle inet)
            (unpin state (parse_addr cfg.endpoint_host) ([], w))) in
      (problems, (flush_routes cfg.handle inet6 w1).1)

  -- Restore
  unfoldable pub restore : State → Config → Effect World Text (Unit {0})
  unfolding undo join_lines
  restore state cfg w = let (problems, w') = undo state cfg w in (report problems, w')
