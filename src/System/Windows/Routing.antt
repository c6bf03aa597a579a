-- ===== src/System/Windows/Routing.antt =====
-- core/internal/system/network_windows.go: what is known of the routes of Windows, and which of the
-- other adapters' routes Apply and Restore have no part in.
use caelo.Base.{
  ℕ, Bool, false, Option, List, [], ◌∷◌, Result, ok, err, ◌≡◌, ◌≢◌, refl, ap, ◌∙◌, ◌⊎◌,
}
use caelo.Base.Effect.{Effect, map_err}
use caelo.Base.Effect.Keeps.{
  Keeps, Keeps-pure, Keeps-bind, Keeps-if, Keeps-wrap, Keeps-lift, Keeps-lift_bind, keeps_rules,
}
use caelo.Base.Int.{ℤ}
use caelo.Base.Text.{Text, codes}
use caelo.System.Windows.{
  Family, inet, inet6, Prefix, IpHelper, IpInterface, Config, State, set_mtu, add_halves, block_v6,
  parse, parse_servers, apply_dns, apply_to, apply, note, unpin, undo, restore, bad_address,
  v4_halves, v6_halves,
}

pub record Route (h : IpHelper) : Type 0 where
  pub luid : ℕ
  pub prefix : Prefix h.Addr
  pub next_hop : Option h.Addr

-- What the IP Helper API says: a route is added or deleted alone, a deletion without an error leaves
-- none, flushing and addressing an adapter is its own business, and settings and DNS are no routes.
pub record Routing (h : IpHelper) : Type 0 where
  pub has_route : Route h → h.World → Bool
  pub decide : (x y : Route h) → (x ≡ y) ⊎ (x ≢ y)
  pub add_keeps :
      (x y : Route h) (w : h.World)
      → x ≢ y
      → has_route y (h.add_route x.luid x.prefix x.next_hop w).1 ≡ has_route y w
  pub delete_keeps :
      (x y : Route h) (w : h.World)
      → x ≢ y
      → has_route y (h.delete_route x.luid x.prefix x.next_hop w).1 ≡ has_route y w
  pub deleted :
      (x : Route h) (w : h.World)
      → (h.delete_route x.luid x.prefix x.next_hop w).0 ≡ ok tt
      → has_route x (h.delete_route x.luid x.prefix x.next_hop w).1 ≡ false
  pub flush_keeps :
      (l : ℕ) (f : Family) (y : Route h) (w : h.World)
      → l ≢ y.luid
      → has_route y (h.flush_routes l f w).1 ≡ has_route y w
  pub address_keeps :
      (l : ℕ) (ps : List (Prefix h.Addr)) (y : Route h) (w : h.World)
      → l ≢ y.luid
      → has_route y (h.set_ip_addresses l ps w).1 ≡ has_route y w
  pub settings_keep :
      (i : IpInterface) (y : Route h) (w : h.World)
      → has_route y (h.set_interface i w).1 ≡ has_route y w
  pub dns_keeps :
      (l : ℕ) (f : Family) (servers : List h.Addr) (y : Route h) (w : h.World)
      → has_route y (h.set_dns l f servers w).1 ≡ has_route y w
  pub flush_dns_keeps :
      (l : ℕ) (f : Family) (y : Route h) (w : h.World)
      → has_route y (h.flush_dns l f w).1 ≡ has_route y w

module _ (h : IpHelper) (r : Routing h) where
  -- The route that pins an endpoint to the physical adapter.
  abbrev pub pin : State h → h.Addr → Route h
  pin state endpoint = record {
    luid = state.default_interface;
    prefix = record { address = endpoint; bits = 32 };
    next_hop = state.next_hop;
  }

  -- Restore, after each of its first two parts.
  abbrev pub unpinned_from : State h → Config → h.World → List Text × h.World
  unpinned_from state cfg w = unpin h state (h.parse_addr cfg.endpoint_host) ([], w)

  abbrev pub dns_flushed : State h → Config → h.World → List Text × h.World
  dns_flushed state cfg w =
      note h (codes "clearing the tunnel's DNS") (h.flush_dns cfg.handle inet)
        (unpinned_from state cfg w)

  -- A route of another adapter than the tunnel's, which is there or not.
  module _ (cfg : Config) (y : Route h) (b : Bool) (apart : cfg.handle ≢ y.luid) where
    abbrev pub Same : h.World → Type 0
    Same w = r.has_route y w ≡ b

    tunnel_route-Same :
        (p : Prefix h.Addr) (n : Option h.Addr) → Keeps Same (h.add_route cfg.handle p n)
    tunnel_route-Same p n = record {
      from = λ w k.
          r.add_keeps (record { luid = cfg.handle; prefix = p; next_hop = n }) y w
            (λ e. apart (ap (λ (x : Route h). x.luid) e))
          ∙ k;
    }

    address-Same : (ps : List (Prefix h.Addr)) → Keeps Same (h.set_ip_addresses cfg.handle ps)
    address-Same ps = record { from = λ w k. r.address_keeps cfg.handle ps y w apart ∙ k }

    settings-Same : (i : IpInterface) → Keeps Same (h.set_interface i)
    settings-Same i = record { from = λ w k. r.settings_keep i y w ∙ k }

    dns-Same : (l : ℕ) (f : Family) (servers : List h.Addr) → Keeps Same (h.set_dns l f servers)
    dns-Same l f servers = record { from = λ w k. r.dns_keeps l f servers y w ∙ k }

    set_mtu-Same : (mtu : ℤ) → Keeps Same (set_mtu h cfg.handle mtu)
    unfolding set_mtu
    set_mtu-Same mtu = search (keeps_rules, settings-Same) depth 12

    halves-Same : (l : List (Prefix h.Addr)) → Keeps Same (add_halves h cfg.handle l)
    unfolding add_halves
    halves-Same [] = Keeps-pure tt
    halves-Same (p ∷ l) =
        Keeps-bind Same _ _ (Keeps-wrap _ _ (tunnel_route-Same p _)) (λ _. halves-Same l)

    block_v6-Same : (l : List (Prefix h.Addr)) → Keeps Same (block_v6 h cfg.handle l)
    unfolding block_v6
    block_v6-Same [] = record { from = λ w k. k }
    block_v6-Same (p ∷ l) = record {
      from = λ w k. (block_v6-Same l).from _ ((tunnel_route-Same p _).from w k);
    }

    parse_servers-Same : (l : List Text) → Keeps Same (parse_servers h l)
    unfolding parse_servers parse
    parse_servers-Same [] = Keeps-pure []
    parse_servers-Same (s ∷ l) =
        Keeps-bind Same _ _ (Keeps-lift _)
          (λ _. Keeps-bind Same _ _ (parse_servers-Same l) (λ _. Keeps-pure _))

    apply_dns-Same : (dns : List Text) → Keeps Same (apply_dns h cfg.handle dns)
    unfolding apply_dns
    apply_dns-Same dns = search (keeps_rules, parse_servers-Same, dns-Same) depth 12

    -- The pin, where the endpoint is an address, is another route.
    abbrev pub IsOther : State h → Type 0
    IsOther state = (e : h.Addr) → h.parse_addr cfg.endpoint_host ≡ ok e → pin state e ≢ y

    pin-Same :
        (state : State h) (e : h.Addr)
        → pin state e ≢ y
        → Keeps Same
            (h.add_route state.default_interface (record { address = e; bits = 32 }) state.next_hop)
    pin-Same state e k = record { from = λ w s. r.add_keeps (pin state e) y w k ∙ s }

    apply_to-Same :
        (state : State h) (a e : h.Addr) → pin state e ≢ y → Keeps Same (apply_to h state cfg a e)
    unfolding apply_to
    apply_to-Same state a e k = Keeps-bind Same _ _ (Keeps-wrap _ _ (address-Same _)) (λ _.
        Keeps-bind Same _ _ (Keeps-if _ _ _ (set_mtu-Same cfg.mtu) (Keeps-pure tt)) (λ _.
          Keeps-bind Same _ _ (Keeps-wrap _ _ (pin-Same state e k)) (λ _.
            Keeps-bind Same _ _ (halves-Same (v4_halves h)) (λ _.
              Keeps-bind Same _ _ (block_v6-Same (v6_halves h))
                (λ _. Keeps-if _ _ _ (apply_dns-Same cfg.dns) (Keeps-pure tt))))))

    pub apply-Same : (state : State h) → IsOther state → Keeps Same (apply h state cfg)
    unfolding apply parse
    apply-Same state other = Keeps-bind Same _ _ (Keeps-lift _) (λ a.
        Keeps-lift_bind Same _ _
          (λ e k. apply_to-Same state a e (other e (parsed (h.parse_addr cfg.endpoint_host) e k))))
      where
        parsed :
            (res : Result Text h.Addr) (e : h.Addr)
            → map_err (bad_address (codes "the endpoint") cfg.endpoint_host) res ≡ ok e
            → res ≡ ok e
        parsed (ok x) e k = cc
        parsed (err why) e k = cc

    note-Same :
        (what : Text) (m : Effect h.World Text (Unit {0})) (x : List Text × h.World)
        → Keeps Same m
        → Same x.1
        → Same (note h what m x).1
    unfolding note
    note-Same what m x k s = k.from x.1 s

    flush-Same : (f : Family) → Keeps Same (h.flush_routes cfg.handle f)
    flush-Same f = record { from = λ w k. r.flush_keeps cfg.handle f y w apart ∙ k }

    flush_dns-Same : Keeps Same (h.flush_dns cfg.handle inet)
    flush_dns-Same = record { from = λ w k. r.flush_dns_keeps cfg.handle inet y w ∙ k }

    pub restore-Same :
        (state : State h) (w : h.World)
        → Same (unpin h state (h.parse_addr cfg.endpoint_host) ([], w)).1
        → Same (restore h state cfg w).1
    unfolding restore undo
    restore-Same state w s = (flush-Same inet6).from _ (
        note-Same (codes "clearing the tunnel's routes") (h.flush_routes cfg.handle inet)
          (dns_flushed state cfg w) (flush-Same inet)
          (note-Same (codes "clearing the tunnel's DNS") (h.flush_dns cfg.handle inet)
            (unpinned_from state cfg w) flush_dns-Same s))

    pub unpin-Same :
        (state : State h) (res : Result Text h.Addr) (w : h.World)
        → ((e : h.Addr) → res ≡ ok e → pin state e ≢ y)
        → Same w
        → Same (unpin h state res ([], w)).1
    unfolding unpin note
    unpin-Same state (err why) w other s = s
    unpin-Same state (ok e) w other s = r.delete_keeps (pin state e) y w (other e refl) ∙ s
