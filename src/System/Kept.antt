-- ===== src/System/Kept.antt =====
-- Which steps of Apply and Restore leave the IPv4 routes alone.
use caelo.Base.{◌≡◌, refl, false, not, Option, none, some, List, [], ◌∷◌, ◌++◌, Result, ok, err}
use caelo.Base.Effect.Keeps.{
  Keeps, Keeps-pure, Keeps-if, Keeps-bind, Keeps-wrap, Keeps-attempt, keeps_rules,
}
use caelo.Base.Int.{is_positive}
use caelo.Base.Text.{Text, codes, is_empty}
use caelo.System.{
  Host, State, Config, M, run, must, v6_halves, host_prefix, route_halves, block_v6, nameservers,
  resolv_header, remove_or_fail, remove_present, write_resolv, write_servers, write_back, apply_dns,
  has_dns, apply, restore_dns,
}
use caelo.System.Commands.{
  Command, route_via, route_dev, address_add, link_mtu, link_up, unreachable_add, resolvectl_dns,
  resolvectl_domain, resolvectl_revert,
}
use caelo.System.Routes.{Routing, is_route, OnRoutes, same-Keeps, others-Keeps}

abbrev pub first_half : Text
first_half = codes "0.0.0.0/1"

abbrev pub second_half : Text
second_half = codes "128.0.0.0/1"

abbrev pub pin : Config → Text
pin cfg = host_prefix cfg.endpoint_host

module _ (h : Host) (g : Routing h) where
  -- A property of routes that DNS and IPv6 have no part in.
  module _ (Q : Text → Option Text → Type 0) where
    abbrev pub Kept : {A : Type 0} → M h A → Type 0
    Kept m = Keeps (OnRoutes h g Q) m

    run-Kept : (c : Command) → Keeps (OnRoutes h g Q) (h.exec c) → Kept (run h c)
    unfolding run
    run-Kept c k = search keeps_rules

    must-Kept :
        (what : Text) (c : Command) → Keeps (OnRoutes h g Q) (h.exec c) → Kept (must h what c)
    unfolding must
    must-Kept what c k = search (keeps_rules, run-Kept)

    other : (what : Text) (c : Command) → is_route c ≡ false → Kept (must h what c)
    other what c e = must-Kept what c (others-Keeps h g Q c e)

    remove_or_fail-Kept : (what : Text) → Kept (remove_or_fail h what)
    unfolding remove_or_fail
    remove_or_fail-Kept what = same-Keeps h g Q _ g.remove_keeps

    remove_present-Kept : Kept (remove_present h)
    unfolding remove_present
    remove_present-Kept = same-Keeps h g Q _ g.remove_keeps

    write_file-Kept : (file : Text) → Keeps (OnRoutes h g Q) (h.write_file file)
    write_file-Kept file = same-Keeps h g Q _ (g.write_keeps file)

    symlink-Kept : (file : Text) → Keeps (OnRoutes h g Q) (h.symlink file)
    symlink-Kept file = same-Keeps h g Q _ (g.symlink_keeps file)

    write_resolv-Kept : (state : State) (file : Text) → Kept (write_resolv h state file)
    unfolding write_resolv
    write_resolv-Kept state file = search (keeps_rules, remove_or_fail-Kept, write_file-Kept)

    write_servers-Kept : (state : State) (r : Result Text Text) → Kept (write_servers h state r)
    unfolding write_servers
    write_servers-Kept state (ok file) = write_resolv-Kept state (resolv_header h ++ file)
    write_servers-Kept state (err server) = search keeps_rules

    apply_dns-Kept : (state : State) (cfg : Config) → Kept (apply_dns h state cfg)
    unfolding apply_dns
    apply_dns-Kept state cfg =
        Keeps-if state.resolved _ _
          (Keeps-bind _ _ _ (other _ (resolvectl_dns cfg.interface cfg.dns) refl)
            (λ _. other _ (resolvectl_domain cfg.interface) refl))
          (write_servers-Kept state (nameservers h cfg.dns))

    block_v6-Kept : (l : List Text) → Kept (block_v6 h l)
    unfolding block_v6
    block_v6-Kept [] = search keeps_rules
    block_v6-Kept (half ∷ l) =
        Keeps-bind _ _ _
          (Keeps-attempt _ (run-Kept (unreachable_add half) (others-Keeps h g Q _ refl)))
          (λ _. block_v6-Kept l)

    write_back-Kept : (o : Option Text) → Kept (write_back h o)
    unfolding write_back
    write_back-Kept none = remove_present-Kept
    write_back-Kept (some contents) = search (keeps_rules, write_file-Kept)

    pub restore_dns-Kept : (state : State) (cfg : Config) → Kept (restore_dns h state cfg)
    unfolding restore_dns
    restore_dns-Kept state cfg =
        Keeps-if state.resolved _ _
          (Keeps-bind _ _ _ (run-Kept (resolvectl_revert cfg.interface) (others-Keeps h g Q _ refl))
            (λ _. Keeps-pure tt))
          (Keeps-if (not (is_empty state.resolv_conf_link)) _ _
            (Keeps-bind _ _ _ remove_present-Kept
              (λ _. Keeps-wrap _ _ (symlink-Kept state.resolv_conf_link)))
            (write_back-Kept state.previous_resolv_conf))

    -- Only the three routes have to be looked at.
    pub apply-Kept :
        (state : State) (cfg : Config)
        → Keeps
            (OnRoutes h g Q)
            (h.exec (route_via (pin cfg) state.default_gateway state.default_interface))
        → Keeps (OnRoutes h g Q) (h.exec (route_dev first_half cfg.interface))
        → Keeps (OnRoutes h g Q) (h.exec (route_dev second_half cfg.interface))
        → Kept (apply h state cfg)
    unfolding apply route_halves
    apply-Kept state cfg pinned first second =
        Keeps-bind _ _ _ (other _ (address_add _ cfg.interface) refl) λ _.
          Keeps-bind _ _ _
            (Keeps-if (is_positive cfg.mtu) _ _ (other _ (link_mtu cfg.interface cfg.mtu) refl)
              (Keeps-pure tt))
            λ _. Keeps-bind _ _ _ (other _ (link_up cfg.interface) refl) λ _.
              Keeps-bind _ _ _ (must-Kept _ _ pinned) λ _.
                Keeps-bind _ _ _
                  (Keeps-bind _ _ _ (must-Kept _ _ first)
                    λ _. Keeps-bind _ _ _ (must-Kept _ _ second) (λ _. Keeps-pure tt))
                  λ _.
                    Keeps-bind _ _ _ (block_v6-Kept v6_halves) λ _.
                      Keeps-if (has_dns h cfg.dns) _ _ (apply_dns-Kept state cfg) (Keeps-pure tt)
