-- ===== src/System/Commands.antt =====
-- The commands that core/internal/system/network_linux.go runs, and their command lines.
use caelo.Base.{List, [], ◌∷◌, map}
use caelo.Base.Int.{ℤ, itoa}
use caelo.Base.Text.{Text, codes}

pub data Command : Type 0 where
  route_show : Command
  address_add : Text → Text → Command
  link_mtu : Text → ℤ → Command
  link_up : Text → Command
  route_via : Text → Text → Text → Command
  route_dev : Text → Text → Command
  route_del_dev : Text → Text → Command
  route_del : Text → Command
  unreachable_add : Text → Command
  unreachable_del : Text → Command
  resolvectl_status : Command
  resolvectl_dns : Text → List Text → Command
  resolvectl_domain : Text → Command
  resolvectl_revert : Text → Command

-- The arguments of `run`, the command's name first.
unfoldable pub argv : Command → List Text
unfolding itoa
argv route_show = map codes ("ip" ∷ "-4" ∷ "route" ∷ "show" ∷ "default" ∷ [])
argv (address_add to dev) = codes "ip" ∷ codes "address" ∷ codes "add" ∷ to ∷ codes "dev" ∷ dev ∷ []
argv (link_mtu dev mtu) =
    codes "ip" ∷ codes "link" ∷ codes "set" ∷ codes "dev" ∷ dev ∷ codes "mtu" ∷ itoa mtu ∷ []
argv (link_up dev) = codes "ip" ∷ codes "link" ∷ codes "set" ∷ codes "dev" ∷ dev ∷ codes "up" ∷ []
argv (route_via to via dev) =
    codes "ip" ∷ codes "route" ∷ codes "add" ∷ to ∷ codes "via" ∷ via ∷ codes "dev" ∷ dev ∷ []
argv (route_dev to dev) = codes "ip" ∷ codes "route" ∷ codes "add" ∷ to ∷ codes "dev" ∷ dev ∷ []
argv (route_del_dev to dev) = codes "ip" ∷ codes "route" ∷ codes "del" ∷ to ∷ codes "dev" ∷ dev ∷ []
argv (route_del to) = codes "ip" ∷ codes "route" ∷ codes "del" ∷ to ∷ []
argv (unreachable_add to) =
    codes "ip" ∷ codes "-6" ∷ codes "route" ∷ codes "add" ∷ codes "unreachable" ∷ to ∷ []
argv (unreachable_del to) =
    codes "ip" ∷ codes "-6" ∷ codes "route" ∷ codes "del" ∷ codes "unreachable" ∷ to ∷ []
argv resolvectl_status = codes "resolvectl" ∷ codes "status" ∷ []
argv (resolvectl_dns dev servers) = codes "resolvectl" ∷ codes "dns" ∷ dev ∷ servers
argv (resolvectl_domain dev) = codes "resolvectl" ∷ codes "domain" ∷ dev ∷ codes "~." ∷ []
argv (resolvectl_revert dev) = codes "resolvectl" ∷ codes "revert" ∷ dev ∷ []
