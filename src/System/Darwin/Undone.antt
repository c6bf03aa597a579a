-- ===== src/System/Darwin/Undone.antt =====
-- core/internal/system/network_darwin.go: what Apply and Restore together leave of the routes.
use caelo.Base.{Bool, ◌≡◌, ◌≢◌}
use caelo.Base.Effect.Keeps.{Keeps}
use caelo.Base.Text.{Text}
use caelo.System.{Config}
use caelo.System.Darwin.{Mac}
use caelo.System.Darwin.Removed.{Routed, IsOurs}

module _ (m : Mac) (r : Routed m) where
  -- What Apply and Restore have no part in.
  module _ (cfg : Config) (d : Text) (b : Bool) (apart : cfg.address ≢ d)
      (other : ¬ IsOurs m r cfg d) where
    abbrev Same : m.World → Type 0
    Same w = r.has_route d w ≡ b
