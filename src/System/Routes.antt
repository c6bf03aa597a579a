-- ===== src/System/Routes.antt =====
-- The routing table behind a `Host`, and what ip-route(8) documents of the commands that change it:
-- a prefix has at most one route here (the program gives no metric), `add` refuses a prefix that
-- has one, and `del` takes away the route that is there.
use caelo.Base.{◌≡◌, Bool, true, false, ◌&&◌, Option, none, some, if◌then◌else◌, Result, ok, err}
use caelo.Base.Effect.{Effect}
use caelo.Base.Effect.Keeps.{Keeps}
use caelo.Base.Text.{Text, text_eq}
use caelo.System.{Host}
use caelo.System.Commands.{Command, route_via, route_dev, route_del_dev, route_del}

abbrev pub succeeded : {E A : Type 0} → Result E A → Bool
succeeded (ok a) = true
succeeded (err e) = false

-- What `ip route del to dev dev` leaves of the route to `to`.
abbrev pub cleared : Text → Option Text → Option Text
cleared dev none = none
cleared dev (some d) = if text_eq d dev then none else some d

-- The commands that leave the IPv4 routes alone.
abbrev pub is_route : Command → Bool
is_route (route_via to via dev) = true
is_route (route_dev to dev) = true
is_route (route_del_dev to dev) = true
is_route (route_del to) = true
is_route _ = false

pub record Routing (h : Host) : Type 0 where
  -- The interface of the route to a prefix.
  pub route_to : h.World → Text → Option Text
  pub via_adds :
      (to via dev : Text) (w : h.World) (x : Text)
      → route_to (h.exec (route_via to via dev) w).1 x ≡ (
          if succeeded (h.exec (route_via to via dev) w).0 && text_eq to x
          then some dev
          else route_to w x)
  pub via_taken :
      (to via dev d : Text) (w : h.World)
      → route_to w to ≡ some d
      → succeeded (h.exec (route_via to via dev) w).0 ≡ false
  pub dev_adds :
      (to dev : Text) (w : h.World) (x : Text)
      → route_to (h.exec (route_dev to dev) w).1 x ≡ (
          if succeeded (h.exec (route_dev to dev) w).0 && text_eq to x
          then some dev
          else route_to w x)
  pub del_dev_clears :
      (to dev : Text) (w : h.World) (x : Text)
      → route_to (h.exec (route_del_dev to dev) w).1 x
        ≡ (if text_eq to x then cleared dev (route_to w x) else route_to w x)
  pub del_clears :
      (to : Text) (w : h.World) (x : Text)
      → route_to (h.exec (route_del to) w).1 x ≡ (if text_eq to x then none else route_to w x)
  pub others_keep :
      (c : Command) (w : h.World) (x : Text)
      → is_route c ≡ false
      → route_to (h.exec c w).1 x ≡ route_to w x
  pub write_keeps :
      (s : Text) (w : h.World) (x : Text) → route_to (h.write_file s w).1 x ≡ route_to w x
  pub symlink_keeps :
      (s : Text) (w : h.World) (x : Text) → route_to (h.symlink s w).1 x ≡ route_to w x
  pub remove_keeps : (w : h.World) (x : Text) → route_to (h.remove_file w).1 x ≡ route_to w x

module _ (h : Host) (g : Routing h) where
  -- What a world's routes are, prefix by prefix.
  pub record OnRoutes (Q : Text → Option Text → Type 0) (w : h.World) : Type 0 where
    pub at : (x : Text) → Q x (g.route_to w x)

  -- What leaves the routes alone keeps all that is said of them.
  pub same-Keeps :
      (Q : Text → Option Text → Type 0) {E A : Type 0} (m : Effect h.World E A)
      → ((w : h.World) (x : Text) → g.route_to (m w).1 x ≡ g.route_to w x)
      → Keeps (OnRoutes Q) m
  same-Keeps Q m e = record { from = λ w p. record { at = λ x. rw (e w x) (p.at x) } }

  pub others-Keeps :
      (Q : Text → Option Text → Type 0) (c : Command)
      → is_route c ≡ false
      → Keeps (OnRoutes Q) (h.exec c)
  others-Keeps Q c e = same-Keeps Q (h.exec c) (λ w x. g.others_keep c w x e)
