-- ===== src/Userspace/Kept.antt =====
-- Which calls leave a device as it is, running or not.
use caelo.Base.{ℕ, Bool, List, ◌≡◌, ◌∙◌}
use caelo.Base.Effect.Keeps.{Keeps}
use caelo.Diag.{logf}
use caelo.Base.Int.{ℤ}
use caelo.Base.Text.{Text}
use caelo.Userspace.{Userspace, Tracked}

-- The calls outside, but for a device's making and its closing, keep this of the world.
pub record Steady (u : Userspace) (P : u.World → Type 0) : Type 0 where
  pub tun : (a b : List u.Addr) (mtu : ℤ) → Keeps P (u.create_net_tun a b mtu)
  pub set : (dev : ℕ) (t : Text) → Keeps P (u.ipc_set dev t)
  pub up : (dev : ℕ) → Keeps P (u.device_up dev)
  pub request : (net : u.Net) (timeout : ℤ) (r : u.Request) → Keeps P (u.do_request net timeout r)
  pub line : (t : Text) (w : u.World) → P w → P (u.with_log (logf t (u.log w)) w)

-- The same, with a device's making and its closing.
pub record Lived (u : Userspace) (P : u.World → Type 0) : Type 0 where
  pub steady : Steady u P
  pub made : (net : u.Net) (w : u.World) → P w → P (u.new_device net w).1
  pub closed : (dev : ℕ) (w : u.World) → P w → P (u.close_device dev w)

module _ (u : Userspace) (t : Tracked u) (d : ℕ) (b : Bool) where
  abbrev pub Same : u.World → Type 0
  Same w = t.is_open d w ≡ b

  pub request-Kept :
      (net : u.Net) (timeout : ℤ) (r : u.Request) → Keeps Same (u.do_request net timeout r)
  request-Kept net timeout r = record { from = λ w h. t.request_keeps net timeout r w d ∙ h }

  pub set-Kept : (e : ℕ) (text : Text) → Keeps Same (u.ipc_set e text)
  set-Kept e text = record { from = λ w h. t.set_keeps e text w d ∙ h }

  pub up-Kept : (e : ℕ) → Keeps Same (u.device_up e)
  up-Kept e = record { from = λ w h. t.up_keeps e w d ∙ h }

  pub tun-Kept : (a c : List u.Addr) (mtu : ℤ) → Keeps Same (u.create_net_tun a c mtu)
  tun-Kept a c mtu = record { from = λ w h. t.tun_keeps a c mtu w d ∙ h }
