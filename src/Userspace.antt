-- ===== src/Userspace.antt =====
-- What core/internal/probe and core/internal/tunnel call outside themselves: the netstack device,
-- the AmneziaWG device over it, net/http through it, and the clock. A device is the address of its
-- `*device.Device`.
pub mod Kept
pub mod Sandbox
use caelo.Base.{ℕ, Bool, true, false, not, ◌&&◌, ◌||◌, ◌==◌, ◌≡◌, Option, List, Result}
use caelo.Base.Effect.{Effect}
use caelo.Base.Int.{ℤ}
use caelo.Base.Text.{Text}
use caelo.Diag.{Ring}

-- A response body: its bytes, and what reading past them fails with, where it does not end.
pub record Reader : Type 0 where
  pub bytes : List ℕ
  pub failure : Option Text

pub record Reply : Type 0 where
  pub status : Text
  pub body : Reader
  pub close_error : Option Text

pub record Userspace : Type 1 where
  pub World : Type 0
  pub Addr : Type 0
  pub Net : Type 0
  pub Request : Type 0
  -- netip.MustParseAddr("1.1.1.1")
  pub default_dns : Addr
  pub create_net_tun : List Addr → List Addr → ℤ → Effect World Text Net
  pub new_device : Net → World → ℕ × World
  pub ipc_set : ℕ → Text → Effect World Text (Unit {0})
  pub device_up : ℕ → Effect World Text (Unit {0})
  pub close_device : ℕ → World → World
  pub new_request : Text → Result Text Request
  -- client.Do within the timeout, through the netstack
  pub do_request : Net → ℤ → Request → Effect World Text Reply
  -- string(body)
  pub text_of : List ℕ → Text
  pub clock : World → ℕ
  -- what core/internal/diag keeps, and the time as it writes it
  pub log : World → Ring
  pub with_log : Ring → World → World
  pub now : World → Text

-- Which devices run: one that is new was not running before it, Close stops the device it is given,
-- and nothing else changes what runs.
pub record Tracked (u : Userspace) : Type 0 where
  pub is_open : ℕ → u.World → Bool
  pub tun_keeps :
      (a b : List u.Addr) (mtu : ℤ) (w : u.World) (d : ℕ)
      → is_open d (u.create_net_tun a b mtu w).1 ≡ is_open d w
  pub new_fresh : (n : u.Net) (w : u.World) → is_open (u.new_device n w).0 w ≡ false
  pub new_opens :
      (n : u.Net) (w : u.World) (d : ℕ)
      → is_open d (u.new_device n w).1 ≡ (d == (u.new_device n w).0 || is_open d w)
  pub set_keeps :
      (e : ℕ) (t : Text) (w : u.World) (d : ℕ) → is_open d (u.ipc_set e t w).1 ≡ is_open d w
  pub up_keeps : (e : ℕ) (w : u.World) (d : ℕ) → is_open d (u.device_up e w).1 ≡ is_open d w
  pub close_stops :
      (e : ℕ) (w : u.World) (d : ℕ) → is_open d (u.close_device e w) ≡ (not (d == e) && is_open d w)
  pub request_keeps :
      (n : u.Net) (t : ℤ) (r : u.Request) (w : u.World) (d : ℕ)
      → is_open d (u.do_request n t r w).1 ≡ is_open d w
  pub log_keeps : (r : Ring) (w : u.World) (d : ℕ) → is_open d (u.with_log r w) ≡ is_open d w
