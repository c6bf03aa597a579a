-- ===== src/Tunnel/Tests.antt =====
-- The session in the sandbox, and each theorem there.
use caelo.Base.{true, false, ◌≡◌, refl, none, some, [], ◌∷◌, ok, err}
use caelo.Base.Int.{pos}
use caelo.Base.Text.{codes}
use caelo.Userspace.Sandbox.{sandbox, sandbox_tracked, listed, conf, read_conf}
use caelo.Tunnel.{
  not_connected, wrapped, Session, Built, new, build, swap, connect, disconnect, up, check, info_of,
  cleared,
}
use caelo.Tunnel.Steps.{at, closing, Steps, builds, swaps, closes, disconnects, done, next}
use caelo.Tunnel.Replaced.{IsReplaced, connect-IsReplaced}
use caelo.Tunnel.Owned.{Steps-quiet}
use caelo.Base.Effect.{◌>>=◌}
use caelo.Tunnel.{close_if}

abbrev on_one : Session sandbox
on_one = record { device = some 1; net = some tt; endpoint = conf.peer.endpoint; up_since = 7 }

abbrev on_two : Session sandbox
on_two = record on_one { device = some 2 }

connected :
    connect sandbox read_conf [] (new sandbox) [] ≡ (ok (info_of sandbox conf), on_one, 1 ∷ [])
unfolding connect ◌>>=◌
connected = refl

-- The device that was there is closed.
replaced : (connect sandbox read_conf [] on_one (1 ∷ [])).2 ≡ 2 ∷ []
unfolding connect ◌>>=◌
replaced = refl

-- Device 3 cannot be brought up: what was there stays.
refused :
    connect sandbox read_conf [] on_two (2 ∷ [])
    ≡ (err (wrapped (codes "bringing device up") (codes "no")), on_two, 2 ∷ [])
unfolding connect ◌>>=◌
refused = refl

down_again : disconnect sandbox on_one (1 ∷ []) ≡ (cleared sandbox on_one, [])
unfolding disconnect
down_again = refl

is_up : up sandbox on_one ≡ (true, codes "198.51.100.2:51820")
unfolding up
is_up = refl

nothing_to_check : (check sandbox (new sandbox) [] (pos 0) []).0 ≡ err not_connected
unfolding check
nothing_to_check = refl

connect-IsReplaced_example :
    IsReplaced sandbox sandbox_tracked on_one
      (1 ∷ [])
      (connect sandbox read_conf [] on_one (1 ∷ []))
connect-IsReplaced_example =
    connect-IsReplaced sandbox sandbox_tracked read_conf [] on_one (1 ∷ []) refl

abbrev built_one : Built sandbox
built_one = record { device = 1; net = tt; cfg = conf }

-- Connect, with a Disconnect between its swap and its return.
overtaken :
    Steps sandbox read_conf
      (at sandbox (new sandbox) [] [])
      (at sandbox (cleared sandbox on_one) [] [])
unfolding build swap cleared ◌>>=◌ close_if
overtaken = next _ _ _ (builds [] (new sandbox) [] (1 ∷ []) [] built_one refl) (
    next _ _ _ (swaps (new sandbox) (1 ∷ []) [] [] built_one 7) (
      next _ _ _ (disconnects on_one (1 ∷ []) (closing none ∷ [])) (
        next _ _ _ (closes (cleared sandbox on_one) (1 ∷ []) [] (closing none ∷ []) (some 1))
          (next _ _ _ (closes (cleared sandbox on_one) [] [] [] none) (done _)))))

Steps-quiet_example : listed 1 [] ≡ false
unfolding cleared
Steps-quiet_example =
    Steps-quiet sandbox sandbox_tracked read_conf [] [] (cleared sandbox on_one) (λ d. refl)
      overtaken 1
