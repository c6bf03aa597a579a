-- ===== src/Service/Ended.antt =====
-- core/cmd/caelo-service/main.go: what shutdown leaves of a service that was listening.
use caelo.Base.{
  ℕ, Bool, true, false, not, ◌&&◌, ◌||◌, ◌==◌, ==_iff, Option, none, some, ◌≡◌, refl, sym, ap,
  subst, ◌∙◌, arith, ok, Bool-cases, inl, inr, if◌then◌else◌,
}
use caelo.Base.Effect.Using.{closed_again}
use caelo.Base.Text.{Text}
use caelo.Systunnel as Systunnel
use caelo.Systunnel.{Machine, Controller}
use caelo.Systunnel.Calls.{status-Reports}
use caelo.Systunnel.Sound.{IsSound, IsDown, stop-IsDown}
use caelo.Service.{Unix, passed, listen, shutdown, close_socket}
use caelo.Service.Descriptors.{Descriptors, Given, without_passed, listen-Given}

-- A copy of a listener that was opened beside what was open, and closed.
closed_copy :
    (l d : ℕ) (before made : Bool)
    → (d ≡ l → before ≡ false)
    → made ≡ without_passed d (d == l || before)
    → (not (d == l) && made) ≡ without_passed d before
closed_copy l d before made fresh o = elim (Bool-cases (d == l)) [
  | inl e ↦ let gone = fresh ((==_iff d l).0 e) in rw (e, gone) (ground arith)
  | inr e ↦ rw (o, e) refl
]

module _ (x : Unix) (t : Descriptors x) (m : Machine) where
  close_socket-closes :
      (l : ℕ) (path : Text) (given : Bool) (v : x.World) (d : ℕ)
      → t.is_open d (close_socket x l path given v) ≡ (not (d == l) && t.is_open d v)
  unfolding close_socket
  close_socket-closes l path true v d = t.closes l v d
  close_socket-closes l path false v d = t.remove_keeps path (x.close l v) d ∙ t.closes l v d

  -- What was open before listen; the descriptor that systemd passed is closed for good.
  abbrev pub left : Bool → ℕ → Bool → Bool
  left given d b = if given then without_passed d b else b

  left_open :
      (n : Option ℕ) (v v' : x.World) (l : ℕ) (given : Bool) (path : Text)
      → Given x t n v (ok l, given, v')
      → (d : ℕ) → t.is_open d (close_socket x l path given v') ≡ left given d (t.is_open d v)
  left_open none v v' l given path (made, (fresh, o)) d =
      closed_again l d (t.is_open d v) (t.is_open d v') (t.is_open d v')
        (t.is_open d (close_socket x l path given v'))
        (λ e. subst (λ z. t.is_open z v ≡ false) (sym e) fresh) (o d) refl
        (close_socket-closes l path given v' d)
      ∙ ap (λ g. left g d (t.is_open d v)) (sym made)
  left_open (some n) v v' l given path (copied, one, fresh, o) d =
      close_socket-closes l path given v' d
      ∙ closed_copy l d (t.is_open d v) (t.is_open d v')
          (λ e. subst (λ z. t.is_open z v ≡ false) (sym e) fresh) (o d)
      ∙ ap (λ g. left g d (t.is_open d v)) (sym copied)

  -- After shutdown, from a sound controller with the listener that listen gave, the controller is
  -- down, and the descriptors that are open are those that were open before listen, but for the one
  -- that systemd passed, where it passed one.
  pub shutdown-IsDown :
      (c : Controller m) (w : Systunnel.World m) (path : Text) (v v' : x.World) (l : ℕ)
      (given : Bool)
      → IsSound m c
      → listen x path v ≡ (ok l, given, v')
      → let (c', w', v'') = shutdown x m c w l path given v' in
        IsDown m c' × ((d : ℕ) → t.is_open d v'' ≡ left given d (t.is_open d v))
  unfolding shutdown
  shutdown-IsDown c w path v v' l given sound k = (
    stop-IsDown m _ _ (status-Reports m c w sound).1,
    left_open (passed x) v v' l given path
        (subst (Given x t (passed x) v) k (listen-Given x t path v)),
  )
