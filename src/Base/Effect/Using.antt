-- ===== src/Base/Effect/Using.antt =====
-- A call that opens a handle, uses it, and closes it however the use ends (Go's `defer`).
use caelo.Base.Tests.{Result, ok, err, ◌==◌, ==_iff, Bool-cases}
use caelo.Base.Effect.{Effect}
use caelo.Base.Effect.Keeps.{Keeps}
use Prim.Native.Nat.{ℕ}
use mathlib.Core.Bool.{Bool, false, not, ◌&&◌, ◌||◌}
use mathlib.Core.Path.{◌≡◌, refl, sym, subst, ◌∙◌}
use mathlib.Core.Logic.{inl, inr}

abbrev pub use_and_close :
    {W E A : Type 0} → (ℕ → W → W) → (ℕ → Effect W E A) → Result E ℕ → W → Result E A × W
use_and_close close body (ok h) w = let (r, w') = body h w in (r, close h w')
use_and_close close body (err e) w = (err e, w)

unfoldable pub using :
    {W E A : Type 0} → Effect W E ℕ → (ℕ → W → W) → (ℕ → Effect W E A) → Effect W E A
using acquire close body w = let (r, w') = acquire w in use_and_close close body r w'

-- A handle that was opened, while the others stayed, and closed.
pub closed_again :
    (h d : ℕ) (before made used after : Bool)
    → (d ≡ h → before ≡ false)
    → made ≡ (d == h || before)
    → used ≡ made
    → after ≡ (not (d == h) && used)
    → after ≡ before
closed_again h d before made used after fresh m k a = elim (Bool-cases (d == h)) [
  | inl e ↦ let gone = fresh ((==_iff d h).0 e) in rw (a, e, gone) refl
  | inr e ↦ rw (a, k, m, e) refl
]

module _ {W : Type 0} (is_open : ℕ → W → Bool) where
  abbrev pub Same : ℕ → Bool → W → Type 0
  Same d b w = is_open d w ≡ b

  -- A handle that is given was not open before and is open now; nothing else changes.
  abbrev pub Opens : {E : Type 0} → W → Result E ℕ × W → Type 0
  Opens w (ok h, w') = (is_open h w ≡ false) × ((d : ℕ) → is_open d w' ≡ (d == h || is_open d w))
  Opens w (err e, w') = (d : ℕ) → is_open d w' ≡ is_open d w

  abbrev pub Closes : (ℕ → W → W) → Type 0
  Closes close = (h : ℕ) (w : W) (d : ℕ) → is_open d (close h w) ≡ (not (d == h) && is_open d w)

  used_and_closed :
      {E A : Type 0} (close : ℕ → W → W) (body : ℕ → Effect W E A) (w w' : W) (r : Result E ℕ)
      → Closes close
      → ((h d : ℕ) (b : Bool) → Keeps (Same d b) (body h))
      → Opens w (r, w')
      → (d : ℕ) → is_open d (use_and_close close body r w').1 ≡ is_open d w
  used_and_closed close body w w' (ok h) closes keeps (fresh, opened) d =
      closed_again h d (is_open d w) (is_open d w') (is_open d (body h w').1)
        (is_open d (close h (body h w').1)) (λ e. subst (λ x. is_open x w ≡ false) (sym e) fresh)
        (opened d) ((keeps h d (is_open d w')).from w' refl) (closes h (body h w').1 d)
  used_and_closed close body w w' (err e) closes keeps same d = same d

  -- What is open after it was open before.
  pub Keeps-using :
      {E A : Type 0} (acquire : Effect W E ℕ) (close : ℕ → W → W) (body : ℕ → Effect W E A)
      → ((w : W) → Opens w (acquire w))
      → Closes close
      → ((h d : ℕ) (b : Bool) → Keeps (Same d b) (body h))
      → (d : ℕ) (b : Bool) → Keeps (Same d b) (using acquire close body)
  unfolding using
  Keeps-using acquire close body opens closes keeps d b = record {
    from = λ w k.
        used_and_closed close body w (acquire w).1 (acquire w).0 closes keeps (opens w) d ∙ k;
  }
