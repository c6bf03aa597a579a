-- ===== src/Base/Effect.antt =====
-- Calls that act on the world outside and may fail; what was done before a failure stays done.
pub mod Keeps
pub mod Gives
pub mod Using
use caelo.Base.Tests.{Result, ok, err}

abbrev pub Effect : Type 0 → Type 0 → Type 0 → Type 0
Effect W E A = W → Result E A × W

abbrev pub continue : {W E A B : Type 0} → Result E A → (A → Effect W E B) → Effect W E B
continue (ok a) f w = f a w
continue (err e) f w = (err e, w)

-- The result of a call that fails with something else.
abbrev pub map_err : {D E A : Type 0} → (D → E) → Result D A → Result E A
map_err f (ok a) = ok a
map_err f (err d) = err (f d)

module _ {W E A : Type 0} where
  unfoldable pub pure : A → Effect W E A
  pure a w = (ok a, w)

  unfoldable pub fail : E → Effect W E A
  fail e w = (err e, w)

  -- A result that the world has no part in.
  unfoldable pub lift : Result E A → Effect W E A
  lift r w = (r, w)

  -- What does not fail: a look at the world, and an act on it.
  unfoldable pub look : (W → A) → Effect W E A
  look f w = (ok (f w), w)

  unfoldable pub act : (W → A × W) → Effect W E A
  act f w = let (a, w') = f w in (ok a, w')

  -- The call, with what it fails with changed.
  unfoldable pub wrap : {D : Type 0} → (D → E) → Effect W D A → Effect W E A
  wrap f m w = let (r, w') = m w in (map_err f r, w')

  -- The call's result as a value: a failure is looked at rather than passed on.
  unfoldable pub attempt : Effect W E A → Effect W E (Result E A)
  attempt m w = let (r, w') = m w in (ok r, w')

infixl 5 ◌>>=◌ ◌>>◌
unfoldable pub ◌>>=◌ : {W E A B : Type 0} → Effect W E A → (A → Effect W E B) → Effect W E B
◌>>=◌ m f w = let (r, w') = m w in continue r f w'

abbrev pub ◌>>◌ : {W E A B : Type 0} → Effect W E A → Effect W E B → Effect W E B
m >> n = m >>= λ _. n
