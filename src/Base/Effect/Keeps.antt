-- ===== src/Base/Effect/Keeps.antt =====
-- A call keeps a property of the world, whether it succeeds or fails.
use caelo.Base.Tests.{Result, ok, err, if◌then◌else◌}
use caelo.Base.Effect.{Effect, continue, pure, fail, lift, look, act, wrap, attempt, ◌>>=◌}
use mathlib.Core.Bool.{Bool, true, false}
use mathlib.Core.Path.{◌≡◌, refl}

pub record Keeps {W E A : Type 0} (P : W → Type 0) (m : Effect W E A) : Type 0 where
  pub from : (w : W) → P w → P (m w).1

module _ {W E A : Type 0} {P : W → Type 0} where
  pub Keeps-pure : (a : A) → Keeps P (pure {E = E} a)
  unfolding pure
  Keeps-pure a = record { from = λ w p. p }

  pub Keeps-fail : (e : E) → Keeps P (fail {A = A} e)
  unfolding fail
  Keeps-fail e = record { from = λ w p. p }

  pub Keeps-lift : (r : Result E A) → Keeps P (lift r)
  unfolding lift
  Keeps-lift r = record { from = λ w p. p }

  pub Keeps-look : (f : W → A) → Keeps P (look {E = E} f)
  unfolding look
  Keeps-look f = record { from = λ w p. p }

  pub Keeps-act : (f : W → A × W) → ((w : W) → P w → P (f w).1) → Keeps P (act {E = E} f)
  unfolding act
  Keeps-act f k = record { from = k }

  pub Keeps-wrap : {D : Type 0} (f : D → E) (m : Effect W D A) → Keeps P m → Keeps P (wrap f m)
  unfolding wrap
  Keeps-wrap f m k = record { from = k.from }

  pub Keeps-attempt : (m : Effect W E A) → Keeps P m → Keeps P (attempt m)
  unfolding attempt
  Keeps-attempt m k = record { from = k.from }

  pub Keeps-if :
      (b : Bool) (m n : Effect W E A) → Keeps P m → Keeps P n → Keeps P (if b then m else n)
  Keeps-if true m n k l = k
  Keeps-if false m n k l = l

module _ {W E A B : Type 0} (P : W → Type 0) where
  Keeps-continue :
      (f : A → Effect W E B)
      → ((a : A) → Keeps P (f a))
      → (r : Result E A) (w : W) → P w
      → P (continue r f w).1
  Keeps-continue f l (ok a) w p = (l a).from w p
  Keeps-continue f l (err e) w p = p

  pub Keeps-bind :
      (m : Effect W E A) (f : A → Effect W E B)
      → Keeps P m
      → ((a : A) → Keeps P (f a))
      → Keeps P (m >>= f)
  unfolding ◌>>=◌
  Keeps-bind m f k l = record { from = λ w p. Keeps-continue f l (m w).0 (m w).1 (k.from w p) }

pub ruleset keeps_rules = (
  Keeps-pure, Keeps-fail, Keeps-lift, Keeps-look, Keeps-wrap, Keeps-attempt, Keeps-if, Keeps-bind,
)

-- What follows a result is asked for only where the result is there.
pub Keeps-lift_bind :
    {W E A B : Type 0} (P : W → Type 0) (r : Result E A) (f : A → Effect W E B)
    → ((a : A) → r ≡ ok a → Keeps P (f a))
    → Keeps P (lift r >>= f)
unfolding lift ◌>>=◌
Keeps-lift_bind P (ok a) f k = record { from = (k a refl).from }
Keeps-lift_bind P (err e) f k = record { from = λ w p. p }
