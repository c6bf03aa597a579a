-- ===== src/Base/Effect/Gives.antt =====
-- What a call returns, when it succeeds, has a property.
use caelo.Base.Tests.{Result, ok, err}
use caelo.Base.Effect.{Effect, continue, fail, wrap, map_err, ◌>>=◌}

abbrev pub OnOk : {E A : Type 0} → (A → Type 0) → Result E A → Type 0
OnOk P (ok a) = P a
OnOk P (err e) = Unit {0}

pub record Gives {W E A : Type 0} (P : A → Type 0) (m : Effect W E A) : Type 0 where
  pub from : (w : W) → OnOk P (m w).0

OnOk-map_err :
    {D E A : Type 0} (P : A → Type 0) (f : D → E) (r : Result D A) → OnOk P r → OnOk P (map_err f r)
OnOk-map_err P f (ok a) p = p
OnOk-map_err P f (err d) p = tt

-- Nothing is asked of what it returns.
any_OnOk : {E A : Type 0} (r : Result E A) → OnOk (λ _. Unit {0}) r
any_OnOk (ok a) = tt
any_OnOk (err e) = tt

pub Gives-any : {W E A : Type 0} (m : Effect W E A) → Gives (λ _. Unit {0}) m
Gives-any m = record { from = λ w. any_OnOk (m w).0 }

module _ {W E A : Type 0} {P : A → Type 0} where
  pub Gives-fail : (e : E) → Gives {W = W} P (fail e)
  unfolding fail
  Gives-fail e = record { from = λ w. tt }

  pub Gives-wrap : {D : Type 0} (f : D → E) (m : Effect W D A) → Gives P m → Gives P (wrap f m)
  unfolding wrap
  Gives-wrap f m k = record { from = λ w. OnOk-map_err P f (m w).0 (k.from w) }

module _ {W E A B : Type 0} {Q : A → Type 0} {P : B → Type 0} where
  Gives-continue :
      (f : A → Effect W E B)
      → ((a : A) → Q a → Gives P (f a))
      → (r : Result E A) (w : W) → OnOk Q r
      → OnOk P (continue r f w).0
  Gives-continue f l (ok a) w q = (l a q).from w
  Gives-continue f l (err e) w q = tt

  pub Gives-bind :
      (m : Effect W E A) (f : A → Effect W E B)
      → Gives Q m
      → ((a : A) → Q a → Gives P (f a))
      → Gives P (m >>= f)
  unfolding ◌>>=◌
  Gives-bind m f k l = record { from = λ w. Gives-continue f l (m w).0 (m w).1 (k.from w) }
