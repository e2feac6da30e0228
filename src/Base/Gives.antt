-- ===== src/Base/Gives.antt =====
-- What an action returns, with one rule for each way to build an action.
use mathlib.Core.Path.{◌≡◌, refl, subst}
use mathlib.Core.Bool.{Bool, true, false}
use sonic_utility.Base.Tests.{if◌then◌else◌}
use sonic_utility.Base.Result.{Result, ok, err, ok-injective}
use sonic_utility.Base.Exec.{
  Exec, pure, reraised, reraise_as, undone, with_rollback, continue, ◌>>=◌,
}

-- What `m` returns has `R`.
pub record Gives {ℓ} {S E A : Type ℓ} (R : A → Type ℓ) (m : Exec S E A) : Type ℓ where
  pub value : (s : S) (a : A) → (m s).0 ≡ ok a → R a

module _ {ℓ} {S E A : Type ℓ} where
  reraised-value : (e : E) (r : Result E A) (s : S) (a : A) → (reraised e r s).0 ≡ ok a → r ≡ ok a
  reraised-value e (ok b) s a h = h
  reraised-value e (err x) s a h = cc

  undone-value :
      (callback : Exec S E (Unit {ℓ})) (r : Result E A) (s : S) (a : A)
      → (undone callback r s).0 ≡ ok a
      → r ≡ ok a
  undone-value callback (ok b) s a h = h
  undone-value callback (err x) s a h = cc

module _ {ℓ} {S E A : Type ℓ} {R : A → Type ℓ} where
  pub Gives-pure : (a : A) → R a → Gives R (pure {S = S} {E = E} a)
  unfolding pure
  Gives-pure a r = record { value = λ s b e. subst R (ok-injective e) r }

  pub Gives-reraise_as : (e : E) (m : Exec S E A) → Gives R m → Gives R (reraise_as e m)
  unfolding reraise_as
  Gives-reraise_as e m g = record {
    value = λ s a h. g.value s a (reraised-value e (m s).0 (m s).1 a h);
  }

  pub Gives-with_rollback :
      (callback : Exec S E (Unit {ℓ})) (rest : Exec S E A)
      → Gives R rest
      → Gives R (with_rollback callback rest)
  unfolding with_rollback
  Gives-with_rollback callback rest g = record {
    value = λ s a h. g.value s a (undone-value callback (rest s).0 (rest s).1 a h);
  }

  pub Gives-if :
      (b : Bool) (m n : Exec S E A) → Gives R m → Gives R n → Gives R (if b then m else n)
  Gives-if true m n gm gn = gm
  Gives-if false m n gm gn = gn

module _ {ℓ} {S E A B : Type ℓ} {R : B → Type ℓ} where
  continue-value :
      {T : A → Type ℓ} (f : A → Exec S E B)
      → ((a : A) → T a → Gives R (f a))
      → (r : Result E A) (s : S) (b : B) → ((a : A) → r ≡ ok a → T a)
      → (continue r f s).0 ≡ ok b
      → R b
  continue-value f k (ok a) s b g h = (k a (g a refl)).value s b h
  continue-value f k (err e) s b g h = cc

  pub Gives-bind :
      (m : Exec S E A) (f : A → Exec S E B) → ((a : A) → Gives R (f a)) → Gives R (m >>= f)
  unfolding ◌>>=◌
  Gives-bind m f k = record {
    value = λ s b h. continue-value {T = λ _. Unit} f (λ a _. k a) (m s).0 (m s).1 b (λ _ _. tt) h;
  }

  -- The same, where the actions behind may use what the one before gives.
  pub Gives-bind_given :
      {T : A → Type ℓ} (m : Exec S E A) (f : A → Exec S E B)
      → Gives T m
      → ((a : A) → T a → Gives R (f a))
      → Gives R (m >>= f)
  unfolding ◌>>=◌
  Gives-bind_given m f g k = record {
    value = λ s b h. continue-value f k (m s).0 (m s).1 b (g.value s) h;
  }

pub ruleset gives_rules = (Gives-if, Gives-with_rollback, Gives-reraise_as, Gives-bind)
