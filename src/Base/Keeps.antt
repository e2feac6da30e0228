-- ===== src/Base/Keeps.antt =====
-- Statements about actions, with one rule for each way to build an action.
use mathlib.Core.Path.{◌≡◌, refl}
use mathlib.Core.Bool.{Bool, true, false}
use mathlib.Core.Logic.{◌⊎◌, inl, inr}
use sonic_utility.Base.Tests.{if◌then◌else◌}
use sonic_utility.Base.Result.{Result, ok, err}
use sonic_utility.Base.Exec.{
  Exec, pure, raise, lift, gets, query, reraised, reraise_as, undone, with_rollback, ignored,
  failure_ignore, answered, handled, handle_and_raise, continue, ◌>>=◌,
}
use sonic_utility.Base.Gives.{Gives}

-- `m` keeps `P`, whether it returns or raises.
pub record Keeps {ℓ} {S E A : Type ℓ} (P : S → Type ℓ) (m : Exec S E A) : Type ℓ where
  pub at : (s : S) → P s → P (m s).1

-- `P` of the state where the action raised, `Q` where it returned.
abbrev pub Closed {ℓ} : {S E A : Type ℓ} → (S → Type ℓ) → (A → S → Type ℓ) → Result E A → S → Type ℓ
Closed P Q (ok a) s = Q a s
Closed P Q (err e) s = P s

-- From a state with `P`, `m` raises with `P` still or with `X`, or returns with `Q`.
pub record Closes {ℓ} {S E A : Type ℓ} (P X : S → Type ℓ) (Q : A → S → Type ℓ) (m : Exec S E A)
    : Type ℓ where
  pub run : (s : S) → P s → Closed (λ t. P t ⊎ X t) Q (m s).0 (m s).1

module _ {ℓ} {S E A : Type ℓ} where
  reraised-at : (P : S → Type ℓ) (e : E) (r : Result E A) (s : S) → P s → P (reraised e r s).1
  reraised-at P e (ok a) s h = h
  reraised-at P e (err x) s h = h

module _ {ℓ} {S E : Type ℓ} where
  ignored-at :
      (P : S → Type ℓ) (ignore : Bool) (r : Result E (Unit {ℓ})) (s : S)
      → P s
      → P (ignored ignore r s).1
  ignored-at P ignore (ok u) s h = h
  ignored-at P ignore (err e) s h = h

  answered-at :
      (P : S → Type ℓ) (e : E) (r : Result E (Unit {ℓ})) (s : S) → P s → P (answered e r s).1
  answered-at P e (ok u) s h = h
  answered-at P e (err x) s h = h

module _ {ℓ} {S E A : Type ℓ} {P : S → Type ℓ} where
  pub Keeps-pure : (a : A) → Keeps P (pure {E = E} a)
  unfolding pure
  Keeps-pure a = record { at = λ s h. h }

  pub Keeps-raise : (e : E) → Keeps P (raise {A = A} e)
  unfolding raise
  Keeps-raise e = record { at = λ s h. h }

  pub Keeps-lift : (r : Result E A) → Keeps P (lift r)
  unfolding lift
  Keeps-lift r = record { at = λ s h. h }

  pub Keeps-gets : (f : S → A) → Keeps P (gets {E = E} f)
  unfolding gets
  Keeps-gets f = record { at = λ s h. h }

  pub Keeps-query : (f : S → Result E A) → Keeps P (query f)
  unfolding query
  Keeps-query f = record { at = λ s h. h }

  pub Keeps-if :
      (b : Bool) (m n : Exec S E A) → Keeps P m → Keeps P n → Keeps P (if b then m else n)
  Keeps-if true m n km kn = km
  Keeps-if false m n km kn = kn

  pub Keeps-reraise_as : (e : E) (m : Exec S E A) → Keeps P m → Keeps P (reraise_as e m)
  unfolding reraise_as
  Keeps-reraise_as e m k = record { at = λ s h. reraised-at P e (m s).0 (m s).1 (k.at s h) }

  undone-at :
      (callback : Exec S E (Unit {ℓ}))
      → Keeps P callback
      → (r : Result E A) (s : S) → P s
      → P (undone callback r s).1
  undone-at callback k (ok a) s h = h
  undone-at callback k (err e) s h = k.at s h

  pub Keeps-with_rollback :
      (callback : Exec S E (Unit {ℓ})) (rest : Exec S E A)
      → Keeps P callback
      → Keeps P rest
      → Keeps P (with_rollback callback rest)
  unfolding with_rollback
  Keeps-with_rollback callback rest kc kr = record {
    at = λ s h. undone-at callback kc (rest s).0 (rest s).1 (kr.at s h);
  }

module _ {ℓ} {S E : Type ℓ} {P : S → Type ℓ} where
  pub Keeps-failure_ignore :
      (ignore : Bool) (m : Exec S E (Unit {ℓ})) → Keeps P m → Keeps P (failure_ignore ignore m)
  unfolding failure_ignore
  Keeps-failure_ignore ignore m k = record {
    at = λ s h. ignored-at P ignore (m s).0 (m s).1 (k.at s h);
  }

  handled-at :
      (handler : Exec S E (Unit {ℓ}))
      → Keeps P handler
      → (r : Result E (Unit {ℓ})) (s : S) → P s
      → P (handled handler r s).1
  handled-at handler k (ok u) s h = h
  handled-at handler k (err e) s h = answered-at P e (handler s).0 (handler s).1 (k.at s h)

  pub Keeps-handle_and_raise :
      (body handler : Exec S E (Unit {ℓ}))
      → Keeps P body
      → Keeps P handler
      → Keeps P (handle_and_raise body handler)
  unfolding handle_and_raise
  Keeps-handle_and_raise body handler kb kh = record {
    at = λ s h. handled-at handler kh (body s).0 (body s).1 (kb.at s h);
  }

module _ {ℓ} {S E A B : Type ℓ} {P : S → Type ℓ} where
  continue-at :
      (f : A → Exec S E B)
      → ((a : A) → Keeps P (f a))
      → (r : Result E A) (s : S) → P s
      → P (continue r f s).1
  continue-at f k (ok a) s h = (k a).at s h
  continue-at f k (err e) s h = h

  pub Keeps-bind :
      (m : Exec S E A) (f : A → Exec S E B)
      → Keeps P m
      → ((a : A) → Keeps P (f a))
      → Keeps P (m >>= f)
  unfolding ◌>>=◌
  Keeps-bind m f km kf = record { at = λ s h. continue-at f kf (m s).0 (m s).1 (km.at s h) }

  continue-run :
      {X : S → Type ℓ} {Q : B → S → Type ℓ} (f : A → Exec S E B)
      → ((a : A) → Closes P X Q (f a))
      → (r : Result E A) (s : S) → P s
      → Closed (λ t. P t ⊎ X t) Q (continue r f s).0 (continue r f s).1
  continue-run f k (ok a) s h = (k a).run s h
  continue-run f k (err e) s h = inl h

  -- The last action decides where those before it keep `P`.
  pub Closes-bind :
      {X : S → Type ℓ} {Q : B → S → Type ℓ} (m : Exec S E A) (f : A → Exec S E B)
      → Keeps P m
      → ((a : A) → Closes P X Q (f a))
      → Closes P X Q (m >>= f)
  unfolding ◌>>=◌
  Closes-bind m f km kf = record { run = λ s h. continue-run f kf (m s).0 (m s).1 (km.at s h) }

  pub given-run :
      {X : S → Type ℓ} {Q : B → S → Type ℓ} {R : A → Type ℓ} (f : A → Exec S E B)
      → ((a : A) → R a → Closes P X Q (f a))
      → (r : Result E A) (s : S) → ((a : A) → r ≡ ok a → R a)
      → P s
      → Closed (λ t. P t ⊎ X t) Q (continue r f s).0 (continue r f s).1
  given-run f k (ok a) s g h = (k a (g a refl)).run s h
  given-run f k (err e) s g h = inl h

  -- The same, where the actions behind may use what the one before gives.
  pub Closes-bind_given :
      {X : S → Type ℓ} {Q : B → S → Type ℓ} {R : A → Type ℓ} (m : Exec S E A) (f : A → Exec S E B)
      → Keeps P m
      → Gives R m
      → ((a : A) → R a → Closes P X Q (f a))
      → Closes P X Q (m >>= f)
  unfolding ◌>>=◌
  Closes-bind_given m f km gm kf = record {
    run = λ s h. given-run f kf (m s).0 (m s).1 (gm.value s) (km.at s h);
  }

module _ {ℓ} {S E A : Type ℓ} where
  Closed-map :
      (P : S → Type ℓ) {X Y : S → Type ℓ} {Q T : A → S → Type ℓ}
      → ((s : S) → X s → Y s)
      → ((a : A) (s : S) → Q a s → T a s)
      → (r : Result E A) (s : S) → Closed (λ t. P t ⊎ X t) Q r s
      → Closed (λ t. P t ⊎ Y t) T r s
  Closed-map P g f (ok a) s h = f a s h
  Closed-map P g f (err e) s (inl h) = inl h
  Closed-map P g f (err e) s (inr h) = inr (g s h)

module _ {ℓ} {S E A : Type ℓ} {P : S → Type ℓ} where
  pub Closes-map :
      {X Y : S → Type ℓ} {Q T : A → S → Type ℓ} (m : Exec S E A)
      → ((s : S) → X s → Y s)
      → ((a : A) (s : S) → Q a s → T a s)
      → Closes P X Q m
      → Closes P Y T m
  Closes-map m g f c = record { run = λ s h. Closed-map P g f (m s).0 (m s).1 (c.run s h) }

pub ruleset keeps_rules = (
  Keeps-pure, Keeps-raise, Keeps-lift, Keeps-gets, Keeps-query, Keeps-if, Keeps-reraise_as,
  Keeps-with_rollback, Keeps-failure_ignore, Keeps-handle_and_raise, Keeps-bind,
)
