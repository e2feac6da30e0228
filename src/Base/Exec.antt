-- ===== src/Base/Exec.antt =====
-- Methods that change an object and may raise: a state monad whose state comes back beside the
-- exception too, since what was written before a `raise` stays written.
use mathlib.Core.Path.{◌≡◌, refl, ap}
use mathlib.Core.Bool.{Bool}
use native.Mathlib.Omega.{arith}
use sonic_utility.Base.Tests.{if◌then◌else◌}
use sonic_utility.Base.Result.{Result, ok, err}

abbrev pub Exec {ℓ} : Type ℓ → Type ℓ → Type ℓ → Type ℓ
Exec S E A = S → Result E A × S

module _ {ℓ} {S E A : Type ℓ} where
  unfoldable pub pure : A → Exec S E A
  pure a s = (ok a, s)

  unfoldable pub raise : E → Exec S E A
  raise e s = (err e, s)

  unfoldable pub lift : Result E A → Exec S E A
  lift r s = (r, s)

  unfoldable pub gets : (S → A) → Exec S E A
  gets f s = (ok (f s), s)

  -- A query of the state that may raise.
  unfoldable pub query : (S → Result E A) → Exec S E A
  query f s = (f s, s)

  abbrev pub reraised : E → Result E A → S → Result E A × S
  reraised e (ok a) s = (ok a, s)
  reraised e (err _) s = (err e, s)

  -- except Exception: raise e
  unfoldable pub reraise_as : E → Exec S E A → Exec S E A
  reraise_as e body s = let (r, s') = body s in reraised e r s'

  abbrev pub undone : Exec S E (Unit {ℓ}) → Result E A → S → Result E A × S
  undone callback (ok a) s = (ok a, s)
  undone callback (err e) s = (err e, (callback s).1)

  -- exits.callback(rollback(callback)), and the rest of the `with` block: where the rest raises,
  -- the callback runs and what it raises is dropped; of several the last one runs first.
  unfoldable pub with_rollback : Exec S E (Unit {ℓ}) → Exec S E A → Exec S E A
  with_rollback callback rest s = let (r, s') = rest s in undone callback r s'

module _ {ℓ} {S E : Type ℓ} where
  abbrev pub ignored : Bool → Result E (Unit {ℓ}) → S → Result E (Unit {ℓ}) × S
  ignored ignore (ok u) s = (ok u, s)
  ignored ignore (err e) s = (if ignore then ok tt else err e, s)

  -- with failure_ignore(ignore): …
  unfoldable pub failure_ignore : Bool → Exec S E (Unit {ℓ}) → Exec S E (Unit {ℓ})
  failure_ignore ignore body s = let (r, s') = body s in ignored ignore r s'

  abbrev pub answered : E → Result E (Unit {ℓ}) → S → Result E (Unit {ℓ}) × S
  answered e (ok u) s = (err e, s)
  answered e (err e') s = (err e', s)

  abbrev pub handled : Exec S E (Unit {ℓ}) → Result E (Unit {ℓ}) → S → Result E (Unit {ℓ}) × S
  handled handler (ok u) s = (ok u, s)
  handled handler (err e) s = answered e (handler s).0 (handler s).1

  -- except: handler; raise. What the handler raises takes the place of the exception.
  unfoldable pub handle_and_raise : Exec S E (Unit {ℓ}) → Exec S E (Unit {ℓ}) → Exec S E (Unit {ℓ})
  handle_and_raise body handler s = let (r, s') = body s in handled handler r s'

module _ {ℓ} {S E A B : Type ℓ} where
  abbrev pub continue : Result E A → (A → Exec S E B) → Exec S E B
  continue (ok a) f s = f a s
  continue (err e) f s = (err e, s)

  infixl 10 ◌>>=◌ ◌>>◌
  -- Opening this opens the actions above too.
  unfoldable pub ◌>>=◌ : Exec S E A → (A → Exec S E B) → Exec S E B
  unfolding pure raise lift gets query
  ◌>>=◌ m f s = let (r, s') = m s in continue r f s'

  abbrev pub ◌>>◌ : Exec S E A → Exec S E B → Exec S E B
  m >> n = m >>= λ _. n

continue-eq-ok :
    {S E A B : Type 0} (r : Result E A) (f : A → Exec S E B) (s : S) {b : B} {s' : S}
    → continue r f s ≡ (ok b, s')
    → (a : A) × (r ≡ ok a) × (f a s ≡ (ok b, s'))
continue-eq-ok (ok a) f s e = (a, refl, e)
continue-eq-ok (err x) f s e = ground arith

-- Where a chain of two actions returns, both return.
pub bind-eq-ok :
    {S E A B : Type 0} (m : Exec S E A) (f : A → Exec S E B) (s : S) {b : B} {s' : S}
    → (m >>= f) s ≡ (ok b, s')
    → (a : A) × (m s ≡ (ok a, (m s).1)) × (f a (m s).1 ≡ (ok b, s'))
unfolding ◌>>=◌
bind-eq-ok m f s e =
    let (a, returned, rest) = continue-eq-ok (m s).0 f (m s).1 e in
    (a, ap (λ r. (r, (m s).1)) returned, rest)
