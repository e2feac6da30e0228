-- ===== src/Base/Yields.antt =====
-- Actions that are sure to return, with one rule for each way to build one.
use mathlib.Core.Path.{◌≡◌, refl}
use mathlib.Core.Bool.{Bool, true, false}
use sonic_utility.Base.Tests.{if◌then◌else◌}
use sonic_utility.Base.Result.{Result, ok, err}
use sonic_utility.Base.Exec.{
  Exec, pure, lift, gets, query, reraised, reraise_as, undone, with_rollback, ignored,
  failure_ignore, handled, handle_and_raise, continue, ◌>>=◌,
}
use sonic_utility.Base.Gives.{Gives}

-- The result is a value, and `P` holds of the state.
abbrev pub Returned : {S E A : Type 0} → (S → Type 0) → Result E A → S → Type 0
Returned P (ok a) s = P s
Returned P (err e) s = ⊥

-- From a state with `P`, the action returns, in a state with `P`.
pub record Yields {S E A : Type 0} (P : S → Type 0) (m : Exec S E A) : Type 0 where
  pub returns : (s : S) → P s → Returned P (m s).0 (m s).1

module _ {S E A : Type 0} (P : S → Type 0) where
  ok-Returned : (r : Result E A) (a : A) (s : S) → r ≡ ok a → P s → Returned P r s
  ok-Returned (ok b) a s e h = h
  ok-Returned (err x) a s e h = cc

  reraised-Returned :
      (x : E) (r : Result E A) (s : S)
      → Returned P r s
      → Returned P (reraised x r s).0 (reraised x r s).1
  reraised-Returned x (ok a) s h = h
  reraised-Returned x (err e) s h = absurd h

  undone-Returned :
      (callback : Exec S E (Unit {0})) (r : Result E A) (s : S)
      → Returned P r s
      → Returned P (undone callback r s).0 (undone callback r s).1
  undone-Returned callback (ok a) s h = h
  undone-Returned callback (err e) s h = absurd h

module _ {S E : Type 0} (P : S → Type 0) where
  ignored-Returned :
      (ignore : Bool) (r : Result E (Unit {0})) (s : S)
      → Returned P r s
      → Returned P (ignored ignore r s).0 (ignored ignore r s).1
  ignored-Returned ignore (ok u) s h = h
  ignored-Returned ignore (err e) s h = absurd h

  handled-Returned :
      (handler : Exec S E (Unit {0})) (r : Result E (Unit {0})) (s : S)
      → Returned P r s
      → Returned P (handled handler r s).0 (handled handler r s).1
  handled-Returned handler (ok u) s h = h
  handled-Returned handler (err e) s h = absurd h

module _ {S E A B : Type 0} (P Q : S → Type 0) where
  continue-Returned :
      (f : A → Exec S E B)
      → ((a : A) (s : S) → P s → Returned Q (f a s).0 (f a s).1)
      → (r : Result E A) (s : S) → Returned P r s
      → Returned Q (continue r f s).0 (continue r f s).1
  continue-Returned f k (ok a) s h = k a s h
  continue-Returned f k (err e) s h = absurd h

module _ {S E A : Type 0} {P : S → Type 0} where
  pub Yields-pure : (a : A) → Yields P (pure {E = E} a)
  unfolding pure
  Yields-pure a = record { returns = λ s h. h }

  pub Yields-gets : (f : S → A) → Yields P (gets {E = E} f)
  unfolding gets
  Yields-gets f = record { returns = λ s h. h }

  pub Yields-lift : (r : Result E A) (a : A) → r ≡ ok a → Yields P (lift r)
  unfolding lift
  Yields-lift r a e = record { returns = λ s h. ok-Returned P r a s e h }

  pub Yields-query :
      (f : S → Result E A) (a : A) → ((s : S) → P s → f s ≡ ok a) → Yields P (query f)
  unfolding query
  Yields-query f a e = record { returns = λ s h. ok-Returned P (f s) a s (e s h) h }

  pub Yields-then :
      (b : Bool) (m n : Exec S E A) → b ≡ true → Yields P m → Yields P (if b then m else n)
  Yields-then true m n e y = y
  Yields-then false m n e y = cc

  pub Yields-if :
      (b : Bool) (m n : Exec S E A) → Yields P m → Yields P n → Yields P (if b then m else n)
  Yields-if true m n ym yn = ym
  Yields-if false m n ym yn = yn

  pub Yields-reraise_as : (x : E) (m : Exec S E A) → Yields P m → Yields P (reraise_as x m)
  unfolding reraise_as
  Yields-reraise_as x m y = record {
    returns = λ s h. reraised-Returned P x (m s).0 (m s).1 (y.returns s h);
  }

  -- The callback of an action that returns never runs.
  pub Yields-with_rollback :
      (callback : Exec S E (Unit {0})) (rest : Exec S E A)
      → Yields P rest
      → Yields P (with_rollback callback rest)
  unfolding with_rollback
  Yields-with_rollback callback rest y = record {
    returns = λ s h. undone-Returned P callback (rest s).0 (rest s).1 (y.returns s h);
  }

module _ {S E : Type 0} {P : S → Type 0} where
  pub Yields-failure_ignore :
      (ignore : Bool) (m : Exec S E (Unit {0})) → Yields P m → Yields P (failure_ignore ignore m)
  unfolding failure_ignore
  Yields-failure_ignore ignore m y = record {
    returns = λ s h. ignored-Returned P ignore (m s).0 (m s).1 (y.returns s h);
  }

  pub Yields-handle_and_raise :
      (body handler : Exec S E (Unit {0}))
      → Yields P body
      → Yields P (handle_and_raise body handler)
  unfolding handle_and_raise
  Yields-handle_and_raise body handler y = record {
    returns = λ s h. handled-Returned P handler (body s).0 (body s).1 (y.returns s h);
  }

module _ {S E A B : Type 0} {P : S → Type 0} where
  pub Yields-bind :
      (m : Exec S E A) (f : A → Exec S E B)
      → Yields P m
      → ((a : A) → Yields P (f a))
      → Yields P (m >>= f)
  unfolding ◌>>=◌
  Yields-bind m f ym yf = record {
    returns =
        λ s h. continue-Returned P P f (λ a t. (yf a).returns t) (m s).0 (m s).1 (ym.returns s h);
  }

pub ruleset yields_rules = (
  Yields-pure, Yields-gets, Yields-if, Yields-reraise_as, Yields-with_rollback,
  Yields-failure_ignore, Yields-handle_and_raise, Yields-bind,
)

-- From a state with `P`, the action returns.
pub record Ends {S E A : Type 0} (P : S → Type 0) (m : Exec S E A) : Type 0 where
  pub ends : (s : S) → P s → Returned (λ _. Unit) (m s).0 (m s).1

module _ {S E A B : Type 0} (P : S → Type 0) (R : A → Type 0) where
  given-Returned :
      (f : A → Exec S E B)
      → ((a : A) → R a → (s : S) → P s → Returned (λ _. Unit) (f a s).0 (f a s).1)
      → (r : Result E A) (s : S) → ((a : A) → r ≡ ok a → R a)
      → Returned P r s
      → Returned (λ _. Unit) (continue r f s).0 (continue r f s).1
  given-Returned f k (ok a) s g h = k a (g a refl) s h
  given-Returned f k (err e) s g h = absurd h

module _ {S E A B : Type 0} {P : S → Type 0} where
  -- The actions behind may use what the one before gives.
  pub Ends-bind_given :
      {R : A → Type 0} (m : Exec S E A) (f : A → Exec S E B)
      → Yields P m
      → Gives R m
      → ((a : A) → R a → Ends P (f a))
      → Ends P (m >>= f)
  unfolding ◌>>=◌
  Ends-bind_given {R} m f y g k = record {
    ends = λ s h.
        given-Returned P R f (λ a r. (k a r).ends) (m s).0 (m s).1 (g.value s) (y.returns s h);
  }

  pub Ends-bind :
      (m : Exec S E A) (f : A → Exec S E B)
      → Yields P m
      → ((a : A) → Ends P (f a))
      → Ends P (m >>= f)
  Ends-bind m f y k =
      Ends-bind_given {R = λ _. Unit} m f y (record { value = λ _ _ _. tt }) (λ a _. k a)

module _ {S E : Type 0} where
  Returned-ok : (r : Result E (Unit {0})) (s : S) → Returned (λ (_ : S). Unit {0}) r s → r ≡ ok tt
  Returned-ok (ok u) s h = refl
  Returned-ok (err e) s h = absurd h

module _ {S E : Type 0} {P : S → Type 0} where
  pub Ends-ok : (m : Exec S E (Unit {0})) → Ends P m → (s : S) → P s → (m s).0 ≡ ok tt
  Ends-ok m t s h = Returned-ok (m s).0 (m s).1 (t.ends s h)

module _ {S E A B : Type 0} {P : S → Type 0} where
  -- A query whose answer is known.
  pub Ends-gets :
      (f : S → A) (a : A) (next : A → Exec S E B)
      → ((s : S) → P s → f s ≡ a)
      → Ends P (next a)
      → Ends P (gets f >>= next)
  unfolding ◌>>=◌
  Ends-gets f a next known e = record { ends = λ s h. rw (known s h) (e.ends s h) }

  pub Ends-query :
      (f : S → Result E A) (a : A) (next : A → Exec S E B)
      → ((s : S) → P s → f s ≡ ok a)
      → Ends P (next a)
      → Ends P (query f >>= next)
  unfolding ◌>>=◌
  Ends-query f a next known e = record { ends = λ s h. rw (known s h) (e.ends s h) }
