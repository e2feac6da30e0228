-- ===== src/Base/Fault.antt =====
-- Python's own exceptions, and the loops that a raised one ends.
use Prim.Native.Nat.{ℕ}
use Prim.Native.String.{String}
use mathlib.Core.Path.{◌≡◌, refl, ap, ◌∙◌, subst}
use mathlib.Core.Bool.{Bool, true, false}
use mathlib.Core.List.{List, [], ◌∷◌}
use mathlib.Core.Option.{Option, none, some}
use sonic_utility.Base.Tests.{if◌then◌else◌, All}
use sonic_utility.Base.Dict.{Dict, lookup}
use sonic_utility.Base.Split.{nth}
use sonic_utility.Base.Result.{Result, ok, err, ◌>>=◌, >>=-eq-ok, ok-injective}

pub data Fault : Type 0 where
  value_error : Fault
  key_error : Fault
  index_error : Fault
  type_error : Fault
  attribute_error : Fault
  exception : Fault

abbrev pub or_fault : {A : Type 0} → Fault → Option A → Result Fault A
or_fault e none = err e
or_fault e (some a) = ok a

-- d[k]
abbrev pub at_key : {V : Type 0} → String → Dict V → Result Fault V
at_key k d = or_fault key_error (lookup k d)

-- l[n]
abbrev pub at_index : {A : Type 0} → ℕ → List A → Result Fault A
at_index n l = or_fault index_error (nth n l)

abbrev with_kept : {A : Type 0} → Option A → List A → List A
with_kept none rest = rest
with_kept (some a) rest = a ∷ rest

-- for x in l: what the body appends for `x`, if it appends
unfoldable pub collect :
    {A B : Type 0} → (A → Result Fault (Option B)) → List A → Result Fault (List B)
collect body [] = ok []
collect body (x ∷ xs) = do kept ← body x; rest ← collect body xs; ok (with_kept kept rest)

-- for x in l: append `x` where the test holds
unfoldable pub keep_if : {A : Type 0} → (A → Result Fault Bool) → List A → Result Fault (List A)
keep_if test [] = ok []
keep_if test (x ∷ xs) = do
  kept ← test x
  rest ← keep_if test xs
  ok (if kept then x ∷ rest else rest)

kept-All :
    {A : Type 0} (Q : A → Type 0) (x : A) (rest : List A) (kept : Bool)
    → (kept ≡ true → Q x)
    → All Q rest
    → All Q (if kept then x ∷ rest else rest)
kept-All Q x rest true h t = (h refl, t)
kept-All Q x rest false h t = t

-- Where each entry that is kept has a property, all entries of the outcome have it.
pub keep_if-All :
    {A : Type 0} (P Q : A → Type 0) (test : A → Result Fault Bool) (xs : List A) {out : List A}
    → ((x : A) → P x → test x ≡ ok true → Q x)
    → All P xs
    → keep_if test xs ≡ ok out
    → All Q out
unfolding keep_if
keep_if-All P Q test [] {out} h p e = subst (All Q) (ok-injective e) tt
keep_if-All P Q test (x ∷ xs) {out} h p e =
    let (kept, tested, e₁) = >>=-eq-ok (test x) _ e in
    let (rest, looped, e₂) = >>=-eq-ok (keep_if test xs) _ e₁ in
    let tail = keep_if-All P Q test xs h p.1 looped in
    subst (All Q) (ok-injective e₂) (kept-All Q x rest kept (λ k. h x p.0 (tested ∙ ap ok k)) tail)
