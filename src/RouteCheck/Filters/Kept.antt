-- ===== src/RouteCheck/Filters/Kept.antt =====
-- scripts/route_check.py: what a filter of a list of routes leaves, in terms of a test of a route.
use sonic_utility.Base.{
  ◌≡◌, refl, subst, String, Bool, true, false, ◌&&◌, List, [], ◌∷◌, if◌then◌else◌, arith, eq_iff,
  All,
}
use sonic_utility.Base.Order.{text_lt, IsSorted, count}
use sonic_utility.Base.Result.{Result, ok, >>=-eq-ok, ok-injective}
use sonic_utility.Base.Fault.{Fault, keep_if, keep_if-All}

-- `out` is the sorted list `xs` without the texts that fail the test.
pub record IsFiltered (T : String → Bool) (xs out : List String) : Type 0 where
  pub counts : (z : String) → count z out ≡ (if T z then count z xs else 0)
  pub in_order : IsSorted xs → IsSorted out

pub unfiltered : (xs : List String) → IsFiltered (λ _. true) xs xs
unfiltered xs = record { counts = λ z. refl; in_order = λ s. s }

pub IsFiltered-trans :
    (T U : String → Bool) (xs ys zs : List String)
    → IsFiltered T xs ys
    → IsFiltered U ys zs
    → IsFiltered (λ z. T z && U z) xs zs
IsFiltered-trans T U xs ys zs f g = record {
  counts = λ z. ground (arith, f.counts z, g.counts z);
  in_order = λ s. g.in_order (f.in_order s);
}

-- Tests that agree on the texts of the list give the same filter.
pub IsFiltered-nil : (T : String → Bool) → IsFiltered T [] []
unfolding count
IsFiltered-nil T = record { counts = λ z. ground arith; in_order = λ s. s }

count-kept :
    (T : String → Bool) (z x : String) (xs rest : List String) (kept : Bool)
    → T x ≡ kept
    → count z rest ≡ (if T z then count z xs else 0)
    → count z (if kept then x ∷ rest else rest) ≡ (if T z then count z (x ∷ xs) else 0)
unfolding count
count-kept T z x xs rest true h e = ground (arith, eq_iff x z, subst (λ y. T y ≡ true))
count-kept T z x xs rest false h e = ground (arith, eq_iff x z)

IsSorted-kept :
    (x : String) (rest : List String) (kept : Bool)
    → IsSorted (x ∷ rest)
    → IsSorted (if kept then x ∷ rest else rest)
IsSorted-kept x rest true s = s
IsSorted-kept x rest false s = s.1

pub keep_if-IsFiltered :
    (test : String → Result Fault Bool) (T : String → Bool) (xs : List String) {out : List String}
    → ((x : String) (b : Bool) → test x ≡ ok b → T x ≡ b)
    → keep_if test xs ≡ ok out
    → IsFiltered T xs out
unfolding keep_if
keep_if-IsFiltered test T [] {out} h e =
    subst (λ l. IsFiltered T [] l) (ok-injective e) (IsFiltered-nil T)
keep_if-IsFiltered test T (x ∷ xs) {out} h e =
    let (kept, tested, e1) = >>=-eq-ok (test x) _ e in
    let (rest, looped, e2) = >>=-eq-ok (keep_if test xs) _ e1 in
    let f = keep_if-IsFiltered test T xs h looped in
    let below : All (λ y. text_lt y x ≡ false) xs → All (λ y. text_lt y x ≡ false) rest = λ s.
      keep_if-All (λ y. text_lt y x ≡ false) (λ y. text_lt y x ≡ false) test xs (λ y p _. p) s
        looped in
    subst (λ l. IsFiltered T (x ∷ xs) l) (ok-injective e2)
      (record {
        counts = λ z. count-kept T z x xs rest kept (h x kept tested) (f.counts z);
        in_order = λ s. IsSorted-kept x rest kept (below s.0, f.in_order s.1);
      })
