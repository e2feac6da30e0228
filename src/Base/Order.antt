-- ===== src/Base/Order.antt =====
-- Python's order of texts, by code points, and the sorting of lists of texts.
use Prim.Native.Nat.{ℕ, ◌+◌}
use Prim.Native.Char.{code}
use Prim.Native.String.{String}
use mathlib.Core.Path.{◌≡◌, refl}
use mathlib.Core.Bool.{Bool, true, false, ◌&&◌, ◌||◌}
use mathlib.Core.List.{List, [], ◌∷◌}
use mathlib.Core.Logic.{inl, inr}
use native.Mathlib.Omega.{arith}
use text.Mathlib.Text.{◌==◌}
use text.Mathlib.TextEquality.{eq_iff, Char-path}
use sonic_utility.Base.Tests.{ltb, nat_eq, if◌then◌else◌, All, Bool-cases}

-- s < t
unfoldable pub text_lt : String → String → Bool
text_lt String.[] String.[] = false
text_lt String.[] (String.◌∷◌ d t) = true
text_lt (String.◌∷◌ c s) String.[] = false
text_lt (String.◌∷◌ c s) (String.◌∷◌ d t) =
    ltb (code c) (code d) || (nat_eq (code c) (code d) && text_lt s t)

pub text_lt_irrefl : (s : String) → text_lt s s ≡ false
unfolding text_lt
text_lt_irrefl String.[] = refl
text_lt_irrefl (String.◌∷◌ c s) = ground (arith, text_lt_irrefl s)

pub text_lt_trans : (s t u : String) → text_lt s t ≡ true → text_lt t u ≡ true → text_lt s u ≡ true
unfolding text_lt
text_lt_trans String.[] String.[] u h k = ground arith
text_lt_trans String.[] (String.◌∷◌ d t) String.[] h k = ground arith
text_lt_trans String.[] (String.◌∷◌ d t) (String.◌∷◌ e u) h k = refl
text_lt_trans (String.◌∷◌ c s) String.[] u h k = ground arith
text_lt_trans (String.◌∷◌ c s) (String.◌∷◌ d t) String.[] h k = ground arith
text_lt_trans (String.◌∷◌ c s) (String.◌∷◌ d t) (String.◌∷◌ e u) h k =
    ground (arith, text_lt_trans s t u)

pub text_lt-total : (s t : String) → text_lt s t ≡ false → text_lt t s ≡ false → s ≡ t
unfolding text_lt
text_lt-total String.[] String.[] h k = refl
text_lt-total String.[] (String.◌∷◌ d t) h k = ground arith
text_lt-total (String.◌∷◌ c s) String.[] h k = ground arith
text_lt-total (String.◌∷◌ c s) (String.◌∷◌ d t) h k =
    ground (arith, text_lt-total s t, Char-path c d)

pub text_lt-asym : (s t : String) → text_lt s t ≡ true → text_lt t s ≡ false
text_lt-asym s t h = ground (arith, text_lt_trans s t s, text_lt_irrefl s, Bool-cases (text_lt t s))

-- No later text is below an earlier one.
abbrev pub IsSorted : List String → Type 0
IsSorted [] = Unit
IsSorted (x ∷ xs) = All (λ y. text_lt y x ≡ false) xs × IsSorted xs

-- How often a text occurs.
unfoldable pub count : String → List String → ℕ
count x [] = 0
count x (y ∷ ys) = (if y == x then 1 else 0) + count x ys

-- sorted(l)
unfoldable pub put_in_order : String → List String → List String
put_in_order x [] = x ∷ []
put_in_order x (y ∷ ys) =
    let rest = put_in_order x ys in if text_lt y x then y ∷ rest else x ∷ y ∷ ys

unfoldable pub sorted : List String → List String
sorted [] = []
sorted (x ∷ xs) = put_in_order x (sorted xs)

All-put_in_order :
    (P : String → Type 0) (x : String) (ys : List String)
    → P x
    → All P ys
    → All P (put_in_order x ys)
unfolding put_in_order
All-put_in_order P x [] p h = (p, tt)
All-put_in_order P x (y ∷ ys) p h = ground (arith, All-put_in_order P x ys p h.1)

All-not_below :
    (x y : String) (ys : List String)
    → text_lt y x ≡ false
    → All (λ z. text_lt z y ≡ false) ys
    → All (λ z. text_lt z x ≡ false) ys
All-not_below x y [] h k = tt
All-not_below x y (z ∷ ys) h k = (
  ground (
    arith,
    text_lt_trans y z x,
    text_lt-total y z,
    Bool-cases (text_lt z x),
    Bool-cases (text_lt y z),
  ),
  All-not_below x y ys h k.1,
)

put_in_order-IsSorted : (x : String) (ys : List String) → IsSorted ys → IsSorted (put_in_order x ys)
unfolding put_in_order
put_in_order-IsSorted x [] s = (tt, tt)
put_in_order-IsSorted x (y ∷ ys) s = elim (Bool-cases (text_lt y x)) [
  | inl e ↦
      rw (e, put_in_order)
        (
          All-put_in_order (λ z. text_lt z y ≡ false) x ys (text_lt-asym y x e) s.0,
          put_in_order-IsSorted x ys s.1,
        )
  | inr e ↦ rw (e, put_in_order) ((e, All-not_below x y ys e s.0), s)
]

pub sorted-IsSorted : (xs : List String) → IsSorted (sorted xs)
unfolding sorted
sorted-IsSorted [] = tt
sorted-IsSorted (x ∷ xs) = put_in_order-IsSorted x (sorted xs) (sorted-IsSorted xs)

count-put_in_order :
    (z x : String) (ys : List String)
    → count z (put_in_order x ys) ≡ (if x == z then 1 else 0) + count z ys
unfolding put_in_order count
count-put_in_order z x [] = refl
count-put_in_order z x (y ∷ ys) = ground (arith, count-put_in_order z x ys)

-- Sorting keeps every occurrence.
pub count-sorted : (z : String) (xs : List String) → count z (sorted xs) ≡ count z xs
unfolding sorted count
count-sorted z [] = refl
count-sorted z (x ∷ xs) = ground (arith, count-put_in_order z x (sorted xs), count-sorted z xs)

-- What is below every text of a list does not occur in it.
pub count-below :
    (x : String) (ys : List String) → All (λ y. text_lt x y ≡ true) ys → count x ys ≡ 0
unfolding count
count-below x [] h = refl
count-below x (y ∷ ys) h = ground (arith, eq_iff y x, text_lt_irrefl x, count-below x ys h.1)

-- The head of a sorted list, and with it what is below the head, is below the rest.
pub All-below :
    (x y : String) (ys : List String)
    → text_lt x y ≡ true
    → All (λ z. text_lt z y ≡ false) ys
    → All (λ z. text_lt x z ≡ true) ys
All-below x y [] h k = tt
All-below x y (z ∷ ys) h k = (
  ground (arith, text_lt_trans x y z, text_lt-total z y, Bool-cases (text_lt y z)),
  All-below x y ys h k.1,
)
