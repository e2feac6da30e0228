-- ===== src/RouteCheck/Diff/Counts.antt =====
-- scripts/route_check.py: what `diff_sorted_lists` leaves over of each list.
use sonic_utility.Base.{
  ◌≡◌, refl, String, List, [], ◌∷◌, ◌==◌, true, ◌-◌, Bool-cases, ◌⊎◌, inl, inr, arith, eq_iff,
  eq_refl,
}
use sonic_utility.Base.Order.{text_lt, text_lt-total, IsSorted, count, count-below, All-below}
use sonic_utility.RouteCheck.Diff.{same, less, more, cmps, diff_sorted_lists}

pub cmps-cases :
    (x y : String)
    → ((cmps x y ≡ same) × (x ≡ y))
      ⊎ (((cmps x y ≡ less) × (text_lt x y ≡ true)) ⊎ ((cmps x y ≡ more) × (text_lt y x ≡ true)))
unfolding cmps
cmps-cases x y = elim (Bool-cases (x == y)) [
  | inl e ↦ inl (rw e refl, (eq_iff x y).0 e)
  | inr e ↦ elim (Bool-cases (text_lt x y)) [
    | inl h ↦ inr (inl (ground arith, h))
    | inr h ↦
        inr (
          inr
            (ground arith, ground (arith, text_lt-total x y, eq_refl x, Bool-cases (text_lt y x))))
  ]
]

-- What is below the head of a sorted list does not occur in it.
count-below_head :
    (x y : String) (ys : List String)
    → text_lt x y ≡ true
    → IsSorted (y ∷ ys)
    → count x (y ∷ ys) ≡ 0
count-below_head x y ys h s = count-below x (y ∷ ys) (h, All-below x y ys h s.0)

-- On sorted lists `diff_sorted_lists` is the difference of the lists with their repetitions, both ways.
pub diff_sorted_lists_lem :
    (z : String) (t1 t2 : List String)
    → IsSorted t1
    → IsSorted t2
    → (count z (diff_sorted_lists t1 t2).0 ≡ count z t1 - count z t2)
      × (count z (diff_sorted_lists t1 t2).1 ≡ count z t2 - count z t1)
unfolding diff_sorted_lists count
diff_sorted_lists_lem z [] t2 s1 s2 = ground arith
diff_sorted_lists_lem z (x ∷ xs) [] s1 s2 = ground arith
diff_sorted_lists_lem z (x ∷ xs) (y ∷ ys) s1 s2 = elim (cmps-cases x y) [
  | inl (e, p) ↦ rw (e, diff_sorted_lists) (ground (arith, diff_sorted_lists_lem z xs ys s1.1 s2.1))
  | inr (inl (e, h)) ↦
      rw (e, diff_sorted_lists)
        (ground (
          arith,
          diff_sorted_lists_lem z xs (y ∷ ys) s1.1 s2,
          eq_iff x z,
          count-below_head x y ys h s2,
        ))
  | inr (inr (e, h)) ↦
      rw (e, diff_sorted_lists)
        (ground (
          arith,
          diff_sorted_lists_lem z (x ∷ xs) ys s1 s2.1,
          eq_iff y z,
          count-below_head y x xs h s1,
        ))
]
