-- ===== src/RouteCheck/Diff/Entries.antt =====
-- scripts/route_check.py: the entries that `diff_sorted_lists` returns, and their order.
use sonic_utility.Base.{◌≡◌, String, List, [], ◌∷◌, false, inl, inr, All}
use sonic_utility.Base.Order.{text_lt, IsSorted}
use sonic_utility.RouteCheck.Diff.{diff_sorted_lists}
use sonic_utility.RouteCheck.Diff.Counts.{cmps-cases}

-- A property of all entries of both lists holds of all entries that are left over.
pub All-diff_sorted_lists :
    (P Q : String → Type 0) (t1 t2 : List String)
    → All P t1
    → All Q t2
    → All P (diff_sorted_lists t1 t2).0 × All Q (diff_sorted_lists t1 t2).1
unfolding diff_sorted_lists
All-diff_sorted_lists P Q [] t2 p q = (tt, q)
All-diff_sorted_lists P Q (x ∷ xs) [] p q = (p, tt)
All-diff_sorted_lists P Q (x ∷ xs) (y ∷ ys) p q = elim (cmps-cases x y) [
  | inl (e, _) ↦ rw (e, diff_sorted_lists) (All-diff_sorted_lists P Q xs ys p.1 q.1)
  | inr (inl (e, _)) ↦
      rw (e, diff_sorted_lists)
        (let rest = All-diff_sorted_lists P Q xs (y ∷ ys) p.1 q in ((p.0, rest.0), rest.1))
  | inr (inr (e, _)) ↦
      rw (e, diff_sorted_lists)
        (let rest = All-diff_sorted_lists P Q (x ∷ xs) ys p q.1 in (rest.0, (q.0, rest.1)))
]

All-true : (l : List String) → All (λ _. Unit {0}) l
All-true [] = tt
All-true (x ∷ xs) = (tt, All-true xs)

pub diff_sorted_lists-IsSorted :
    (t1 t2 : List String)
    → IsSorted t1
    → IsSorted t2
    → IsSorted (diff_sorted_lists t1 t2).0 × IsSorted (diff_sorted_lists t1 t2).1
unfolding diff_sorted_lists
diff_sorted_lists-IsSorted [] t2 s1 s2 = (tt, s2)
diff_sorted_lists-IsSorted (x ∷ xs) [] s1 s2 = (s1, tt)
diff_sorted_lists-IsSorted (x ∷ xs) (y ∷ ys) s1 s2 = elim (cmps-cases x y) [
  | inl (e, _) ↦ rw (e, diff_sorted_lists) (diff_sorted_lists-IsSorted xs ys s1.1 s2.1)
  | inr (inl (e, _)) ↦
      rw (e, diff_sorted_lists)
        (let rest = diff_sorted_lists-IsSorted xs (y ∷ ys) s1.1 s2 in
          let kept =
            All-diff_sorted_lists (λ z. text_lt z x ≡ false) (λ _. Unit {0}) xs (y ∷ ys) s1.0
              (All-true (y ∷ ys)) in
          ((kept.0, rest.0), rest.1))
  | inr (inr (e, _)) ↦
      rw (e, diff_sorted_lists)
        (let rest = diff_sorted_lists-IsSorted (x ∷ xs) ys s1 s2.1 in
          let kept =
            All-diff_sorted_lists (λ _. Unit {0}) (λ z. text_lt z y ≡ false) (x ∷ xs) ys
              (All-true (x ∷ xs)) s2.0 in
          (rest.0, (kept.1, rest.1)))
]
