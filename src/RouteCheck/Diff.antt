-- ===== src/RouteCheck/Diff.antt =====
-- scripts/route_check.py: `cmps` and `diff_sorted_lists`.
pub mod Counts
pub mod Entries
use sonic_utility.Base.{String, Bool, List, [], ◌∷◌, ◌==◌, if◌then◌else◌}
use sonic_utility.Base.Order.{text_lt}

pub data Comparison : Type 0 where
  same : Comparison
  less : Comparison
  more : Comparison

unfoldable pub cmps : String → String → Comparison
cmps s1 s2 = if s1 == s2 then same else if text_lt s1 s2 then less else more

-- The two lists are what the indices have not passed yet.
unfoldable pub diff_sorted_lists : List String → List String → List String × List String
diff_sorted_lists [] t2 = ([], t2)
diff_sorted_lists (x ∷ xs) [] = (x ∷ xs, [])
diff_sorted_lists (x ∷ xs) (y ∷ ys) = elim (cmps x y) [
  | same ↦ diff_sorted_lists xs ys
  | less ↦ let (t1_miss, t2_miss) = diff_sorted_lists xs (y ∷ ys) in (x ∷ t1_miss, t2_miss)
  | more ↦ let (t1_miss, t2_miss) = diff_sorted_lists (x ∷ xs) ys in (t1_miss, y ∷ t2_miss)
]
