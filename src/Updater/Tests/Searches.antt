-- ===== src/Updater/Tests/Searches.antt =====
-- The sorters on configurations that are numbers up to three, and moves by one or two.
use sonic_utility.Base.{
  ℕ, ◌+◌, true, ◌&&◌, not, none, some, [], ◌∷◌, ◌≡◌, ◌≢◌, refl, if◌then◌else◌, arith, nat_eq, leb,
}
use sonic_utility.Base.Result.{ok, err}
use sonic_utility.Updater.Moves.{MoveWrapper, out_of_fuel}
use sonic_utility.Updater.Dfs.{at_target, dfs}
use sonic_utility.Updater.Dfs.Sound.{Leads, dfs_sound}
use sonic_utility.Updater.Memoization.{memo}
use sonic_utility.Updater.Memoization.Sound.{memo_sound}
use sonic_utility.Updater.Memoization.Ends.{memo_fuel}
use sonic_utility.Updater.Bfs.{bfs}
use sonic_utility.Updater.Bfs.Sound.{Way, bfs_sound}
use sonic_utility.Updater.Bfs.Ends.{bfs_fuel}
use sonic_utility.Updater.Dfs.Ends.{dfs_fuel}

nat_eq_sound : (a b : ℕ) → nat_eq a b ≡ true → a ≡ b
nat_eq_sound a b e = ground arith

-- A step of one is not valid at 1, and neither is one that leaves the range.
abbrev steps : MoveWrapper ℕ ℕ
steps = record {
  generate = λ c t. 1 ∷ 2 ∷ [];
  validate = λ m c t. not (nat_eq c 1 && nat_eq m 1) && leb (c + m) 3;
  apply = λ m c. if leb (c + m) 3 then some (c + m) else none;
  equal = nat_eq;
  equal_sound = nat_eq_sound;
  hash = λ c t. if leb c 3 then c else 4;
}

found : (dfs steps 4 (at_target steps 0 3) []).0 ≡ ok (some (1 ∷ 2 ∷ []))
unfolding dfs
found = refl

dfs_sound_example : Leads steps 0 (1 ∷ 2 ∷ []) 3
unfolding dfs
dfs_sound_example = dfs_sound steps 4 (at_target steps 0 3) [] (1 ∷ 2 ∷ []) refl

dfs_fuel_example : (dfs steps 6 (at_target steps 0 3) (2 ∷ [])).0 ≢ err out_of_fuel
dfs_fuel_example =
    dfs_fuel steps (0 ∷ 1 ∷ 2 ∷ 3 ∷ 4 ∷ []) 3 (λ c. ground arith) 6 0 (2 ∷ []) (ground arith)

-- The search by breadth finds the same way.
found_by_breadth : bfs steps 3 16 ((0, []) ∷ []) [] ≡ ok (some (1 ∷ 2 ∷ []))
unfolding bfs
found_by_breadth = refl

bfs_sound_example : Way steps 3 0 (1 ∷ 2 ∷ []) 3
unfolding bfs
bfs_sound_example = bfs_sound steps 3 16 0 [] (1 ∷ 2 ∷ []) refl

bfs_fuel_example : bfs steps 3 17 ((0, []) ∷ []) [] ≢ err out_of_fuel
bfs_fuel_example =
    bfs_fuel steps 3 (0 ∷ 1 ∷ 2 ∷ 3 ∷ 4 ∷ []) 2 (λ c. ground arith) (λ c. ground arith) 17
      ((0, []) ∷ []) [] (ground arith)

-- The same moves, with the configuration itself as its hash.
abbrev numbered : MoveWrapper ℕ ℕ
numbered = record steps { hash = λ c t. c }

memo_sound_example : Way numbered 3 0 (1 ∷ 2 ∷ []) 3
unfolding memo
memo_sound_example = memo_sound numbered 3 (λ c d e. e) 5 0 (1 ∷ 2 ∷ []) refl

memo_fuel_example :
    (memo steps 3 6 0 (record { visited = 2 ∷ []; mem = (1, none) ∷ [] })).0 ≢ err out_of_fuel
memo_fuel_example =
    memo_fuel steps 3 (0 ∷ 1 ∷ 2 ∷ 3 ∷ 4 ∷ []) (λ c. ground arith) 6 0
      (record { visited = 2 ∷ []; mem = (1, none) ∷ [] }) (ground arith)
