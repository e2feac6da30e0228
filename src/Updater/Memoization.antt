-- ===== src/Updater/Memoization.antt =====
-- generic_config_updater/patch_sorter.py: MemoizationSorter.
pub mod Sound
pub mod Ends
use sonic_utility.Base.{
  ℕ, zero, suc, Bool, true, false, Option, none, some, List, [], ◌∷◌, ◌≡◌, if◌then◌else◌, nat_eq,
  ltb, length,
}
use sonic_utility.Base.Result.{Result, ok, err}
use sonic_utility.Updater.Moves.{Stop, raised, out_of_fuel, MoveWrapper, is_visited}

module _ {Config Move : Type 0} (w : MoveWrapper Config Move) (target : Config) where
  -- `self.visited`, and `self.mem` with the latest answer for each hash in front.
  pub record Memory : Type 0 where
    pub visited : List ℕ
    pub mem : List (ℕ × Option (List Move))

  abbrev pub remembered : ℕ → List (ℕ × Option (List Move)) → Option (Option (List Move))
  remembered h [] = none
  remembered h ((k, moves) ∷ rest) = if nat_eq h k then some moves else remembered h rest

  abbrev pub Answer : Type 0
  Answer = Result Stop (Option (List Move)) × Memory

  abbrev pub Search : Type 0
  Search = Config → Memory → Answer

  -- The better of the best moves so far and new ones that start with `m`.
  abbrev pub better : Option (List Move) → Move → Option (List Move) → Option (List Move)
  better bst_moves m none = bst_moves
  better none m (some new_moves) = some (m ∷ new_moves)
  better (some moves) m (some new_moves) =
      if ltb (suc (length new_moves)) (length moves) then some (m ∷ new_moves) else some moves

  abbrev pub improve :
      (Option (List Move) → Memory → Answer)
      → Option (List Move)
      → Move
      → Result Stop (Option (List Move))
      → Memory
      → Answer
  improve rest bst_moves m (err e) s = (err e, s)
  improve rest bst_moves m (ok new_moves) s = rest (better bst_moves m new_moves) s

  abbrev pub attempt :
      Search
      → (Option (List Move) → Memory → Answer)
      → Option (List Move)
      → Move
      → Option Config
      → Memory
      → Answer
  attempt sort rest bst_moves m none s = (err raised, s)
  attempt sort rest bst_moves m (some c) s = improve rest bst_moves m (sort c s).0 (sort c s).1

  -- The loop over the moves, with the method itself as `sort`.
  abbrev pub best : Search → Config → List Move → Option (List Move) → Memory → Answer
  best sort c [] bst_moves s = (ok bst_moves, s)
  best sort c (m ∷ ms) bst_moves s =
      if w.validate m c target
      then attempt sort (best sort c ms) bst_moves m (w.apply m c) s
      else best sort c ms bst_moves s

  -- self.mem[diff_hash] = bst_moves
  abbrev pub remember : ℕ → Answer → Answer
  remember h (err e, s) = (err e, s)
  remember h (ok moves, s) = (ok moves, record s { mem = (h, moves) ∷ s.mem })

  abbrev pub answer : Search → Config → Memory → Option (Option (List Move)) → Answer
  answer sort c s (some moves) = (ok moves, s)
  answer sort c s none =
      let h = w.hash c target in
      if is_visited h s.visited
      then (ok none, s)
      else remember h
          (best sort c (w.generate c target) none (record s { visited = h ∷ s.visited }))

  unfoldable pub memo : ℕ → Search
  memo zero c s = (err out_of_fuel, s)
  memo (suc fuel) c s =
      if w.equal c target
      then (ok (some []), s)
      else answer (memo fuel) c s (remembered (w.hash c target) s.mem)
