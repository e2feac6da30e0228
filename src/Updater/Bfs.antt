-- ===== src/Updater/Bfs.antt =====
-- generic_config_updater/patch_sorter.py: BfsSorter.
pub mod Sound
pub mod Ends
use sonic_utility.Base.{
  ℕ, zero, suc, Bool, true, false, Option, none, some, List, [], ◌∷◌, ◌++◌, ◌≡◌, if◌then◌else◌,
}
use sonic_utility.Base.Result.{Result, ok, err}
use sonic_utility.Updater.Moves.{Stop, raised, out_of_fuel, MoveWrapper, is_visited}

module _ {Config Move : Type 0} (w : MoveWrapper Config Move) (target : Config) where
  -- An item of the two queues: a configuration, and the moves that led to it.
  abbrev pub Item : Type 0
  Item = Config × List Move

  abbrev pub with_move :
      List Move → Move → Option Config → Result Stop (List Item) → Result Stop (List Item)
  with_move prv_moves m none items = err raised
  with_move prv_moves m (some c) (err e) = err e
  with_move prv_moves m (some c) (ok items) = ok ((c, prv_moves ++ m ∷ []) ∷ items)

  -- The loop over the moves: what it appends to the queues.
  unfoldable pub expand : Config → List Move → List Move → Result Stop (List Item)
  expand c prv_moves [] = ok []
  expand c prv_moves (m ∷ ms) =
      let items = expand c prv_moves ms in
      if w.validate m c target then with_move prv_moves m (w.apply m c) items else items

  abbrev pub Answer : Type 0
  Answer = Result Stop (Option (List Move))

  -- What is left of the loop once the moves are expanded, with the loop itself as `next`.
  abbrev pub go_on :
      (List Item → List ℕ → Answer) → List Item → List ℕ → Result Stop (List Item) → Answer
  go_on next rest v (err e) = err e
  go_on next rest v (ok items) = next (rest ++ items) v

  -- The loop over the queues, on fuel; `v` is `self.visited`.
  unfoldable pub bfs : ℕ → List Item → List ℕ → Answer
  unfolding expand
  bfs zero queue v = err out_of_fuel
  bfs (suc fuel) [] v = ok none
  bfs (suc fuel) ((c, prv_moves) ∷ rest) v =
      if is_visited (w.hash c target) v
      then bfs fuel rest v
      else if w.equal c target
      then ok (some prv_moves)
      else go_on (bfs fuel) rest (w.hash c target ∷ v) (expand c prv_moves (w.generate c target))
