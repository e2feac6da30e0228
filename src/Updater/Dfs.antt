-- ===== src/Updater/Dfs.antt =====
-- generic_config_updater/patch_sorter.py: DfsSorter.
pub mod Sound
pub mod Ends
use sonic_utility.Base.{
  ℕ, zero, suc, Bool, true, false, Option, none, some, List, [], ◌∷◌, ◌≡◌, if◌then◌else◌,
}
use sonic_utility.Base.Result.{Result, ok, err}
use sonic_utility.Base.Exec.{Exec}
use sonic_utility.Updater.Moves.{
  Stop, raised, out_of_fuel, MoveWrapper, Diff, has_no_diff, diff_hash, is_visited,
}

module _ {Config Move : Type 0} (w : MoveWrapper Config Move) where
  -- The state is `self.visited`, which a sorter keeps between its calls.
  abbrev pub Search : Type 0
  Search = Exec (List ℕ) Stop (Option (List Move))

  abbrev pub at_target : Config → Config → Diff Config
  at_target c t = record { current_config = c; target_config = t }

  -- What the loop does with the answer of the search from the next configuration: moves from there
  -- end it, with the first move in front.
  abbrev pub or_next : Move → Search → Result Stop (Option (List Move)) → Search
  or_next m rest (err e) v = (err e, v)
  or_next m rest (ok (some moves)) v = (ok (some (m ∷ moves)), v)
  or_next m rest (ok none) v = rest v

  abbrev pub attempt : Diff Config → Move → (Diff Config → Search) → Search → Option Config → Search
  attempt d m sort rest none v = (err raised, v)
  attempt d m sort rest (some c) v =
      let (answer, v') = sort (at_target c d.target_config) v in or_next m rest answer v'

  -- The loop over the moves, with the method itself as `sort`.
  abbrev pub try_moves : (Diff Config → Search) → Diff Config → List Move → Search
  try_moves sort d [] v = (ok none, v)
  try_moves sort d (m ∷ ms) v =
      if w.validate m d.current_config d.target_config
      then attempt d m sort (try_moves sort d ms) (w.apply m d.current_config) v
      else try_moves sort d ms v

  abbrev pub visit : (Diff Config → Search) → Diff Config → Search
  visit sort d v =
      if is_visited (diff_hash w d) v
      then (ok none, v)
      else try_moves sort d (w.generate d.current_config d.target_config) (diff_hash w d ∷ v)

  -- DfsSorter.sort; each call spends one unit of fuel.
  unfoldable pub dfs : ℕ → Diff Config → Search
  unfolding has_no_diff
  dfs zero d v = (err out_of_fuel, v)
  dfs (suc fuel) d v = if has_no_diff w d then (ok (some []), v) else visit (dfs fuel) d v
