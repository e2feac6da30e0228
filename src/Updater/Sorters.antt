-- ===== src/Updater/Sorters.antt =====
-- generic_config_updater/patch_sorter.py: PatchSorter and StrictPatchSorter, over the three
-- searches.
pub mod Found
use sonic_utility.Base.{
  ℕ, Bool, true, false, Option, none, some, List, [], ◌∷◌, ◌++◌, map, ◌≡◌, if◌then◌else◌,
}
use sonic_utility.Base.Result.{Result, ok, err, ◌>>=◌, ◌>>◌, guard}
use sonic_utility.Updater.Moves.{Stop, MoveWrapper}
use sonic_utility.Updater.Dfs.{dfs, at_target}
use sonic_utility.Updater.Bfs.{bfs}
use sonic_utility.Updater.Memoization.{memo}

pub data Algorithm : Type 0 where
  depth_first breadth_first memoization : Algorithm

pub data SortError : Type 0 where
  -- ValueError, GenericConfigUpdaterError, what jsonpatch raises, and a search that stops
  value_error no_sorting patch_error : SortError
  stopped : Stop → SortError

-- The patches of jsonpatch, and the checks by YANG models.
pub record Tools (Config Patch Move : Type 0) : Type 0 where
  pub wrapper : MoveWrapper Config Move
  pub patch_of : Move → Patch
  pub apply_patch : Patch → Config → Result SortError Config
  pub is_empty_config : Config → Bool
  pub validate_config_db_patch_has_yang_models : Patch → Bool
  pub validate_config_db_config : Config → Bool

module _ {Config Patch Move : Type 0} (tools : Tools Config Patch Move) where
  abbrev pub answer_of : {A : Type 0} → Result Stop A → Result SortError A
  answer_of (ok a) = ok a
  answer_of (err e) = err (stopped e)

  -- SortAlgorithmFactory.create, and the sorter's sort.
  unfoldable pub search : Algorithm → ℕ → Config → Config → Result SortError (Option (List Move))
  search depth_first fuel c t =
      answer_of (dfs tools.wrapper fuel (at_target tools.wrapper c t) []).0
  search breadth_first fuel c t = answer_of (bfs tools.wrapper t fuel ((c, []) ∷ []) [])
  search memoization fuel c t =
      answer_of (memo tools.wrapper t fuel c (record { visited = []; mem = [] })).0

  abbrev pub changes_of : Option (List Move) → Result SortError (List Patch)
  changes_of none = err no_sorting
  changes_of (some moves) = ok (map tools.patch_of moves)

  loaded : Config → Option Config → Config
  loaded running none = running
  loaded running (some c) = if tools.is_empty_config c then running else c

  -- PatchSorter.sort; a preloaded configuration that is empty counts as none.
  unfoldable pub sort_patch :
      Algorithm → ℕ → Config → Option Config → Patch → Result SortError (List Patch)
  unfolding loaded
  sort_patch algorithm fuel running preloaded patch = do
    let current_config = loaded running preloaded
    target_config ← tools.apply_patch patch current_config
    found ← search algorithm fuel current_config target_config
    changes_of found

  -- StrictPatchSorter.sort
  unfoldable pub sort_strict : Algorithm → ℕ → Config → Patch → Result SortError (List Patch)
  sort_strict algorithm fuel running patch = do
    guard (tools.validate_config_db_patch_has_yang_models patch) value_error
    target_config ← tools.apply_patch patch running
    guard (tools.validate_config_db_config target_config) value_error
    sort_patch algorithm fuel running none patch
