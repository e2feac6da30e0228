-- ===== src/Updater/Apply.antt =====
-- generic_config_updater/generic_updater.py: PatchApplier and ConfigReplacer.
pub mod Outcomes
use sonic_utility.Base.{
  if◌then◌else◌, Option, get_or, String, Bool, true, false, List, [], ◌∷◌, ◌≡◌, is_nil,
}
use sonic_utility.Base.Dict
use sonic_utility.Base.Dict.{Dict, lookup}
use sonic_utility.Base.Result.{Result, ok, err}
use sonic_utility.Base.Exec.{Exec, pure, raise, lift, gets, query, ◌>>=◌, ◌>>◌}

pub data UpdaterError : Type 0 where
  -- GenericConfigUpdaterError, EmptyTableError, ValueError, and what the JSON patch library, YANG
  -- or a change raises
  updater_error empty_table_error value_error external_error : UpdaterError

-- Tables, with entries under keys.
abbrev pub Config : Type 0 → Type 0
Config V = Dict (Dict V)

module _ {V : Type 0} where
  abbrev pub entry : String → String → Config V → Option V
  entry table key c = lookup key (get_or (lookup table c) [])

  -- get_empty_tables
  unfoldable pub get_empty_tables : Config V → List String
  get_empty_tables [] = []
  get_empty_tables ((table, entries) ∷ rest) =
      let others = get_empty_tables rest in if is_nil entries then table ∷ others else others

  -- remove_backend_tables_from_config
  unfoldable pub remove_backend_tables : Config V → Config V
  remove_backend_tables c =
      Dict.remove "FLEX_COUNTER_TABLE" (Dict.remove "BUFFER_PROFILE" (Dict.remove "BUFFER_PG" c))

  -- The same entries under the same keys of the same tables.
  abbrev pub Agree : Config V → Config V → Type 0
  Agree a b = (table key : String) → entry table key a ≡ entry table key b

-- What the applier works with. `simulate_patch`, `generate_patch` and `same` are those of jsonpatch,
-- a third-party package: two configurations with no patch between them have the same content.
-- `sort` is that of a PatchSorter, `apply_change` that of a ChangeApplier: it changes the running
-- configuration, and the applier does not look at its return code.
pub record Wrappers (V Patch Change : Type 0) : Type 0 where
  pub simulate_patch : Patch → Config V → Result UpdaterError (Config V)
  pub generate_patch : Config V → Config V → Patch
  pub same : Config V → Config V → Bool
  pub same_sound : (a b : Config V) → same a b ≡ true → Agree a b
  pub validate_field_operation : Config V → Config V → Result UpdaterError (Unit {0})
  pub sort : Patch → Config V → Result UpdaterError (List Change)
  pub apply_change : Change → Exec (Config V) UpdaterError (Unit {0})

module _ {V Patch Change : Type 0} (w : Wrappers V Patch Change) where
  abbrev pub Update : Type 0 → Type 0
  Update A = Exec (Config V) UpdaterError A

  abbrev pub ensure : Bool → UpdaterError → Update (Unit {0})
  ensure true e = pure tt
  ensure false e = raise e

  unfoldable pub apply_changes : List Change → Update (Unit {0})
  apply_changes [] = pure tt
  apply_changes (change ∷ changes) = w.apply_change change >> apply_changes changes

  -- PatchApplier.apply up to the sorted changes: the target configuration, and the changes.
  unfoldable pub plan : Patch → Update (Config V × List Change)
  unfolding get_empty_tables
  plan patch = do
    old_config ← gets (λ c. c)
    target_config ← lift (w.simulate_patch patch old_config)
    lift (w.validate_field_operation old_config target_config)
    ensure (is_nil (get_empty_tables target_config)) empty_table_error
    changes ← lift (w.sort patch old_config)
    pure (target_config, changes)

  -- The verification at the end of PatchApplier.apply.
  unfoldable pub verify : Config V → Update (Unit {0})
  unfolding remove_backend_tables
  verify target_config = do
    new_config ← gets (λ c. c)
    ensure (w.same (remove_backend_tables target_config) (remove_backend_tables new_config))
        updater_error

  unfoldable pub apply : Patch → Update (Unit {0})
  unfolding plan apply_changes verify
  apply patch = do planned ← plan patch; apply_changes planned.1; verify planned.0

  -- ConfigReplacer.replace
  unfoldable pub replace : Config V → Update (Unit {0})
  unfolding apply
  replace target_config = do
    patch ← gets (λ old_config. w.generate_patch old_config target_config)
    apply patch
    new_config ← gets (λ c. c)
    ensure (w.same target_config new_config) updater_error
