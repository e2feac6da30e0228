-- ===== src/Package/Feature/Upgrade.antt =====
-- feature.py: `update` in an upgrade of a package and in its rollback.
use sonic_utility.Base.{String, Option, none, some, ◌≡◌, refl, or_else, arith, eq_refl}
use sonic_utility.Base.Dict.{lookup}
use sonic_utility.Package.Model.{ServiceTable}
use sonic_utility.Package.ConfigDb.{Connector}
use sonic_utility.Package.Feature.{
  SonicDb, feature_table, update, is_feature_enabled, get_non_configurable_feature_entries,
}
use sonic_utility.Package.Feature.Each.{OnEach, OnOption, OnEach-trans}
use sonic_utility.Package.Feature.Entries.{Updated, update-Updated}

-- All manifests fix the same fields.
fixed_twice :
    (a b : ServiceTable) (field : String) (x : Option String)
    → or_else
        (lookup field (get_non_configurable_feature_entries a))
        (or_else (lookup field (get_non_configurable_feature_entries b)) x)
      ≡ or_else (lookup field (get_non_configurable_feature_entries a)) x
unfolding lookup get_non_configurable_feature_entries
fixed_twice a b field x = ground arith

module _ (cn : Connector) where
  open cn use {Db, get_entry}

  enabled_after :
      (old_service new_service : ServiceTable) (before after : Option Db)
      → OnOption (Updated cn old_service new_service) before after
      → (s s' : SonicDb Db) → s.running ≡ before
      → s'.running ≡ after
      → is_feature_enabled cn new_service.name s' ≡ is_feature_enabled cn old_service.name s
  unfolding is_feature_enabled get_non_configurable_feature_entries
  enabled_after old_service new_service none none r s s' e e' = ground arith
  enabled_after old_service new_service none (some b) r s s' e e' = absurd r
  enabled_after old_service new_service (some a) none r s s' e e' = absurd r
  enabled_after old_service new_service (some a) (some b) r s s' e e' =
      unfold lookup in ground (arith, r new_service.name "state", eq_refl new_service.name)

  -- A feature is enabled after an update, under its new name, exactly when it was before, under
  -- its old one.
  pub is_feature_enabled-update :
      (old_service new_service : ServiceTable) (s : SonicDb Db)
      → is_feature_enabled cn new_service.name (update cn old_service new_service s)
        ≡ is_feature_enabled cn old_service.name s
  is_feature_enabled-update old_service new_service s =
      let s' = update cn old_service new_service s in
      enabled_after old_service new_service s.running s'.running
        (update-Updated cn old_service new_service s).running s s' refl refl

  -- Every field that no manifest fixes is as it was, and the others are as the old manifest says.
  abbrev pub Restored : ServiceTable → Db → Db → Type 0
  Restored old_service db db' =
      (field : String)
      → lookup field (get_entry feature_table old_service.name db')
        ≡ or_else (lookup field (get_non_configurable_feature_entries old_service))
            (lookup field (get_entry feature_table old_service.name db))

  both_updates :
      (old_service new_service : ServiceTable) (a b c : Db)
      → Updated cn old_service new_service a b
      → Updated cn new_service old_service b c
      → Restored old_service a c
  both_updates old_service new_service a b c r q field = ground (
    arith,
    q old_service.name field,
    r new_service.name field,
    eq_refl old_service.name,
    eq_refl new_service.name,
    fixed_twice old_service new_service field
        (lookup field (get_entry feature_table old_service.name a)),
  )

  -- The rollback of an update, an update in the other direction, restores the feature's entry on
  -- every connector: fields that no manifest fixes have their old values, and the fixed ones those
  -- of the old manifest.
  pub update-update-Restored :
      (old_service new_service : ServiceTable) (s : SonicDb Db)
      → OnEach
          (Restored old_service)
          s
          (update cn new_service old_service (update cn old_service new_service s))
  update-update-Restored old_service new_service s =
      OnEach-trans (Updated cn old_service new_service) (Updated cn new_service old_service)
        (Restored old_service) (both_updates old_service new_service) s _ _
        (update-Updated cn old_service new_service s)
        (update-Updated cn new_service old_service (update cn old_service new_service s))
