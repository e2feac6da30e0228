-- ===== src/DbMigrator/Versions.antt =====
-- scripts/db_migrator.py: the handlers of the versions, `get_version`, `set_version` and `migrate`.
pub mod Ends
pub mod Final
use sonic_utility.Base.{
  ℕ, zero, suc, String, Bool, true, false, not, ◌&&◌, ◌||◌, List, [], ◌∷◌, Option, none, some, ◌==◌,
  if◌then◌else◌, is_nil, get_or,
}
use sonic_utility.Base.Dict.{Dict, lookup, insert}
use sonic_utility.Base.Text.{is_empty}
use sonic_utility.Base.Split.{contains}
use sonic_utility.Base.Result.{Result, ok, err}
use sonic_utility.Base.Exec.{Exec, pure, lift, raise, query, ◌>>=◌, ◌>>◌}
use sonic_utility.Base.Fault.{Fault, attribute_error, key_error, exception, or_fault}
use sonic_utility.DbMigrator.Databases.{Databases, Entry, get_entry, for_each}
use sonic_utility.DbMigrator.Tables.{
  migrate_pfc_wd_table, migrate_interface_table, migrate_feature_table,
  migrate_config_db_port_table_for_auto_neg, migrate_port_qos_map_global, set_lacp_key,
  set_pfcwd_enable,
}
use sonic_utility.DbMigrator.Missing.{
  migrate_restapi, migrate_telemetry, migrate_console_switch, migrate_device_metadata,
  migrate_init_cfg, migrate_copp_table,
}
use sonic_utility.DbMigrator.Warm.{migrate_vxlan_config, migrate_intf_table, migrate_loglevel}
use sonic_utility.DbMigrator.References.{migrate_qos_fieldval_reference_format}

-- The methods version_… of DBMigrator
pub data Version : Type 0 where
  version_unknown version_1_0_1 version_1_0_2 version_1_0_3 version_1_0_4 version_1_0_5 : Version
  version_1_0_6 version_2_0_0 version_2_0_1 version_2_0_2 version_3_0_0 version_3_0_1 : Version
  version_3_0_2 version_3_0_3 version_3_0_4 version_3_0_5 version_3_0_6 version_4_0_0 : Version

unfoldable pub name_of : Version → String
name_of version_unknown = "version_unknown"
name_of version_1_0_1 = "version_1_0_1"
name_of version_1_0_2 = "version_1_0_2"
name_of version_1_0_3 = "version_1_0_3"
name_of version_1_0_4 = "version_1_0_4"
name_of version_1_0_5 = "version_1_0_5"
name_of version_1_0_6 = "version_1_0_6"
name_of version_2_0_0 = "version_2_0_0"
name_of version_2_0_1 = "version_2_0_1"
name_of version_2_0_2 = "version_2_0_2"
name_of version_3_0_0 = "version_3_0_0"
name_of version_3_0_1 = "version_3_0_1"
name_of version_3_0_2 = "version_3_0_2"
name_of version_3_0_3 = "version_3_0_3"
name_of version_3_0_4 = "version_3_0_4"
name_of version_3_0_5 = "version_3_0_5"
name_of version_3_0_6 = "version_3_0_6"
name_of version_4_0_0 = "version_4_0_0"

abbrev pub versions : List Version
versions =
    version_unknown ∷ version_1_0_1 ∷ version_1_0_2 ∷ version_1_0_3 ∷ version_1_0_4 ∷ version_1_0_5
    ∷ version_1_0_6 ∷ version_2_0_0 ∷ version_2_0_1 ∷ version_2_0_2 ∷ version_3_0_0 ∷ version_3_0_1
    ∷ version_3_0_2 ∷ version_3_0_3 ∷ version_3_0_4 ∷ version_3_0_5 ∷ version_3_0_6 ∷ version_4_0_0
    ∷ []

-- The version of that name among those given.
unfoldable pub named : String → List Version → Option Version
unfolding name_of
named text [] = none
named text (v ∷ vs) = let rest = named text vs in if name_of v == text then some v else rest

-- What the migrator meets besides the databases: the platform, the file init_cfg.json (none where it
-- cannot be read), an order of the interface tables, and steps that are not modelled here: those of
-- MellanoxBufferMigrator, of the dynamic buffers, and of the ports of the S6100.
pub record Platform (S : Type 0) : Type 0 where
  pub asic_type : String
  pub hwsku : String
  pub init_cfg : Option (Dict (Dict Entry))
  pub if_tables : List String
  pub mlnx_migrate_buffer_pool_size : Version → Version → S → Bool × S
  pub mlnx_migrate_buffer_profile : Version → Version → S → Bool × S
  pub mlnx_flush_new_buffer_configuration : S → Bool × S
  pub mlnx_is_buffer_model_dynamic : S → Bool × S
  pub mlnx_reclaiming_unused_buffer : S → S
  pub migrate_config_db_buffer_tables_for_dynamic_calculation : S → Bool × S
  pub prepare_dynamic_buffer_for_warm_reboot :
      Option (Dict Entry × Dict Entry × Dict Entry) → S → Bool × S
  pub migrate_mgmt_ports_on_s6100 : S → S

-- a() and b()
infixr 6 ◌andthen◌
abbrev ◌andthen◌ : {S : Type 0} → (S → Bool × S) → (S → Bool × S) → S → Bool × S
(a andthen b) s = let (done, s') = a s in if done then b s' else (false, s')

-- The version that the handler of a version returns
unfoldable pub next : Version → Option Version
next version_unknown = some version_1_0_2
next version_1_0_1 = some version_1_0_2
next version_1_0_2 = some version_1_0_3
next version_1_0_3 = some version_1_0_4
next version_1_0_4 = some version_1_0_5
next version_1_0_5 = some version_1_0_6
next version_1_0_6 = some version_2_0_0
next version_2_0_0 = some version_2_0_1
next version_2_0_1 = some version_2_0_2
next version_2_0_2 = some version_3_0_0
next version_3_0_0 = some version_3_0_1
next version_3_0_1 = some version_3_0_2
next version_3_0_2 = some version_3_0_3
next version_3_0_3 = some version_3_0_4
next version_3_0_4 = some version_3_0_5
next version_3_0_5 = some version_3_0_6
next version_3_0_6 = some version_4_0_0
next version_4_0_0 = none

abbrev version_in : Option String → Result Fault String
version_in none = err key_error
version_in (some text) = ok (if is_empty text then "version_unknown" else text)

abbrev pub text_of : Option Version → Option String
text_of none = none
text_of (some v) = some (name_of v)

module _ {S : Type 0} (db : Databases S) (platform : Platform S) where
  unfoldable pub get_version : S → Result Fault String
  get_version s =
      let version = get_entry db "VERSIONS" "DATABASE" s in
      if is_nil version then ok "version_unknown" else version_in (lookup "VERSION" version)

  unfoldable pub set_version : Version → S → S
  unfolding name_of
  set_version v = db.set_entry "VERSIONS" "DATABASE" (some (("VERSION", name_of v) ∷ []))

  -- Where the steps fail, the version stays.
  set_if : (S → Bool × S) → Version → S → S
  unfolding set_version
  set_if steps v s = let (done, s') = steps s in if done then set_version v s' else s'

  is_mellanox : Bool
  is_mellanox = platform.asic_type == "mellanox"

  migrate_interfaces : S → S
  migrate_interfaces = migrate_interface_table db platform.if_tables

  set_traditional : S → S
  set_traditional s =
      let metadata = get_entry db "DEVICE_METADATA" "localhost" s in
      db.set_entry "DEVICE_METADATA" "localhost"
        (some (insert "buffer_model" "traditional" metadata)) s

  dynamic_buffers : S → Bool × S
  dynamic_buffers s =
      let (dynamic, s') = platform.mlnx_is_buffer_model_dynamic s in
      if dynamic
      then platform.migrate_config_db_buffer_tables_for_dynamic_calculation s'
      else (true, s')

  is_warm : S → Bool
  is_warm s = get_or (db.warm_restart s) "" == "true"

  buffers : S → Dict Entry × Dict Entry × Dict Entry
  buffers s =
      (db.get_table "BUFFER_POOL" s, db.get_table "BUFFER_PROFILE" s, db.get_table "BUFFER_PG" s)

  -- The state after a handler that raises nothing; the next version is in `next`.
  step : Version → S → S
  unfolding set_version set_if is_mellanox set_traditional dynamic_buffers is_warm buffers
  step version_1_0_2 s =
      if is_mellanox
      then set_if
          (platform.mlnx_migrate_buffer_pool_size version_1_0_2 version_1_0_3
            andthen platform.mlnx_flush_new_buffer_configuration)
          version_1_0_3 s
      else set_version version_1_0_3 s
  step version_1_0_3 s =
      let s' = migrate_feature_table db s in
      if is_mellanox
      then set_if
          (platform.mlnx_migrate_buffer_pool_size version_1_0_3 version_1_0_4
            andthen platform.mlnx_migrate_buffer_profile version_1_0_3 version_1_0_4
            andthen platform.mlnx_flush_new_buffer_configuration)
          version_1_0_4 s'
      else set_version version_1_0_4 s'
  step version_1_0_4 s =
      if is_mellanox
      then set_if
          (platform.mlnx_migrate_buffer_pool_size version_1_0_4 version_1_0_5
            andthen platform.mlnx_migrate_buffer_profile version_1_0_4 version_1_0_5
            andthen platform.mlnx_flush_new_buffer_configuration)
          version_1_0_5 s
      else set_version version_1_0_5 s
  step version_1_0_5 s =
      if is_mellanox
      then set_if
          (platform.mlnx_migrate_buffer_pool_size version_1_0_5 version_1_0_6
            andthen platform.mlnx_migrate_buffer_profile version_1_0_5 version_1_0_6
            andthen platform.mlnx_flush_new_buffer_configuration)
          version_1_0_6 s
      else set_version version_1_0_6 s
  step version_1_0_6 s =
      if is_mellanox
      then set_if
          (platform.mlnx_migrate_buffer_pool_size version_1_0_6 version_2_0_0
            andthen platform.mlnx_migrate_buffer_profile version_1_0_6 version_2_0_0
            andthen dynamic_buffers
            andthen platform.mlnx_flush_new_buffer_configuration
            andthen platform.prepare_dynamic_buffer_for_warm_reboot (some (buffers s)))
          version_2_0_0 s
      else set_version version_2_0_0
          (set_traditional (platform.prepare_dynamic_buffer_for_warm_reboot none s).1)
  step version_2_0_0 s =
      set_version version_2_0_1 (migrate_port_qos_map_global db platform.asic_type s)
  step version_2_0_1 s = set_version version_2_0_2 (
      migrate_device_metadata db (
        migrate_console_switch db
          (migrate_telemetry db (migrate_restapi db (migrate_vxlan_config db s)))))
  step version_2_0_2 s = set_version version_3_0_0 s
  step version_3_0_0 s = set_version version_3_0_1 (migrate_config_db_port_table_for_auto_neg db s)
  step version_3_0_1 s =
      set_version version_3_0_2
        (if is_warm s then s else for_each (set_lacp_key db) (db.get_table "PORTCHANNEL" s) s)
  step version_3_0_3 s =
      set_version version_3_0_4
        (if is_mellanox then platform.mlnx_reclaiming_unused_buffer s else s)
  step version_3_0_4 s =
      set_version version_3_0_5 (for_each (set_pfcwd_enable db) (db.get_table "PORT_QOS_MAP" s) s)
  step version_3_0_5 s = set_version version_3_0_6 (if is_warm s then migrate_loglevel db s else s)
  step version_3_0_6 s = set_version version_4_0_0 s
  step v s = s

  silent : (S → S) → Exec S Fault (Unit {0})
  silent f s = (ok tt, f s)

  -- getattr(self, version)(): the state changes, the next version is returned.
  unfoldable pub run : Version → Exec S Fault (Option Version)
  unfolding step silent migrate_interfaces
  run version_unknown = do
    silent (migrate_pfc_wd_table db)
    silent migrate_interfaces
    migrate_intf_table db
    silent (set_version version_1_0_2)
    pure (some version_1_0_2)
  run version_1_0_1 = do
    silent migrate_interfaces
    migrate_intf_table db
    silent (set_version version_1_0_2)
    pure (some version_1_0_2)
  run version_3_0_2 = do
    migrate_qos_fieldval_reference_format db
    silent (set_version version_3_0_3)
    pure (some version_3_0_3)
  run v = do silent (step v); pure (next v)

  unfoldable pub common_migration_ops : Exec S Fault (Unit {0})
  unfolding silent is_mellanox
  common_migration_ops = do
    init_db ← lift (or_fault exception platform.init_cfg)
    silent (migrate_init_cfg db init_db)
    silent (if is_mellanox then (λ s. s) else migrate_copp_table db)
    silent (
        if (platform.asic_type == "broadcom") && contains "Force10-S6100" platform.hwsku
        then platform.migrate_mgmt_ports_on_s6100
        else (λ s. s))

  -- The loop of `migrate`; false where the fuel runs out. An empty version ends the loop.
  abbrev is_same : Option Version → String → Bool
  is_same none text = false
  is_same (some v) text = name_of v == text

  -- One round: an attribute that is no version is not modelled and counts as missing.
  unfoldable pub round : String → Option Version → Exec S Fault (Option Version)
  unfolding run
  round text none = raise attribute_error
  round text (some v) = do
    next_version ← run v
    if is_same next_version text then raise exception else pure next_version

  unfoldable pub migrate_loop : ℕ → Option String → Exec S Fault Bool
  unfolding round
  migrate_loop zero version = pure false
  migrate_loop (suc fuel) none = pure true
  migrate_loop (suc fuel) (some text) =
      let body = round text (named text versions) >>= λ next_version.
      migrate_loop fuel (text_of next_version) in
      if is_empty text then pure true else body

  unfoldable pub migrate : ℕ → Exec S Fault Bool
  migrate fuel = do
    version ← query get_version
    ended ← migrate_loop fuel (some version)
    if ended then (common_migration_ops >>= λ _. pure true) else pure false
