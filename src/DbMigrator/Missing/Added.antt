-- ===== src/DbMigrator/Missing/Added.antt =====
-- scripts/db_migrator.py: what init_cfg.json and the constants add to CONFIG_DB.
use sonic_utility.Base.{
  ◌≡◌, refl, String, true, ◌&&◌, [], ◌∷◌, Option, none, some, ◌==◌, if◌then◌else◌, get_or, or_else,
  arith, eq_iff, is_nil,
}
use sonic_utility.Base.Dict.{Dict, lookup, insert, lookup-insert, merge, lookup-merge, IsUnique}
use sonic_utility.DbMigrator.Databases.{Databases, Entry, get_entry, field, Laws, for_each}
use sonic_utility.DbMigrator.Missing.{
  merge_init_cfg, migrate_init_cfg, add_missing, migrate_restapi, migrate_telemetry,
  migrate_console_switch, migrate_device_metadata,
}

-- A field of init_cfg.json.
abbrev pub init_field : Dict (Dict Entry) → String → String → String → Option String
init_field init_db t k f = lookup f (get_or (lookup k (get_or (lookup t init_db) [])) [])

-- No table occurs twice in the file, and no key twice in a table.
abbrev pub HasUniqueKeys : Dict (Dict Entry) → Type 0
HasUniqueKeys [] = Unit
HasUniqueKeys ((t, d) ∷ init_db) = (lookup t init_db ≡ none) × IsUnique d × HasUniqueKeys init_db

or_else-none : {A : Type 0} (o : Option A) → or_else o none ≡ o
or_else-none none = refl
or_else-none (some a) = refl

nil_field : (f : String) (e : Entry) → is_nil e ≡ true → lookup f e ≡ none
unfolding lookup
nil_field f [] h = refl
nil_field f (x ∷ e) h = ground arith

module _ {S : Type 0} (db : Databases S) (laws : Laws db) where
  field-merge_init_cfg :
      (t k f table key : String) (init_cfg : Entry) (s : S)
      → field db t k f (merge_init_cfg db table key init_cfg s) ≡ (
          if (table == t) && (key == k)
          then or_else (field db t k f s) (lookup f init_cfg)
          else field db t k f s)
  unfolding merge_init_cfg field
  field-merge_init_cfg t k f table key init_cfg s = ground (
    arith,
    laws.field-set_entry t k f table key (some (merge init_cfg (get_entry db table key s))) s,
    lookup-merge f init_cfg (get_entry db table key s) (laws.fields_once table key s),
    eq_iff table t,
    eq_iff key k,
  )

  field-for_keys :
      (t k f table : String) (d : Dict Entry) (s : S)
      → IsUnique d
      → field db t k f (for_each (merge_init_cfg db table) d s) ≡ (
          if table == t
          then or_else (field db t k f s) (lookup f (get_or (lookup k d) []))
          else field db t k f s)
  unfolding for_each lookup
  field-for_keys t k f table [] s u = ground (arith, or_else-none (field db t k f s))
  field-for_keys t k f table ((key, e) ∷ d) s u = ground (
    arith,
    field-for_keys t k f table d (merge_init_cfg db table key e s) u.1,
    field-merge_init_cfg t k f table key e s,
    eq_iff key k,
    or_else-none (field db t k f s),
  )

  -- After the merging of init_cfg.json each field has the value that it had before, and where it had
  -- none the file's.
  pub field-migrate_init_cfg :
      (t k f : String) (init_db : Dict (Dict Entry)) (s : S)
      → HasUniqueKeys init_db
      → field db t k f (migrate_init_cfg db init_db s)
        ≡ or_else (field db t k f s) (init_field init_db t k f)
  unfolding migrate_init_cfg for_each lookup
  field-migrate_init_cfg t k f [] s u = ground (arith, or_else-none (field db t k f s))
  field-migrate_init_cfg t k f ((table, d) ∷ init_db) s u = ground (
    arith,
    field-migrate_init_cfg t k f init_db (for_each (merge_init_cfg db table) d s) u.2,
    field-for_keys t k f table d s u.1,
    eq_iff table t,
    or_else-none (field db t k f s),
  )

  -- Adding an entry where there is none keeps each field that has a value.
  pub field-add_missing :
      (t k f table key : String) (default : Entry) (s : S) {v : String}
      → field db t k f s ≡ some v
      → field db t k f (add_missing db table key default s) ≡ some v
  unfolding add_missing field
  field-add_missing t k f table key default s h = ground (
    arith,
    laws.field-set_entry t k f table key (some default) s,
    eq_iff table t,
    eq_iff key k,
    nil_field f (get_entry db table key s),
  )

  field-migrate_device_metadata :
      (t k f : String) (s : S) {v : String}
      → field db t k f s ≡ some v
      → field db t k f (migrate_device_metadata db s) ≡ some v
  unfolding migrate_device_metadata field
  field-migrate_device_metadata t k f s h =
      let metadata = get_entry db "DEVICE_METADATA" "localhost" s in
      ground (
        arith,
        laws.field-set_entry t k f "DEVICE_METADATA" "localhost"
            (some (insert "synchronous_mode" "enable" metadata)) s,
        eq_iff "DEVICE_METADATA" t,
        eq_iff "localhost" k,
        eq_iff "synchronous_mode" f,
        lookup-insert "synchronous_mode" f "enable" metadata,
      )

  -- The handlers for RESTAPI, TELEMETRY, CONSOLE_SWITCH and DEVICE_METADATA change no field that has a
  -- value.
  pub field-missing_config :
      (t k f : String) (s : S) {v : String}
      → field db t k f s ≡ some v
      → field db t k f (
          migrate_device_metadata db
            (migrate_console_switch db (migrate_telemetry db (migrate_restapi db s))))
        ≡ some v
  unfolding migrate_restapi migrate_telemetry migrate_console_switch
  field-missing_config t k f s h = field-migrate_device_metadata t k f _ (
      field-add_missing t k f _ _ _ _ (
        field-add_missing t k f _ _ _ _ (
          field-add_missing t k f _ _ _ _
            (field-add_missing t k f _ _ _ _ (field-add_missing t k f _ _ _ _ h)))))
