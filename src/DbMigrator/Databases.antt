-- ===== src/DbMigrator/Databases.antt =====
-- What scripts/db_migrator.py uses of swsscommon's connectors, which are not in the repository: the
-- operations, and as laws what a reading tells after a writing.
use sonic_utility.Base.{
  ◌≡◌, String, Bool, ◌&&◌, List, [], ◌∷◌, Option, none, some, ◌==◌, if◌then◌else◌, get_or, or_else,
}
use sonic_utility.Base.Dict.{Dict, lookup, IsUnique}

abbrev pub Entry : Type 0
Entry = Dict String

-- `S` is the state of all databases. A key of several parts, which the connector shows as a tuple, is
-- the text with the separator `|` between the parts, as it is stored.
pub record Databases (S : Type 0) : Type 0 where
  -- CONFIG_DB; set_entry with none deletes the key
  pub get_table : String → S → Dict Entry
  pub set_entry : String → String → Option Entry → S → S
  pub mod_entry : String → String → Entry → S → S
  pub config_set : String → String → String → String → S → S
  pub delete_table : String → S → S
  -- keys(CONFIG_DB, pattern) and get_all, by whole keys
  pub config_keys : String → S → List String
  pub config_get_all : String → S → Entry
  -- APPL_DB, by whole keys; None is the empty list
  pub app_table : String → S → Dict Entry
  pub app_keys : String → S → List String
  pub app_set : String → String → String → S → S
  pub app_delete : String → S → S
  pub app_has : String → String → S → Bool
  -- LOGLEVEL_DB
  pub loglevel_keys : S → List String
  pub loglevel_get_all : String → S → Entry
  pub loglevel_delete : String → S → S
  -- STATE_DB: WARM_RESTART_ENABLE_TABLE|system
  pub warm_restart : S → Option String

module _ {S : Type 0} (db : Databases S) where
  -- db.get_entry(table, key), {} where there is none
  unfoldable pub get_entry : String → String → S → Entry
  get_entry table key s = get_or (lookup key (db.get_table table s)) []

  -- A field of an entry of CONFIG_DB.
  unfoldable pub field : String → String → String → S → Option String
  unfolding get_entry
  field table key name s = lookup name (get_entry table key s)

  -- What readings of CONFIG_DB tell after each operation that writes.
  pub record Laws : Type 0 where
    pub keys_once : (table : String) (s : S) → IsUnique (db.get_table table s)
    pub fields_once : (table key : String) (s : S) → IsUnique (get_entry table key s)
    pub field-set_entry :
        (t k f table key : String) (e : Option Entry) (s : S)
        → field t k f (db.set_entry table key e s)
          ≡ (if (table == t) && (key == k) then lookup f (get_or e []) else field t k f s)
    pub field-mod_entry :
        (t k f table key : String) (e : Entry) (s : S)
        → field t k f (db.mod_entry table key e s) ≡ (
            if (table == t) && (key == k)
            then or_else (lookup f e) (field t k f s)
            else field t k f s)
    pub field-config_set :
        (t k f table key name value : String) (s : S)
        → field t k f (db.config_set table key name value s)
          ≡ (if (table == t) && (key == k) && (name == f) then some value else field t k f s)
    pub field-delete_table :
        (t k f table : String) (s : S)
        → field t k f (db.delete_table table s) ≡ (if table == t then none else field t k f s)
    pub field-app_set :
        (t k f key name value : String) (s : S)
        → field t k f (db.app_set key name value s) ≡ field t k f s
    pub field-app_delete :
        (t k f key : String) (s : S) → field t k f (db.app_delete key s) ≡ field t k f s
    pub field-loglevel_delete :
        (t k f key : String) (s : S) → field t k f (db.loglevel_delete key s) ≡ field t k f s

-- for key, value in table.items()
unfoldable pub for_each : {S V : Type 0} → (String → V → S → S) → Dict V → S → S
for_each body [] s = s
for_each body ((k, v) ∷ d) s = for_each body d (body k v s)

-- for key in keys
unfoldable pub for_keys : {S : Type 0} → (String → S → S) → List String → S → S
for_keys body [] s = s
for_keys body (k ∷ ks) s = for_keys body ks (body k s)
