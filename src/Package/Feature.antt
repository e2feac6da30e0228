-- ===== src/Package/Feature.antt =====
-- sonic_package_manager/service_creator/feature.py
pub mod Each
pub mod Entries
pub mod Upgrade
use Prim.Native.Char.{code}
use sonic_utility.Base.{
  ℕ, ◌+◌, String, Bool, true, false, ◌&&◌, Option, none, some, List, [], ◌∷◌, ◌≡◌, refl, map,
  if◌then◌else◌, leb, nat_eq, get_or, is_nil,
}
use sonic_utility.Base.Dict.{Dict, lookup, insert, merge}
use sonic_utility.Base.Text.{is_empty}
use sonic_utility.Package.Semver.{Semver}
use sonic_utility.Package.Model.{ServiceTable}
use sonic_utility.Package.ConfigDb.{Fields, Connector}

abbrev pub feature_table : String
feature_table = "FEATURE"

abbrev pub default_feature_config : Fields
default_feature_config =
    ("state", "disabled")
    ∷ ("auto_restart", "enabled")
    ∷ ("high_mem_alert", "disabled")
    ∷ ("set_owner", "local")
    ∷ []

abbrev pub auto_ts_global : String
auto_ts_global = "AUTO_TECHSUPPORT"

abbrev pub auto_ts_feature : String
auto_ts_feature = "AUTO_TECHSUPPORT_FEATURE"

abbrev pub default_auto_ts_feature_config : Fields
default_auto_ts_feature_config =
    ("state", "disabled")
    ∷ ("rate_limit_interval", "600")
    ∷ ("available_mem_threshold", "10.0")
    ∷ []

abbrev pub syslog_config : String
syslog_config = "SYSLOG_CONFIG_FEATURE"

abbrev pub default_syslog_feature_config : Fields
default_syslog_feature_config = ("rate_limit_interval", "300") ∷ ("rate_limit_burst", "20000") ∷ []

-- s.lower() == t, for a `t` of lower-case ASCII letters; no character outside ASCII has one of the
-- letters of "enabled" or "true" as its lower case.
unfoldable pub lower_is : String → String → Bool
lower_is String.[] String.[] = true
lower_is String.[] (String.◌∷◌ d t) = false
lower_is (String.◌∷◌ c s) String.[] = false
lower_is (String.◌∷◌ c s) (String.◌∷◌ d t) =
    let n = code c in
    nat_eq (if leb b'A' n && leb n b'Z' then n + 32 else n) (code d) && lower_is s t

unfoldable pub is_enabled : Fields → Bool
unfolding lower_is lookup
is_enabled cfg = lower_is (get_or (lookup "state" cfg) "disabled") "enabled"

unfoldable pub is_multi_instance : Fields → Bool
unfolding lower_is lookup
is_multi_instance cfg = lower_is (get_or (lookup "has_per_asic_scope" cfg) "False") "true"

-- get_multi_instance_features, over the FEATURE table of the initial configuration
unfoldable pub get_multi_instance_features : Dict Fields → List String
unfolding is_multi_instance
get_multi_instance_features [] = []
get_multi_instance_features ((feature, cfg) ∷ rest) =
    let others = get_multi_instance_features rest in
    if is_multi_instance cfg then feature ∷ others else others

-- str(b)
abbrev pub bool_text : Bool → String
bool_text true = "True"
bool_text false = "False"

-- The callers pass a state and an owner that are not empty, or none.
abbrev pub set_if : String → Option String → Fields → Fields
set_if key none cfg = cfg
set_if key (some text) cfg = if is_empty text then cfg else insert key text cfg

unfoldable pub get_default_feature_entries : Option String → Option String → Fields
unfolding insert
get_default_feature_entries state owner =
    set_if "set_owner" owner (set_if "state" state default_feature_config)

unfoldable pub get_non_configurable_feature_entries : ServiceTable → Fields
get_non_configurable_feature_entries service =
    ("has_per_asic_scope", bool_text service.asic_service)
    ∷ ("has_global_scope", bool_text service.host_service)
    ∷ ("has_timer", bool_text service.delayed)
    ∷ ("check_up_status", bool_text service.check_up_status)
    ∷ ("support_syslog_rate_limit", bool_text service.support_rate_limit)
    ∷ []

-- SonicDB: the initial configuration, the persistent one if its file is there, and the running
-- one if a database can be reached.
pub record SonicDb {ℓ} (Db : Type ℓ) : Type ℓ where
  pub initial : Db
  pub persistent : Option Db
  pub running : Option Db

abbrev pub on_connector {ℓ} : {Db : Type ℓ} → (Db → Db) → Option Db → Option Db
on_connector body none = none
on_connector body (some db) = some (body db)

-- for conn in self._sonic_db.get_connectors()
abbrev pub for_connectors {ℓ} : {Db : Type ℓ} → (Db → Db) → SonicDb Db → SonicDb Db
for_connectors body s = record {
  initial = body s.initial;
  persistent = on_connector body s.persistent;
  running = on_connector body s.running;
}

module _ (cn : Connector) where
  open cn use {Db, get_entry, set_entry}

  -- One round of the loop of `register`.
  unfoldable pub register_on : String → Fields → Fields → Db → Db
  register_on name cfg_entries non_cfg_entries db =
      set_entry feature_table name
        (some (merge (merge cfg_entries (get_entry feature_table name db)) non_cfg_entries)) db

  -- Whether AUTO_TECHSUPPORT is configured, and the state of a new feature in it.
  unfoldable pub infer_auto_ts_capability : Db → Bool × String
  unfolding lookup
  infer_auto_ts_capability db =
      let default_state = get_or (lookup "state" (get_entry auto_ts_global "GLOBAL" db)) "" in
      if is_empty default_state then (false, "disabled") else (true, default_state)

  -- One round of the loops of `register_auto_ts` and `register_syslog_config`: the entry of the
  -- old name, if there is one, moves to the new name, over the defaults.
  unfoldable pub move_entry : String → Fields → String → Option String → Db → Db
  move_entry table defaults new_name none db = set_entry table new_name (some defaults) db
  move_entry table defaults new_name (some old_name) db =
      set_entry table new_name (some (merge defaults (get_entry table old_name db)))
        (set_entry table old_name none db)

  unfoldable pub register_auto_ts : String → Option String → SonicDb Db → SonicDb Db
  unfolding infer_auto_ts_capability move_entry insert
  register_auto_ts new_name old_name s =
      let (auto_ts_add_cfg, auto_ts_state) = infer_auto_ts_capability s.initial in
      let def_cfg = insert "state" auto_ts_state default_auto_ts_feature_config in
      if auto_ts_add_cfg
      then for_connectors (move_entry auto_ts_feature def_cfg new_name old_name) s
      else s

  unfoldable pub register_syslog_config : String → Option String → SonicDb Db → SonicDb Db
  unfolding move_entry
  register_syslog_config new_name old_name =
      for_connectors (move_entry syslog_config default_syslog_feature_config new_name old_name)

  unfoldable pub register : ServiceTable → Option String → Option String → SonicDb Db → SonicDb Db
  unfolding register_on register_auto_ts register_syslog_config get_default_feature_entries
      get_non_configurable_feature_entries
  register service state owner s =
      let cfg_entries = get_default_feature_entries state owner in
      let non_cfg_entries = get_non_configurable_feature_entries service in
      let registered = for_connectors (register_on service.name cfg_entries non_cfg_entries) s in
      let with_auto_ts = register_auto_ts service.name none registered in
      if service.support_rate_limit
      then register_syslog_config service.name none with_auto_ts
      else with_auto_ts

  -- One round of the loop of `deregister`.
  unfoldable pub deregister_on : String → Db → Db
  deregister_on name db =
      set_entry syslog_config name none
        (set_entry auto_ts_feature name none (set_entry feature_table name none db))

  unfoldable pub deregister : String → SonicDb Db → SonicDb Db
  unfolding deregister_on
  deregister name = for_connectors (deregister_on name)

  -- One round of the loop of `update`.
  unfoldable pub update_on : String → String → Fields → Db → Db
  update_on old_name new_name non_cfg_entries db =
      set_entry feature_table new_name
        (some (merge (get_entry feature_table old_name db) non_cfg_entries))
        (set_entry feature_table old_name none db)

  unfoldable pub update : ServiceTable → ServiceTable → SonicDb Db → SonicDb Db
  unfolding update_on register_auto_ts register_syslog_config get_non_configurable_feature_entries
  update old_service new_service s =
      let non_cfg_entries = get_non_configurable_feature_entries new_service in
      let updated =
        for_connectors (update_on old_service.name new_service.name non_cfg_entries) s in
      let with_auto_ts = register_auto_ts new_service.name (some old_service.name) updated in
      if new_service.support_rate_limit
      then register_syslog_config new_service.name (some old_service.name) with_auto_ts
      else with_auto_ts

  unfoldable pub is_feature_enabled : String → SonicDb Db → Bool
  unfolding is_enabled
  is_feature_enabled name s = elim s.running [
    | none ↦ false
    | some db ↦ is_enabled (get_entry feature_table name db)
  ]
