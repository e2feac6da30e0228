-- ===== src/DbMigrator/Missing.antt =====
-- scripts/db_migrator.py and db_migrator_constants.py: the configuration that is added where it is
-- missing, from the constants and from init_cfg.json.
pub mod Added
use sonic_utility.Base.{
  String, Bool, true, false, not, ◌&&◌, ◌||◌, List, [], ◌∷◌, Option, none, some, ◌==◌,
  if◌then◌else◌, is_nil, get_or,
}
use sonic_utility.Base.Dict.{Dict, lookup, insert, merge, has_key}
use sonic_utility.DbMigrator.Databases.{Databases, Entry, get_entry, for_each, for_keys}

abbrev pub restapi_config : Entry
restapi_config = ("client_auth", "true") ∷ ("log_level", "info") ∷ ("allow_insecure", "false") ∷ []

abbrev pub restapi_certs : Entry
restapi_certs =
    ("server_key", "/etc/sonic/credentials/restapiserver.key")
    ∷ ("ca_crt", "/etc/sonic/credentials/AME_ROOT_CERTIFICATE.pem")
    ∷ ("server_crt", "/etc/sonic/credentials/restapiserver.crt")
    ∷ ("client_crt_cname", "client.restapi.sonic.gbl")
    ∷ []

abbrev pub telemetry_gnmi : Entry
telemetry_gnmi = ("client_auth", "true") ∷ ("log_level", "2") ∷ ("port", "50051") ∷ []

abbrev pub telemetry_certs : Entry
telemetry_certs =
    ("server_key", "/etc/sonic/telemetry/streamingtelemetryserver.key")
    ∷ ("ca_crt", "/etc/sonic/telemetry/dsmsroot.cer")
    ∷ ("server_crt", "/etc/sonic/telemetry/streamingtelemetryserver.cer")
    ∷ []

abbrev pub console_mgmt : Entry
console_mgmt = ("enabled", "no") ∷ []

module _ {S : Type 0} (db : Databases S) where
  -- The entry is set where there is none.
  unfoldable pub add_missing : String → String → Entry → S → S
  add_missing table key default s =
      if is_nil (get_entry db table key s) then db.set_entry table key (some default) s else s

  unfoldable pub migrate_restapi : S → S
  migrate_restapi s =
      add_missing "RESTAPI" "certs" restapi_certs (add_missing "RESTAPI" "config" restapi_config s)

  unfoldable pub migrate_telemetry : S → S
  migrate_telemetry s =
      add_missing "TELEMETRY" "certs" telemetry_certs
        (add_missing "TELEMETRY" "gnmi" telemetry_gnmi s)

  unfoldable pub migrate_console_switch : S → S
  migrate_console_switch = add_missing "CONSOLE_SWITCH" "console_mgmt" console_mgmt

  unfoldable pub migrate_device_metadata : S → S
  migrate_device_metadata s =
      let metadata = get_entry db "DEVICE_METADATA" "localhost" s in
      if has_key "synchronous_mode" metadata
      then s
      else db.set_entry "DEVICE_METADATA" "localhost"
          (some (insert "synchronous_mode" "enable" metadata)) s

  -- One key of init_cfg.json: the present configuration goes over the initial one.
  unfoldable pub merge_init_cfg : String → String → Entry → S → S
  merge_init_cfg table key init_cfg s =
      db.set_entry table key (some (merge init_cfg (get_entry db table key s))) s

  unfoldable pub migrate_init_cfg : Dict (Dict Entry) → S → S
  migrate_init_cfg init_db =
      for_each (λ table table_val. for_each (merge_init_cfg table) table_val) init_db

  unfoldable pub migrate_copp_table : S → S
  migrate_copp_table s = for_keys db.app_delete (db.app_keys "COPP_TABLE:" s) s
