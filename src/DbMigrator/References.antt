-- ===== src/DbMigrator/References.antt =====
-- scripts/db_migrator.py: references to other tables in the format of ABNF, in APPL_DB and CONFIG_DB.
use sonic_utility.Base.{String, List, [], ◌∷◌, Option, none, some}
use sonic_utility.Base.Dict.{Dict, lookup}
use sonic_utility.Base.Split.{join}
use sonic_utility.Base.Result.{ok}
use sonic_utility.Base.Exec.{Exec, pure, lift, ◌>>=◌}
use sonic_utility.Base.Fault.{Fault}
use sonic_utility.DbMigrator.Databases.{Databases, Entry}
use sonic_utility.DbMigrator.Names.{new_value}
use Prim.Native.Char.{Char}

-- The loops over the tables of `table_list`, their keys, and the fields; `put` is the connector's set.
module _ {S : Type 0} (get_table : String → S → Dict Entry)
    (put : String → String → String → String → S → S) (delimiter : Char) where
  put_new : String → String → String → Option String → Exec S Fault (Unit {0})
  put_new table key name none s = (ok tt, s)
  put_new table key name (some value) s = (ok tt, put table key name value s)

  convert_value : String → String → String → Option String → Exec S Fault (Unit {0})
  unfolding put_new
  convert_value table key name none = pure tt
  convert_value table key name (some value) =
      lift (new_value delimiter value) >>= put_new table key name

  convert_fields : String → String → Entry → List String → Exec S Fault (Unit {0})
  unfolding convert_value
  convert_fields table key value [] = pure tt
  convert_fields table key value (name ∷ names) =
      convert_value table key name (lookup name value) >>= λ _. convert_fields table key value names

  convert_entries : String → List String → Dict Entry → Exec S Fault (Unit {0})
  unfolding convert_fields
  convert_entries table fields [] = pure tt
  convert_entries table fields ((key, value) ∷ d) =
      convert_fields table key value fields >>= λ _. convert_entries table fields d

  unfoldable pub reference_remove : Dict (List String) → Exec S Fault (Unit {0})
  unfolding convert_entries
  reference_remove [] = pure tt
  reference_remove ((table, fields) ∷ tables) =
      (λ s. convert_entries table fields (get_table table s) s) >>= λ _. reference_remove tables

abbrev pub qos_app_table_list : Dict (List String)
qos_app_table_list =
    ("BUFFER_PG_TABLE", "profile" ∷ [])
    ∷ ("BUFFER_QUEUE_TABLE", "profile" ∷ [])
    ∷ ("BUFFER_PROFILE_TABLE", "pool" ∷ [])
    ∷ ("BUFFER_PORT_INGRESS_PROFILE_LIST_TABLE", "profile_list" ∷ [])
    ∷ ("BUFFER_PORT_EGRESS_PROFILE_LIST_TABLE", "profile_list" ∷ [])
    ∷ []

abbrev pub qos_table_list : Dict (List String)
qos_table_list =
    ("QUEUE", "scheduler" ∷ "wred_profile" ∷ [])
    ∷ (
      "PORT_QOS_MAP",
      "dscp_to_tc_map" ∷ "dot1p_to_tc_map" ∷ "pfc_to_queue_map" ∷ "tc_to_pg_map" ∷ "tc_to_queue_map"
          ∷ "pfc_to_pg_map" ∷ [],
    )
    ∷ ("BUFFER_PG", "profile" ∷ [])
    ∷ ("BUFFER_QUEUE", "profile" ∷ [])
    ∷ ("BUFFER_PROFILE", "pool" ∷ [])
    ∷ ("BUFFER_PORT_INGRESS_PROFILE_LIST", "profile_list" ∷ [])
    ∷ ("BUFFER_PORT_EGRESS_PROFILE_LIST", "profile_list" ∷ [])
    ∷ []

module _ {S : Type 0} (db : Databases S) where
  unfoldable pub migrate_qos_fieldval_reference_format : Exec S Fault (Unit {0})
  migrate_qos_fieldval_reference_format =
      reference_remove db.app_table
        (λ table key name value. db.app_set (join ":" (table ∷ key ∷ [])) name value) ":"
        qos_app_table_list
      >>= λ _. reference_remove db.get_table db.config_set "|" qos_table_list
