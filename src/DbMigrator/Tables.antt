-- ===== src/DbMigrator/Tables.antt =====
-- scripts/db_migrator.py: the rewritings of the tables of CONFIG_DB.
pub mod Each
pub mod Autoneg
pub mod Interfaces
use sonic_utility.Base.{
  String, Bool, true, false, not, ◌&&◌, ◌||◌, List, [], ◌∷◌, ◌++◌, Option, none, some, ◌==◌,
  if◌then◌else◌, get_or, is_nil,
}
use sonic_utility.Base.Dict.{Dict, lookup, insert, remove, has_key}
use sonic_utility.Base.Text.{has_char}
use sonic_utility.Base.Split.{split, elem}
use sonic_utility.DbMigrator.Databases.{Databases, Entry, for_each, for_keys}

abbrev pub head_or : List String → String
head_or [] = ""
head_or (x ∷ xs) = x

-- key[0] of a key with the separator
abbrev pub first_part : String → String
first_part key = head_or (split "|" key)

unfoldable pub is_ip_prefix_in_key : String → Bool
is_ip_prefix_in_key key = has_char "|" key

without_prefix : Dict Entry → List String
unfolding is_ip_prefix_in_key
without_prefix [] = []
without_prefix ((key, e) ∷ d) =
    let rest = without_prefix d in if is_ip_prefix_in_key key then rest else key ∷ rest

module _ {S : Type 0} (db : Databases S) where
  unfoldable pub migrate_pfc_wd_table : S → S
  migrate_pfc_wd_table s =
      db.delete_table "PFC_WD_TABLE"
        (for_each (λ key e. db.set_entry "PFC_WD" key (some e)) (db.get_table "PFC_WD_TABLE" s) s)

  -- The keys without an IP prefix, over the tables in the order of the set's iteration.
  unfoldable pub plain_keys : List String → S → List String
  unfolding without_prefix
  plain_keys [] s = []
  plain_keys (table ∷ tables) s = without_prefix (db.get_table table s) ++ plain_keys tables s

  -- The keys with an IP prefix of one table; `if_db` grows as entries are added.
  unfoldable pub add_plain : String → Dict Entry → List String → S → List String × S
  unfolding is_ip_prefix_in_key
  add_plain table [] if_db s = (if_db, s)
  add_plain table ((key, e) ∷ d) if_db s =
      if not (is_ip_prefix_in_key key) || elem (first_part key) if_db
      then add_plain table d if_db s
      else add_plain table d (first_part key ∷ if_db)
          (db.set_entry table (first_part key) (some e) s)

  unfoldable pub add_plain_tables : List String → List String → S → S
  add_plain_tables [] if_db s = s
  add_plain_tables (table ∷ tables) if_db s =
      let (if_db', s') = add_plain table (db.get_table table s) if_db s in
      add_plain_tables tables if_db' s'

  -- The tables of `if_tables`, a set, in some order.
  unfoldable pub migrate_interface_table : List String → S → S
  migrate_interface_table if_tables s = add_plain_tables if_tables (plain_keys if_tables s) s

  with_state : String → Entry → Option String → S → S
  with_state feature config none s = s
  with_state feature config (some state) s =
      db.set_entry "FEATURE" feature (some (remove "status" (insert "state" state config))) s

  unfoldable pub migrate_feature_table : S → S
  unfolding with_state
  migrate_feature_table s =
      let renamed =
        for_each (λ feature config. with_state feature config (lookup "status" config))
          (db.get_table "FEATURE" s) s in
      for_each
        (λ feature config s'.
          db.set_entry "CONTAINER_FEATURE" feature none (db.mod_entry "FEATURE" feature config s'))
        (db.get_table "CONTAINER_FEATURE" renamed) renamed

  with_adv_speeds : String → Entry → S → S
  with_adv_speeds key value s =
      if has_key "speed" value && not (has_key "adv_speeds" value)
      then db.config_set "PORT" key "adv_speeds" (get_or (lookup "speed" value) "") s
      else s

  unfoldable pub migrate_autoneg : String → Entry → S → S
  unfolding with_adv_speeds
  migrate_autoneg key value s =
      let autoneg = get_or (lookup "autoneg" value) "" in
      if autoneg == "1"
      then with_adv_speeds key value (db.config_set "PORT" key "autoneg" "on" s)
      else if autoneg == "0"
      then db.config_set "PORT" key "autoneg" "off" s
      else s

  unfoldable pub migrate_config_db_port_table_for_auto_neg : S → S
  migrate_config_db_port_table_for_auto_neg s = for_each migrate_autoneg (db.get_table "PORT" s) s

  with_global_map : Dict Entry → S → S
  with_global_map [] s = s
  with_global_map ((name, e) ∷ names) s =
      db.set_entry "PORT_QOS_MAP" "global" (some (("dscp_to_tc_map", name) ∷ [])) s

  unfoldable pub migrate_port_qos_map_global : String → S → S
  unfolding with_global_map
  migrate_port_qos_map_global asic_type s =
      if not (asic_type == "broadcom") || has_key "global" (db.get_table "PORT_QOS_MAP" s)
      then s
      else with_global_map (db.get_table "DSCP_TO_TC_MAP" s) s

  unfoldable pub set_lacp_key : String → Entry → S → S
  set_lacp_key name data_0 =
      db.set_entry "PORTCHANNEL" name (some (insert "lacp_key" "auto" data_0))

  unfoldable pub set_pfcwd_enable : String → Entry → S → S
  set_pfcwd_enable k v s =
      if has_key "pfc_enable" v
      then db.set_entry "PORT_QOS_MAP" k
          (some (insert "pfcwd_sw_enable" (get_or (lookup "pfc_enable" v) "") v)) s
      else s
