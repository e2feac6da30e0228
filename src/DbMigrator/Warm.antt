-- ===== src/DbMigrator/Warm.antt =====
-- scripts/db_migrator.py: the rewritings of APPL_DB for a warm reboot, of references in the format
-- of ABNF, and of LOGLEVEL_DB.
use sonic_utility.Base.{String, List, [], ◌∷◌, Option, some, ◌==◌, if◌then◌else◌, get_or}
use sonic_utility.Base.Dict.{Dict, lookup, insert}
use sonic_utility.Base.Text.{has_char, is_empty}
use sonic_utility.Base.Split.{nth, split, join, after_prefix, elem, replace_text}
use sonic_utility.Base.Result.{ok}
use sonic_utility.Base.Exec.{Exec, pure, lift, ◌>>=◌, ◌>>◌}
use sonic_utility.Base.Fault.{Fault, index_error, at_index, or_fault}
use sonic_utility.DbMigrator.Databases.{Databases, Entry, for_each, for_keys}
use Prim.Native.String.{◌++◌ as str_append}

-- The key in APPL_DB of a key of CONFIG_DB: _TABLE after the first part, and `:` between the parts.
app_vxlan_key : List String → String
app_vxlan_key [] = ""
app_vxlan_key (table ∷ parts) = join ":" (str_append table "_TABLE" ∷ parts)

abbrev with_address : List String → Dict String → Dict String
with_address (name ∷ address ∷ more) known = insert address name known
with_address parts known = known

-- The names of the loopback interfaces by their addresses; of two the last one stays.
loopback_addresses : Dict Entry → Dict String → Dict String
loopback_addresses [] known = known
loopback_addresses ((key, e) ∷ d) known = loopback_addresses d (with_address (split "|" key) known)

module _ {S : Type 0} (db : Databases S) where
  raw : (S → S) → Exec S Fault (Unit {0})
  raw f s = (ok tt, f s)

  copy_missing : String → String → String → S → S
  copy_missing app_key name value s =
      if db.app_has app_key name s then s else db.app_set app_key name value s

  copy_vxlan : String → S → S
  unfolding copy_missing app_vxlan_key
  copy_vxlan vxlan_table s =
      for_each (copy_missing (app_vxlan_key (split "|" vxlan_table)))
        (db.config_get_all vxlan_table s) s

  unfoldable pub migrate_vxlan_config : S → S
  unfolding copy_vxlan
  migrate_vxlan_config s = for_keys copy_vxlan (db.config_keys "VXLAN_TUNNEL" s) s

  -- The row of `lo` is written anew under the name that its address has in CONFIG_DB.
  rename_lo : Dict String → String → Exec S Fault (Unit {0})
  rename_lo lo_addr_to_int lo_row = do
    raw (db.app_delete lo_row)
    lo_addr ← lift (or_fault index_error (after_prefix "INTF_TABLE:lo:" lo_row))
    let found = get_or (lookup lo_addr lo_addr_to_int) ""
    let name = if is_empty found then "Loopback0" else found
    raw (db.app_set (replace_text "lo" name lo_row) "NULL" "NULL")

  -- The first loop; `if_db` collects the interfaces of the rows without a prefix.
  unfoldable pub migrate_lo : Dict String → List String → List String → Exec S Fault (List String)
  unfolding rename_lo raw
  migrate_lo lo_addr_to_int [] if_db = pure if_db
  migrate_lo lo_addr_to_int (lo_row ∷ rows) if_db = do
    name ← lift (at_index 1 (split ":" lo_row))
    if name == "lo" then rename_lo lo_addr_to_int lo_row else pure tt
    migrate_lo lo_addr_to_int rows (if has_char "/" lo_row then if_db else name ∷ if_db)

  unfoldable pub add_intf : List String → List String → Exec S Fault (Unit {0})
  unfolding raw
  add_intf [] if_db = pure tt
  add_intf (key ∷ keys) if_db = do
    if_name ← lift (at_index 1 (split ":" key))
    let rest = add_intf keys if_db
    let added =
        raw (db.app_set (str_append "INTF_TABLE:" if_name) "NULL" "NULL")
        >> add_intf keys (if_name ∷ if_db)
    if elem if_name if_db then rest else added

  unfoldable pub migrate_intf_table : Exec S Fault (Unit {0})
  unfolding loopback_addresses
  migrate_intf_table s =
      let lo_addr_to_int = loopback_addresses (db.get_table "LOOPBACK_INTERFACE" s) [] in
      (do
        if_db ← migrate_lo lo_addr_to_int (db.app_keys "INTF_TABLE:" s) []
        λ s'. add_intf (db.app_keys "INTF_TABLE:" s') if_db s')
        s

  -- A key without a component, or a level that is missing, is an exception, which is logged.
  abbrev with_levels : Option String → Option String → Option String → S → S
  with_levels (some component) (some loglevel) (some logoutput) s =
      db.config_set "LOGGER" component "LOGOUTPUT" logoutput
        (db.config_set "LOGGER" component "LOGLEVEL" loglevel s)
  with_levels component loglevel logoutput s = s

  -- "LOGLEVEL" and "LOGOUTPUT" of one key; the key is deleted in any case.
  move_loglevel : String → S → S
  move_loglevel key s =
      let fvs = db.loglevel_get_all key s in
      let moved =
        if key == "JINJA2_CACHE"
        then s
        else with_levels (nth 1 (split ":" key)) (lookup "LOGLEVEL" fvs) (lookup "LOGOUTPUT" fvs)
            s in
      db.loglevel_delete key moved

  unfoldable pub migrate_loglevel : S → S
  unfolding move_loglevel
  migrate_loglevel s = for_keys move_loglevel (db.loglevel_keys s) s
