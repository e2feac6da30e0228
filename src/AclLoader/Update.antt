-- ===== src/AclLoader/Update.antt =====
-- acl_loader/main.py: `full_update`, `incremental_update` and `delete`, on one database; the program
-- does the same on the database of each ASIC.
pub mod Steps
pub mod Agree
use sonic_utility.Base.{
  String, Bool, true, false, not, ◌&&◌, ◌||◌, List, [], ◌∷◌, Option, none, some, ◌==◌,
  if◌then◌else◌, get_or, is_nil,
}
use sonic_utility.Base.Dict.{Dict, lookup}
use sonic_utility.Base.Split.{elem, upper, nth, split}
use sonic_utility.Base.Result.{Result, ok, ◌>>=◌}
use sonic_utility.Base.Fault.{Fault, at_key, keep_if}
use sonic_utility.DbMigrator.Databases.{Databases, Entry, for_each, for_keys}
use sonic_utility.DbMigrator.Tables.{first_part}

-- What the loader keeps: the tables and the rules of the database as it has read them, the rules of
-- the file, and the table that it is confined to. A rule is under the key table|rule.
pub record Loader : Type 0 where
  pub tables_db_info : Dict Entry
  pub rules_db_info : Dict Entry
  pub rules_info : Dict Entry
  pub current_table : Option String

unfoldable pub keys : Dict Entry → List String
keys [] = []
keys ((k, e) ∷ d) = k ∷ keys d

abbrev pub entry_of : String → Dict Entry → Entry
entry_of k d = get_or (lookup k d) []

unfoldable pub kept : (String → Bool) → List String → List String
kept test [] = []
kept test (k ∷ ks) = let rest = kept test ks in if test k then k ∷ rest else rest

abbrev has_value : String → Option String → Bool
has_value value none = false
has_value value (some v) = v == value

unfoldable pub has_all : Entry → Entry → Bool
has_all [] e = true
has_all ((name, value) ∷ d) e = has_value value (lookup name e) && has_all d e

-- operator.eq of two dictionaries, with the values as texts, as they are stored
unfoldable pub same_entry : Entry → Entry → Bool
unfolding has_all
same_entry d e = has_all d e && has_all e d

unfoldable pub is_table_control_plane : Dict Entry → String → Result Fault Bool
is_table_control_plane tables_db_info table_name = do
  table ← at_key table_name tables_db_info
  type ← at_key "type" table
  ok (upper type == "CTRLPLANE")

unfoldable pub is_table_data_plane : Dict Entry → String → Result Fault Bool
is_table_data_plane tables_db_info table_name = do
  control ← is_table_control_plane tables_db_info table_name
  ok (not control)

-- key[1]
abbrev second_part : String → String
second_part key = get_or (nth 1 (split "|" key)) ""

abbrev in_rule : Option String → String → Bool
in_rule none name = true
in_rule (some rule) name = rule == name

module _ {S : Type 0} (db : Databases S) where
  -- mod_entry(ACL_RULE, key, None) deletes the key, as set_entry does.
  unfoldable pub delete_rule : String → S → S
  delete_rule key = db.set_entry "ACL_RULE" key none

  unfoldable pub add_rule : Dict Entry → String → S → S
  add_rule rules_info key = db.mod_entry "ACL_RULE" key (entry_of key rules_info)

  unfoldable pub replace_rule : Loader → String → S → S
  replace_rule l key s =
      if same_entry (entry_of key l.rules_info) (entry_of key l.rules_db_info)
      then s
      else db.set_entry "ACL_RULE" key (some (entry_of key l.rules_info)) s

  abbrev pub in_table : Option String → String → Bool
  in_table none key = true
  in_table (some table) key = table == first_part key

  unfoldable pub full_update : Loader → S → S
  full_update l s =
      for_each (db.mod_entry "ACL_RULE") l.rules_info
        (for_keys delete_rule (kept (in_table l.current_table) (keys l.rules_db_info)) s)

  -- The sets of keys, each in the order of the dictionary.
  unfoldable pub incremental_update : Loader → S → Result Fault S
  incremental_update l s = do
    new_control ←
        keep_if (λ k. is_table_control_plane l.tables_db_info (first_part k)) (keys l.rules_info)
    new_data ←
        keep_if (λ k. is_table_data_plane l.tables_db_info (first_part k)) (keys l.rules_info)
    current_control ←
        keep_if (λ k. is_table_control_plane l.tables_db_info (first_part k)) (keys l.rules_db_info)
    current_data ←
        keep_if (λ k. is_table_data_plane l.tables_db_info (first_part k)) (keys l.rules_db_info)
    let s_1 = for_keys delete_rule current_data s
    let s_2 = for_keys (add_rule l.rules_info) new_data s_1
    let s_3 =
        for_keys (add_rule l.rules_info) (kept (λ k. not (elem k current_control)) new_control) s_2
    let s_4 = for_keys delete_rule (kept (λ k. not (elem k new_control)) current_control) s_3
    ok (for_keys (replace_rule l) (kept (λ k. elem k current_control) (keys l.rules_info)) s_4)

  abbrev pub is_named : Option String → Option String → String → Bool
  is_named table rule key = in_table table key && in_rule rule (second_part key)

  -- `delete`; an empty name of the table or the rule is none.
  unfoldable pub delete : Option String → Option String → Loader → S → S
  delete table rule l s = for_keys delete_rule (kept (is_named table rule) (keys l.rules_db_info)) s
