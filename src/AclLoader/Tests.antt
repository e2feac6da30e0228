-- ===== src/AclLoader/Tests.antt =====
-- acl_loader/main.py: an incremental update of a table of each kind.
mod Converted
use sonic_utility.Base.Split.{starts_with}
use sonic_utility.Base.Dict.{merge}
use sonic_utility.Base.Split.{elem}
use sonic_utility.DbMigrator.Tables.{first_part}
use sonic_utility.AclLoader.Update.{keys, has_all}
use sonic_utility.Base.Split.{elem}
use sonic_utility.DbMigrator.Tables.{first_part}
use sonic_utility.AclLoader.Update.{keys, add_rule}
use sonic_utility.Base.Split.{elem}
use sonic_utility.DbMigrator.Tables.{first_part}
use sonic_utility.AclLoader.Update.{keys, same_entry}
use sonic_utility.Base.Split.{elem}
use sonic_utility.DbMigrator.Tables.{first_part}
use sonic_utility.AclLoader.Update.{keys, replace_rule}
use sonic_utility.Base.Split.{upper}
use sonic_utility.Base.Split.{elem}
use sonic_utility.Base.Split.{elem}
use sonic_utility.DbMigrator.Tables.{first_part}
use sonic_utility.AclLoader.Update.{keys, is_table_data_plane}
use sonic_utility.Base.Split.{elem}
use sonic_utility.DbMigrator.Tables.{first_part}
use sonic_utility.AclLoader.Update.{keys, is_table_control_plane}
use sonic_utility.Base.Fault.{keep_if}
use sonic_utility.Base.Dict.{insert}
use sonic_utility.Base.Split.{elem}
use sonic_utility.DbMigrator.Tables.{first_part}
use sonic_utility.AclLoader.Update.{keys, delete_rule}
use sonic_utility.Base.Dict.{remove}
use sonic_utility.Base.Split.{nth}
use sonic_utility.Base.Split.{split}
use sonic_utility.Base.Split.{elem}
use sonic_utility.DbMigrator.Tables.{first_part}
use sonic_utility.AclLoader.Update.{keys, keys}
use sonic_utility.Base.Split.{elem}
use sonic_utility.DbMigrator.Tables.{first_part}
use sonic_utility.AclLoader.Update.{keys, kept}
use sonic_utility.DbMigrator.Databases.{for_keys}
use sonic_utility.Base.{
  All, ◌≡◌, refl, String, true, ◌||◌, List, [], ◌∷◌, none, some, is_some, arith, eq_iff, Bool-cases,
  subst, inl, inr, ◌==◌,
}
use sonic_utility.Base.Dict.{lookup}
use sonic_utility.Base.Result.{ok}
use sonic_utility.DbMigrator.Databases.{Entry, field, get_entry}
use sonic_utility.DbMigrator.Tests.Dictionaries.{Store, store}
use sonic_utility.DbMigrator.Tests.Dictionaries.Lawful.{store-Laws}
use sonic_utility.Base.Split.{elem}
use sonic_utility.DbMigrator.Tables.{first_part}
use sonic_utility.AclLoader.Update.{keys, Loader, entry_of, full_update, incremental_update, delete}
use sonic_utility.AclLoader.Update.Agree.{IsRead, incremental_update-full_update}

abbrev rule_of : String → String → Entry
rule_of priority action = ("PRIORITY", priority) ∷ ("PACKET_ACTION", action) ∷ []

abbrev before : Store
before = record {
  config =
      (
        "ACL_RULE",
        ("SSH|RULE_1", rule_of "9999" "ACCEPT")
            ∷ ("SSH|RULE_2", rule_of "9998" "DROP")
            ∷ ("DATA|RULE_1", rule_of "9999" "FORWARD")
            ∷ [],
      )
      ∷ [];
  app = [];
  loglevel = [];
  warm = none;
}

abbrev loader : Loader
loader = record {
  tables_db_info = ("SSH", ("type", "ctrlplane") ∷ []) ∷ ("DATA", ("type", "L3") ∷ []) ∷ [];
  rules_db_info = store.get_table "ACL_RULE" before;
  rules_info =
      ("SSH|RULE_1", rule_of "9999" "DROP")
      ∷ ("SSH|RULE_3", rule_of "9997" "ACCEPT")
      ∷ ("DATA|RULE_2", rule_of "9998" "FORWARD")
      ∷ [];
  current_table = none;
}

abbrev after : Store
after = record {
  config =
      (
        "ACL_RULE",
        ("SSH|RULE_1", rule_of "9999" "DROP")
            ∷ ("DATA|RULE_2", rule_of "9998" "FORWARD")
            ∷ ("SSH|RULE_3", rule_of "9997" "ACCEPT")
            ∷ [],
      )
      ∷ [];
  app = [];
  loglevel = [];
  warm = none;
}

member : (P : String → Type 0) (k : String) (ks : List String) → All P ks → elem k ks ≡ true → P k
unfolding elem
member P k [] p h = ground arith
member P k (j ∷ ks) p h = elim (Bool-cases (j == k)) [
  | inl e ↦ subst P ((eq_iff j k).0 e) p.0
  | inr e ↦ member P k ks p.1 (ground arith)
]

abbrev HasType : String → Type 0
HasType k = is_some (lookup "type" (entry_of (first_part k) loader.tables_db_info)) ≡ true

typed :
    (k : String)
    → elem k (keys loader.rules_info) || elem k (keys loader.rules_db_info) ≡ true
    → HasType k
unfolding keys lookup split store remove
typed k h = elim (Bool-cases (elem k (keys loader.rules_info))) [
  | inl e ↦ member HasType k (keys loader.rules_info) (refl, (refl, (refl, tt))) e
  | inr e ↦ member HasType k (keys loader.rules_db_info) (refl, (refl, (refl, tt))) (ground arith)
]

loader-IsRead : IsRead store store-Laws loader before
unfolding lookup field get_entry store
loader-IsRead = record { read = λ k f. refl; once = (refl, (refl, (refl, tt))); typed = typed }

incremental : incremental_update store loader before ≡ ok after
unfolding incremental_update keep_if keys is_table_control_plane lookup split is_table_data_plane
    store remove for_keys kept elem upper replace_rule same_entry insert delete_rule add_rule
    has_all merge starts_with
incremental = refl

deleted :
    entry_of "SSH|RULE_2"
      (store.get_table "ACL_RULE" (delete store (some "SSH") (some "RULE_2") loader before))
    ≡ []
unfolding lookup store delete for_keys kept keys split nth remove delete_rule insert
deleted = refl

incremental_update-full_update_example :
    (s' : Store) × (incremental_update store loader before ≡ ok s')
    × ((k f : String)
        → (field store "ACL_RULE" k f s' ≡ lookup f (entry_of k loader.rules_info))
          × (field store "ACL_RULE" k f s'
              ≡ field store "ACL_RULE" k f (full_update store loader before)))
incremental_update-full_update_example =
    incremental_update-full_update store store-Laws loader before refl loader-IsRead
