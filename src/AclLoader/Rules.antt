-- ===== src/AclLoader/Rules.antt =====
-- acl_loader/main.py: the whole rule, and the rules of a file.
pub mod Bounded
pub mod Taken
pub mod Clean
pub mod Whole
pub mod Returns
use Prim.Native.String.{◌++◌ as str_append}
use sonic_utility.Base.{
  ℕ, String, Bool, true, false, not, ◌&&◌, ◌||◌, List, [], ◌∷◌, Option, none, some, ◌==◌,
  if◌then◌else◌, get_or, is_nil, length, nat_eq,
}
use sonic_utility.Base.Dict.{Dict, lookup, has_key, insert, merge}
use sonic_utility.Base.Split.{elem, upper, split, starts_with, contains}
use sonic_utility.Base.Text.{replace, is_empty, show_nat}
use sonic_utility.Base.Result.{Result, ok, err, ◌>>=◌, ◌>>◌, guard}
use sonic_utility.Base.Fault.{Fault, at_key}
use sonic_utility.DbMigrator.Databases.{Entry}
use sonic_utility.AclLoader.Values.{
  Value, text, Failure, acl_loader_exception, fault, raised, show_int, minus,
}
use sonic_utility.AclLoader.Tables.{
  Rule, Settings, Props, is_table_mirror, is_table_l3v6, is_table_l3, is_table_ipv6,
  is_table_egress,
}
use sonic_utility.AclLoader.Actions.{convert_action}
use sonic_utility.AclLoader.Convert.{
  convert_l2, convert_ip, convert_icmp, convert_transport, convert_input_interface,
  validate_rule_fields,
}
use sonic_utility.AclLoader.Update.{is_table_control_plane}

-- The key (table_name, name)
abbrev pub rule_key : String → String → String
rule_key table_name name = str_append table_name (str_append "|" name)

abbrev pub default_type : Bool → Bool → Props
default_type l3v6 l3 =
    if l3v6
    then ("IP_TYPE", text "IPV6ANY") ∷ []
    else if l3
    then ("ETHER_TYPE", text "2048") ∷ []
    else []

-- dst.setdefault(key, {}) and its update with the fields
unfoldable pub deep_update : String → Props → Dict Props → Dict Props
deep_update key props dst = insert key (merge (get_or (lookup key dst) []) props) dst

unfoldable pub deny_rule : Dict Entry → String → Result Failure (String × Props)
deny_rule tables table_name = do
  ipv6 ← raised (is_table_ipv6 tables table_name)
  let type = if ipv6 then ("IP_TYPE", text "IPV6ANY") else ("ETHER_TYPE", text "2048")
  ok (
    rule_key table_name "DEFAULT_RULE",
    ("PRIORITY", text "1") ∷ ("PACKET_ACTION", text "DROP") ∷ type ∷ [],
  )

-- The fields of a rule, converted one group after the other.
pub record Fields : Type 0 where
  pub action : Props
  pub l2 : Props
  pub ip : Props
  pub icmp : Props

abbrev pub all_props : Settings → Rule → Bool → Bool → Fields → Props
all_props st rule l3v6 l3 f =
    merge
      (merge
        (merge
          (merge
            (merge
              (merge
                (("PRIORITY", text (show_int (minus st.max_priority rule.sequence_id)))
                  ∷ default_type l3v6 l3)
                f.action)
              f.l2)
            f.ip)
          f.icmp)
        (convert_transport rule))
      (convert_input_interface rule)

-- An AclSet of the file: its name and its entries.
pub record AclSet : Type 0 where
  pub name : String
  pub entries : List Rule

-- except AclLoaderException: the rule is skipped.
unfoldable pub absorb : Result Failure (String × Props) → Dict Props → Result Failure (Dict Props)
absorb (ok (key, props)) rules_info = ok (deep_update key props rules_info)
absorb (err acl_loader_exception) rules_info = ok rules_info
absorb (err (fault f)) rules_info = err (fault f)

abbrev pub is_current : Option String → String → Bool
is_current none table_name = true
is_current (some current) table_name = current == table_name

module _ (ip_network_version : String → Result Fault ℕ) (st : Settings) where
  unfoldable pub convert_fields : String → Rule → Result Failure Fields
  convert_fields table_name rule = do
    action ← convert_action st table_name rule
    l2 ← convert_l2 rule
    ip ← convert_ip ip_network_version st.tables_db_info table_name rule
    icmp ← convert_icmp st.tables_db_info table_name rule
    ok record { action = action; l2 = l2; ip = ip; icmp = icmp }

  unfoldable pub convert_rule_to_db_schema : String → Rule → Result Failure (String × Props)
  unfolding convert_fields
  convert_rule_to_db_schema table_name rule = do
    l3v6 ← raised (is_table_l3v6 st.tables_db_info table_name)
    l3 ← raised (is_table_l3 st.tables_db_info table_name)
    fields ← convert_fields table_name rule
    let rule_props = all_props st rule l3v6 l3 fields
    validated ← validate_rule_fields rule_props
    ok (rule_key table_name (str_append "RULE_" (show_nat rule.sequence_id)), rule_props)

  unfoldable pub convert_entries : String → List Rule → Dict Props → Result Failure (Dict Props)
  convert_entries table_name [] rules_info = ok rules_info
  convert_entries table_name (rule ∷ rules) rules_info = do
    next ← absorb (convert_rule_to_db_schema table_name rule) rules_info
    convert_entries table_name rules next

  unfoldable pub add_default : String → Dict Props → Result Failure (Dict Props)
  add_default table_name rules_info = do
    mirror ← raised (is_table_mirror st.tables_db_info table_name)
    egress ← raised (is_table_egress st.tables_db_info table_name)
    denied ← deny_rule st.tables_db_info table_name
    ok (if mirror || egress then rules_info else deep_update denied.0 denied.1 rules_info)

  -- The table of a set: " " and "-" become "_", in upper case.
  unfoldable pub table_of_set : String → String
  table_of_set acl_set_name = upper (replace "-" "_" (replace " " "_" acl_set_name))

  -- The table is in the database with some field, and is the one that the update is confined to.
  unfoldable pub takes : Option String → String → Bool
  takes current_table table_name =
      not (is_nil (get_or (lookup table_name st.tables_db_info) []))
      && is_current current_table table_name

  unfoldable pub convert_rules :
      Option String → List AclSet → Dict Props → Result Failure (Dict Props)
  convert_rules current_table [] rules_info = ok rules_info
  convert_rules current_table (set ∷ sets) rules_info = do
    let table_name = table_of_set set.name
    let converted = (do
      info ← convert_entries table_name set.entries rules_info
      add_default table_name info)
    next ← if takes current_table table_name then converted else ok rules_info
    convert_rules current_table sets next
