-- ===== src/AclLoader/Rules/Taken.antt =====
-- acl_loader/main.py: the rules that `convert_rules` makes of a file.
use sonic_utility.Base.{
  ◌≡◌, subst, ℕ, String, true, ◌||◌, List, [], ◌∷◌, Option, get_or, All, arith, Bool-cases,
  Option-cases, inl, inr, eq_iff, some,
}
use Prim.Native.String.{◌++◌ as str_append}
use sonic_utility.Base.Dict.{Dict, lookup, All-insert, All-lookup}
use sonic_utility.Base.Text.{show_nat}
use sonic_utility.Base.Result.{Result, ok, ◌>>=◌, >>=-eq-ok, ok-injective, Result-cases}
use sonic_utility.Base.Fault.{Fault}
use sonic_utility.DbMigrator.Databases.{Entry}
use sonic_utility.AclLoader.Values.{acl_loader_exception, fault, raised}
use sonic_utility.AclLoader.Tables.{Rule, Settings, Props, is_table_mirror, is_table_egress}
use sonic_utility.AclLoader.Convert.Bounds.{IsBounded, IsBounded-merge}
use sonic_utility.AclLoader.Rules.{
  AclSet, rule_key, deep_update, deny_rule, absorb, convert_rule_to_db_schema, convert_entries,
  add_default, table_of_set, takes, convert_rules,
}
use sonic_utility.AclLoader.Rules.Bounded.{convert_rule-IsBounded, deny_rule-IsBounded}

module _ (ip_network_version : String → Result Fault ℕ) (st : Settings)
    (current_table : Option String) where
  -- A rule under the key of a table of the database, the one that the update is confined to if there is
  -- one, with fields within their bounds.
  pub record IsTaken (e : String × Props) : Type 0 where
    pub table_name : String
    pub rule_name : String
    pub key : e.0 ≡ rule_key table_name rule_name
    pub table : Entry
    pub there : lookup table_name st.tables_db_info ≡ some table
    pub confined : (current : String) → current_table ≡ some current → current ≡ table_name
    pub bounded : IsBounded e.1

  -- What `takes` asks of a table.
  taken_there :
      (t : String)
      → takes ip_network_version st current_table t ≡ true
      → (table : Entry) × (lookup t st.tables_db_info ≡ some table)
  unfolding takes
  taken_there t h = elim (Option-cases (lookup t st.tables_db_info)) [
    | inl n ↦ ground arith
    | inr found ↦ found
  ]

  taken_confined :
      (t : String)
      → takes ip_network_version st current_table t ≡ true
      → (current : String) → current_table ≡ some current
      → current ≡ t
  unfolding takes
  taken_confined t h current e = ground (arith, eq_iff current t)

  deep_update-IsTaken :
      (t name key : String) (props : Props) (rules_info : Dict Props)
      → key ≡ rule_key t name
      → takes ip_network_version st current_table t ≡ true
      → IsBounded props
      → All IsTaken rules_info
      → All IsTaken (deep_update key props rules_info)
  unfolding deep_update
  deep_update-IsTaken t name key props rules_info k h b a =
      let before : IsBounded (get_or (lookup key rules_info) []) =
        elim (Option-cases (lookup key rules_info)) [
          | inl n ↦ rw (n) tt
          | inr (p, n) ↦ rw (n) (IsTaken.bounded (All-lookup IsTaken key rules_info a n))
        ] in
      All-insert IsTaken key _ rules_info
        record {
          table_name = t;
          rule_name = name;
          key = k;
          table = (taken_there t h).0;
          there = (taken_there t h).1;
          confined = taken_confined t h;
          bounded = IsBounded-merge (get_or (lookup key rules_info) []) props before b;
        }
        a

  absorb-IsTaken :
      (t : String) (rule : Rule) (rules_info : Dict Props) {out : Dict Props}
      → takes ip_network_version st current_table t ≡ true
      → All IsTaken rules_info
      → absorb (convert_rule_to_db_schema ip_network_version st t rule) rules_info ≡ ok out
      → All IsTaken out
  unfolding absorb
  absorb-IsTaken t rule rules_info h a e =
      elim (Result-cases (convert_rule_to_db_schema ip_network_version st t rule)) [
        | inl ((key, props), made) ↦
            let (k, b) = convert_rule-IsBounded ip_network_version st t rule made in
            subst (All IsTaken) (ok-injective (rw (made) at (e))) (
              deep_update-IsTaken t (str_append "RULE_" (show_nat rule.sequence_id)) key props
                rules_info k h b a)
        | inr (acl_loader_exception, made) ↦ subst (All IsTaken) (ok-injective (rw (made) at (e))) a
        | inr (fault f, made) ↦ ground arith
      ]

  entries-IsTaken :
      (t : String) (rules : List Rule) (rules_info : Dict Props) {out : Dict Props}
      → takes ip_network_version st current_table t ≡ true
      → All IsTaken rules_info
      → convert_entries ip_network_version st t rules rules_info ≡ ok out
      → All IsTaken out
  unfolding convert_entries
  entries-IsTaken t [] rules_info h a e = subst (All IsTaken) (ok-injective e) a
  entries-IsTaken t (rule ∷ rules) rules_info h a e =
      let (next, t_1, e_1) =
        >>=-eq-ok (absorb (convert_rule_to_db_schema ip_network_version st t rule) rules_info) _
          e in
      entries-IsTaken t rules next h (absorb-IsTaken t rule rules_info h a t_1) e_1

  default-IsTaken :
      (t : String) (rules_info : Dict Props) {out : Dict Props}
      → takes ip_network_version st current_table t ≡ true
      → All IsTaken rules_info
      → add_default ip_network_version st t rules_info ≡ ok out
      → All IsTaken out
  unfolding add_default
  default-IsTaken t rules_info h a e =
      let (mirror, t_1, e_1) = >>=-eq-ok (raised (is_table_mirror st.tables_db_info t)) _ e in
      let (egress, t_2, e_2) = >>=-eq-ok (raised (is_table_egress st.tables_db_info t)) _ e_1 in
      let (denied, t_3, e_3) = >>=-eq-ok (deny_rule st.tables_db_info t) _ e_2 in
      let (k, b) = deny_rule-IsBounded st.tables_db_info t t_3 in
      elim (Bool-cases (mirror || egress)) [
        | inl y ↦ subst (All IsTaken) (ok-injective (rw (y) at (e_3))) a
        | inr n ↦
            subst (All IsTaken) (ok-injective (rw (n) at (e_3)))
              (deep_update-IsTaken t "DEFAULT_RULE" denied.0 denied.1 rules_info k h b a)
      ]

  -- Where the conversion of a file returns, every rule is under the key of a table that the database has,
  -- of the one that the update is confined to if there is one, and its VLAN is from 1 to 4095 and its
  -- types and codes of ICMP are from 0 to 255, if this is so of the rules before.
  pub convert_rules-IsTaken :
      (sets : List AclSet) (rules_info : Dict Props) {out : Dict Props}
      → All IsTaken rules_info
      → convert_rules ip_network_version st current_table sets rules_info ≡ ok out
      → All IsTaken out
  unfolding convert_rules
  convert_rules-IsTaken [] rules_info a e = subst (All IsTaken) (ok-injective e) a
  convert_rules-IsTaken (set ∷ sets) rules_info a e =
      let t = table_of_set ip_network_version st set.name in
      elim (Bool-cases (takes ip_network_version st current_table t)) [
        | inr n ↦ convert_rules-IsTaken sets rules_info a (rw (n) at (e))
        | inl y ↦
            let (next, t_1, e_1) =
              >>=-eq-ok
                (do
                  info ← convert_entries ip_network_version st t set.entries rules_info
                  add_default ip_network_version st t info)
                _ (rw (y) at (e)) in
            let (info, t_2, e_2) =
              >>=-eq-ok (convert_entries ip_network_version st t set.entries rules_info) _ t_1 in
            convert_rules-IsTaken sets next
              (default-IsTaken t info y (entries-IsTaken t set.entries rules_info y a t_2) e_2) e_1
      ]
