-- ===== src/AclLoader/Rules/Returns.antt =====
-- acl_loader/main.py: the conversion of a file ends without an exception.
use sonic_utility.Base.{
  ◌≡◌, refl, ℕ, String, Bool, true, ◌||◌, List, [], ◌∷◌, Option, if◌then◌else◌, All, arith,
  Bool-cases, inl, inr,
}
use sonic_utility.Base.Result.{Result, ok, err}
use sonic_utility.Base.Fault.{Fault}
use sonic_utility.Base.Dict.{Dict}
use sonic_utility.AclLoader.Values.{text, Failure, acl_loader_exception, fault, raised}
use sonic_utility.AclLoader.Tables.{
  Rule, Settings, Props, is_table_mirror, is_table_egress, is_table_ipv6,
}
use sonic_utility.AclLoader.Rules.{
  AclSet, rule_key, absorb, deep_update, deny_rule, convert_rule_to_db_schema, convert_entries,
  add_default, table_of_set, takes, convert_rules,
}
use sonic_utility.AclLoader.Rules.Clean.{
  is_clean, well_formed, has_type, clean_mirror, clean_egress, clean_ipv6,
}
use sonic_utility.AclLoader.Rules.Whole.{convert_rule-is_clean}
use sonic_utility.AclLoader.Rules.Taken.{IsTaken, convert_rules-IsTaken}

-- Where nothing is raised but the loader's exception, absorb returns.
absorb-returns :
    (r : Result Failure (String × Props)) (rules_info : Dict Props)
    → is_clean r ≡ true
    → (out : Dict Props) × (absorb r rules_info ≡ ok out)
unfolding absorb
absorb-returns (ok (key, props)) rules_info h = (deep_update key props rules_info, refl)
absorb-returns (err acl_loader_exception) rules_info h = (rules_info, refl)
absorb-returns (err (fault f)) rules_info h = ground arith

raised-returns : (r : Result Fault Bool) → is_clean (raised r) ≡ true → (a : Bool) × (r ≡ ok a)
raised-returns (ok a) h = (a, refl)
raised-returns (err f) h = ground arith

module _ (ip_network_version : String → Result Fault ℕ) (st : Settings) where
  abbrev pub AllFormed : List Rule → Type 0
  AllFormed rules = All (λ rule. well_formed ip_network_version rule ≡ true) rules

  abbrev pub SetFormed : AclSet → Type 0
  SetFormed set = AllFormed set.entries

  entries-return :
      (t : String) (rules : List Rule) (rules_info : Dict Props)
      → has_type st.tables_db_info t ≡ true
      → AllFormed rules
      → (out : Dict Props) × (convert_entries ip_network_version st t rules rules_info ≡ ok out)
  unfolding convert_entries
  entries-return t [] rules_info h g = (rules_info, refl)
  entries-return t (rule ∷ rules) rules_info h g =
      let (next, e) =
        absorb-returns (convert_rule_to_db_schema ip_network_version st t rule) rules_info
          (convert_rule-is_clean st t h ip_network_version rule g.0) in
      let (out, e_1) = entries-return t rules next h g.1 in (out, rw (e) e_1)

  deny-returns :
      (t : String)
      → has_type st.tables_db_info t ≡ true
      → (made : String × Props) × (deny_rule st.tables_db_info t ≡ ok made)
  unfolding deny_rule
  deny-returns t h =
      let (ipv6, v) =
        raised-returns (is_table_ipv6 st.tables_db_info t) (clean_ipv6 st.tables_db_info t h) in
      let type = if ipv6 then ("IP_TYPE", text "IPV6ANY") else ("ETHER_TYPE", text "2048") in
      (
        (
          rule_key t "DEFAULT_RULE",
          ("PRIORITY", text "1") ∷ ("PACKET_ACTION", text "DROP") ∷ type ∷ [],
        ),
        rw (v) refl,
      )

  default-returns :
      (t : String) (rules_info : Dict Props)
      → has_type st.tables_db_info t ≡ true
      → (out : Dict Props) × (add_default ip_network_version st t rules_info ≡ ok out)
  unfolding add_default
  default-returns t rules_info h =
      let (mirror, m) =
        raised-returns (is_table_mirror st.tables_db_info t) (clean_mirror st.tables_db_info t h) in
      let (egress, e) =
        raised-returns (is_table_egress st.tables_db_info t) (clean_egress st.tables_db_info t h) in
      let (denied, d) = deny-returns t h in
      (
        if mirror || egress then rules_info else deep_update denied.0 denied.1 rules_info,
        rw (m) (rw (e) (rw (d) refl)),
      )

  module _ (current_table : Option String) where
    -- The table of the set has its type, if the set is taken.
    abbrev pub SetTyped : AclSet → Type 0
    SetTyped set =
        takes ip_network_version st current_table (table_of_set ip_network_version st set.name)
          ≡ true
        → has_type st.tables_db_info (table_of_set ip_network_version st set.name) ≡ true

    -- A file is converted without an exception, if each table that it fills has its type, the VLANs and
    -- fields of ICMP are numbers where they are given, and the addresses are networks.
    sets-return :
        (sets : List AclSet) (rules_info : Dict Props)
        → All SetTyped sets
        → All SetFormed sets
        → (out : Dict Props) × (convert_rules ip_network_version st current_table sets rules_info
            ≡ ok out)
    unfolding convert_rules
    sets-return [] rules_info typed g = (rules_info, refl)
    sets-return (set ∷ sets) rules_info typed g =
        let t = table_of_set ip_network_version st set.name in
        elim (Bool-cases (takes ip_network_version st current_table t)) [
          | inr n ↦ let (out, e) = sets-return sets rules_info typed.1 g.1 in (out, rw (n) e)
          | inl y ↦
              let (info, e_1) = entries-return t set.entries rules_info (typed.0 y) g.0 in
              let (next, e_2) = default-returns t info (typed.0 y) in
              let (out, e) = sets-return sets next typed.1 g.1 in
              (out, rw (y) (rw (e_1) (rw (e_2) e)))
        ]

    -- The conversion of a file returns, and every rule then is under the key of a table that the database
    -- has, of the one that the update is confined to if there is one; its VLAN is from 1 to 4095 and its
    -- types and codes of ICMP are from 0 to 255. This is if the rules before are such, if each table that
    -- the file fills has its type, if the VLANs and the fields of ICMP of the file are numbers where they
    -- are given, and if its addresses are networks.
    pub convert_rules-IsBounded :
        (sets : List AclSet) (rules_info : Dict Props)
        → All SetTyped sets
        → All SetFormed sets
        → All (IsTaken ip_network_version st current_table) rules_info
        → (out : Dict Props) × (convert_rules ip_network_version st current_table sets rules_info
            ≡ ok out)
          × All (IsTaken ip_network_version st current_table) out
    convert_rules-IsBounded sets rules_info typed g a =
        let (out, e) = sets-return sets rules_info typed g in
        (out, e, convert_rules-IsTaken ip_network_version st current_table sets rules_info a e)
