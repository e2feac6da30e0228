-- ===== src/AclLoader/Rules/Bounded.antt =====
-- acl_loader/main.py: the bounds of the fields of a whole rule.
use Prim.Native.String.{◌++◌ as str_append}
use sonic_utility.Base.{
  ◌≡◌, refl, subst, ℕ, String, Bool, true, false, [], ◌∷◌, if◌then◌else◌, nat_eq,
}
use sonic_utility.Base.Dict.{Dict}
use sonic_utility.Base.Split.{elem}
use sonic_utility.Base.Text.{is_empty, show_nat}
use sonic_utility.Base.Result.{Result, ok, >>=-eq-ok, ok-injective}
use sonic_utility.Base.Fault.{Fault}
use sonic_utility.DbMigrator.Databases.{Entry}
use sonic_utility.AclLoader.Values.{Value, text, raised, is_true, show_value, show_int, minus}
use sonic_utility.AclLoader.Tables.{
  Rule, Settings, Props, is_table_ipv6, is_table_l3v6, is_table_l3,
}
use sonic_utility.AclLoader.Convert.{
  convert_l2, convert_ip, convert_icmp, convert_port, convert_port_field, or_flags,
  convert_transport, convert_input_interface, validate_rule_fields,
}
use sonic_utility.AclLoader.Actions.Bounded.{action-IsBounded}
use sonic_utility.AclLoader.Convert.Bounds.{
  is_bounded, BoundedEntry, IsBounded, IsBounded-merge, convert_l2-IsBounded,
  convert_icmp-IsBounded, convert_ip-IsBounded, either,
}
use sonic_utility.AclLoader.Actions.{convert_action}
use sonic_utility.AclLoader.Rules.{
  Fields, all_props, default_type, convert_fields, deny_rule, convert_rule_to_db_schema, rule_key,
}

one_or_none :
    (b : Bool) (k : String) (v : Value)
    → BoundedEntry (k, v)
    → IsBounded (if b then (k, v) ∷ [] else [])
one_or_none true k v h = (h, tt)
one_or_none false k v h = tt

none_or_one :
    (b : Bool) (k : String) (v : Value)
    → BoundedEntry (k, v)
    → IsBounded (if b then [] else (k, v) ∷ [])
none_or_one true k v h = tt
none_or_one false k v h = (h, tt)

transport-IsBounded : (rule : Rule) → IsBounded (convert_transport rule)
unfolding convert_transport convert_port_field is_bounded elem
transport-IsBounded rule =
    let src = convert_port (show_value rule.source_port) in
    let dst = convert_port (show_value rule.destination_port) in
    IsBounded-merge _ _
      (IsBounded-merge _ _
        (one_or_none (is_true rule.source_port) _ (text src.0)
          (either src.1 "L4_SRC_PORT_RANGE" "L4_SRC_PORT" (text src.0) refl refl))
        (one_or_none (is_true rule.destination_port) _ (text dst.0)
          (either dst.1 "L4_DST_PORT_RANGE" "L4_DST_PORT" (text dst.0) refl refl)))
      (none_or_one (nat_eq (or_flags 0 rule.tcp_flags) 0) "TCP_FLAGS" _ refl)

interface-IsBounded : (rule : Rule) → IsBounded (convert_input_interface rule)
unfolding convert_input_interface is_bounded elem
interface-IsBounded rule =
    none_or_one (is_empty rule.interface) "IN_PORTS" (text rule.interface) refl

default-IsBounded :
    (l3v6 l3 : Bool) (priority : String)
    → IsBounded (("PRIORITY", text priority) ∷ default_type l3v6 l3)
unfolding is_bounded elem
default-IsBounded true l3 priority = (refl, (refl, tt))
default-IsBounded false true priority = (refl, (refl, tt))
default-IsBounded false false priority = (refl, tt)

fields-IsBounded :
    (ip_network_version : String → Result Fault ℕ) (st : Settings) (table_name : String)
    (rule : Rule) (l3v6 l3 : Bool) {f : Fields}
    → convert_fields ip_network_version st table_name rule ≡ ok f
    → IsBounded (all_props st rule l3v6 l3 f)
unfolding convert_fields
fields-IsBounded ip_network_version st table_name rule l3v6 l3 e =
    let (action, t_1, e_1) = >>=-eq-ok (convert_action st table_name rule) _ e in
    let (l2, t_2, e_2) = >>=-eq-ok (convert_l2 rule) _ e_1 in
    let (ip, t_3, e_3) =
      >>=-eq-ok (convert_ip ip_network_version st.tables_db_info table_name rule) _ e_2 in
    let (icmp, t_4, e_4) = >>=-eq-ok (convert_icmp st.tables_db_info table_name rule) _ e_3 in
    let b_0 = default-IsBounded l3v6 l3 (show_int (minus st.max_priority rule.sequence_id)) in
    let b_1 = IsBounded-merge _ _ b_0 (action-IsBounded st table_name rule t_1) in
    let b_2 = IsBounded-merge _ _ b_1 (convert_l2-IsBounded rule t_2) in
    let b_3 =
      IsBounded-merge _ _ b_2
        (convert_ip-IsBounded ip_network_version st.tables_db_info table_name rule t_3) in
    let b_4 =
      IsBounded-merge _ _ b_3 (convert_icmp-IsBounded st.tables_db_info table_name rule t_4) in
    let b_5 = IsBounded-merge _ _ b_4 (transport-IsBounded rule) in
    let b_6 = IsBounded-merge _ _ b_5 (interface-IsBounded rule) in
    subst (λ f. IsBounded (all_props st rule l3v6 l3 f)) (ok-injective e_4) b_6

-- The fields of a converted rule are within their bounds.
pub convert_rule-IsBounded :
    (ip_network_version : String → Result Fault ℕ) (st : Settings) (table_name : String)
    (rule : Rule) {made : String × Props}
    → convert_rule_to_db_schema ip_network_version st table_name rule ≡ ok made
    → (made.0 ≡ rule_key table_name (str_append "RULE_" (show_nat rule.sequence_id)))
      × IsBounded made.1
unfolding convert_rule_to_db_schema
convert_rule-IsBounded ip_network_version st table_name rule {made = made} e =
    let (l3v6, t_1, e_1) = >>=-eq-ok (raised (is_table_l3v6 st.tables_db_info table_name)) _ e in
    let (l3, t_2, e_2) = >>=-eq-ok (raised (is_table_l3 st.tables_db_info table_name)) _ e_1 in
    let (f, t_3, e_3) = >>=-eq-ok (convert_fields ip_network_version st table_name rule) _ e_2 in
    let (done, t_4, e_4) = >>=-eq-ok (validate_rule_fields (all_props st rule l3v6 l3 f)) _ e_3 in
    subst
      (λ m.
        (m.0 ≡ rule_key table_name (str_append "RULE_" (show_nat rule.sequence_id)))
        × IsBounded m.1)
      (ok-injective e_4) (refl, fields-IsBounded ip_network_version st table_name rule l3v6 l3 t_3)

typed_field :
    (v6 : Bool)
    → BoundedEntry (if v6 then ("IP_TYPE", text "IPV6ANY") else ("ETHER_TYPE", text "2048"))
unfolding is_bounded elem
typed_field true = refl
typed_field false = refl

pub deny_rule-IsBounded :
    (tables : Dict Entry) (table_name : String) {made : String × Props}
    → deny_rule tables table_name ≡ ok made
    → (made.0 ≡ rule_key table_name "DEFAULT_RULE") × IsBounded made.1
unfolding deny_rule is_bounded elem
deny_rule-IsBounded tables table_name {made = made} e =
    let (ipv6, t_1, e_1) = >>=-eq-ok (raised (is_table_ipv6 tables table_name)) _ e in
    subst (λ m. (m.0 ≡ rule_key table_name "DEFAULT_RULE") × IsBounded m.1) (ok-injective e_1)
      (refl, (refl, (refl, (typed_field ipv6, tt))))
