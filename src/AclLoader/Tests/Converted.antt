-- ===== src/AclLoader/Tests/Converted.antt =====
-- acl_loader/main.py: a file with two sets, one of a table that the database does not have.
use sonic_utility.Base.Text.{show_nat}
use sonic_utility.Base.Split.{strip}
use sonic_utility.Base.Split.{split}
use sonic_utility.Base.Split.{replace_text}
use sonic_utility.Base.Split.{contains}
use sonic_utility.Base.Dict.{merge}
use sonic_utility.Base.Dict.{insert}
use sonic_utility.AclLoader.Values.{to_int}
use sonic_utility.AclLoader.Values.{show_value}
use sonic_utility.AclLoader.Values.{show_int}
use sonic_utility.AclLoader.Values.{minus}
use sonic_utility.AclLoader.Values.{is_true}
use sonic_utility.AclLoader.Values.{is_text}
use sonic_utility.AclLoader.Values.{is_number}
use sonic_utility.AclLoader.Values.{hex}
use sonic_utility.AclLoader.Tables.{table_type}
use sonic_utility.AclLoader.Tables.{is_table_ipv6}
use sonic_utility.AclLoader.Tables.{is_table_egress}
use sonic_utility.AclLoader.Actions.{texts}
use sonic_utility.AclLoader.Actions.{mirror_props}
use sonic_utility.AclLoader.Actions.{get_session_name}
use sonic_utility.AclLoader.Rules.{deny_rule}
use sonic_utility.AclLoader.Rules.{deep_update}
use sonic_utility.AclLoader.Rules.{convert_fields}
use sonic_utility.AclLoader.Rules.{add_default}
use sonic_utility.AclLoader.Actions.{accept_props}
use sonic_utility.AclLoader.Convert.{validate_rule_fields}
use sonic_utility.AclLoader.Convert.{or_flags}
use sonic_utility.AclLoader.Convert.{or_bit}
use sonic_utility.AclLoader.Convert.{flag_mask}
use sonic_utility.AclLoader.Convert.{convert_vlan}
use sonic_utility.AclLoader.Convert.{convert_transport}
use sonic_utility.AclLoader.Convert.{convert_protocol}
use sonic_utility.AclLoader.Convert.{convert_port_field}
use sonic_utility.AclLoader.Convert.{convert_port}
use sonic_utility.AclLoader.Convert.{convert_l2}
use sonic_utility.AclLoader.Convert.{convert_ip}
use sonic_utility.AclLoader.Convert.{convert_input_interface}
use sonic_utility.AclLoader.Convert.{convert_icmp}
use sonic_utility.AclLoader.Convert.{convert_ethertype}
use sonic_utility.AclLoader.Convert.{convert_byte}
use sonic_utility.AclLoader.Convert.{convert_address}
use sonic_utility.Base.Split.{elem}
use sonic_utility.AclLoader.Actions.{validate_actions}
use sonic_utility.Base.Split.{starts_with}
use sonic_utility.AclLoader.Tables.{is_table_mirror}
use sonic_utility.AclLoader.Update.{is_table_control_plane}
use sonic_utility.AclLoader.Actions.{convert_action}
use sonic_utility.AclLoader.Tables.{is_table_l3}
use sonic_utility.AclLoader.Tables.{is_table_l3v6}
use sonic_utility.AclLoader.Rules.{convert_rule_to_db_schema}
use sonic_utility.AclLoader.Rules.{absorb}
use sonic_utility.AclLoader.Rules.{convert_entries}
use sonic_utility.Base.Text.{replace}
use sonic_utility.Base.Split.{upper}
use sonic_utility.AclLoader.Rules.{table_of_set}
use sonic_utility.AclLoader.Rules.{takes}
use sonic_utility.Base.{◌≡◌, refl, ℕ, String, true, List, [], ◌∷◌, none, All, arith, eq_iff}
use sonic_utility.Base.Dict.{Dict, lookup}
use sonic_utility.Base.Result.{Result, ok}
use sonic_utility.Base.Fault.{Fault}
use sonic_utility.Base.Int.{pos}
use sonic_utility.AclLoader.Values.{number, text}
use sonic_utility.AclLoader.Tables.{Rule, Settings, Props}
use sonic_utility.AclLoader.Rules.{AclSet, convert_rules}
use sonic_utility.AclLoader.Rules.Returns.{convert_rules-IsBounded}
use sonic_utility.AclLoader.Rules.Clean.{has_type, well_formed}
use sonic_utility.AclLoader.Rules.Taken.{IsTaken}

-- Every address is one of version 4.
abbrev version_4 : String → Result Fault ℕ
version_4 address = ok 4

abbrev settings : Settings
settings = record {
  tables_db_info = ("DATA_ACL", ("type", "L3") ∷ []) ∷ [];
  sessions = [];
  requested_session = none;
  mirror_stage = none;
  max_priority = pos 10000;
  acl_capability = λ stage. ("action_list", "PACKET_ACTION,REDIRECT_ACTION") ∷ [];
  switch_capability = ("ACL_ACTION|PACKET_ACTION", "DROP,FORWARD") ∷ [];
}

abbrev rule_1 : Rule
rule_1 = record {
  sequence_id = 1;
  forwarding_action = "ACCEPT";
  ethertype = text "ETHERTYPE_IPV4";
  vlan_id = number (pos 10);
  protocol = text "IP_TCP";
  source_ip_address = "10.0.0.0/8";
  destination_ip_address = "";
  dscp = number (pos 0);
  icmp_type = text "";
  icmp_code = text "";
  source_port = text "";
  destination_port = text "80..90";
  tcp_flags = "TCP_SYN" ∷ "TCP_ACK" ∷ "TCP_SYN" ∷ [];
  interface = "Ethernet0";
}

-- A VLAN out of bounds: the rule is skipped.
abbrev rule_2 : Rule
rule_2 = record rule_1 { sequence_id = 2; vlan_id = number (pos 4096) }

abbrev file : List AclSet
file =
    record { name = "data-acl"; entries = rule_1 ∷ rule_2 ∷ [] }
    ∷ record { name = "other"; entries = rule_1 ∷ [] }
    ∷ []

abbrev made : Dict Props
made =
    (
      "DATA_ACL|RULE_1",
      ("PRIORITY", text "9999")
          ∷ ("ETHER_TYPE", number (pos 2048))
          ∷ ("PACKET_ACTION", text "FORWARD")
          ∷ ("VLAN_ID", number (pos 10))
          ∷ ("IP_PROTOCOL", number (pos 6))
          ∷ ("SRC_IP", text "10.0.0.0/8")
          ∷ ("L4_DST_PORT_RANGE", text "80-90")
          ∷ ("TCP_FLAGS", text "0x12/0x12")
          ∷ ("IN_PORTS", text "Ethernet0")
          ∷ [],
    )
    ∷ (
      "DATA_ACL|DEFAULT_RULE",
      ("PRIORITY", text "1") ∷ ("PACKET_ACTION", text "DROP") ∷ ("ETHER_TYPE", text "2048") ∷ [],
    )
    ∷ []

converted : convert_rules version_4 settings none file [] ≡ ok made
unfolding convert_rules takes lookup table_of_set upper replace convert_entries absorb
    convert_rule_to_db_schema is_table_l3v6 is_table_l3 convert_action is_table_control_plane
    is_table_mirror starts_with validate_actions elem convert_address convert_byte convert_ethertype
    convert_icmp convert_input_interface convert_ip convert_l2 convert_port convert_port_field
    convert_protocol convert_transport convert_vlan flag_mask or_bit or_flags validate_rule_fields
    accept_props add_default convert_fields deep_update deny_rule get_session_name mirror_props
    texts is_table_egress is_table_ipv6 table_type hex is_number is_text is_true minus show_int
    show_value to_int insert merge contains replace_text split strip show_nat
converted = refl

-- The one table that there is has a type.
typed :
    (t : String)
    → takes version_4 settings none t ≡ true
    → has_type settings.tables_db_info t ≡ true
unfolding takes lookup
typed t h = ground (arith, eq_iff "DATA_ACL" t)

convert_rules-IsBounded_example :
    (out : Dict Props) × (convert_rules version_4 settings none file [] ≡ ok out)
    × All (IsTaken version_4 settings none) out
unfolding well_formed
convert_rules-IsBounded_example =
    convert_rules-IsBounded version_4 settings none file []
      ((λ h. typed _ h), ((λ h. typed _ h), tt)) ((refl, (refl, tt)), ((refl, tt), tt)) tt
