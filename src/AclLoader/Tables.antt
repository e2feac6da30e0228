-- ===== src/AclLoader/Tables.antt =====
-- acl_loader/main.py: what the conversion of rules reads, and its tests of tables.
use sonic_utility.Base.{ℕ, String, Bool, List, [], ◌∷◌, Option, ◌==◌, get_or}
use sonic_utility.Base.Dict.{Dict, lookup}
use sonic_utility.Base.Split.{elem, upper, starts_with}
use sonic_utility.Base.Int.{ℤ}
use sonic_utility.Base.Result.{Result, ok, ◌>>=◌}
use sonic_utility.Base.Fault.{Fault, at_key}
use sonic_utility.DbMigrator.Databases.{Entry}
use sonic_utility.AclLoader.Values.{Value}

-- What openconfig_acl holds of an entry, `rule.l2.config.vlan_id` as vlan_id.
pub record Rule : Type 0 where
  pub sequence_id : ℕ
  pub forwarding_action : String
  pub ethertype : Value
  pub vlan_id : Value
  pub protocol : Value
  pub source_ip_address : String
  pub destination_ip_address : String
  pub dscp : Value
  pub icmp_type : Value
  pub icmp_code : Value
  pub source_port : Value
  pub destination_port : Value
  pub tcp_flags : List String
  pub interface : String

-- What the loader has read of the databases, and the options of the command. The answer of STATE_DB for
-- a stage and for the switch are those of the first ASIC, where there is one.
pub record Settings : Type 0 where
  pub tables_db_info : Dict Entry
  pub sessions : List String
  pub requested_session : Option String
  pub mirror_stage : Option String
  pub max_priority : ℤ
  pub acl_capability : String → Entry
  pub switch_capability : Entry

abbrev pub Props : Type 0
Props = Dict Value

abbrev pub ethertype_map : Dict ℕ
ethertype_map =
    ("ETHERTYPE_LLDP", 35020)
    ∷ ("ETHERTYPE_VLAN", 33024)
    ∷ ("ETHERTYPE_ROCE", 35093)
    ∷ ("ETHERTYPE_ARP", 2054)
    ∷ ("ETHERTYPE_IPV4", 2048)
    ∷ ("ETHERTYPE_IPV6", 34525)
    ∷ ("ETHERTYPE_MPLS", 34887)
    ∷ []

abbrev pub ip_protocol_map : Dict ℕ
ip_protocol_map =
    ("IP_TCP", 6)
    ∷ ("IP_ICMP", 1)
    ∷ ("IP_UDP", 17)
    ∷ ("IP_IGMP", 2)
    ∷ ("IP_PIM", 103)
    ∷ ("IP_RSVP", 46)
    ∷ ("IP_GRE", 47)
    ∷ ("IP_AUTH", 51)
    ∷ ("IP_ICMPV6", 58)
    ∷ ("IP_L2TP", 115)
    ∷ []

unfoldable pub table_type : Dict Entry → String → Result Fault String
table_type tables_db_info tname = do
  table ← at_key tname tables_db_info
  type ← at_key "type" table
  ok (upper type)

unfoldable pub is_table_mirror : Dict Entry → String → Result Fault Bool
unfolding table_type
is_table_mirror tables tname = do t ← table_type tables tname; ok (starts_with "MIRROR" t)

unfoldable pub is_table_l3v6 : Dict Entry → String → Result Fault Bool
unfolding table_type
is_table_l3v6 tables tname = do t ← table_type tables tname; ok (t == "L3V6")

unfoldable pub is_table_l3 : Dict Entry → String → Result Fault Bool
unfolding table_type
is_table_l3 tables tname = do t ← table_type tables tname; ok (t == "L3")

unfoldable pub is_table_ipv6 : Dict Entry → String → Result Fault Bool
unfolding table_type
is_table_ipv6 tables tname = do t ← table_type tables tname; ok (elem t ("L3V6" ∷ "MIRRORV6" ∷ []))

unfoldable pub is_table_egress : Dict Entry → String → Result Fault Bool
is_table_egress tables tname = do
  table ← at_key tname tables
  ok (upper (get_or (lookup "stage" table) "INGRESS") == "EGRESS")
