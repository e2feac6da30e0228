-- ===== src/AclLoader/Convert.antt =====
-- acl_loader/main.py: the conversion of one rule from the openconfig format, field by field.
use Prim.Native.String.{◌++◌ as str_append}
use sonic_utility.Base.{
  ℕ, zero, suc, ◌+◌, ◌/◌, ◌%◌, String, Bool, true, false, not, ◌&&◌, ◌||◌, List, [], ◌∷◌, Option,
  none, some, ◌==◌, if◌then◌else◌, nat_eq, ltb, leb,
}
use sonic_utility.Base.Dict.{Dict, lookup, has_key, merge}
use sonic_utility.Base.Split.{contains, replace_text}
use sonic_utility.Base.Text.{is_empty, show_nat}
use sonic_utility.Base.Int.{ℤ, pos, negsuc}
use sonic_utility.Base.Result.{Result, ok, err, ◌>>=◌, ◌>>◌, guard}
use sonic_utility.Base.Fault.{Fault, type_error}
use sonic_utility.DbMigrator.Databases.{Entry}
use sonic_utility.AclLoader.Values.{
  Value, number, text, Failure, acl_loader_exception, fault, raised, is_true, is_text, is_number,
  show_value, to_int, hex,
}
use sonic_utility.AclLoader.Tables.{
  Rule, Props, ethertype_map, ip_protocol_map, is_table_mirror, is_table_ipv6,
}
pub mod Bounds

-- d.get(value), for a dictionary with texts as keys
abbrev pub at_value : Value → Dict ℕ → Option ℕ
at_value (number i) d = none
at_value (text s) d = lookup s d

-- A field that openconfig leaves out is "" or "null".
abbrev is_given : Value → Bool
is_given v = not (is_text "" v) && not (is_text "null" v)

-- vlan_id <= 0 or vlan_id >= 4096, which raises for a text
abbrev vlan_out_of_bounds : Value → Result Failure Bool
vlan_out_of_bounds (number (pos n)) = ok (nat_eq n 0 || leb 4096 n)
vlan_out_of_bounds (number (negsuc n)) = ok true
vlan_out_of_bounds (text s) = err (fault type_error)

-- n < 0 or n > 255
abbrev byte_out_of_bounds : Value → Result Failure Bool
byte_out_of_bounds (number (pos n)) = ok (ltb 255 n)
byte_out_of_bounds (number (negsuc n)) = ok true
byte_out_of_bounds (text s) = err (fault type_error)

unfoldable pub convert_vlan : Value → Result Failure Props
convert_vlan v =
    if is_given v
    then (do
      out ← vlan_out_of_bounds v
      guard (not out) acl_loader_exception
      ok (("VLAN_ID", v) ∷ []))
    else ok []

abbrev pub or_exception : {A : Type 0} → Option A → Result Failure A
or_exception none = err acl_loader_exception
or_exception (some a) = ok a

abbrev known_ethertype : Value → Option ℕ → Result Failure Props
known_ethertype v (some n) = ok (("ETHER_TYPE", number (pos n)) ∷ [])
known_ethertype v none = do i ← or_exception (to_int v); ok (("ETHER_TYPE", number i) ∷ [])

unfoldable pub convert_ethertype : Value → Result Failure Props
convert_ethertype v = if is_true v then known_ethertype v (at_value v ethertype_map) else ok []

unfoldable pub convert_l2 : Rule → Result Failure Props
unfolding convert_ethertype convert_vlan
convert_l2 rule = do
  ethertype ← convert_ethertype rule.ethertype
  vlan ← convert_vlan rule.vlan_id
  ok (merge ethertype vlan)

unfoldable pub convert_byte : String → Value → Result Failure Props
convert_byte key v =
    if is_given v
    then (do out ← byte_out_of_bounds v; guard (not out) acl_loader_exception; ok ((key, v) ∷ []))
    else ok []

unfoldable pub convert_icmp : Dict Entry → String → Rule → Result Failure Props
unfolding convert_byte
convert_icmp tables table_name rule = do
  is_table_v6 ← raised (is_table_ipv6 tables table_name)
  types ← convert_byte (if is_table_v6 then "ICMPV6_TYPE" else "ICMP_TYPE") rule.icmp_type
  codes ← convert_byte (if is_table_v6 then "ICMPV6_CODE" else "ICMP_CODE") rule.icmp_code
  ok (merge types codes)

abbrev ipv6_protocol : Bool → Value → ℕ → ℕ
ipv6_protocol ipv6 v n = if is_text "IP_ICMP" v && ipv6 then 58 else n

-- is_table_ipv6 is asked for IP_ICMP only.
abbrev pub asks_table : Dict Entry → String → Value → Result Failure Bool
asks_table tables table_name v =
    let answer = raised (is_table_ipv6 tables table_name) in
    if is_text "IP_ICMP" v then answer else ok false

abbrev known_protocol : Dict Entry → String → Value → Option ℕ → Result Failure Props
known_protocol tables table_name v (some n) = do
  ipv6 ← asks_table tables table_name v
  ok (("IP_PROTOCOL", number (pos (ipv6_protocol ipv6 v n))) ∷ [])
known_protocol tables table_name v none = do
  i ← or_exception (to_int v)
  ok (("IP_PROTOCOL", v) ∷ [])

unfoldable pub convert_protocol : Dict Entry → String → Value → Result Failure Props
convert_protocol tables table_name v =
    let known = known_protocol tables table_name v (at_value v ip_protocol_map) in
    if is_true v then known else ok []

module _ (ip_network_version : String → Result Fault ℕ) where
  -- Python's ipaddress.ip_network(address).version, value_error where the text is no network
  unfoldable pub convert_address : String → String → String → Result Failure Props
  convert_address key_v4 key_v6 address = if is_empty address then ok [] else (do
    version ← raised (ip_network_version address)
    ok ((if nat_eq version 4 then key_v4 else key_v6, text address) ∷ []))

  unfoldable pub convert_ip : Dict Entry → String → Rule → Result Failure Props
  unfolding convert_protocol convert_address
  convert_ip tables table_name rule = do
    protocol ← convert_protocol tables table_name rule.protocol
    source ← convert_address "SRC_IP" "SRC_IPV6" rule.source_ip_address
    destination ← convert_address "DST_IP" "DST_IPV6" rule.destination_ip_address
    mirror ← raised (is_table_mirror tables table_name)
    let dscp = if mirror && is_true rule.dscp then ("DSCP", rule.dscp) ∷ [] else []
    ok (merge (merge (merge protocol source) destination) dscp)

-- The text, and whether it is a range: "1..9" is stored as "1-9".
unfoldable pub convert_port : String → String × Bool
convert_port port = if contains ".." port then (replace_text ".." "-" port, true) else (port, false)

unfoldable pub convert_port_field : String → String → Value → Props
unfolding convert_port
convert_port_field key range_key v =
    let (port, is_range) = convert_port (show_value v) in
    if is_true v then (if is_range then range_key else key, text port) ∷ [] else []

-- The bit of a flag, 0 for another text.
unfoldable pub flag_mask : String → ℕ
flag_mask flag =
    if flag == "TCP_FIN"
    then 1
    else if flag == "TCP_SYN"
    then 2
    else if flag == "TCP_RST"
    then 4
    else if flag == "TCP_PSH"
    then 8
    else if flag == "TCP_ACK"
    then 16
    else if flag == "TCP_URG"
    then 32
    else if flag == "TCP_ECE"
    then 64
    else if flag == "TCP_CWR"
    then 128
    else 0

-- flags | mask, for a mask of one bit: the bit is added where it is not set.
unfoldable pub or_bit : ℕ → ℕ → ℕ
or_bit flags zero = flags
or_bit flags (suc m) = if nat_eq ((flags / suc m) % 2) 1 then flags else flags + suc m

unfoldable pub or_flags : ℕ → List String → ℕ
or_flags flags [] = flags
or_flags flags (f ∷ fs) = or_flags (or_bit flags (flag_mask f)) fs

unfoldable pub convert_transport : Rule → Props
unfolding convert_port_field
convert_transport rule =
    let source = convert_port_field "L4_SRC_PORT" "L4_SRC_PORT_RANGE" rule.source_port in
    let destination = convert_port_field "L4_DST_PORT" "L4_DST_PORT_RANGE" rule.destination_port in
    let tcp_flags = or_flags 0 rule.tcp_flags in
    let shown = hex tcp_flags in
    let flags =
      if nat_eq tcp_flags 0
      then []
      else ("TCP_FLAGS", text (str_append shown (str_append "/" shown))) ∷ [] in
    merge (merge source destination) flags

unfoldable pub convert_input_interface : Rule → Props
convert_input_interface rule =
    if is_empty rule.interface then [] else ("IN_PORTS", text rule.interface) ∷ []

abbrev is_other : ℕ → Option Value → Bool
is_other n none = false
is_other n (some v) = is_true v && not (is_number n v)

-- The protocol is given and is another than the one that the fields are of.
unfoldable pub validate_rule_fields : Props → Result Failure (Unit {0})
validate_rule_fields rule_props =
    let protocol = lookup "IP_PROTOCOL" rule_props in
    guard (not (has_key "TCP_FLAGS" rule_props && is_other 6 protocol)) acl_loader_exception
    >> guard
        (not (
          (has_key "ICMP_TYPE" rule_props || has_key "ICMP_CODE" rule_props)
          && is_other 1 protocol))
        acl_loader_exception
    >> guard
        (not (
          (has_key "ICMPV6_TYPE" rule_props || has_key "ICMPV6_CODE" rule_props)
          && is_other 58 protocol))
        acl_loader_exception
