-- ===== src/AclLoader/Convert/Bounds.antt =====
-- acl_loader/main.py: the bounds of the converted fields.
use sonic_utility.Base.{
  ◌≡◌, refl, subst, ℕ, String, Bool, true, false, not, ◌&&◌, ◌||◌, [], ◌∷◌, ◌==◌, if◌then◌else◌,
  ltb, leb, nat_eq, All, arith, Bool-cases, Option-cases, inl, inr,
}
use sonic_utility.Base.Dict.{Dict, merge, All-merge}
use sonic_utility.Base.Split.{elem}
use sonic_utility.Base.Text.{is_empty}
use sonic_utility.Base.Int.{pos, negsuc}
use sonic_utility.Base.Result.{Result, ok, >>=-eq-ok, ok-injective}
use sonic_utility.Base.Fault.{Fault}
use sonic_utility.DbMigrator.Databases.{Entry}
use sonic_utility.AclLoader.Values.{Value, number, text, raised, is_text, is_true, to_int}
use sonic_utility.AclLoader.Tables.{
  Rule, Props, ethertype_map, ip_protocol_map, is_table_mirror, is_table_ipv6,
}
use sonic_utility.AclLoader.Convert.{
  at_value, or_exception, asks_table, convert_vlan, convert_ethertype, convert_l2, convert_byte,
  convert_icmp, convert_protocol, convert_address, convert_ip,
}

-- A number from `low` to `high`.
abbrev in_range : ℕ → ℕ → Value → Bool
in_range low high (number (pos n)) = leb low n && leb n high
in_range low high (number (negsuc n)) = false
in_range low high (text s) = false

-- VLANs are from 1 to 4095, types and codes of ICMP from 0 to 255.
unfoldable pub is_bounded : String → Value → Bool
is_bounded key v =
    if key == "VLAN_ID"
    then in_range 1 4095 v
    else if elem key ("ICMP_TYPE" ∷ "ICMP_CODE" ∷ "ICMPV6_TYPE" ∷ "ICMPV6_CODE" ∷ [])
    then in_range 0 255 v
    else true

abbrev pub BoundedEntry : String × Value → Type 0
BoundedEntry e = is_bounded e.0 e.1 ≡ true

abbrev pub IsBounded : Props → Type 0
IsBounded props = All BoundedEntry props

pub IsBounded-merge : (d e : Props) → IsBounded d → IsBounded e → IsBounded (merge d e)
IsBounded-merge d e a b = All-merge BoundedEntry d e a b

vlan-IsBounded : (v : Value) {props : Props} → convert_vlan v ≡ ok props → IsBounded props
unfolding convert_vlan is_text is_bounded elem
vlan-IsBounded (number (pos n)) e = elim (Bool-cases (nat_eq n 0 || leb 4096 n)) [
  | inl h ↦ ground arith
  | inr h ↦ subst IsBounded (ok-injective (rw (h) at (e))) (ground arith, tt)
]
vlan-IsBounded (number (negsuc n)) e = ground arith
vlan-IsBounded (text s) e = elim (Bool-cases (not (s == "") && not (s == "null"))) [
  | inl h ↦ ground arith
  | inr h ↦ subst IsBounded (ok-injective (rw (h) at (e))) tt
]

-- A field of one of the keys of ICMP.
byte-IsBounded :
    (key : String) (v : Value) {props : Props}
    → elem key ("ICMP_TYPE" ∷ "ICMP_CODE" ∷ "ICMPV6_TYPE" ∷ "ICMPV6_CODE" ∷ []) ≡ true
    → (key == "VLAN_ID") ≡ false
    → convert_byte key v ≡ ok props
    → IsBounded props
unfolding convert_byte is_text is_bounded
byte-IsBounded key (number (pos n)) i m e = elim (Bool-cases (ltb 255 n)) [
  | inl h ↦ ground arith
  | inr h ↦ subst IsBounded (ok-injective (rw (h) at (e))) (ground arith, tt)
]
byte-IsBounded key (number (negsuc n)) i m e = ground arith
byte-IsBounded key (text s) i m e = elim (Bool-cases (not (s == "") && not (s == "null"))) [
  | inl h ↦ ground arith
  | inr h ↦ subst IsBounded (ok-injective (rw (h) at (e))) tt
]

ethertype-IsBounded : (v : Value) {props : Props} → convert_ethertype v ≡ ok props → IsBounded props
unfolding convert_ethertype is_bounded elem
ethertype-IsBounded v e = elim (Bool-cases (is_true v)) [
  | inr h ↦ subst IsBounded (ok-injective (rw (h) at (e))) tt
  | inl h ↦ elim (Option-cases (at_value v ethertype_map)) [
    | inr (n, f) ↦ subst IsBounded (ok-injective (rw (f) at (rw (h) at (e)))) (refl, tt)
    | inl f ↦
        let (i, t, e_1) = >>=-eq-ok (or_exception (to_int v)) _ (rw (f) at (rw (h) at (e))) in
        subst IsBounded (ok-injective e_1) (refl, tt)
  ]
]

pub convert_l2-IsBounded :
    (rule : Rule) {props : Props} → convert_l2 rule ≡ ok props → IsBounded props
unfolding convert_l2
convert_l2-IsBounded rule e =
    let (ethertype, t_1, e_1) = >>=-eq-ok (convert_ethertype rule.ethertype) _ e in
    let (vlan, t_2, e_2) = >>=-eq-ok (convert_vlan rule.vlan_id) _ e_1 in
    subst IsBounded (ok-injective e_2) (
      IsBounded-merge ethertype vlan (ethertype-IsBounded rule.ethertype t_1)
        (vlan-IsBounded rule.vlan_id t_2))

icmp_fields :
    (v6 : Bool) (rule : Rule) {types codes : Props}
    → convert_byte (if v6 then "ICMPV6_TYPE" else "ICMP_TYPE") rule.icmp_type ≡ ok types
    → convert_byte (if v6 then "ICMPV6_CODE" else "ICMP_CODE") rule.icmp_code ≡ ok codes
    → IsBounded (merge types codes)
unfolding elem
icmp_fields true rule {types = types} {codes = codes} t c =
    IsBounded-merge types codes (byte-IsBounded "ICMPV6_TYPE" rule.icmp_type refl refl t)
      (byte-IsBounded "ICMPV6_CODE" rule.icmp_code refl refl c)
icmp_fields false rule {types = types} {codes = codes} t c =
    IsBounded-merge types codes (byte-IsBounded "ICMP_TYPE" rule.icmp_type refl refl t)
      (byte-IsBounded "ICMP_CODE" rule.icmp_code refl refl c)

pub convert_icmp-IsBounded :
    (tables : Dict Entry) (table_name : String) (rule : Rule) {props : Props}
    → convert_icmp tables table_name rule ≡ ok props
    → IsBounded props
unfolding convert_icmp
convert_icmp-IsBounded tables table_name rule e =
    let (v6, t_1, e_1) = >>=-eq-ok (raised (is_table_ipv6 tables table_name)) _ e in
    let (types, t_2, e_2) =
      >>=-eq-ok (convert_byte (if v6 then "ICMPV6_TYPE" else "ICMP_TYPE") rule.icmp_type) _ e_1 in
    let (codes, t_3, e_3) =
      >>=-eq-ok (convert_byte (if v6 then "ICMPV6_CODE" else "ICMP_CODE") rule.icmp_code) _ e_2 in
    subst IsBounded (ok-injective e_3) (icmp_fields v6 rule t_2 t_3)

protocol-IsBounded :
    (tables : Dict Entry) (table_name : String) (v : Value) {props : Props}
    → convert_protocol tables table_name v ≡ ok props
    → IsBounded props
unfolding convert_protocol is_bounded elem
protocol-IsBounded tables table_name v e = elim (Bool-cases (is_true v)) [
  | inr h ↦ subst IsBounded (ok-injective (rw (h) at (e))) tt
  | inl h ↦ elim (Option-cases (at_value v ip_protocol_map)) [
    | inr (n, f) ↦
        let (six, t, e_1) =
          >>=-eq-ok (asks_table tables table_name v) _ (rw (f) at (rw (h) at (e))) in
        subst IsBounded (ok-injective e_1) (refl, tt)
    | inl f ↦
        let (i, t, e_1) = >>=-eq-ok (or_exception (to_int v)) _ (rw (f) at (rw (h) at (e))) in
        subst IsBounded (ok-injective e_1) (refl, tt)
  ]
]

with_dscp :
    (d : Props) (b : Bool) (v : Value)
    → IsBounded d
    → IsBounded (merge d (if b then ("DSCP", v) ∷ [] else []))
unfolding is_bounded elem
with_dscp d true v h = IsBounded-merge d (("DSCP", v) ∷ []) h (refl, tt)
with_dscp d false v h = IsBounded-merge d [] h tt

pub either :
    (b : Bool) (k j : String) (v : Value)
    → BoundedEntry (k, v)
    → BoundedEntry (j, v)
    → BoundedEntry (if b then k else j, v)
either true k j v h g = h
either false k j v h g = g

module _ (ip_network_version : String → Result Fault ℕ) where
  address-IsBounded :
      (k j address : String) {props : Props}
      → ((v : Value) → BoundedEntry (k, v))
      → ((v : Value) → BoundedEntry (j, v))
      → convert_address ip_network_version k j address ≡ ok props
      → IsBounded props
  unfolding convert_address
  address-IsBounded k j address h g e = elim (Bool-cases (is_empty address)) [
    | inl n ↦ subst IsBounded (ok-injective (rw (n) at (e))) tt
    | inr n ↦
        let (version, t, e_1) = >>=-eq-ok (raised (ip_network_version address)) _ (rw (n) at (e)) in
        subst IsBounded (ok-injective e_1)
          (either (nat_eq version 4) k j (text address) (h (text address)) (g (text address)), tt)
  ]

  pub convert_ip-IsBounded :
      (tables : Dict Entry) (table_name : String) (rule : Rule) {props : Props}
      → convert_ip ip_network_version tables table_name rule ≡ ok props
      → IsBounded props
  unfolding convert_ip is_bounded elem
  convert_ip-IsBounded tables table_name rule e =
      let (p, t_1, e_1) = >>=-eq-ok (convert_protocol tables table_name rule.protocol) _ e in
      let (s, t_2, e_2) =
        >>=-eq-ok (convert_address ip_network_version "SRC_IP" "SRC_IPV6" rule.source_ip_address) _
          e_1 in
      let (d, t_3, e_3) =
        >>=-eq-ok
          (convert_address ip_network_version "DST_IP" "DST_IPV6" rule.destination_ip_address) _
          e_2 in
      let (m, t_4, e_4) = >>=-eq-ok (raised (is_table_mirror tables table_name)) _ e_3 in
      let ps = IsBounded-merge p s (protocol-IsBounded tables table_name rule.protocol t_1) (
        address-IsBounded "SRC_IP" "SRC_IPV6" rule.source_ip_address (λ v. refl) (λ v. refl) t_2) in
      let psd = IsBounded-merge (merge p s) d ps (
        address-IsBounded "DST_IP" "DST_IPV6" rule.destination_ip_address (λ v. refl) (λ v. refl)
          t_3) in
      subst IsBounded (ok-injective e_4)
        (with_dscp (merge (merge p s) d) (m && is_true rule.dscp) rule.dscp psd)
