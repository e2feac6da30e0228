-- ===== src/AclLoader/Rules/Clean.antt =====
-- acl_loader/main.py: the conversions that raise no exception but the loader's own, which skips a rule.
use sonic_utility.Base.{
  ◌≡◌, refl, ℕ, String, Bool, true, false, not, ◌&&◌, ◌||◌, [], Option, none, some, ◌==◌, get_or,
  is_some, nat_eq, leb, ltb, arith, Bool-cases, Option-cases, inl, inr,
}
use sonic_utility.Base.Dict.{Dict, lookup}
use sonic_utility.Base.Split.{upper}
use sonic_utility.Base.Text.{is_empty}
use sonic_utility.Base.Int.{pos, negsuc}
use sonic_utility.Base.Result.{Result, ok, err, ◌>>=◌, guard}
use sonic_utility.Base.Fault.{Fault, at_key}
use sonic_utility.DbMigrator.Databases.{Entry}
use sonic_utility.AclLoader.Values.{
  Value, number, text, Failure, acl_loader_exception, fault, raised, is_text, is_true, to_int,
}
use sonic_utility.AclLoader.Tables.{
  Rule, ethertype_map, ip_protocol_map, table_type, is_table_mirror, is_table_l3v6, is_table_l3,
  is_table_ipv6, is_table_egress,
}
use sonic_utility.AclLoader.Convert.{
  convert_vlan, convert_byte, convert_ethertype, convert_protocol, convert_address, or_exception,
  at_value, asks_table,
}
use sonic_utility.AclLoader.Update.{is_table_control_plane}
use sonic_utility.AclLoader.Actions.{}

-- It returns, or raises the loader's own exception.
abbrev pub is_clean : {A : Type 0} → Result Failure A → Bool
is_clean (ok a) = true
is_clean (err acl_loader_exception) = true
is_clean (err (fault f)) = false

pub bind_clean :
    {A B : Type 0} (r : Result Failure A) (next : A → Result Failure B)
    → is_clean r ≡ true
    → ((a : A) → is_clean (next a) ≡ true)
    → is_clean (r >>= next) ≡ true
bind_clean (ok a) next h g = g a
bind_clean (err acl_loader_exception) next h g = refl
bind_clean (err (fault f)) next h g = ground arith

pub guard_clean : (b : Bool) → is_clean (guard b acl_loader_exception) ≡ true
guard_clean true = refl
guard_clean false = refl

abbrev numeric : Value → Bool
numeric (number i) = true
numeric (text s) = s == "" || s == "null"

abbrev returns : Result Fault ℕ → Bool
returns (ok n) = true
returns (err f) = false

-- The VLAN and the fields of ICMP are numbers where they are given, and the addresses are networks.
unfoldable pub well_formed : (String → Result Fault ℕ) → Rule → Bool
well_formed ip_network_version rule =
    numeric rule.vlan_id
    && numeric rule.icmp_type
    && numeric rule.icmp_code
    && (is_empty rule.source_ip_address || returns (ip_network_version rule.source_ip_address))
    && (is_empty rule.destination_ip_address
        || returns (ip_network_version rule.destination_ip_address))

-- The table is in the database with its type.
abbrev pub has_type : Dict Entry → String → Bool
has_type tables t = is_some (lookup "type" (get_or (lookup t tables) []))

pub clean_vlan : (v : Value) → numeric v ≡ true → is_clean (convert_vlan v) ≡ true
unfolding convert_vlan is_text
clean_vlan (number (pos n)) h =
    let within = not (nat_eq n 0 || leb 4096 n) in
    bind_clean (guard within acl_loader_exception) _ (guard_clean within) (λ a. refl)
clean_vlan (number (negsuc n)) h = refl
clean_vlan (text s) h = ground arith

pub clean_byte :
    (key : String) (v : Value) → numeric v ≡ true → is_clean (convert_byte key v) ≡ true
unfolding convert_byte is_text
clean_byte key (number (pos n)) h =
    bind_clean (guard (not (ltb 255 n)) acl_loader_exception) _ (guard_clean (not (ltb 255 n)))
      (λ a. refl)
clean_byte key (number (negsuc n)) h = refl
clean_byte key (text s) h = ground arith

or_exception_clean : {A : Type 0} (o : Option A) → is_clean (or_exception o) ≡ true
or_exception_clean none = refl
or_exception_clean (some a) = refl

pub clean_ethertype : (v : Value) → is_clean (convert_ethertype v) ≡ true
unfolding convert_ethertype
clean_ethertype v = elim (Bool-cases (is_true v)) [
  | inr h ↦ rw (h) refl
  | inl h ↦ elim (Option-cases (at_value v ethertype_map)) [
    | inr (n, f) ↦ rw (h) rw (f) refl
    | inl f ↦ rw (h) (
        rw (f) (bind_clean (or_exception (to_int v)) _ (or_exception_clean (to_int v)) (λ i. refl)))
  ]
]

-- Where a table has its type, each test of it has an answer.
module _ (tables : Dict Entry) (t : String) (h : has_type tables t ≡ true) where
  entry_there : (e : Entry) × (lookup t tables ≡ some e)
  unfolding lookup
  entry_there = elim (Option-cases (lookup t tables)) [
    | inl n ↦ let none_there : has_type tables t ≡ false = rw (n) refl in ground arith
    | inr found ↦ found
  ]

  type_there :
      (ty : String) × (table_type tables t ≡ ok ty)
      × (is_table_control_plane tables t ≡ ok (ty == "CTRLPLANE"))
  unfolding table_type is_table_control_plane
  type_there =
      let (e, n) = entry_there in
      elim (Option-cases (lookup "type" e)) [
        | inl m ↦ let none_there : has_type tables t ≡ false = rw (n) rw (m) refl in ground arith
        | inr (ty, m) ↦ (upper ty, rw (n) (rw (m) refl), rw (n) (rw (m) refl))
      ]

  pub clean_key : is_clean (raised (at_key t tables)) ≡ true
  clean_key = let (e, n) = entry_there in rw (n) refl

  pub clean_control : is_clean (raised (is_table_control_plane tables t)) ≡ true
  clean_control = let (ty, e, c) = type_there in rw (c) refl

  pub clean_mirror : is_clean (raised (is_table_mirror tables t)) ≡ true
  unfolding is_table_mirror
  clean_mirror = let (ty, e, c) = type_there in rw (e) refl

  pub clean_l3v6 : is_clean (raised (is_table_l3v6 tables t)) ≡ true
  unfolding is_table_l3v6
  clean_l3v6 = let (ty, e, c) = type_there in rw (e) refl

  pub clean_l3 : is_clean (raised (is_table_l3 tables t)) ≡ true
  unfolding is_table_l3
  clean_l3 = let (ty, e, c) = type_there in rw (e) refl

  pub clean_ipv6 : is_clean (raised (is_table_ipv6 tables t)) ≡ true
  unfolding is_table_ipv6
  clean_ipv6 = let (ty, e, c) = type_there in rw (e) refl

  pub clean_egress : is_clean (raised (is_table_egress tables t)) ≡ true
  unfolding is_table_egress
  clean_egress = let (e, n) = entry_there in rw (n) refl

  clean_asks : (v : Value) → is_clean (asks_table tables t v) ≡ true
  clean_asks v = elim (Bool-cases (is_text "IP_ICMP" v)) [
    | inl y ↦ rw (y) clean_ipv6
    | inr n ↦ rw (n) refl
  ]

  pub clean_protocol : (v : Value) → is_clean (convert_protocol tables t v) ≡ true
  unfolding convert_protocol
  clean_protocol v = elim (Bool-cases (is_true v)) [
    | inr n ↦ rw (n) refl
    | inl y ↦ elim (Option-cases (at_value v ip_protocol_map)) [
      | inr (n, f) ↦
          rw (y) (rw (f) (bind_clean (asks_table tables t v) _ (clean_asks v) (λ b. refl)))
      | inl f ↦ rw (y) (
          rw (f)
            (bind_clean (or_exception (to_int v)) _ (or_exception_clean (to_int v)) (λ i. refl)))
    ]
  ]

clean_version : (r : Result Fault ℕ) → returns r ≡ true → is_clean (raised r) ≡ true
clean_version (ok n) h = refl
clean_version (err f) h = ground arith

pub clean_address :
    (ip_network_version : String → Result Fault ℕ) (k j address : String)
    → is_empty address || returns (ip_network_version address) ≡ true
    → is_clean (convert_address ip_network_version k j address) ≡ true
unfolding convert_address
clean_address ip_network_version k j address h = elim (Bool-cases (is_empty address)) [
  | inl y ↦ rw (y) refl
  | inr n ↦ rw (n) (
      bind_clean (raised (ip_network_version address)) _
        (clean_version (ip_network_version address) (ground arith)) (λ v. refl))
]
