-- ===== src/RouteCheck/Filters.antt =====
-- scripts/route_check.py: the tests on routes and the filters of lists of routes.
pub mod Kept
pub mod Each
use sonic_utility.Base.{
  ℕ, String, Bool, true, false, not, ◌&&◌, ◌||◌, List, [], ◌∷◌, map, ◌++◌, Option, none, some, ◌==◌,
  if◌then◌else◌, get_or, is_some, is_nil, length, nat_eq,
}
use sonic_utility.Base.Dict.{Dict, lookup, has_key}
use sonic_utility.Base.Text.{has_char, is_empty}
use sonic_utility.Base.Split.{
  split, split_once, join, nth, after_prefix, starts_with, lower, elem, contains, strip,
}
use sonic_utility.Base.Result.{Result, ok, err, ◌>>=◌}
use sonic_utility.Base.Fault.{Fault, value_error, key_error, at_key, at_index, collect, keep_if}
use Prim.Native.String.{◌++◌ as str_append}

-- What an object of Python's `ipaddress` answers.
pub record Address : Type 0 where
  pub is_link_local : Bool
  pub is_unspecified : Bool
  pub version : ℕ

-- The tables that the script reads: of APPL_DB, of ASIC_DB, of CONFIG_DB and of the platform.
pub record Tables : Type 0 where
  pub route_table : Dict (Dict String)
  pub intf_table : List String
  pub vnet_route_table : List String
  pub vnet_route_tunnel_table : List String
  pub neigh_table : Dict (Dict String)
  pub asic_keys : List String
  pub device_metadata : Dict (Dict String)
  pub mux_cable : Dict (Dict String)
  pub chassisdb_conf : List String

-- The tests take Python's `ipaddress.ip_address`: `value_error` where the text is no address.
module _ (ip_address : String → Result Fault Address) where
  unfoldable pub is_local : String → Result Fault Bool
  is_local ip = do head ← at_index 0 (split "/" ip); t ← ip_address head; ok t.is_link_local

  unfoldable pub is_default_route : String → Result Fault Bool
  is_default_route ip = do
    head ← at_index 0 (split "/" ip)
    t ← ip_address head
    if t.is_unspecified then (at_index 1 (split "/" ip) >>= λ mask. ok (mask == "0")) else ok false

unfoldable pub add_prefix : String → String
add_prefix ip = if has_char ":" ip then str_append ip "/128" else str_append ip "/32"

unfoldable pub add_prefix_ifnot : String → String
add_prefix_ifnot ip = if has_char "/" ip then ip else add_prefix ip

unfoldable pub is_vrf : String → Bool
is_vrf k = starts_with "Vrf" k

-- utilities_common/chassis.py; the lines of the file, none where there is no file
unfoldable pub get_chassis_local_interfaces : List String → Result Fault (List String)
get_chassis_local_interfaces [] = ok []
get_chassis_local_interfaces (line ∷ lines) =
    let rest = get_chassis_local_interfaces lines in
    if contains "chassis_internal_intfs" (strip line)
    then (at_index 1 (split "=" (strip line)) >>= λ data_1. ok (split "," data_1))
    else rest

-- A digit at the head, as r'\d+' asks for after the name.
abbrev starts_with_digit : Option String → Bool
starts_with_digit none = false
starts_with_digit (some s) =
    starts_with "0" s
    || starts_with "1" s
    || starts_with "2" s
    || starts_with "3" s
    || starts_with "4" s
    || starts_with "5" s
    || starts_with "6" s
    || starts_with "7" s
    || starts_with "8" s
    || starts_with "9" s

-- re.match(r'tun0', r'lo' or r'Loopback\d+', ifname)
unfoldable pub is_local_name : String → Bool
is_local_name ifname =
    starts_with "tun0" ifname
    || starts_with "lo" ifname
    || starts_with_digit (after_prefix "Loopback" ifname)

unfoldable pub is_inband_name : String → Bool
is_inband_name ifname = starts_with_digit (after_prefix "Ethernet-IB" ifname)

-- l[1:]
abbrev rest_of : List String → List String
rest_of [] = []
rest_of (x ∷ xs) = xs

abbrev with_soc_ip : Option String → List String → List String
with_soc_ip none soc_ips = soc_ips
with_soc_ip (some ip) soc_ips = ip ∷ soc_ips

-- hget(neigh, 'neigh'), and the address without the name of the VLAN before it
unfoldable pub standalone_tunnel_route_ips : Dict (Dict String) → List String
standalone_tunnel_route_ips [] = []
standalone_tunnel_route_ips ((neigh, fields) ∷ neighs) =
    let ips = standalone_tunnel_route_ips neighs in
    if get_or (lookup "neigh" fields) "" == "00:00:00:00:00:00"
    then join ":" (rest_of (split ":" neigh)) ∷ ips
    else ips

-- ip, subnet = route.split('/')
unfoldable pub ip_and_subnet : List String → Result Fault (String × String)
ip_and_subnet (ip ∷ subnet ∷ []) = ok (ip, subnet)
ip_and_subnet pieces = err value_error

unfoldable pub get_soc_ips : Dict (Dict String) → List String
get_soc_ips [] = []
get_soc_ips ((port, mux_entry) ∷ entries) =
    let soc_ips = get_soc_ips entries in
    if get_or (lookup "cable_type" mux_entry) "" == "active-active"
    then with_soc_ip (lookup "soc_ipv4" mux_entry) soc_ips
    else soc_ips

module _ (ip_address : String → Result Fault Address) (tables : Tables) where
  has_no_nexthop : Dict String → Result Fault Bool
  has_no_nexthop e =
      let nh = get_or (lookup "nexthop" e) "" in
      if is_empty nh then ok true else ip_address nh >>= λ t. ok t.is_unspecified

  unfoldable pub is_kept_interface : List String → String → Result Fault Bool
  unfolding has_no_nexthop
  is_kept_interface local_if_lst k =
      let e = get_or (lookup k tables.route_table) [] in
      let ifname = get_or (lookup "ifname" e) "" in
      if elem ifname local_if_lst
      then ok false
      else if is_local_name ifname
      then (has_no_nexthop e >>= λ dropped. ok (not dropped))
      else ok true

  unfoldable pub filter_out_local_interfaces : List String → Result Fault (List String)
  filter_out_local_interfaces keys = do
    chassis_local_intfs ← get_chassis_local_interfaces tables.chassisdb_conf
    keep_if (is_kept_interface ("eth0" ∷ "docker0" ∷ chassis_local_intfs)) keys

  is_no_nexthop : Dict String → String → Result Fault Bool
  is_no_nexthop e mask =
      if mask == "32"
      then (at_key "nexthop" e >>= λ nexthop. ok (nexthop == "0.0.0.0"))
      else if mask == "128"
      then (at_key "nexthop" e >>= λ nexthop. ok (nexthop == "::"))
      else ok false

  is_neigh_route : Dict String → List String → Result Fault Bool
  unfolding is_no_nexthop
  is_neigh_route e prefix = do
    ifname ← at_key "ifname" e
    if is_inband_name ifname then at_index 1 prefix >>= is_no_nexthop e else ok false

  -- The entry of the route, or else of its address alone.
  unfoldable pub is_not_voq_neigh : String → Result Fault Bool
  unfolding is_neigh_route
  is_not_voq_neigh k = do
    head ← at_index 0 (split "/" k)
    let e₁ = get_or (lookup k tables.route_table) []
    let e = if is_nil e₁ then get_or (lookup head tables.route_table) [] else e₁
    if is_nil e then ok true else is_neigh_route e (split "/" k) >>= λ dropped. ok (not dropped)

  unfoldable pub filter_out_voq_neigh_routes : List String → Result Fault (List String)
  filter_out_voq_neigh_routes = keep_if is_not_voq_neigh

  unfoldable pub filter_out_default_routes : List String → Result Fault (List String)
  filter_out_default_routes =
      keep_if λ rt. do default ← is_default_route ip_address rt; ok (not default)

  unfoldable pub vnet_routes : Result Fault (List String)
  vnet_routes =
      collect (λ key. do vnet_route ← at_index 1 (split ":" key); ok (some vnet_route))
        (tables.vnet_route_table ++ tables.vnet_route_tunnel_table)

  unfoldable pub filter_out_vnet_routes : List String → Result Fault (List String)
  filter_out_vnet_routes routes = do
    vnet ← vnet_routes
    keep_if (λ route. ok (not (elem route vnet))) routes

  unfoldable pub is_dualtor : Result Fault Bool
  is_dualtor = do
    localhost ← at_key "localhost" tables.device_metadata
    ok (lower (get_or (lookup "subtype" localhost) "") == "dualtor")

  unfoldable pub is_not_tunnel_route : List String → String → Result Fault Bool
  is_not_tunnel_route ips route = do
    pair ← ip_and_subnet (split "/" route)
    t ← ip_address pair.0
    ok (
        not (elem pair.0 ips)
        || (nat_eq t.version 6 && not (pair.1 == "128"))
        || (nat_eq t.version 4 && not (pair.1 == "32")))

  unfoldable pub filter_out_standalone_tunnel_routes : List String → Result Fault (List String)
  filter_out_standalone_tunnel_routes routes = do
    dualtor ← is_dualtor
    let ips = standalone_tunnel_route_ips tables.neigh_table
    if not dualtor || is_nil ips then ok routes else keep_if (is_not_tunnel_route ips) routes

  unfoldable pub filter_out_soc_ip_routes : List String → Result Fault (List String)
  filter_out_soc_ip_routes routes = do
    dualtor ← is_dualtor
    let soc_ips = get_soc_ips tables.mux_cable
    if not dualtor || is_nil soc_ips
        then ok routes
        else keep_if (λ route. ok (not (elem route soc_ips))) routes
