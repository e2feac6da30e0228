-- ===== src/RouteCheck/Tests.antt =====
-- The route check on a switch with three routes, one of which the ASIC lacks, and an entry too many.
use sonic_utility.RouteCheck.Filters.Each.{is_expected_route, is_expected_entry}
use sonic_utility.RouteCheck.Filters.{vnet_routes}
use sonic_utility.RouteCheck.Filters.{standalone_tunnel_route_ips}
use sonic_utility.RouteCheck.Filters.{is_not_voq_neigh}
use sonic_utility.RouteCheck.Filters.{is_not_tunnel_route}
use sonic_utility.RouteCheck.Filters.{is_local_name}
use sonic_utility.RouteCheck.Filters.{is_kept_interface}
use sonic_utility.RouteCheck.Filters.{is_inband_name}
use sonic_utility.RouteCheck.Filters.{is_dualtor}
use sonic_utility.RouteCheck.Filters.{is_default_route}
use sonic_utility.RouteCheck.Filters.{ip_and_subnet}
use sonic_utility.RouteCheck.Filters.{get_soc_ips}
use sonic_utility.RouteCheck.Filters.{get_chassis_local_interfaces}
use sonic_utility.RouteCheck.Filters.{filter_out_voq_neigh_routes}
use sonic_utility.RouteCheck.Filters.{filter_out_vnet_routes}
use sonic_utility.RouteCheck.Filters.{filter_out_standalone_tunnel_routes}
use sonic_utility.RouteCheck.Filters.{filter_out_soc_ip_routes}
use sonic_utility.RouteCheck.Filters.{filter_out_local_interfaces}
use sonic_utility.RouteCheck.Filters.{filter_out_default_routes}
use sonic_utility.RouteCheck.Filters.{add_prefix_ifnot}
use sonic_utility.RouteCheck.Diff.{cmps}
use sonic_utility.RouteCheck.Check.{without_updates}
use sonic_utility.RouteCheck.Check.{report}
use sonic_utility.RouteCheck.Check.{pop_rounds}
use sonic_utility.RouteCheck.Check.{pop_round}
use sonic_utility.RouteCheck.Check.{get_subscribe_updates}
use sonic_utility.RouteCheck.Check.{asic_only}
use sonic_utility.RouteCheck.Check.{appl_only}
use sonic_utility.Base.Split.{strip}
use sonic_utility.Base.Split.{join}
use sonic_utility.Base.Split.{elem}
use sonic_utility.Base.Split.{contains}
use sonic_utility.Base.Split.{after_prefix}
use sonic_utility.Base.Order.{sorted}
use sonic_utility.Base.Order.{put_in_order}
use sonic_utility.Base.Fault.{keep_if}
use sonic_utility.Base.Dict.{lookup}
use sonic_utility.RouteCheck.Filters.{add_prefix}
use sonic_utility.RouteCheck.Check.{get_interfaces}
use sonic_utility.Base.Split.{split_once}
use sonic_utility.RouteCheck.Filters.{is_vrf}
use sonic_utility.RouteCheck.Check.{valid_route}
use sonic_utility.RouteCheck.Check.{keys}
use sonic_utility.RouteCheck.Check.{get_routes}
use sonic_utility.RouteCheck.Filters.{is_local}
use sonic_utility.Base.Split.{lower}
use sonic_utility.Base.Split.{split}
use sonic_utility.Base.Split.{nth}
use sonic_utility.RouteCheck.Check.{checkout_rt_entry}
use sonic_utility.RouteCheck.Check.{waiting}
use sonic_utility.Base.Fault.{collect}
use sonic_utility.RouteCheck.Check.{get_route_entries}
use sonic_utility.Base.Order.{text_lt}
use sonic_utility.Base.{◌≡◌, refl, String, true, List, [], ◌∷◌, ◌==◌, ◌-◌, if◌then◌else◌}
use sonic_utility.Base.Order.{count}
use sonic_utility.Base.Text.{has_char}
use sonic_utility.Base.Split.{starts_with}
use sonic_utility.Base.Result.{Result, ok}
use sonic_utility.Base.Fault.{Fault}
use sonic_utility.RouteCheck.Diff.{diff_sorted_lists}
use sonic_utility.RouteCheck.Diff.Counts.{diff_sorted_lists_lem}
use sonic_utility.RouteCheck.Filters.{Address, Tables}
use sonic_utility.RouteCheck.Check.{failed, check_routes}
use sonic_utility.RouteCheck.Check.Exact.{check_routes-count}
use sonic_utility.RouteCheck.Messages.{print_message, text_take, joined, print_message_lem}

abbrev ip_address : String → Result Fault Address
ip_address s = ok (record {
  is_link_local = starts_with "169.254." s;
  is_unspecified = s == "0.0.0.0";
  version = if has_char ":" s then 6 else 4;
})

abbrev tables : Tables
tables = record {
  route_table =
      ("0.0.0.0/0", ("ifname", "Ethernet0") ∷ ("nexthop", "10.0.0.1") ∷ [])
      ∷ ("10.1.0.0/24", ("ifname", "Ethernet0") ∷ ("nexthop", "10.0.0.1") ∷ [])
      ∷ ("Vrf1:10.2.0.0/24", ("ifname", "Ethernet4") ∷ ("nexthop", "10.0.0.3") ∷ [])
      ∷ ("192.168.0.0/24", ("ifname", "eth0") ∷ ("nexthop", "0.0.0.0") ∷ [])
      ∷ [];
  intf_table = "Ethernet0" ∷ "Ethernet0:10.0.0.0/31" ∷ [];
  vnet_route_table = [];
  vnet_route_tunnel_table = [];
  neigh_table = [];
  asic_keys =
      "SAI_OBJECT_TYPE_ROUTE_ENTRY:{\"dest\":\"0.0.0.0/0\"}"
      ∷ "SAI_OBJECT_TYPE_ROUTE_ENTRY:{\"dest\":\"10.2.0.0/24\"}"
      ∷ "SAI_OBJECT_TYPE_ROUTE_ENTRY:{\"dest\":\"10.0.0.0/32\"}"
      ∷ "SAI_OBJECT_TYPE_ROUTE_ENTRY:{\"dest\":\"10.9.0.0/16\"}" ∷ "SAI_OBJECT_TYPE_SWITCH:oid"
      ∷ [];
  device_metadata = ("localhost", []) ∷ [];
  mux_cable = [];
  chassisdb_conf = [];
}

check_fails :
    check_routes ip_address tables []
    ≡ ok (
        failed (record {
          missed_routes = "10.1.0.0/24" ∷ [];
          missed_interfaces = [];
          unaccounted = "10.9.0.0/16" ∷ [];
        }))
unfolding check_routes get_route_entries collect waiting checkout_rt_entry starts_with nth split
    lower is_local get_routes keys valid_route is_vrf split_once get_interfaces add_prefix has_char
    lookup keep_if put_in_order sorted text_lt after_prefix contains elem join strip appl_only
    asic_only get_subscribe_updates pop_round pop_rounds report without_updates cmps
    diff_sorted_lists add_prefix_ifnot filter_out_default_routes filter_out_local_interfaces
    filter_out_soc_ip_routes filter_out_standalone_tunnel_routes filter_out_vnet_routes
    filter_out_voq_neigh_routes get_chassis_local_interfaces get_soc_ips ip_and_subnet
    is_default_route is_dualtor is_inband_name is_kept_interface is_local_name is_not_tunnel_route
    is_not_voq_neigh standalone_tunnel_route_ips vnet_routes
check_fails = refl

diff_sorted_lists_lem_example :
    (count "b" (diff_sorted_lists ("a" ∷ "b" ∷ "b" ∷ []) ("b" ∷ "c" ∷ [])).0 ≡ 2 - 1)
    × (count "b" (diff_sorted_lists ("a" ∷ "b" ∷ "b" ∷ []) ("b" ∷ "c" ∷ [])).1 ≡ 1 - 2)
unfolding text_lt count
diff_sorted_lists_lem_example =
    diff_sorted_lists_lem "b" ("a" ∷ "b" ∷ "b" ∷ []) ("b" ∷ "c" ∷ [])
      ((refl, (refl, tt)), ((refl, tt), (tt, tt))) ((refl, tt), (tt, tt))

print_message_runs :
    print_message 3 ("a" ∷ "b" ∷ []) (record { report_level = 4; write_to_syslog = true })
    ≡ text_take 1000 (joined ("a" ∷ "b" ∷ []))
print_message_runs =
    print_message_lem 3 ("a" ∷ "b" ∷ []) (record { report_level = 4; write_to_syslog = true })

abbrev rt_asic : List String
rt_asic = "0.0.0.0/0" ∷ "10.0.0.0/32" ∷ "10.2.0.0/24" ∷ "10.9.0.0/16" ∷ []

abbrev rt_appl : List String
rt_appl = "0.0.0.0/0" ∷ "10.1.0.0/24" ∷ "10.2.0.0/24" ∷ "192.168.0.0/24" ∷ []

check_routes-count_example :
    (count "10.9.0.0/16" [] ≡ 0 - 1 - 0)
    × (count "10.9.0.0/16" [] ≡ 0 - 1)
    × (count "10.9.0.0/16" ("10.9.0.0/16" ∷ []) ≡ 1 - 0 - 0 - 0)
unfolding add_prefix add_prefix_ifnot after_prefix appl_only asic_only check_routes
    checkout_rt_entry cmps collect contains count diff_sorted_lists elem filter_out_default_routes
    filter_out_local_interfaces filter_out_soc_ip_routes filter_out_standalone_tunnel_routes
    filter_out_vnet_routes filter_out_voq_neigh_routes get_chassis_local_interfaces get_interfaces
    get_route_entries get_routes get_soc_ips get_subscribe_updates has_char ip_and_subnet
    is_default_route is_dualtor is_expected_entry is_expected_route is_inband_name is_kept_interface
    is_local is_local_name is_not_tunnel_route is_not_voq_neigh is_vrf join keep_if keys lookup
    lower nth pop_round pop_rounds put_in_order report sorted split split_once
    standalone_tunnel_route_ips starts_with strip text_lt valid_route vnet_routes waiting
    without_updates
check_routes-count_example =
    check_routes-count ip_address tables [] {rt_asic = rt_asic} {rt_appl = rt_appl}
      {intf_appl = "10.0.0.0/32" ∷ []} {adds = []} {deletes = []}
      {r = failed (record {
        missed_routes = "10.1.0.0/24" ∷ [];
        missed_interfaces = [];
        unaccounted = "10.9.0.0/16" ∷ [];
      })}
      refl refl refl refl refl "10.9.0.0/16"
