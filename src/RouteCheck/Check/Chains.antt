-- ===== src/RouteCheck/Check/Chains.antt =====
-- scripts/route_check.py: the two chains of filters in `check_routes`, by the test of an entry.
use sonic_utility.Base.{◌≡◌, String, List}
use sonic_utility.Base.Result.{Result, ok, >>=-eq-ok}
use sonic_utility.Base.Fault.{Fault}
use sonic_utility.RouteCheck.Diff.{diff_sorted_lists}
use sonic_utility.RouteCheck.Filters.{
  Address, Tables, filter_out_local_interfaces, filter_out_voq_neigh_routes,
  filter_out_default_routes, filter_out_vnet_routes, filter_out_standalone_tunnel_routes,
}
use sonic_utility.RouteCheck.Filters.Kept.{IsFiltered, IsFiltered-trans}
use sonic_utility.RouteCheck.Filters.Each.{
  is_expected_route, is_expected_entry, not_default-IsFiltered, vnet-IsFiltered, tunnel-IsFiltered,
  soc-IsFiltered, local-IsFiltered, voq-IsFiltered, where_any-IsFiltered,
}
use sonic_utility.RouteCheck.Check.{asic_only, appl_only}

module _ (ip_address : String → Result Fault Address) (tables : Tables) where
  pub appl_only-IsFiltered :
      (rt_appl rt_asic : List String) {out : List String}
      → appl_only ip_address tables rt_appl rt_asic ≡ ok out
      → IsFiltered (is_expected_route ip_address tables) (diff_sorted_lists rt_appl rt_asic).0 out
  unfolding appl_only is_expected_route
  appl_only-IsFiltered rt_appl rt_asic e =
      let miss_0 = (diff_sorted_lists rt_appl rt_asic).0 in
      let (miss_1, first, e1) = >>=-eq-ok _ _ e in
      IsFiltered-trans _ _ miss_0 miss_1 _
        (where_any-IsFiltered _ (filter_out_local_interfaces ip_address tables) miss_0
          (local-IsFiltered ip_address tables miss_0) first)
        (where_any-IsFiltered _ (filter_out_voq_neigh_routes ip_address tables) miss_1
          (voq-IsFiltered ip_address tables miss_1) e1)

  pub asic_only-IsFiltered :
      (rt_appl intf_appl rt_asic : List String) {out : List String}
      → asic_only ip_address tables rt_appl intf_appl rt_asic ≡ ok out
      → IsFiltered
          (is_expected_entry ip_address tables)
          (diff_sorted_lists intf_appl (diff_sorted_lists rt_appl rt_asic).1).1
          out
  unfolding asic_only is_expected_entry
  asic_only-IsFiltered rt_appl intf_appl rt_asic e =
      let miss_1 = (diff_sorted_lists intf_appl (diff_sorted_lists rt_appl rt_asic).1).1 in
      let (miss_2, first, e1) =
        >>=-eq-ok (filter_out_default_routes ip_address tables miss_1) _ e in
      let (miss_3, second, e2) = >>=-eq-ok (filter_out_vnet_routes ip_address tables miss_2) _ e1 in
      let (miss_4, third, e3) =
        >>=-eq-ok (filter_out_standalone_tunnel_routes ip_address tables miss_3) _ e2 in
      IsFiltered-trans _ _ miss_1 miss_4 _
        (IsFiltered-trans _ _ miss_1 miss_3 miss_4
          (IsFiltered-trans _ _ miss_1 miss_2 miss_3
            (not_default-IsFiltered ip_address tables miss_1 first)
            (vnet-IsFiltered ip_address tables miss_2 second))
          (tunnel-IsFiltered ip_address tables miss_3 third))
        (soc-IsFiltered ip_address tables miss_4 e3)
