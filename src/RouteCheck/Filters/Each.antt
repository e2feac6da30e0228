-- ===== src/RouteCheck/Filters/Each.antt =====
-- scripts/route_check.py: each filter by the test of a single route, and their chains.
use sonic_utility.Base.{
  ◌≡◌, ap, subst, String, Bool, true, false, not, ◌&&◌, ◌||◌, List, [], ◌∷◌, if◌then◌else◌, is_nil,
}
use sonic_utility.Base.Split.{elem}
use sonic_utility.Base.Result.{Result, ok, err, >>=-eq-ok, ok-injective}
use sonic_utility.Base.Fault.{Fault, keep_if}
use sonic_utility.RouteCheck.Filters.{
  Address, Tables, is_default_route, get_chassis_local_interfaces, is_kept_interface,
  filter_out_local_interfaces, is_not_voq_neigh, filter_out_voq_neigh_routes,
  filter_out_default_routes, vnet_routes, filter_out_vnet_routes, is_dualtor,
  standalone_tunnel_route_ips, is_not_tunnel_route, filter_out_standalone_tunnel_routes,
  get_soc_ips, filter_out_soc_ip_routes,
}
use sonic_utility.RouteCheck.Filters.Kept.{
  IsFiltered, IsFiltered-nil, unfiltered, keep_if-IsFiltered,
}

abbrev pub answer : Result Fault Bool → Bool
answer (ok b) = b
answer (err e) = false

abbrev pub list_of : Result Fault (List String) → List String
list_of (ok l) = l
list_of (err e) = []

-- A filter that is left out on a condition.
unless-IsFiltered :
    (skip : Bool) (test : String → Result Fault Bool) (xs : List String) {out : List String}
    → (if skip then ok xs else keep_if test xs) ≡ ok out
    → IsFiltered (λ z. skip || answer (test z)) xs out
unless-IsFiltered true test xs e =
    subst (λ l. IsFiltered (λ _. true) xs l) (ok-injective e) (unfiltered xs)
unless-IsFiltered false test xs e =
    keep_if-IsFiltered test (λ z. answer (test z)) xs (λ x b h. ap answer h) e

-- A filter that is not called on an empty list.
pub where_any-IsFiltered :
    (T : String → Bool) (filter : List String → Result Fault (List String)) (xs : List String)
    {out : List String}
    → (filter xs ≡ ok out → IsFiltered T xs out)
    → (if is_nil xs then ok xs else filter xs) ≡ ok out
    → IsFiltered T xs out
where_any-IsFiltered T filter [] h e =
    subst (λ l. IsFiltered T [] l) (ok-injective e) (IsFiltered-nil T)
where_any-IsFiltered T filter (x ∷ xs) h e = h e

module _ (ip_address : String → Result Fault Address) (tables : Tables) where
  -- A route of APPL_DB that the ASIC should have: no local interface, no VOQ neighbour.
  unfoldable pub is_expected_route : String → Bool
  is_expected_route z =
      let local_if_lst =
        "eth0" ∷ "docker0" ∷ list_of (get_chassis_local_interfaces tables.chassisdb_conf) in
      answer (is_kept_interface ip_address tables local_if_lst z)
      && answer (is_not_voq_neigh ip_address tables z)

  -- An entry of the ASIC that should come from a route: not the default route, no VNET route, and on
  -- a dual ToR neither a standalone tunnel route nor the address of a SoC.
  unfoldable pub is_expected_entry : String → Bool
  is_expected_entry z =
      let single = not (answer (is_dualtor ip_address tables)) in
      let ips = standalone_tunnel_route_ips tables.neigh_table in
      let soc_ips = get_soc_ips tables.mux_cable in
      not (answer (is_default_route ip_address z))
      && not (elem z (list_of (vnet_routes ip_address tables)))
      && ((single || is_nil ips) || answer (is_not_tunnel_route ip_address tables ips z))
      && ((single || is_nil soc_ips) || not (elem z soc_ips))

  pub not_default-IsFiltered :
      (xs : List String) {out : List String}
      → filter_out_default_routes ip_address tables xs ≡ ok out
      → IsFiltered (λ z. not (answer (is_default_route ip_address z))) xs out
  unfolding filter_out_default_routes
  not_default-IsFiltered xs e =
      keep_if-IsFiltered _ _ xs
        (λ x b h.
          let (d, asked, h1) = >>=-eq-ok (is_default_route ip_address x) _ h in
          rw (asked) (ok-injective h1))
        e

  pub vnet-IsFiltered :
      (xs : List String) {out : List String}
      → filter_out_vnet_routes ip_address tables xs ≡ ok out
      → IsFiltered (λ z. not (elem z (list_of (vnet_routes ip_address tables)))) xs out
  unfolding filter_out_vnet_routes
  vnet-IsFiltered xs e =
      let (vnet, read, looped) = >>=-eq-ok (vnet_routes ip_address tables) _ e in
      keep_if-IsFiltered _ _ xs (λ x b h. rw (read) (ok-injective h)) looped

  pub tunnel-IsFiltered :
      (xs : List String) {out : List String}
      → filter_out_standalone_tunnel_routes ip_address tables xs ≡ ok out
      → IsFiltered
          (λ z.
            let ips = standalone_tunnel_route_ips tables.neigh_table in
            (not (answer (is_dualtor ip_address tables)) || is_nil ips)
            || answer (is_not_tunnel_route ip_address tables ips z))
          xs
          out
  unfolding filter_out_standalone_tunnel_routes
  tunnel-IsFiltered xs e =
      let (dualtor, asked, e1) = >>=-eq-ok (is_dualtor ip_address tables) _ e in
      rw (asked) (unless-IsFiltered _ _ xs e1)

  pub soc-IsFiltered :
      (xs : List String) {out : List String}
      → filter_out_soc_ip_routes ip_address tables xs ≡ ok out
      → IsFiltered
          (λ z.
            let soc_ips = get_soc_ips tables.mux_cable in
            (not (answer (is_dualtor ip_address tables)) || is_nil soc_ips) || not (elem z soc_ips))
          xs
          out
  unfolding filter_out_soc_ip_routes
  soc-IsFiltered xs e =
      let (dualtor, asked, e1) = >>=-eq-ok (is_dualtor ip_address tables) _ e in
      rw (asked) (unless-IsFiltered _ _ xs e1)

  pub local-IsFiltered :
      (xs : List String) {out : List String}
      → filter_out_local_interfaces ip_address tables xs ≡ ok out
      → IsFiltered
          (λ z. answer (
            is_kept_interface ip_address tables
              ("eth0" ∷ "docker0" ∷ list_of (get_chassis_local_interfaces tables.chassisdb_conf))
              z))
          xs
          out
  unfolding filter_out_local_interfaces
  local-IsFiltered xs e =
      let (chassis, read, looped) =
        >>=-eq-ok (get_chassis_local_interfaces tables.chassisdb_conf) _ e in
      rw (read) (keep_if-IsFiltered _ _ xs (λ x b h. ap answer h) looped)

  pub voq-IsFiltered :
      (xs : List String) {out : List String}
      → filter_out_voq_neigh_routes ip_address tables xs ≡ ok out
      → IsFiltered (λ z. answer (is_not_voq_neigh ip_address tables z)) xs out
  unfolding filter_out_voq_neigh_routes
  voq-IsFiltered xs e = keep_if-IsFiltered _ _ xs (λ x b h. ap answer h) e
