-- ===== src/RouteCheck/Check.antt =====
-- scripts/route_check.py: what the tables give, `check_routes` and the scan interval of `main`.
pub mod Chains
pub mod Exact
pub mod Interval
use sonic_utility.Base.{
  ℕ, String, Bool, true, false, not, ◌&&◌, ◌||◌, List, [], ◌∷◌, ◌++◌, Option, none, some, ◌==◌,
  if◌then◌else◌, is_nil, nat_eq, ltb,
}
use sonic_utility.Base.Dict.{Dict}
use sonic_utility.Base.Int.{ℤ, pos, negsuc}
use sonic_utility.Base.Order.{sorted}
use sonic_utility.Base.Text.{is_empty}
use sonic_utility.Base.Split.{split, split_once, starts_with, lower}
use sonic_utility.Base.Result.{Result, ok, err, ◌>>=◌}
use sonic_utility.Base.Fault.{Fault, at_index, collect}
use sonic_utility.RouteCheck.Diff.{diff_sorted_lists}
use sonic_utility.RouteCheck.Filters.{
  Address, Tables, is_local, add_prefix, add_prefix_ifnot, is_vrf, filter_out_local_interfaces,
  filter_out_voq_neigh_routes, filter_out_default_routes, filter_out_vnet_routes,
  filter_out_standalone_tunnel_routes, filter_out_soc_ip_routes,
}

-- What SubscriberStateTable.pop returns: the key, the operation; an empty key where nothing waits.
pub record Message : Type 0 where
  pub key : String
  pub op : String

pub record Misses : Type 0 where
  pub missed_routes : List String
  pub missed_interfaces : List String
  pub unaccounted : List String

-- (0, None), or (-1, results)
pub data Report : Type 0 where
  all_good : Report
  failed : Misses → Report

abbrev with_entry : Option String → List String → List String
with_entry none l = l
with_entry (some e) l = e ∷ l

-- tbl.getKeys()
unfoldable pub keys : {V : Type 0} → Dict V → List String
keys [] = []
keys ((k, v) ∷ d) = k ∷ keys d

unfoldable pub report : Misses → Report
report misses =
    if is_nil misses.missed_routes && is_nil misses.missed_interfaces && is_nil misses.unaccounted
    then all_good
    else failed misses

-- The keys that wait when the subscription starts, up to the first empty one.
unfoldable pub waiting : List String → List String
waiting [] = []
waiting (k ∷ ks) = let rest = waiting ks in if is_empty k then [] else k ∷ rest

module _ (ip_address : String → Result Fault Address) where
  unfoldable pub checkout_rt_entry : String → Result Fault (Option String)
  checkout_rt_entry k =
      if starts_with "SAI_OBJECT_TYPE_ROUTE_ENTRY:" k
      then (do
        e ← at_index 3 (split "\"" (lower k))
        dropped ← is_local ip_address e
        ok (if dropped then none else some e))
      else ok none

  unfoldable pub get_route_entries : Tables → Result Fault (List String)
  get_route_entries tables = do
    rt ← collect checkout_rt_entry (waiting tables.asic_keys)
    ok (sorted rt)

  -- The messages of one round, up to the first empty key.
  unfoldable pub pop_round : List Message → Result Fault (List String × List String)
  pop_round [] = ok ([], [])
  pop_round (m ∷ ms) =
      let rest = pop_round ms in
      if is_empty m.key then ok ([], []) else (do
        e ← checkout_rt_entry m.key
        later ← rest
        ok (
            if m.op == "SET"
            then (with_entry e later.0, later.1)
            else if m.op == "DEL"
            then (later.0, with_entry e later.1)
            else later))

  unfoldable pub pop_rounds : List (List Message) → Result Fault (List String × List String)
  pop_rounds [] = ok ([], [])
  pop_rounds (round ∷ rounds) = do
    first ← pop_round round
    later ← pop_rounds rounds
    ok (first.0 ++ later.0, first.1 ++ later.1)

  -- The rounds of the selector until the waiting time is over.
  unfoldable pub get_subscribe_updates :
      List (List Message) → Result Fault (List String × List String)
  get_subscribe_updates rounds = do
    updates ← pop_rounds rounds
    ok (sorted updates.0, sorted updates.1)

  route_of_key : String → Result Fault String
  route_of_key k = if is_vrf k then at_index 1 (split_once ":" k) else ok k

  unfoldable pub valid_route : String → Result Fault (Option String)
  unfolding route_of_key
  valid_route key = do
    k ← route_of_key key
    dropped ← is_local ip_address k
    ok (if dropped then none else some (add_prefix_ifnot (lower k)))

  unfoldable pub get_routes : Tables → Result Fault (List String)
  get_routes tables = do
    valid_rt ← collect valid_route (keys tables.route_table)
    ok (sorted valid_rt)

  -- No IP address in the key; ignore
  interface_address : List String → Result Fault (Option String)
  interface_address (name ∷ address ∷ []) = do
    head ← at_index 0 (split "/" address)
    dropped ← is_local ip_address (add_prefix head)
    ok (if dropped then none else some (add_prefix head))
  interface_address pieces = ok none

  unfoldable pub get_interfaces : Tables → Result Fault (List String)
  unfolding interface_address
  get_interfaces tables = do
    intf ← collect (λ k. interface_address (split_once ":" (lower k))) tables.intf_table
    ok (sorted intf)

  -- The entries of the ASIC that neither a route nor an interface accounts for.
  unfoldable pub asic_only :
      Tables → List String → List String → List String → Result Fault (List String)
  asic_only tables rt_appl intf_appl rt_asic = do
    let miss_0 = (diff_sorted_lists rt_appl rt_asic).1
    let miss_1 = (diff_sorted_lists intf_appl miss_0).1
    miss_2 ← filter_out_default_routes ip_address tables miss_1
    miss_3 ← filter_out_vnet_routes ip_address tables miss_2
    miss_4 ← filter_out_standalone_tunnel_routes ip_address tables miss_3
    filter_out_soc_ip_routes ip_address tables miss_4

  -- The routes that the ASIC lacks. A filter is called on a list with entries only.
  unfoldable pub appl_only : Tables → List String → List String → Result Fault (List String)
  appl_only tables rt_appl rt_asic = do
    let miss_0 = (diff_sorted_lists rt_appl rt_asic).0
    miss_1 ←
        if is_nil miss_0 then ok miss_0 else filter_out_local_interfaces ip_address tables miss_0
    if is_nil miss_1 then ok miss_1 else filter_out_voq_neigh_routes ip_address tables miss_1

  -- What the updates of the waiting time do not explain; nobody waits where nothing is missed.
  unfoldable pub without_updates :
      List (List Message) → List String → List String → Result Fault (List String × List String)
  without_updates rounds rt_appl_miss rt_asic_miss =
      if is_nil rt_appl_miss && is_nil rt_asic_miss then ok (rt_appl_miss, rt_asic_miss) else (do
        updates ← get_subscribe_updates rounds
        ok (
          (diff_sorted_lists rt_appl_miss updates.0).0,
          (diff_sorted_lists rt_asic_miss updates.1).0,
        ))

  unfoldable pub check_routes : Tables → List (List Message) → Result Fault Report
  check_routes tables rounds = do
    rt_asic ← get_route_entries tables
    rt_appl ← get_routes tables
    intf_appl ← get_interfaces tables
    rt_asic_miss ← asic_only tables rt_appl intf_appl rt_asic
    rt_appl_miss ← appl_only tables rt_appl rt_asic
    misses ← without_updates rounds rt_appl_miss rt_asic_miss
    ok (
        report (record {
          missed_routes = misses.0;
          missed_interfaces = (diff_sorted_lists intf_appl rt_asic).0;
          unaccounted = misses.1;
        }))

-- The interval of `main` in seconds, 0 for a single run
unfoldable pub scan_interval : ℤ → ℕ
scan_interval (negsuc n) = 10
scan_interval (pos asked) =
    if nat_eq asked 0
    then 0
    else if ltb asked 10
    then 10
    else if ltb 3600 asked
    then 3600
    else asked
