-- ===== src/RouteCheck/Check/Exact.antt =====
-- scripts/route_check.py: what the report of `check_routes` holds.
use sonic_utility.Base.{◌≡◌, refl, ap, subst, String, List, [], ◌∷◌, ◌-◌, if◌then◌else◌, arith}
use sonic_utility.Base.Order.{IsSorted, count, sorted, sorted-IsSorted}
use sonic_utility.Base.Result.{Result, ok, ◌>>=◌, >>=-eq-ok, ok-injective}
use sonic_utility.Base.Fault.{Fault}
use sonic_utility.RouteCheck.Diff.{diff_sorted_lists}
use sonic_utility.RouteCheck.Diff.Counts.{diff_sorted_lists_lem}
use sonic_utility.RouteCheck.Diff.Entries.{diff_sorted_lists-IsSorted}
use sonic_utility.RouteCheck.Filters.{Address, Tables}
use sonic_utility.RouteCheck.Filters.Each.{is_expected_route, is_expected_entry}
use sonic_utility.RouteCheck.Check.{
  Message, Misses, Report, all_good, failed, get_route_entries, pop_rounds, get_subscribe_updates,
  get_routes, get_interfaces, asic_only, appl_only, without_updates, report, check_routes,
}
use sonic_utility.RouteCheck.Check.Chains.{appl_only-IsFiltered, asic_only-IsFiltered}

abbrev pub misses_of : Report → Misses
misses_of all_good = record { missed_routes = []; missed_interfaces = []; unaccounted = [] }
misses_of (failed misses) = misses

abbrev misses : List String → List String → List String → Misses
misses m i u = record { missed_routes = m; missed_interfaces = i; unaccounted = u }

abbrev IsAgreeing : String → Misses → Misses → Type 0
IsAgreeing z m n =
    (count z m.missed_routes ≡ count z n.missed_routes)
    × (count z m.missed_interfaces ≡ count z n.missed_interfaces)
    × (count z m.unaccounted ≡ count z n.unaccounted)

-- A report that is all good stands for lists without entries.
misses_of-report :
    (z : String) (m i u : List String)
    → IsAgreeing z (misses_of (report (misses m i u))) (misses m i u)
unfolding report count
misses_of-report z [] [] [] = (refl, refl, refl)
misses_of-report z [] [] (x ∷ xs) = (refl, refl, refl)
misses_of-report z [] (x ∷ xs) u = (refl, refl, refl)
misses_of-report z (x ∷ xs) i u = (refl, refl, refl)

sorted_out :
    (r : Result Fault (List String)) {out : List String}
    → (r >>= λ l. ok (sorted l)) ≡ ok out
    → IsSorted out
sorted_out r e =
    let (l, read, e1) = >>=-eq-ok r _ e in subst IsSorted (ok-injective e1) (sorted-IsSorted l)

module _ (ip_address : String → Result Fault Address) where
  entries-IsSorted :
      (tables : Tables) {out : List String}
      → get_route_entries ip_address tables ≡ ok out
      → IsSorted out
  unfolding get_route_entries
  entries-IsSorted tables e = sorted_out _ e

  routes-IsSorted :
      (tables : Tables) {out : List String} → get_routes ip_address tables ≡ ok out → IsSorted out
  unfolding get_routes
  routes-IsSorted tables e = sorted_out _ e

  interfaces-IsSorted :
      (tables : Tables) {out : List String}
      → get_interfaces ip_address tables ≡ ok out
      → IsSorted out
  unfolding get_interfaces
  interfaces-IsSorted tables e = sorted_out _ e

  updates-IsSorted :
      (rounds : List (List Message)) {adds deletes : List String}
      → get_subscribe_updates ip_address rounds ≡ ok (adds, deletes)
      → IsSorted adds × IsSorted deletes
  unfolding get_subscribe_updates
  updates-IsSorted rounds e =
      let (updates, read, e1) = >>=-eq-ok (pop_rounds ip_address rounds) _ e in
      (
        subst IsSorted (ap (λ p. p.0) (ok-injective e1)) (sorted-IsSorted updates.0),
        subst IsSorted (ap (λ p. p.1) (ok-injective e1)) (sorted-IsSorted updates.1),
      )

  waited :
      (z : String) (rounds : List (List Message)) (m a : List String) {adds deletes : List String}
      {out : List String × List String}
      → get_subscribe_updates ip_address rounds ≡ ok (adds, deletes)
      → IsSorted m
      → IsSorted a
      → (get_subscribe_updates ip_address rounds >>= λ updates.
          ok ((diff_sorted_lists m updates.0).0, (diff_sorted_lists a updates.1).0))
        ≡ ok out
      → (count z out.0 ≡ count z m - count z adds) × (count z out.1 ≡ count z a - count z deletes)
  waited z rounds m a {adds} {deletes} g s t e =
      let same = ok-injective (rw (g) at (e)) in
      let (sa, sd) = updates-IsSorted rounds g in
      subst
        (λ p.
          (count z p.0 ≡ count z m - count z adds) × (count z p.1 ≡ count z a - count z deletes))
        same ((diff_sorted_lists_lem z m adds s sa).0, (diff_sorted_lists_lem z a deletes t sd).0)

  count-without_updates :
      (z : String) (rounds : List (List Message)) (m a : List String) {adds deletes : List String}
      {out : List String × List String}
      → get_subscribe_updates ip_address rounds ≡ ok (adds, deletes)
      → IsSorted m
      → IsSorted a
      → without_updates ip_address rounds m a ≡ ok out
      → (count z out.0 ≡ count z m - count z adds) × (count z out.1 ≡ count z a - count z deletes)
  unfolding without_updates count
  count-without_updates z rounds [] [] {adds} {deletes} g s t e =
      subst (λ p. (count z p.0 ≡ 0 - count z adds) × (count z p.1 ≡ 0 - count z deletes))
        (ok-injective e) (ground arith, ground arith)
  count-without_updates z rounds [] (y ∷ ys) g s t e = waited z rounds [] (y ∷ ys) g s t e
  count-without_updates z rounds (x ∷ xs) a g s t e = waited z rounds (x ∷ xs) a g s t e

  -- Where the check ends without an exception, its report is this difference of what it read: the
  -- routes of APPL_DB that are expected in the ASIC, less those that are there or were set meanwhile;
  -- the interfaces less the ASIC's entries; and the ASIC's entries that are expected to come from a
  -- route, less the routes, the interfaces and what was deleted meanwhile. Repetitions count.
  pub check_routes-count :
      (tables : Tables) (rounds : List (List Message))
      {rt_asic rt_appl intf_appl adds deletes : List String} {r : Report}
      → get_route_entries ip_address tables ≡ ok rt_asic
      → get_routes ip_address tables ≡ ok rt_appl
      → get_interfaces ip_address tables ≡ ok intf_appl
      → get_subscribe_updates ip_address rounds ≡ ok (adds, deletes)
      → check_routes ip_address tables rounds ≡ ok r
      → (z : String)
      → (count z (misses_of r).missed_routes
          ≡ (if is_expected_route ip_address tables z then count z rt_appl - count z rt_asic else 0)
            - count z adds)
        × (count z (misses_of r).missed_interfaces ≡ count z intf_appl - count z rt_asic)
        × (count z (misses_of r).unaccounted
            ≡ (if is_expected_entry ip_address tables z
                then count z rt_asic - count z rt_appl - count z intf_appl
                else 0)
              - count z deletes)
  unfolding check_routes
  check_routes-count tables rounds {rt_asic} {rt_appl} {intf_appl} {adds} {deletes} {r} a p i g e
        z =
      let e0 = rw (i) at (rw (p) at (rw (a) at (e))) in
      let (asic_miss, ran_1, e1) =
        >>=-eq-ok (asic_only ip_address tables rt_appl intf_appl rt_asic) _ e0 in
      let (appl_miss, ran_2, e2) = >>=-eq-ok (appl_only ip_address tables rt_appl rt_asic) _ e1 in
      let (out, ran_3, e3) =
        >>=-eq-ok (without_updates ip_address rounds appl_miss asic_miss) _ e2 in
      let sa = entries-IsSorted tables a in
      let sp = routes-IsSorted tables p in
      let si = interfaces-IsSorted tables i in
      let kept = appl_only-IsFiltered ip_address tables rt_appl rt_asic ran_2 in
      let left = asic_only-IsFiltered ip_address tables rt_appl intf_appl rt_asic ran_1 in
      let first = diff_sorted_lists-IsSorted rt_appl rt_asic sp sa in
      let second =
        diff_sorted_lists-IsSorted intf_appl (diff_sorted_lists rt_appl rt_asic).1 si first.1 in
      let final =
        count-without_updates z rounds appl_miss asic_miss g (kept.in_order first.0)
          (left.in_order second.1) ran_3 in
      let shown = misses_of-report z out.0 (diff_sorted_lists intf_appl rt_asic).0 out.1 in
      let d1 = diff_sorted_lists_lem z rt_appl rt_asic sp sa in
      let d2 = diff_sorted_lists_lem z intf_appl (diff_sorted_lists rt_appl rt_asic).1 si first.1 in
      let d3 = diff_sorted_lists_lem z intf_appl rt_asic si sa in
      subst
        (λ x.
          (count z (misses_of x).missed_routes
            ≡ (if is_expected_route ip_address tables z
                then count z rt_appl - count z rt_asic
                else 0)
              - count z adds)
          × (count z (misses_of x).missed_interfaces ≡ count z intf_appl - count z rt_asic)
          × (count z (misses_of x).unaccounted
              ≡ (if is_expected_entry ip_address tables z
                  then count z rt_asic - count z rt_appl - count z intf_appl
                  else 0)
                - count z deletes))
        (ok-injective e3)
        (
          ground (arith, shown, final, kept.counts z, d1),
          ground (arith, shown, d3),
          ground (arith, shown, final, left.counts z, d1, d2),
        )
