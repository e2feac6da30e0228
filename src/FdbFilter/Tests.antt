-- ===== src/FdbFilter/Tests.antt =====
-- fdbutil/filter_fdb_entries.py: two hosts, of which ARP knows one.
use sonic_utility.Base.Split.{elem}
use sonic_utility.FdbFilter.{filter_fdb_entry}
use sonic_utility.Base.Text.{replace}
use sonic_utility.Base.Split.{upper}
use sonic_utility.Base.Dict.{insert}
use sonic_utility.Base.Split.{split_once}
use sonic_utility.FdbFilter.{three}
use sonic_utility.Base.Split.{contains}
use sonic_utility.FdbFilter.{add_arp}
use sonic_utility.FdbFilter.{add_arps}
use sonic_utility.FdbFilter.{add_all}
use sonic_utility.Base.Split.{split}
use sonic_utility.Base.Text.{has_char}
use sonic_utility.FdbFilter.{add_cidr}
use sonic_utility.FdbFilter.{add_cidrs}
use sonic_utility.FdbFilter.{get_vlan_cidr_map}
use sonic_utility.Base.{◌≡◌, refl, String, List, [], ◌∷◌, some, ◌⊎◌}
use sonic_utility.Base.Dict.{Dict, lookup}
use sonic_utility.Base.Split.{starts_with}
use sonic_utility.Base.Result.{ok}
use sonic_utility.DbMigrator.Databases.{Entry}
use sonic_utility.FdbFilter.{
  Ipaddress, Networks, get_vlan_cidr_map, get_arp_entries_map, filtered, Files, filter_fdb_entries,
}
use sonic_utility.FdbFilter.Kept.{HasNeighbour, Known, Selected, lookup-filter_fdb_entries}

-- One network, by the first part of its addresses.
abbrev ips : Ipaddress String
ips = record {
  ip_interface = λ text. ok (4, "192.168.");
  contains_address = λ net ip. ok (starts_with net ip);
  zero_v4 = "0.0.0.0";
  zero_v6 = "::";
}

abbrev config_db : Dict (Dict Entry)
config_db =
    ("VLAN", ("Vlan1000", []) ∷ [])
    ∷ ("VLAN_INTERFACE", ("Vlan1000", []) ∷ ("Vlan1000|192.168.0.1/21", []) ∷ [])
    ∷ []

abbrev arp_entries : List (Dict Entry)
arp_entries =
    (("NEIGH_TABLE:Vlan1000:192.168.0.10", ("neigh", "72:06:00:01:00:08") ∷ []) ∷ [])
    ∷ (("NEIGH_TABLE:Vlan1000:10.0.0.10", ("neigh", "72:06:00:01:00:09") ∷ []) ∷ [])
    ∷ []

abbrev known : Dict String
known = ("FDB_TABLE:Vlan1000:72-06-00-01-00-08", "Ethernet0") ∷ ("OP", "SET") ∷ []

abbrev unknown : Dict String
unknown = ("FDB_TABLE:Vlan1000:72-06-00-01-00-09", "Ethernet4") ∷ ("OP", "SET") ∷ []

abbrev files : Files String
files = ("fdb.json", known ∷ unknown ∷ []) ∷ []

arp_map : get_arp_entries_map ips arp_entries config_db ≡ ok ("72-06-00-01-00-08" ∷ [])
unfolding get_arp_entries_map get_vlan_cidr_map lookup add_cidrs add_cidr has_char split add_all
    add_arps add_arp contains three split_once insert upper replace
arp_map = refl

dropped : filtered ("72-06-00-01-00-08" ∷ []) (known ∷ unknown ∷ []) ≡ known ∷ []
unfolding filtered filter_fdb_entry contains elem upper split
dropped = refl

lookup-filter_fdb_entries_example :
    (vlan_cidr : Dict (Networks ips)) × (get_vlan_cidr_map ips config_db ≡ ok vlan_cidr)
    × HasNeighbour ips vlan_cidr arp_entries ("72-06-00-01-00-08" ∷ [])
    × (after : Files String) × (left : List (Dict String)) × (filter_fdb_entries ips "fdb.json"
          (some "fdb.json-1")
          arp_entries
          config_db
          files
        ≡ ok after)
    × (lookup "fdb.json" after ≡ some left)
    × Selected (Known ("72-06-00-01-00-08" ∷ [])) (known ∷ unknown ∷ []) left
    × ((after ≡ files) ⊎ (lookup "fdb.json-1" after ≡ some (known ∷ unknown ∷ [])))
unfolding lookup
lookup-filter_fdb_entries_example =
    lookup-filter_fdb_entries ips "fdb.json" "fdb.json-1" arp_entries config_db files
      ("72-06-00-01-00-08" ∷ []) (known ∷ unknown ∷ []) refl arp_map refl
