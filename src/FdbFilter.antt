-- ===== src/FdbFilter.antt =====
-- fdbutil/filter_fdb_entries.py: the forwarding entries of hosts that ARP does not know are dropped.
pub mod Neighbours
pub mod Kept
mod Tests
use Prim.Native.String.{◌++◌ as str_append}
use sonic_utility.Base.{
  ℕ, String, Bool, true, false, not, ◌&&◌, ◌||◌, List, [], ◌∷◌, Option, none, some, ◌==◌,
  if◌then◌else◌, get_or, nat_eq, ltb, length,
}
use sonic_utility.Base.Dict.{Dict, lookup, has_key, insert, remove}
use sonic_utility.Base.Split.{split, split_once, contains, elem, upper}
use sonic_utility.Base.Text.{replace, has_char}
use sonic_utility.Base.Result.{Result, ok, err, ◌>>=◌}
use sonic_utility.Base.Fault.{Fault, value_error, exception, or_fault}
use sonic_utility.DbMigrator.Databases.{Entry}

-- What the program asks of Python's ipaddress: the version and the network of an interface, whether an
-- address is in a network, and the networks of the addresses 0.0.0.0 and ::.
pub record Ipaddress (Net : Type 0) : Type 0 where
  pub ip_interface : String → Result Fault (ℕ × Net)
  pub contains_address : Net → String → Result Fault Bool
  pub zero_v4 : Net
  pub zero_v6 : Net

-- a, b = text.split(c)
abbrev pub two : List String → Result Fault (String × String)
two [] = err value_error
two (a ∷ []) = err value_error
two (a ∷ b ∷ []) = ok (a, b)
two (a ∷ b ∷ c ∷ l) = err value_error

-- a, b, c = text.split(":", 2)
unfoldable pub three : String → Result Fault (String × String × String)
three key = do
  (table, rest) ← two (split_once ":" key)
  (vlan, ip) ← two (split_once ":" rest)
  ok (table, vlan, ip)

-- l[-1], for a list that is not empty
abbrev pub last : String → List String → String
last x [] = x
last x (y ∷ l) = last y l

module _ {Net : Type 0} (ips : Ipaddress Net) where
  abbrev pub Networks : Type 0
  Networks = Net × Net

  -- vlan_cidr[vlan][version], where the versions are 4 and 6
  abbrev network_of : ℕ → Networks → Net
  network_of version n = if nat_eq version 4 then n.0 else n.1

  abbrev with_network : ℕ → Net → Networks → Networks
  with_network version net n = if nat_eq version 4 then (net, n.1) else (n.0, net)

  -- One key of VLAN_INTERFACE.
  unfoldable pub add_cidr : Dict Entry → String → Dict Networks → Result Fault (Dict Networks)
  add_cidr vlans vlan_key vlan_cidr =
      let added = (do
        (vlan, cidr) ← two (split "|" vlan_key)
        let interface = ips.ip_interface cidr
        let nets = get_or (lookup vlan vlan_cidr) (ips.zero_v4, ips.zero_v6)
        let known = (do
          (version, net) ← interface
          ok (insert vlan (with_network version net nets) vlan_cidr))
        if has_key vlan vlans then known else ok vlan_cidr) in
      if has_char "|" vlan_key then added else ok vlan_cidr

  unfoldable pub add_cidrs : Dict Entry → Dict Entry → Dict Networks → Result Fault (Dict Networks)
  add_cidrs vlans [] vlan_cidr = ok vlan_cidr
  add_cidrs vlans ((vlan_key, e) ∷ interfaces) vlan_cidr = do
    next ← add_cidr vlans vlan_key vlan_cidr
    add_cidrs vlans interfaces next

  abbrev cidrs_of : Option (Dict Entry) → Option (Dict Entry) → Result Fault (Dict Networks)
  cidrs_of none vlans = ok []
  cidrs_of (some interfaces) none = ok []
  cidrs_of (some interfaces) (some vlans) = add_cidrs vlans interfaces []

  unfoldable pub get_vlan_cidr_map : Dict (Dict Entry) → Result Fault (Dict Networks)
  get_vlan_cidr_map config_db =
      cidrs_of (lookup "VLAN_INTERFACE" config_db) (lookup "VLAN" config_db)

  abbrev pub in_network : Option Networks → String → Result Fault Bool
  in_network none ip = ok false
  in_network (some nets) ip = do
    (version, net) ← ips.ip_interface ip
    ips.contains_address (network_of version nets) ip

  -- The addresses of hosts are kept as in the forwarding entries.
  abbrev pub with_mac : Option String → List String → List String
  with_mac none arp_map = arp_map
  with_mac (some neigh) arp_map = upper (replace ":" "-" neigh) ∷ arp_map

  -- One entry of ARP; the keys of arp_map are a list.
  unfoldable pub add_arp : Dict Networks → String → Entry → List String → Result Fault (List String)
  add_arp vlan_cidr key config arp_map =
      let added = (do
        (table, vlan, ip) ← three key
        known ←
            if contains "NEIGH_TABLE" table then in_network (lookup vlan vlan_cidr) ip else ok false
        ok (if known then with_mac (lookup "neigh" config) arp_map else arp_map)) in
      if contains "NEIGH_TABLE" key then added else ok arp_map

  unfoldable pub add_arps : Dict Networks → Dict Entry → List String → Result Fault (List String)
  add_arps vlan_cidr [] arp_map = ok arp_map
  add_arps vlan_cidr ((key, config) ∷ arp) arp_map = do
    next ← add_arp vlan_cidr key config arp_map
    add_arps vlan_cidr arp next

  unfoldable pub add_all :
      Dict Networks → List (Dict Entry) → List String → Result Fault (List String)
  add_all vlan_cidr [] arp_map = ok arp_map
  add_all vlan_cidr (arp ∷ arps) arp_map = do
    next ← add_arps vlan_cidr arp arp_map
    add_all vlan_cidr arps next

  unfoldable pub get_arp_entries_map :
      List (Dict Entry) → Dict (Dict Entry) → Result Fault (List String)
  get_arp_entries_map arp_entries config_db = do
    vlan_cidr ← get_vlan_cidr_map config_db
    add_all vlan_cidr arp_entries []

-- The first key that has FDB_TABLE in it decides.
unfoldable pub filter_fdb_entry : {V : Type 0} → List String → Dict V → Bool
filter_fdb_entry arp_map [] = false
filter_fdb_entry arp_map ((key, v) ∷ fdb_entry) =
    let rest = filter_fdb_entry arp_map fdb_entry in
    if contains "FDB_TABLE" key then elem (upper (last "" (split ":" key))) arp_map else rest

unfoldable pub filtered : {V : Type 0} → List String → List (Dict V) → List (Dict V)
filtered arp_map [] = []
filtered arp_map (e ∷ l) =
    let rest = filtered arp_map l in if filter_fdb_entry arp_map e then e ∷ rest else rest

-- The files of forwarding entries by their names.
abbrev pub Files : Type 0 → Type 0
Files V = Dict (List (Dict V))

module _ {V : Type 0} where
  -- `backup` is the name with the time, or none where no backup is asked for.
  unfoldable pub write_filtered :
      String → Option String → List (Dict V) → List (Dict V) → Files V → Files V
  write_filtered fdb_filename none fdb_entries new files = insert fdb_filename new files
  write_filtered fdb_filename (some backup) fdb_entries new files =
      insert fdb_filename new (insert backup fdb_entries (remove fdb_filename files))

  unfoldable pub filter_fdb_entries :
      {Net : Type 0}
      → Ipaddress Net
      → String
      → Option String
      → List (Dict Entry)
      → Dict (Dict Entry)
      → Files V
      → Result Fault (Files V)
  filter_fdb_entries ips fdb_filename backup arp_entries config_db files = do
    arp_map ← get_arp_entries_map ips arp_entries config_db
    fdb_entries ← or_fault exception (lookup fdb_filename files)
    let new = filtered arp_map fdb_entries
    let written = write_filtered fdb_filename backup fdb_entries new files
    ok (if ltb (length new) (length fdb_entries) then written else files)
