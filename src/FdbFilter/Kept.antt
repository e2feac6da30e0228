-- ===== src/FdbFilter/Kept.antt =====
-- fdbutil/filter_fdb_entries.py: the entries that are left in the file.
use sonic_utility.Base.{
  ◌↔◌, true, ◌≡◌, refl, sym, ap, ◌∙◌, ◌≤◌, String, false, List, [], ◌∷◌, some, ◌==◌, ltb, length,
  ◌⊎◌, inl, inr, arith, eq_iff, Bool-cases,
}
use sonic_utility.Base.Dict.{Dict, lookup, insert, remove, lookup-insert}
use sonic_utility.Base.Split.{split, contains, elem, upper}
use sonic_utility.Base.Result.{ok}
use sonic_utility.DbMigrator.Databases.{Entry}
use sonic_utility.FdbFilter.Neighbours.{Any, Neighbour, elem-get_arp_entries_map}
use sonic_utility.FdbFilter.{
  Ipaddress, Networks, get_vlan_cidr_map, get_arp_entries_map, filter_fdb_entry, filtered, last,
  Files, write_filtered, filter_fdb_entries,
}

length-filtered :
    {V : Type 0} (arp_map : List String) (l : List (Dict V))
    → length (filtered arp_map l) ≤ length l
unfolding filtered
length-filtered arp_map [] = ground arith
length-filtered arp_map (e ∷ l) = ground (arith, length-filtered arp_map l)

-- Where nothing is dropped, the entries are the same.
filtered_all :
    {V : Type 0} (arp_map : List String) (l : List (Dict V))
    → ltb (length (filtered arp_map l)) (length l) ≡ false
    → filtered arp_map l ≡ l
unfolding filtered
filtered_all arp_map [] h = refl
filtered_all arp_map (e ∷ l) h = elim (Bool-cases (filter_fdb_entry arp_map e)) [
  | inl y ↦ let rest = filtered_all arp_map l in ground arith
  | inr n ↦ ground (arith, length-filtered arp_map l)
]

-- The first key of an entry that has FDB_TABLE in it ends, after its last colon, in the address of a
-- host of the map, in upper case.
pub data Known {V : Type 0} (arp_map : List String) : Dict V → Type 0 where
  here :
      (key : String) (v : V) (rest : Dict V)
      → contains "FDB_TABLE" key ≡ true
      → elem (upper (last "" (split ":" key))) arp_map ≡ true
      → Known arp_map ((key, v) ∷ rest)
  there :
      (key : String) (v : V) (rest : Dict V)
      → contains "FDB_TABLE" key ≡ false
      → Known arp_map rest
      → Known arp_map ((key, v) ∷ rest)

-- `out` has the entries of a list for which `P` holds, in their order.
pub data Selected {E : Type 0} (P : E → Type 0) : List E → List E → Type 0 where
  none_left : Selected P [] []
  kept : (e : E) (l out : List E) → P e → Selected P l out → Selected P (e ∷ l) (e ∷ out)
  dropped : (e : E) (l out : List E) → ¬ P e → Selected P l out → Selected P (e ∷ l) out

filter-Known :
    {V : Type 0} (arp_map : List String) (e : Dict V)
    → filter_fdb_entry arp_map e ≡ true
    → Known arp_map e
unfolding filter_fdb_entry
filter-Known arp_map [] h = ground arith
filter-Known arp_map ((key, v) ∷ e) h = elim (Bool-cases (contains "FDB_TABLE" key)) [
  | inl y ↦ here key v e y (rw (y) at (h))
  | inr n ↦ there key v e n (filter-Known arp_map e (rw (n) at (h)))
]

Known-filter :
    {V : Type 0} (arp_map : List String) (e : Dict V)
    → Known arp_map e
    → filter_fdb_entry arp_map e ≡ true
unfolding filter_fdb_entry
Known-filter arp_map [] k = elim k [ ]
Known-filter arp_map ((key, v) ∷ e) (here _ _ _ y m) = rw (y) m
Known-filter arp_map ((key, v) ∷ e) (there _ _ _ n k) = rw (n) (Known-filter arp_map e k)

filtered-Selected :
    {V : Type 0} (arp_map : List String) (l : List (Dict V))
    → Selected (Known arp_map) l (filtered arp_map l)
unfolding filtered
filtered-Selected arp_map [] = none_left
filtered-Selected arp_map (e ∷ l) = elim (Bool-cases (filter_fdb_entry arp_map e)) [
  | inl y ↦ rw (y) (kept e l _ (filter-Known arp_map e y) (filtered-Selected arp_map l))
  | inr n ↦ rw (n) (
      dropped e l _ (λ k. let t = Known-filter arp_map e k in ground arith)
        (filtered-Selected arp_map l))
]

-- The hosts of the map are those of the neighbours in ARP that are in the network of their VLAN.
abbrev pub HasNeighbour :
    {Net : Type 0} (ips : Ipaddress Net)
    → Dict (Networks ips)
    → List (Dict Entry)
    → List String
    → Type 0
HasNeighbour ips vlan_cidr arp_entries arp_map =
    (mac : String) → (elem mac arp_map ≡ true) ↔ Any (Any (Neighbour ips vlan_cidr mac)) arp_entries

-- If the entries of ARP are read without an exception and the file is there, it has afterwards those
-- of its entries, in their order, whose host is known: the part of the first FDB_TABLE key after its
-- last colon, in upper case, is the host of a neighbour in ARP that is in the network of its VLAN, and
-- every such host is known. This is so whether or not the file was written again; where it was, the
-- backup has all entries as they were, if its name is another one.
pub lookup-filter_fdb_entries :
    {V Net : Type 0} (ips : Ipaddress Net) (fdb_filename backup : String)
    (arp_entries : List (Dict Entry)) (config_db : Dict (Dict Entry)) (files : Files V)
    (arp_map : List String) (fdb_entries : List (Dict V))
    → backup == fdb_filename ≡ false
    → get_arp_entries_map ips arp_entries config_db ≡ ok arp_map
    → lookup fdb_filename files ≡ some fdb_entries
    → (vlan_cidr : Dict (Networks ips)) × (get_vlan_cidr_map ips config_db ≡ ok vlan_cidr)
      × HasNeighbour ips vlan_cidr arp_entries arp_map
      × (after : Files V) × (left : List (Dict V)) × (filter_fdb_entries ips fdb_filename
            (some backup)
            arp_entries
            config_db
            files
          ≡ ok after)
      × (lookup fdb_filename after ≡ some left)
      × Selected (Known arp_map) fdb_entries left
      × ((after ≡ files) ⊎ (lookup backup after ≡ some fdb_entries))
unfolding filter_fdb_entries write_filtered
lookup-filter_fdb_entries ips fdb_filename backup arp_entries config_db files arp_map fdb_entries
      other a f =
    let new = filtered arp_map fdb_entries in
    let (vlan_cidr, nets, known) = elem-get_arp_entries_map ips arp_entries config_db a in
    elim (Bool-cases (ltb (length new) (length fdb_entries))) [
      | inr n ↦ (
        vlan_cidr,
        nets,
        known,
        files,
        new,
        rw (a) (rw (f) (rw (n) refl)),
        f ∙ ap some (sym (filtered_all arp_map fdb_entries n)),
        filtered-Selected arp_map fdb_entries,
        inl refl,
      )
      | inl y ↦
          let moved = insert backup fdb_entries (remove fdb_filename files) in
          (
            vlan_cidr,
            nets,
            known,
            insert fdb_filename new moved,
            new,
            rw (a) (rw (f) (rw (y) refl)),
            ground (
              arith,
              lookup-insert fdb_filename fdb_filename new moved,
              eq_iff fdb_filename fdb_filename,
            ),
            filtered-Selected arp_map fdb_entries,
            inr (
                ground (
                  arith,
                  lookup-insert fdb_filename backup new moved,
                  lookup-insert backup backup fdb_entries (remove fdb_filename files),
                  eq_iff backup backup,
                  eq_iff fdb_filename backup,
                  eq_iff backup fdb_filename,
                )),
          )
    ]
