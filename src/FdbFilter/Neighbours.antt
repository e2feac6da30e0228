-- ===== src/FdbFilter/Neighbours.antt =====
-- fdbutil/filter_fdb_entries.py: which hosts get_arp_entries_map gathers.
use sonic_utility.Base.{
  ◌≡◌, sym, ap, ◌∙◌, subst, ◌⊎◌, ◌↔◌, inl, inr, String, Bool, true, false, List, [], ◌∷◌, some,
  ◌==◌, if◌then◌else◌, arith, eq_iff, Bool-cases, Option-cases,
}
use sonic_utility.Base.Dict.{Dict, lookup}
use sonic_utility.Base.Split.{contains, elem, upper}
use sonic_utility.Base.Text.{replace}
use sonic_utility.Base.Result.{Result, ok, >>=-eq-ok, ok-injective}
use sonic_utility.Base.Fault.{Fault}
use mathlib.Core.Option.{some-injective}
use sonic_utility.DbMigrator.Databases.{Entry}
use sonic_utility.FdbFilter.{
  Ipaddress, Networks, three, in_network, with_mac, get_vlan_cidr_map, add_arp, add_arps, add_all,
  get_arp_entries_map,
}

false-true : ◌≡◌ {A = Bool} false true → ⊥
false-true e = ground arith

-- One of a list has the property.
abbrev pub Any : {A : Type 0} → (A → Type 0) → List A → Type 0
Any P [] = ⊥
Any P (x ∷ xs) = P x ⊎ Any P xs

module _ {Net : Type 0} (ips : Ipaddress Net) (vlan_cidr : Dict (Networks ips)) (mac : String) where
  -- An entry of the neighbour table, with the VLAN and the address of its key in the network of the
  -- VLAN, and the host's address, with dashes and in upper case.
  pub record Neighbour (e : String × Entry) : Type 0 where
    pub table : String
    pub vlan : String
    pub ip : String
    pub neigh : String
    pub key : three e.0 ≡ ok (table, vlan, ip)
    pub in_key : contains "NEIGH_TABLE" e.0 ≡ true
    pub in_table : contains "NEIGH_TABLE" table ≡ true
    pub inside : in_network ips (lookup vlan vlan_cidr) ip ≡ ok true
    pub has : lookup "neigh" e.1 ≡ some neigh
    pub host : upper (replace ":" "-" neigh) ≡ mac

  -- `out` has the host if the list before had it or `P` holds, and only then.
  abbrev Gains : Type 0 → List String → List String → Type 0
  Gains P before out = (elem mac out ≡ true) ↔ ((elem mac before ≡ true) ⊎ P)

  Gains-none : {P : Type 0} (before : List String) → ¬ P → Gains P before before
  Gains-none before absent = (λ h. inl h, λ s. elim s [ inl h ↦ h | inr p ↦ absurd (absent p) ])

  Gains-mac :
      (P : Type 0) (found : String) (before : List String)
      → (found ≡ mac → P)
      → (P → found ≡ mac)
      → Gains P before (found ∷ before)
  unfolding elem
  Gains-mac P found before to from = elim (Bool-cases (found == mac)) [
    | inl y ↦ (λ h. inr (to ((eq_iff found mac).0 y)), λ s. ground arith)
    | inr n ↦ (
      λ h. inl (ground arith),
      λ s. elim s [
        | inl h ↦ ground arith
        | inr p ↦ let e = from p in ground (arith, eq_iff found mac)
      ],
    )
  ]

  Gains-then : {P Q : Type 0} (a b c : List String) → Gains P a b → Gains Q b c → Gains (P ⊎ Q) a c
  Gains-then a b c p q = (
    λ h. elim (q.0 h) [
      | inr y ↦ inr (inr y)
      | inl g ↦ elim (p.0 g) [ inl f ↦ inl f | inr x ↦ inr (inl x) ]
    ],
    λ s. elim s [
      | inl f ↦ q.1 (inl (p.1 (inl f)))
      | inr t ↦ elim t [ inl x ↦ q.1 (inl (p.1 (inr x))) | inr y ↦ q.1 (inr y) ]
    ],
  )

  -- What a key splits into is one.
  same_parts :
      {r : Result Fault (String × String × String)} {a b : String × String × String}
      → r ≡ ok a
      → r ≡ ok b
      → a ≡ b
  same_parts e f = ok-injective (sym e ∙ f)

  module _ (key : String) (config : Entry) (before : List String) where
    Gains-known :
        (table vlan ip : String)
        → three key ≡ ok (table, vlan, ip)
        → contains "NEIGH_TABLE" key ≡ true
        → contains "NEIGH_TABLE" table ≡ true
        → in_network ips (lookup vlan vlan_cidr) ip ≡ ok true
        → Gains (Neighbour (key, config)) before (with_mac ips (lookup "neigh" config) before)
    Gains-known table vlan ip parts in_key in_table inside =
        elim (Option-cases (lookup "neigh" config)) [
          | inl missing ↦
              rw (missing) (Gains-none before (λ n. let h = Neighbour.has n in ground arith))
          | inr (neigh, has) ↦ rw (has) (
              Gains-mac (Neighbour (key, config)) (upper (replace ":" "-" neigh)) before
                (λ e. record {
                  table = table;
                  vlan = vlan;
                  ip = ip;
                  neigh = neigh;
                  key = parts;
                  in_key = in_key;
                  in_table = in_table;
                  inside = inside;
                  has = has;
                  host = e;
                })
                (λ n.
                  let h = Neighbour.has n in
                  let same : n.neigh ≡ neigh = some-injective n.neigh neigh (sym h ∙ has) in
                  ap (λ x. upper (replace ":" "-" x)) (sym same) ∙ n.host))
        ]

    -- A key that is in no network, or whose table has another name, gains nothing.
    not-Neighbour :
        (table vlan ip : String)
        → three key ≡ ok (table, vlan, ip)
        → (contains "NEIGH_TABLE" table ≡ false)
          ⊎ (in_network ips (lookup vlan vlan_cidr) ip ≡ ok false)
        → ¬ Neighbour (key, config)
    not-Neighbour table vlan ip parts (inl named) n =
        let same = ap (λ t. contains "NEIGH_TABLE" t.0) (same_parts parts n.key) in
        let there = n.in_table in ground arith
    not-Neighbour table vlan ip parts (inr outside) n =
        let same = ap (λ t. in_network ips (lookup t.1 vlan_cidr) t.2) (same_parts parts n.key) in
        false-true (ok-injective (sym outside ∙ same ∙ n.inside))

    by_answer :
        (table vlan ip : String) (known : Bool)
        → three key ≡ ok (table, vlan, ip)
        → contains "NEIGH_TABLE" key ≡ true
        → (if contains "NEIGH_TABLE" table
            then in_network ips (lookup vlan vlan_cidr) ip
            else ok false)
          ≡ ok known
        → Gains
            (Neighbour (key, config))
            before
            (if known then with_mac ips (lookup "neigh" config) before else before)
    by_answer table vlan ip true parts in_key asked =
        elim (Bool-cases (contains "NEIGH_TABLE" table)) [
          | inl y ↦ Gains-known table vlan ip parts in_key y (rw (y) at (asked))
          | inr n ↦ absurd (false-true (ok-injective (rw (n) at (asked))))
        ]
    by_answer table vlan ip false parts in_key asked =
        elim (Bool-cases (contains "NEIGH_TABLE" table)) [
          | inl y ↦ Gains-none before (not-Neighbour table vlan ip parts (inr (rw (y) at (asked))))
          | inr n ↦ Gains-none before (not-Neighbour table vlan ip parts (inl n))
        ]

    add_arp-Gains :
        {out : List String}
        → add_arp ips vlan_cidr key config before ≡ ok out
        → Gains (Neighbour (key, config)) before out
    unfolding add_arp
    add_arp-Gains e = elim (Bool-cases (contains "NEIGH_TABLE" key)) [
      | inr n ↦
          subst (Gains (Neighbour (key, config)) before) (ok-injective (rw (n) at (e)))
            (Gains-none before (λ x. let there = Neighbour.in_key x in ground arith))
      | inl y ↦
          let ((table, vlan, ip), parts, e_1) = >>=-eq-ok (three key) _ (rw (y) at (e)) in
          let (known, asked, e_2) = >>=-eq-ok _ _ e_1 in
          subst (Gains (Neighbour (key, config)) before) (ok-injective e_2)
            (by_answer table vlan ip known parts y asked)
    ]

  -- The whole map: the hosts of the neighbours, and no others.
  add_arps-Gains :
      (arp : Dict Entry) (before : List String) {out : List String}
      → add_arps ips vlan_cidr arp before ≡ ok out
      → Gains (Any Neighbour arp) before out
  unfolding add_arps
  add_arps-Gains [] before e = subst (Gains ⊥ before) (ok-injective e) (Gains-none before (λ x. x))
  add_arps-Gains ((key, config) ∷ arp) before e =
      let (next, added, e_1) = >>=-eq-ok (add_arp ips vlan_cidr key config before) _ e in
      Gains-then before next _ (add_arp-Gains key config before added) (add_arps-Gains arp next e_1)

  pub add_all-Gains :
      (arps : List (Dict Entry)) (before : List String) {out : List String}
      → add_all ips vlan_cidr arps before ≡ ok out
      → Gains (Any (Any Neighbour) arps) before out
  unfolding add_all
  add_all-Gains [] before e = subst (Gains ⊥ before) (ok-injective e) (Gains-none before (λ x. x))
  add_all-Gains (arp ∷ arps) before e =
      let (next, added, e_1) = >>=-eq-ok (add_arps ips vlan_cidr arp before) _ e in
      Gains-then before next _ (add_arps-Gains arp before added) (add_all-Gains arps next e_1)

-- The map of ARP has the hosts of the neighbours that are in the networks of their VLANs, and no others.
pub elem-get_arp_entries_map :
    {Net : Type 0} (ips : Ipaddress Net) (arp_entries : List (Dict Entry))
    (config_db : Dict (Dict Entry)) {arp_map : List String}
    → get_arp_entries_map ips arp_entries config_db ≡ ok arp_map
    → (vlan_cidr : Dict (Networks ips)) × (get_vlan_cidr_map ips config_db ≡ ok vlan_cidr)
      × ((mac : String)
          → (elem mac arp_map ≡ true) ↔ Any (Any (Neighbour ips vlan_cidr mac)) arp_entries)
unfolding get_arp_entries_map elem
elem-get_arp_entries_map ips arp_entries config_db e =
    let (vlan_cidr, read, e_1) = >>=-eq-ok (get_vlan_cidr_map ips config_db) _ e in
    (
      vlan_cidr,
      read,
      λ mac.
          let g = add_all-Gains ips vlan_cidr mac arp_entries [] e_1 in
          (λ h. elim (g.0 h) [ inl x ↦ absurd (false-true x) | inr p ↦ p ], λ p. g.1 (inr p)),
    )
