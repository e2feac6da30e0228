-- ===== src/DbMigrator/Tables/Each.antt =====
-- scripts/db_migrator.py: a loop over the keys of a table that writes to the entry of the key.
use sonic_utility.Base.{
  ◌≡◌, refl, ◌∙◌, String, false, [], ◌∷◌, Option, none, some, ◌==◌, arith, eq_iff, Bool-cases, inl,
  inr,
}
use sonic_utility.Base.Dict.{Dict, lookup, IsUnique}
use sonic_utility.DbMigrator.Databases.{Databases, Entry, field, for_each}

-- What the round for a key makes of a field, where there is a round for it.
abbrev pub after_round :
    (Entry → Option String → Option String) → Option Entry → Option String → Option String
after_round g none o = o
after_round g (some e) o = g e o

module _ {S : Type 0} (db : Databases S) (t k f : String) (body : String → Entry → S → S) where
  pub field-for_each_same :
      (d : Dict Entry) (s : S)
      → ((j : String) (e : Entry) (s : S) → field db t k f (body j e s) ≡ field db t k f s)
      → field db t k f (for_each body d s) ≡ field db t k f s
  unfolding for_each
  field-for_each_same [] s same = refl
  field-for_each_same ((j, e) ∷ d) s same = field-for_each_same d (body j e s) same ∙ same j e s

  pub field-for_each :
      (g : Entry → Option String → Option String) (d : Dict Entry) (s : S)
      → ((e : Entry) (s : S) → field db t k f (body k e s) ≡ g e (field db t k f s))
      → ((j : String) (e : Entry) (s : S)
          → (j == k) ≡ false
          → field db t k f (body j e s) ≡ field db t k f s)
      → IsUnique d
      → field db t k f (for_each body d s) ≡ after_round g (lookup k d) (field db t k f s)
  unfolding for_each lookup
  field-for_each g [] s own other u = refl
  field-for_each g ((j, e) ∷ d) s own other u = elim (Bool-cases (j == k)) [
    | inl hit ↦
        ground
          (arith, field-for_each g d (body j e s) own other u.1, (eq_iff j k).0 hit, own e s, u.0)
    | inr miss ↦ ground (arith, field-for_each g d (body j e s) own other u.1, other j e s miss)
  ]
