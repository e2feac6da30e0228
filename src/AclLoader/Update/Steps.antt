-- ===== src/AclLoader/Update/Steps.antt =====
-- acl_loader/main.py: what each loop over keys makes of a field, and which keys the loops run over.
use sonic_utility.Base.{
  ◌≡◌, refl, sym, ap, ◌∙◌, subst, String, Bool, true, false, not, ◌&&◌, ◌||◌, List, [], ◌∷◌, Option,
  none, some, ◌==◌, if◌then◌else◌, or_else, is_some, arith, eq_iff, Bool-cases, Option-cases, inl,
  inr,
}
use sonic_utility.Base.Dict.{Dict, lookup, IsUnique}
use sonic_utility.Base.Split.{elem}
use sonic_utility.Base.Result.{Result, ok, err, >>=-eq-ok, ok-injective}
use sonic_utility.Base.Fault.{Fault, keep_if}
use sonic_utility.DbMigrator.Databases.{Databases, Entry, field, Laws, for_each, for_keys}
use sonic_utility.AclLoader.Update.{
  Loader, keys, entry_of, kept, has_value, has_all, same_entry, delete_rule, add_rule, replace_rule,
}

pub elem-keys : (k : String) (d : Dict Entry) → elem k (keys d) ≡ is_some (lookup k d)
unfolding elem keys lookup
elem-keys k [] = refl
elem-keys k ((j, e) ∷ d) = ground (arith, elem-keys k d)

pub elem-kept :
    (k : String) (test : String → Bool) (ks : List String)
    → elem k (kept test ks) ≡ elem k ks && test k
unfolding elem kept
elem-kept k test [] = refl
elem-kept k test (j ∷ ks) = elim (Bool-cases (j == k)) [
  | inl e ↦
      let same : test j ≡ test k = ap test ((eq_iff j k).0 e) in ground (arith, elem-kept k test ks)
  | inr e ↦ ground (arith, elem-kept k test ks)
]

abbrev pub answer : Result Fault Bool → Bool
answer (ok b) = b
answer (err e) = false

one_more :
    (k j : String) (ks rest : List String) (b : Bool) {r : Result Fault Bool}
    → (j ≡ k → r ≡ ok b)
    → elem k rest ≡ elem k ks && answer r
    → elem k (if b then j ∷ rest else rest) ≡ ((j == k) || elem k ks) && answer r
unfolding elem
one_more k j ks rest true h e = elim (Bool-cases (j == k)) [
  | inl hit ↦ ground (arith, h ((eq_iff j k).0 hit))
  | inr miss ↦ ground arith
]
one_more k j ks rest false h e = elim (Bool-cases (j == k)) [
  | inl hit ↦ ground (arith, h ((eq_iff j k).0 hit))
  | inr miss ↦ ground arith
]

-- Where the loop ends without an exception, it keeps what the test accepts.
pub elem-keep_if :
    (k : String) (test : String → Result Fault Bool) (ks : List String) {out : List String}
    → keep_if test ks ≡ ok out
    → elem k out ≡ elem k ks && answer (test k)
unfolding elem keep_if
elem-keep_if k test [] e = subst (λ l. elem k l ≡ false) (ok-injective e) refl
elem-keep_if k test (j ∷ ks) {out} e =
    let (b, tested, e1) = >>=-eq-ok (test j) _ e in
    let (rest, looped, e2) = >>=-eq-ok (keep_if test ks) _ e1 in
    let one = ok-injective e2 in
    subst (λ l. elem k l ≡ ((j == k) || elem k ks) && answer (test k)) one
      (one_more k j ks rest b (λ same. subst (λ x. test x ≡ ok b) same tested)
        (elem-keep_if k test ks looped))

-- Where the test has an answer for each key, the loop ends without an exception.
pub keep_if-ends :
    (test : String → Result Fault Bool) (ks : List String)
    → ((k : String) → elem k ks ≡ true → (b : Bool) × (test k ≡ ok b))
    → (out : List String) × (keep_if test ks ≡ ok out)
unfolding elem keep_if
keep_if-ends test [] h = ([], refl)
keep_if-ends test (j ∷ ks) h =
    let (b, tested) = h j (ground (arith, eq_iff j j)) in
    let (rest, looped) = keep_if-ends test ks (λ k e. h k (ground arith)) in
    (if b then j ∷ rest else rest, rw (tested, looped) refl)

has_value-some : (w : String) (o : Option String) → has_value w o ≡ true → o ≡ some w
has_value-some w none h = ground arith
has_value-some w (some v) h = ap some ((eq_iff v w).0 h)

has_all-lookup :
    (f : String) (d e : Entry) {v : String}
    → has_all d e ≡ true
    → lookup f d ≡ some v
    → lookup f e ≡ some v
unfolding has_all lookup
has_all-lookup f [] e h l = ground arith
has_all-lookup f ((j, w) ∷ d) e {v} h l =
    ground (arith, eq_iff j f, has_all-lookup f d e {v = v}, has_value-some w (lookup j e))

-- Dictionaries that are equal have the same fields.
pub lookup-same_entry : (f : String) (d e : Entry) → same_entry d e ≡ true → lookup f d ≡ lookup f e
unfolding same_entry
lookup-same_entry f d e h = elim (Option-cases (lookup f d)) [
  | inl n ↦ elim (Option-cases (lookup f e)) [
    | inl m ↦ n ∙ sym m
    | inr (v, m) ↦ ground (arith, has_all-lookup f e d {v = v})
  ]
  | inr (v, n) ↦ ground (arith, has_all-lookup f d e {v = v})
]

module _ {S : Type 0} (db : Databases S) (laws : Laws db) (k f : String) where
  pub field-delete_rules :
      (ks : List String) (s : S)
      → field db "ACL_RULE" k f (for_keys (delete_rule db) ks s)
        ≡ (if elem k ks then none else field db "ACL_RULE" k f s)
  unfolding for_keys delete_rule elem lookup
  field-delete_rules [] s = refl
  field-delete_rules (j ∷ ks) s = ground (
    arith,
    field-delete_rules ks (db.set_entry "ACL_RULE" j none s),
    laws.field-set_entry "ACL_RULE" k f "ACL_RULE" j none s,
  )

  pub field-add_rules :
      (rules : Dict Entry) (ks : List String) (s : S)
      → field db "ACL_RULE" k f (for_keys (add_rule db rules) ks s) ≡ (
          if elem k ks
          then or_else (lookup f (entry_of k rules)) (field db "ACL_RULE" k f s)
          else field db "ACL_RULE" k f s)
  unfolding for_keys add_rule elem
  field-add_rules rules [] s = refl
  field-add_rules rules (j ∷ ks) s = ground (
    arith,
    field-add_rules rules ks (db.mod_entry "ACL_RULE" j (entry_of j rules) s),
    laws.field-mod_entry "ACL_RULE" k f "ACL_RULE" j (entry_of j rules) s,
    eq_iff j k,
  )

  pub field-replace_rules :
      (l : Loader) (ks : List String) (s : S)
      → field db "ACL_RULE" k f (for_keys (replace_rule db l) ks s) ≡ (
          if elem k ks && not (same_entry (entry_of k l.rules_info) (entry_of k l.rules_db_info))
          then lookup f (entry_of k l.rules_info)
          else field db "ACL_RULE" k f s)
  unfolding for_keys replace_rule elem
  field-replace_rules l [] s = refl
  field-replace_rules l (j ∷ ks) s = ground (
    arith,
    field-replace_rules l ks (replace_rule db l j s),
    laws.field-set_entry "ACL_RULE" k f "ACL_RULE" j (some (entry_of j l.rules_info)) s,
    eq_iff j k,
  )

  -- mod_config: each rule of the file.
  pub field-mod_rules :
      (d : Dict Entry) (s : S)
      → IsUnique d
      → field db "ACL_RULE" k f (for_each (db.mod_entry "ACL_RULE") d s)
        ≡ or_else (lookup f (entry_of k d)) (field db "ACL_RULE" k f s)
  unfolding for_each lookup
  field-mod_rules [] s u = refl
  field-mod_rules ((j, e) ∷ d) s u = ground (
    arith,
    field-mod_rules d (db.mod_entry "ACL_RULE" j e s) u.1,
    laws.field-mod_entry "ACL_RULE" k f "ACL_RULE" j e s,
    eq_iff j k,
  )
