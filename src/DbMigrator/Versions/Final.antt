-- ===== src/DbMigrator/Versions/Final.antt =====
-- scripts/db_migrator.py: the version that a migration leaves in CONFIG_DB.
use sonic_utility.Base.{
  ◌≡◌, ◌≢◌, ◌⊎◌, ◌&&◌, refl, sym, ap, ◌∙◌, subst, ℕ, zero, suc, String, Bool, true, false, Option,
  none, some, List, [], ◌∷◌, arith, inl, inr, ◌==◌, eq_iff, if◌then◌else◌, Option-cases, Bool-cases,
  is_nil,
}
use sonic_utility.Base.Text.{is_empty}
use sonic_utility.Base.Dict.{Dict, lookup}
use sonic_utility.Base.Split.{contains}
use sonic_utility.Base.Result.{Result, ok, ok-injective}
use sonic_utility.Base.Exec.{pure, lift, query, ◌>>=◌, bind-eq-ok}
use sonic_utility.Base.Fault.{Fault, exception, or_fault}
use sonic_utility.DbMigrator.Databases.{Databases, Entry, Laws, field, get_entry, for_keys}
use sonic_utility.DbMigrator.Missing.{migrate_init_cfg, migrate_copp_table}
use sonic_utility.DbMigrator.Missing.Added.{HasUniqueKeys, field-migrate_init_cfg}
use sonic_utility.DbMigrator.Versions.{
  Version, version_unknown, version_1_0_1, version_1_0_2, version_1_0_3, version_1_0_4,
  version_1_0_5, version_1_0_6, version_2_0_0, version_2_0_1, version_2_0_2, version_3_0_0,
  version_3_0_1, version_3_0_2, version_3_0_3, version_3_0_4, version_3_0_5, version_3_0_6,
  version_4_0_0, name_of, versions, named, next, text_of, Platform, run, round, migrate_loop,
  migrate, get_version, set_version, version_in, common_migration_ops,
}
use sonic_utility.DbMigrator.Versions.Ends.{named_sound, name_not_empty, round-next, after_loop}

-- The text that `version_in` gives.
version_in_current :
    (o : Option String) → version_in o ≡ ok "version_4_0_0" → o ≡ some "version_4_0_0"
version_in_current none h = ground arith
version_in_current (some text) h =
    let same : (if is_empty text then "version_unknown" else text) ≡ "version_4_0_0" =
      ok-injective h in
    elim (Bool-cases (is_empty text)) [
      | inl e ↦ ground (arith, eq_iff "version_unknown" "version_4_0_0", rw (e) at (same))
      | inr e ↦ ap some (rw (e) at (same))
    ]

version_in_not_empty :
    (o : Option String) {text : String} → version_in o ≡ ok text → is_empty text ≡ false
version_in_not_empty none h = ground arith
version_in_not_empty (some text) {text = out} h =
    let same : (if is_empty text then "version_unknown" else text) ≡ out = ok-injective h in
    elim (Bool-cases (is_empty text)) [
      | inl e ↦ subst (λ t. is_empty t ≡ false) (rw (e) at (same)) refl
      | inr e ↦ subst (λ t. is_empty t ≡ false) (rw (e) at (same)) e
    ]

-- What an entry of VERSIONS tells `get_version`.
read_current :
    (e : Entry)
    → (if is_nil e then ok "version_unknown" else version_in (lookup "VERSION" e))
      ≡ ok "version_4_0_0"
    → lookup "VERSION" e ≡ some "version_4_0_0"
read_current [] h = ground (arith, eq_iff "version_unknown" "version_4_0_0", ok-injective h)
read_current (x ∷ e) h = version_in_current (lookup "VERSION" (x ∷ e)) h

read_not_empty :
    (e : Entry) {text : String}
    → (if is_nil e then ok "version_unknown" else version_in (lookup "VERSION" e)) ≡ ok text
    → is_empty text ≡ false
read_not_empty [] h = subst (λ t. is_empty t ≡ false) (ok-injective h) refl
read_not_empty (x ∷ e) h = version_in_not_empty (lookup "VERSION" (x ∷ e)) h

some-injective : {A : Type 0} {a b : A} → ◌≡◌ {A = Option A} (some a) (some b) → a ≡ b
some-injective e = cc

abbrev pub IsUniqueFile : Option (Dict (Dict Entry)) → Type 0
IsUniqueFile none = Unit
IsUniqueFile (some init_db) = HasUniqueKeys init_db

module _ {S : Type 0} (db : Databases S) (laws : Laws db) (platform : Platform S) where
  -- CONFIG_DB has the present version, CURRENT_VERSION.
  abbrev pub IsCurrent : S → Type 0
  IsCurrent s = field db "VERSIONS" "DATABASE" "VERSION" s ≡ some "version_4_0_0"

  -- What the file and the platform's own step must not do: give another version.
  pub record IsSteady : Type 0 where
    pub file_keys : IsUniqueFile platform.init_cfg
    pub ports : (s : S) → IsCurrent s → IsCurrent (platform.migrate_mgmt_ports_on_s6100 s)

  at_last :
      (v : Version) {text : String} {r : Result Fault String}
      → name_of v ≡ text
      → r ≡ ok text
      → (some v ≡ some version_4_0_0) ⊎ (some v ≡ none)
      → r ≡ ok "version_4_0_0"
  unfolding name_of
  at_last v same read (inl e) = read ∙ ap ok (sym same ∙ ap name_of (some-injective e))
  at_last v same read (inr e) = ground arith

  set_version-IsCurrent : (s : S) → IsCurrent (set_version db platform version_4_0_0 s)
  unfolding set_version lookup
  set_version-IsCurrent s =
      laws.field-set_entry "VERSIONS" "DATABASE" "VERSION" "VERSIONS" "DATABASE"
        (some (("VERSION", "version_4_0_0") ∷ [])) s

  -- The last handler, or none, comes next.
  abbrev IsLast : Option Version → Type 0
  IsLast o = (o ≡ some version_4_0_0) ⊎ (o ≡ none)

  run-IsCurrent :
      (v : Version) (s : S)
      → (some v ≡ some version_4_0_0 → IsCurrent s)
      → IsLast (next v)
      → IsCurrent (run db platform v s).1
  unfolding next run ◌>>=◌
  run-IsCurrent version_unknown s h e = ground arith
  run-IsCurrent version_1_0_1 s h e = ground arith
  run-IsCurrent version_1_0_2 s h e = ground arith
  run-IsCurrent version_1_0_3 s h e = ground arith
  run-IsCurrent version_1_0_4 s h e = ground arith
  run-IsCurrent version_1_0_5 s h e = ground arith
  run-IsCurrent version_1_0_6 s h e = ground arith
  run-IsCurrent version_2_0_0 s h e = ground arith
  run-IsCurrent version_2_0_1 s h e = ground arith
  run-IsCurrent version_2_0_2 s h e = ground arith
  run-IsCurrent version_3_0_0 s h e = ground arith
  run-IsCurrent version_3_0_1 s h e = ground arith
  run-IsCurrent version_3_0_2 s h e = ground arith
  run-IsCurrent version_3_0_3 s h e = ground arith
  run-IsCurrent version_3_0_4 s h e = ground arith
  run-IsCurrent version_3_0_5 s h e = ground arith
  run-IsCurrent version_3_0_6 s h e = set_version-IsCurrent s
  run-IsCurrent version_4_0_0 s h e = h refl

  for_keys-IsCurrent :
      (keys : List String) (s : S) → IsCurrent s → IsCurrent (for_keys db.app_delete keys s)
  unfolding for_keys
  for_keys-IsCurrent [] s h = h
  for_keys-IsCurrent (k ∷ keys) s h =
      for_keys-IsCurrent keys (db.app_delete k s)
        (laws.field-app_delete "VERSIONS" "DATABASE" "VERSION" k s ∙ h)

  copp-IsCurrent : (s : S) → IsCurrent s → IsCurrent (migrate_copp_table db s)
  unfolding migrate_copp_table
  copp-IsCurrent s h = for_keys-IsCurrent (db.app_keys "COPP_TABLE:" s) s h

  init_cfg-IsCurrent :
      (init_db : Dict (Dict Entry)) (s : S)
      → HasUniqueKeys init_db
      → IsCurrent s
      → IsCurrent (migrate_init_cfg db init_db s)
  init_cfg-IsCurrent init_db s u h =
      ground (arith, field-migrate_init_cfg db laws "VERSIONS" "DATABASE" "VERSION" init_db s u)

  if-IsCurrent :
      (b : Bool) (f g : S → S) (s : S)
      → (IsCurrent s → IsCurrent (f s))
      → (IsCurrent s → IsCurrent (g s))
      → IsCurrent s
      → IsCurrent ((if b then f else g) s)
  if-IsCurrent true f g s hf hg h = hf h
  if-IsCurrent false f g s hf hg h = hg h

  read_file :
      (file : Option (Dict (Dict Entry))) {init_db : Dict (Dict Entry)}
      → or_fault exception file ≡ ok init_db
      → file ≡ some init_db
  read_file none e = ground arith
  read_file (some d) e = ap some (ok-injective e)

  common-IsCurrent :
      (s : S) {u : Unit {0}} {s' : S}
      → IsSteady
      → IsCurrent s
      → common_migration_ops db platform s ≡ (ok u, s')
      → IsCurrent s'
  unfolding common_migration_ops ◌>>=◌
  common-IsCurrent s {u} {s'} steady h e =
      let (init_db, read, rest) = bind-eq-ok (lift (or_fault exception platform.init_cfg)) _ s e in
      let file = read_file platform.init_cfg (ap (λ p. p.0) read) in
      let merged = init_cfg-IsCurrent init_db s (subst IsUniqueFile file steady.file_keys) h in
      let s1 = migrate_init_cfg db init_db s in
      let copp =
        if-IsCurrent (platform.asic_type == "mellanox") (λ x. x) (migrate_copp_table db) s1 (λ c. c)
          (copp-IsCurrent s1) merged in
      subst IsCurrent (ap (λ p. p.1) rest) (
        if-IsCurrent ((platform.asic_type == "broadcom") && contains "Force10-S6100" platform.hwsku)
          platform.migrate_mgmt_ports_on_s6100 (λ x. x) _ (steady.ports _) (λ c. c) copp)

  loop-IsCurrent :
      (fuel : ℕ) (v : Option Version) (s : S) {s' : S}
      → (IsLast v → IsCurrent s)
      → migrate_loop db platform fuel (text_of v) s ≡ (ok true, s')
      → IsCurrent s'
  unfolding migrate_loop ◌>>=◌
  loop-IsCurrent zero none s h e = ground arith
  loop-IsCurrent zero (some v) s h e = ground arith
  loop-IsCurrent (suc fuel) none s h e = subst IsCurrent (ap (λ p. p.1) e) (h (inr refl))
  loop-IsCurrent (suc fuel) (some v) s h e =
      let e0 = rw (name_not_empty v) at (e) in
      let (w, ran, rest) =
        bind-eq-ok (round db platform (name_of v) (named (name_of v) versions)) _ s e0 in
      let (handled, same) = round-next db platform v s ran in
      let state = ap (λ p. p.1) handled in
      loop-IsCurrent fuel (next v) _
        (λ last. subst IsCurrent state (run-IsCurrent v s (λ x. h (inl x)) last))
        (rw (same) at (rest))

  get_version-IsCurrent : (s : S) → get_version db platform s ≡ ok "version_4_0_0" → IsCurrent s
  unfolding get_version field
  get_version-IsCurrent s e = read_current (get_entry db "VERSIONS" "DATABASE" s) e

  get_version-not_empty :
      (s : S) {text : String} → get_version db platform s ≡ ok text → is_empty text ≡ false
  unfolding get_version
  get_version-not_empty s {text} e = read_not_empty (get_entry db "VERSIONS" "DATABASE" s) e

  loop_unknown :
      (fuel : ℕ) (text : String) (s : S) {s' : S}
      → is_empty text ≡ false
      → named text versions ≡ none
      → migrate_loop db platform fuel (some text) s ≢ (ok true, s')
  unfolding migrate_loop ◌>>=◌ round
  loop_unknown zero text s h n e = ground arith
  loop_unknown (suc fuel) text s h n e = ground arith

  loop_from_version :
      (fuel : ℕ) (text : String) (s : S) {s' : S}
      → get_version db platform s ≡ ok text
      → migrate_loop db platform fuel (some text) s ≡ (ok true, s')
      → IsCurrent s'
  loop_from_version fuel text s {s'} read e = elim (Option-cases (named text versions)) [
    | inl n ↦ absurd (loop_unknown fuel text s (get_version-not_empty s read) n e)
    | inr (v, n) ↦
        let same = named_sound text versions n in
        loop-IsCurrent fuel (some v) s (λ last. get_version-IsCurrent s (at_last v same read last))
          (subst (λ t. migrate_loop db platform fuel (some t) s ≡ (ok true, s')) (sym same) e)
  ]

  common_after :
      (ended : Bool) (s : S) {s' : S}
      → IsSteady
      → IsCurrent s
      → (if ended then (common_migration_ops db platform >>= λ _. pure true) else pure false) s
        ≡ (ok true, s')
      → IsCurrent s'
  unfolding ◌>>=◌
  common_after true s steady h e =
      let (u, ran, rest) = bind-eq-ok (common_migration_ops db platform) _ s e in
      subst IsCurrent (ap (λ p. p.1) rest) (common-IsCurrent s steady h ran)
  common_after false s steady h e = ground arith

  -- A migration that returns has brought CONFIG_DB to the present version, whatever version it had
  -- and whether or not the steps of the platform succeeded, where init_cfg.json names no table and no
  -- key twice and the step for the ports of the S6100 leaves the version.
  pub migrate-IsCurrent :
      (fuel : ℕ) (s : S) {s' : S}
      → IsSteady
      → migrate db platform fuel s ≡ (ok true, s')
      → IsCurrent s'
  unfolding migrate get_version query
  migrate-IsCurrent fuel s steady e =
      let (version, read, e1) = bind-eq-ok _ _ s e in
      let (ended, looped, e2) = bind-eq-ok (migrate_loop db platform fuel (some version)) _ _ e1 in
      let done = after_loop db platform ended _ e2 in
      common_after ended _ steady
        (loop_from_version fuel version _ (ap (λ p. p.0) read) (rw (done) at (looped))) e2
