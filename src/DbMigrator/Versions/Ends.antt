-- ===== src/DbMigrator/Versions/Ends.antt =====
-- scripts/db_migrator.py: the chain of versions, and the end of the loop of `migrate`.
use sonic_utility.Base.{
  ◌≡◌, ◌≢◌, refl, sym, ℕ, zero, suc, ◌<◌, String, Bool, true, false, Option, none, some, List, [],
  ◌∷◌, arith, inl, inr, ◌==◌, eq_iff, if◌then◌else◌, Option-cases, Bool-cases, subst,
}
use sonic_utility.Base.Text.{is_empty}
use sonic_utility.Base.Result.{ok}
use sonic_utility.Base.Exec.{◌>>=◌, bind-eq-ok, pure}
use sonic_utility.DbMigrator.Databases.{Databases}
use sonic_utility.DbMigrator.Versions.{
  Version, version_unknown, version_1_0_1, version_1_0_2, version_1_0_3, version_1_0_4,
  version_1_0_5, version_1_0_6, version_2_0_0, version_2_0_1, version_2_0_2, version_3_0_0,
  version_3_0_1, version_3_0_2, version_3_0_3, version_3_0_4, version_3_0_5, version_3_0_6,
  version_4_0_0, name_of, versions, named, next, text_of, Platform, run, round, migrate_loop,
  migrate, common_migration_ops,
}

-- How many handlers run after that of a version.
pub distance : Version → ℕ
distance version_unknown = 16
distance version_1_0_1 = 16
distance version_1_0_2 = 15
distance version_1_0_3 = 14
distance version_1_0_4 = 13
distance version_1_0_5 = 12
distance version_1_0_6 = 11
distance version_2_0_0 = 10
distance version_2_0_1 = 9
distance version_2_0_2 = 8
distance version_3_0_0 = 7
distance version_3_0_1 = 6
distance version_3_0_2 = 5
distance version_3_0_3 = 4
distance version_3_0_4 = 3
distance version_3_0_5 = 2
distance version_3_0_6 = 1
distance version_4_0_0 = 0

-- The next version has a handler fewer after it.
abbrev IsBefore : Option Version → ℕ → Type 0
IsBefore none n = Unit
IsBefore (some w) n = suc (distance w) ≡ n

distance-next : (v : Version) → IsBefore (next v) (distance v)
unfolding distance next
distance-next version_unknown = refl
distance-next version_1_0_1 = refl
distance-next version_1_0_2 = refl
distance-next version_1_0_3 = refl
distance-next version_1_0_4 = refl
distance-next version_1_0_5 = refl
distance-next version_1_0_6 = refl
distance-next version_2_0_0 = refl
distance-next version_2_0_1 = refl
distance-next version_2_0_2 = refl
distance-next version_3_0_0 = refl
distance-next version_3_0_1 = refl
distance-next version_3_0_2 = refl
distance-next version_3_0_3 = refl
distance-next version_3_0_4 = refl
distance-next version_3_0_5 = refl
distance-next version_3_0_6 = refl
distance-next version_4_0_0 = tt

pub named-name_of : (v : Version) → named (name_of v) versions ≡ some v
unfolding named name_of
named-name_of version_unknown = refl
named-name_of version_1_0_1 = refl
named-name_of version_1_0_2 = refl
named-name_of version_1_0_3 = refl
named-name_of version_1_0_4 = refl
named-name_of version_1_0_5 = refl
named-name_of version_1_0_6 = refl
named-name_of version_2_0_0 = refl
named-name_of version_2_0_1 = refl
named-name_of version_2_0_2 = refl
named-name_of version_3_0_0 = refl
named-name_of version_3_0_1 = refl
named-name_of version_3_0_2 = refl
named-name_of version_3_0_3 = refl
named-name_of version_3_0_4 = refl
named-name_of version_3_0_5 = refl
named-name_of version_3_0_6 = refl
named-name_of version_4_0_0 = refl

abbrev IsEnough : ℕ → Option Version → Type 0
IsEnough fuel none = 0 < fuel
IsEnough fuel (some v) = suc (distance v) < fuel

IsEnough-before :
    (fuel d : ℕ) (o : Option Version) → IsBefore o d → suc d < suc fuel → IsEnough fuel o
IsEnough-before fuel d none b h = omega arith
IsEnough-before fuel d (some w) b h = ground arith

distance_bound : (v : Version) → distance v < 17
unfolding distance
distance_bound version_unknown = omega arith
distance_bound version_1_0_1 = omega arith
distance_bound version_1_0_2 = omega arith
distance_bound version_1_0_3 = omega arith
distance_bound version_1_0_4 = omega arith
distance_bound version_1_0_5 = omega arith
distance_bound version_1_0_6 = omega arith
distance_bound version_2_0_0 = omega arith
distance_bound version_2_0_1 = omega arith
distance_bound version_2_0_2 = omega arith
distance_bound version_3_0_0 = omega arith
distance_bound version_3_0_1 = omega arith
distance_bound version_3_0_2 = omega arith
distance_bound version_3_0_3 = omega arith
distance_bound version_3_0_4 = omega arith
distance_bound version_3_0_5 = omega arith
distance_bound version_3_0_6 = omega arith
distance_bound version_4_0_0 = omega arith

pub name_not_empty : (v : Version) → is_empty (name_of v) ≡ false
unfolding name_of
name_not_empty version_unknown = refl
name_not_empty version_1_0_1 = refl
name_not_empty version_1_0_2 = refl
name_not_empty version_1_0_3 = refl
name_not_empty version_1_0_4 = refl
name_not_empty version_1_0_5 = refl
name_not_empty version_1_0_6 = refl
name_not_empty version_2_0_0 = refl
name_not_empty version_2_0_1 = refl
name_not_empty version_2_0_2 = refl
name_not_empty version_3_0_0 = refl
name_not_empty version_3_0_1 = refl
name_not_empty version_3_0_2 = refl
name_not_empty version_3_0_3 = refl
name_not_empty version_3_0_4 = refl
name_not_empty version_3_0_5 = refl
name_not_empty version_3_0_6 = refl
name_not_empty version_4_0_0 = refl

pub named_sound :
    (text : String) (vs : List Version) {v : Version} → named text vs ≡ some v → name_of v ≡ text
unfolding named
named_sound text [] e = ground arith
named_sound text (w ∷ vs) {v} e = elim (Bool-cases (name_of w == text)) [
  | inl h ↦
      let same : w ≡ v = ground arith in
      subst (λ x. name_of x ≡ text) same ((eq_iff (name_of w) text).0 h)
  | inr h ↦ named_sound text vs (ground arith)
]

module _ {S : Type 0} (db : Databases S) (platform : Platform S) where
  pub run-next :
      (v : Version) (s : S) {w : Option Version} {s' : S}
      → run db platform v s ≡ (ok w, s')
      → w ≡ next v
  unfolding run next ◌>>=◌
  run-next version_unknown s e = ground arith
  run-next version_1_0_1 s e = ground arith
  run-next version_1_0_2 s e = ground arith
  run-next version_1_0_3 s e = ground arith
  run-next version_1_0_4 s e = ground arith
  run-next version_1_0_5 s e = ground arith
  run-next version_1_0_6 s e = ground arith
  run-next version_2_0_0 s e = ground arith
  run-next version_2_0_1 s e = ground arith
  run-next version_2_0_2 s e = ground arith
  run-next version_3_0_0 s e = ground arith
  run-next version_3_0_1 s e = ground arith
  run-next version_3_0_2 s e = ground arith
  run-next version_3_0_3 s e = ground arith
  run-next version_3_0_4 s e = ground arith
  run-next version_3_0_5 s e = ground arith
  run-next version_3_0_6 s e = ground arith
  run-next version_4_0_0 s e = ground arith

  -- A round that returns has run the handler, and goes on with the next version.
  pub round-next :
      (v : Version) (s : S) {w : Option Version} {s' : S}
      → round db platform (name_of v) (named (name_of v) versions) s ≡ (ok w, s')
      → (run db platform v s ≡ (ok w, s')) × (w ≡ next v)
  unfolding round ◌>>=◌
  round-next v s e =
      let e0 = rw (named-name_of v) at (e) in
      let (w', ran, rest) = bind-eq-ok (run db platform v) _ s e0 in
      let same = run-next v s ran in ground arith

  loop_ends :
      (fuel : ℕ) (v : Option Version) (s : S) {s' : S}
      → IsEnough fuel v
      → migrate_loop db platform fuel (text_of v) s ≢ (ok false, s')
  unfolding migrate_loop ◌>>=◌
  loop_ends zero none s h e = ground arith
  loop_ends zero (some v) s h e = ground arith
  loop_ends (suc fuel) none s h e = ground arith
  loop_ends (suc fuel) (some v) s {s'} h e =
      let e0 = rw (name_not_empty v) at (e) in
      let (w, ran, rest) =
        bind-eq-ok (round db platform (name_of v) (named (name_of v) versions)) _ s e0 in
      let same = (round-next v s ran).1 in
      loop_ends fuel (next v) _ (IsEnough-before fuel (distance v) (next v) (distance-next v) h)
        (rw (same) at (rest))

  loop_from_text :
      (text : String) (s : S) {s' : S} → migrate_loop db platform 18 (some text) s ≢ (ok false, s')
  unfolding migrate_loop ◌>>=◌ round
  loop_from_text text s {s'} e = elim (Option-cases (named text versions)) [
    | inl h ↦ ground arith
    | inr (v, h) ↦
        let e0 =
          subst (λ t. migrate_loop db platform 18 (some t) s ≡ (ok false, s'))
            (sym (named_sound text versions h)) e in
        loop_ends 18 (some v) s (ground (arith, distance_bound v)) e0
  ]

  pub after_loop :
      (ended : Bool) (s : S) {b : Bool} {s' : S}
      → (if ended then (common_migration_ops db platform >>= λ _. pure true) else pure false) s
        ≡ (ok b, s')
      → ended ≡ b
  unfolding ◌>>=◌
  after_loop true s e =
      let (u, ran, rest) = bind-eq-ok (common_migration_ops db platform) _ s e in ground arith
  after_loop false s e = ground arith

  -- Whatever version and whatever tables the databases have, 18 rounds of the loop of `migrate` are
  -- enough: it ends or an exception ends it.
  pub migrate-ends : (s : S) {s' : S} → migrate db platform 18 s ≢ (ok false, s')
  unfolding migrate
  migrate-ends s e =
      let (version, read, e1) = bind-eq-ok _ _ s e in
      let (ended, looped, e2) = bind-eq-ok (migrate_loop db platform 18 (some version)) _ _ e1 in
      loop_from_text version _ (rw (after_loop ended _ e2) at (looped))
