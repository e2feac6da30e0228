-- ===== src/Updater/Apply/Outcomes.antt =====
-- generic_updater.py: the outcome of PatchApplier.apply and of ConfigReplacer.replace.
use sonic_utility.Base.{
  String, Bool, true, false, List, ◌≡◌, is_nil, arith, ◌||◌, ◌==◌, eq_iff, Bool-cases, inl, inr,
}
use sonic_utility.Base.Dict
use sonic_utility.Base.Dict.{Dict, lookup, lookup-remove}
use sonic_utility.Base.Result.{ok, err, Result-cases}
use sonic_utility.Base.Exec.{◌>>=◌, ◌>>◌}
use sonic_utility.Updater.Apply.{
  UpdaterError, Config, entry, get_empty_tables, remove_backend_tables, Agree, Wrappers,
  apply_changes, plan, verify, apply, replace,
}

abbrev pub is_backend_table : String → Bool
is_backend_table t = t == "BUFFER_PG" || t == "BUFFER_PROFILE" || t == "FLEX_COUNTER_TABLE"

module _ {V : Type 0} where
  entry-remove_backend_tables :
      (table key : String) (c : Config V)
      → is_backend_table table ≡ false
      → entry table key (remove_backend_tables c) ≡ entry table key c
  unfolding remove_backend_tables
  entry-remove_backend_tables table key c front = ground (
    arith,
    lookup-remove "BUFFER_PG" table c,
    lookup-remove "BUFFER_PROFILE" table (Dict.remove "BUFFER_PG" c),
    lookup-remove "FLEX_COUNTER_TABLE" table
        (Dict.remove "BUFFER_PROFILE" (Dict.remove "BUFFER_PG" c)),
    eq_iff table "BUFFER_PG",
    eq_iff table "BUFFER_PROFILE",
    eq_iff table "FLEX_COUNTER_TABLE",
    eq_iff "BUFFER_PG" table,
    eq_iff "BUFFER_PROFILE" table,
    eq_iff "FLEX_COUNTER_TABLE" table,
  )

module _ {V Patch Change : Type 0} (w : Wrappers V Patch Change) where
  -- Outside the backend tables the two configurations have the same entries.
  abbrev pub AgreeInFront : Config V → Config V → Type 0
  AgreeInFront a b =
      (table key : String) → is_backend_table table ≡ false → entry table key a ≡ entry table key b

  -- What a plan says of its patch.
  record Planned (patch : Patch) (c : Config V) (target : Config V) (changes : List Change)
      : Type 0 where
    simulated : w.simulate_patch patch c ≡ ok target
    permitted : w.validate_field_operation c target ≡ ok tt
    not_empty : is_nil (get_empty_tables target) ≡ true
    sorted : w.sort patch c ≡ ok changes

  plan-Planned :
      (patch : Patch) (c target : Config V) (changes : List Change)
      → (plan w patch c).0 ≡ ok (target, changes)
      → Planned patch c target changes
  unfolding plan ◌>>=◌
  plan-Planned patch c target changes e = record {
    simulated = ground arith;
    permitted = ground arith;
    not_empty = ground arith;
    sorted = ground arith;
  }

  plan-Same : (patch : Patch) (c : Config V) → (plan w patch c).1 ≡ c
  unfolding plan ◌>>=◌
  plan-Same patch c = ground arith

  pub apply_planned :
      (patch : Patch) (c target : Config V) (changes : List Change)
      → (plan w patch c).0 ≡ ok (target, changes)
      → apply w patch c ≡ (apply_changes w changes >> verify w target) c
  unfolding apply ◌>>=◌
  apply_planned patch c target changes e = let same = plan-Same patch c in ground arith

  -- A patch that is refused, because it cannot be applied to the configuration, changes a field that
  -- may not be changed, leaves an empty table or cannot be sorted, changes nothing: apply raises
  -- what the plan raised.
  pub apply_refused :
      (patch : Patch) (c : Config V) (e : UpdaterError)
      → (plan w patch c).0 ≡ err e
      → apply w patch c ≡ (err e, c)
  unfolding apply ◌>>=◌
  apply_refused patch c e refused = let same = plan-Same patch c in ground arith

  verify-AgreeInFront :
      (target c : Config V)
      → (verify w target c).0 ≡ ok tt
      → AgreeInFront target (verify w target c).1
  unfolding verify ◌>>=◌
  verify-AgreeInFront target c e table key front =
      elim (Bool-cases (w.same (remove_backend_tables target) (remove_backend_tables c))) [
        | inr differ ↦ ground arith
        | inl same ↦
            let agree = w.same_sound _ _ same table key in
            ground (
              arith,
              entry-remove_backend_tables table key target front,
              entry-remove_backend_tables table key c front,
            )
      ]

  then_verify :
      (target c : Config V) (changes : List Change)
      → ((apply_changes w changes >> verify w target) c).0 ≡ ok tt
      → AgreeInFront target ((apply_changes w changes >> verify w target) c).1
  unfolding ◌>>=◌
  then_verify target c changes e = elim (Result-cases (apply_changes w changes c).0) [
    | inl (u, applied) ↦
        rw applied (verify-AgreeInFront target (apply_changes w changes c).1 (rw applied at e))
    | inr (x, failed) ↦ ground arith
  ]

  -- Where apply returns, the patch could be applied to the configuration that was there, the fields
  -- that it changes may be changed, its target has no empty table, and the running configuration
  -- has the entries of the target in every table but the three that daemons write.
  pub apply_outcome :
      (patch : Patch) (c : Config V)
      → (apply w patch c).0 ≡ ok tt
      → (target : Config V) × (w.simulate_patch patch c ≡ ok target)
        × (w.validate_field_operation c target ≡ ok tt)
        × (is_nil (get_empty_tables target) ≡ true)
        × AgreeInFront target (apply w patch c).1
  apply_outcome patch c e = elim (Result-cases (plan w patch c).0) [
    | inl ((target, changes), planned) ↦
        let p = plan-Planned patch c target changes planned in
        let ran = apply_planned patch c target changes planned in
        (
          target,
          p.simulated,
          p.permitted,
          p.not_empty,
          rw ran (then_verify target c changes (rw ran at e)),
        )
    | inr (x, refused) ↦ let r = apply_refused patch c x refused in ground arith
  ]

  -- Where replace returns, the running configuration has the entries of the target in every table.
  pub replace_outcome :
      (target c : Config V) → (replace w target c).0 ≡ ok tt → Agree target (replace w target c).1
  unfolding replace ◌>>=◌
  replace_outcome target c e = elim (Result-cases (apply w (w.generate_patch c target) c).0) [
    | inr (x, failed) ↦ ground arith
    | inl (u, applied) ↦
        elim (Bool-cases (w.same target (apply w (w.generate_patch c target) c).1)) [
          | inr differ ↦ ground arith
          | inl same ↦ λ table key. let agree = w.same_sound _ _ same table key in ground arith
        ]
  ]
