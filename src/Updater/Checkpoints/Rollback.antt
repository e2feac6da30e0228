-- ===== src/Updater/Checkpoints/Rollback.antt =====
-- generic_updater.py: making checkpoints and rolling back to one.
use sonic_utility.Base.{
  String, true, false, ◌≡◌, refl, ap, sym, ◌∙◌, subst, arith, Bool-cases, inl, inr,
}
use sonic_utility.Base.Result.{ok, err, Result-cases, ok-injective}
use sonic_utility.Base.Exec.{◌>>=◌}
use sonic_utility.Updater.Apply.{UpdaterError, value_error, Config, Agree, Wrappers, replace}
use sonic_utility.Updater.Apply.Outcomes.{replace_outcome}
use sonic_utility.Updater.Checkpoints.{
  Files, Device, get_checkpoint_full_path, check_checkpoint_exists, get_checkpoint, checkpoint,
  checkpoints_dir, rollback,
}

-- What is relied on: a file holds what json wrote of the configuration `c` if that was written to it,
-- and json reads `c` from it.
pub record IsKept {V Disk : Type 0} (files : Files V Disk) (c : Config V) : Type 0 where
  pub written :
      (path : String) (disk : Disk)
      → (files.write path (files.dumps c) disk).0 ≡ ok tt
      → files.read path (files.write path (files.dumps c) disk).1 ≡ ok (files.dumps c)
  pub loads-dumps : files.loads (files.dumps c) ≡ ok c

module _ {V Patch Change Disk : Type 0} (w : Wrappers V Patch Change) (files : Files V Disk) where
  rollback_missing :
      (name : String) (d : Device V Disk)
      → check_checkpoint_exists w files name d.disk ≡ false
      → rollback w files name d ≡ (err value_error, d)
  unfolding rollback ◌>>=◌
  rollback_missing name d missing = ground arith

  rollback_unread :
      (name : String) (d : Device V Disk) {e : UpdaterError}
      → check_checkpoint_exists w files name d.disk ≡ true
      → get_checkpoint w files name d.disk ≡ err e
      → rollback w files name d ≡ (err e, d)
  unfolding rollback ◌>>=◌
  rollback_unread name d there unread = ground arith

  rollback_there :
      (name : String) (d : Device V Disk) {saved : Config V}
      → check_checkpoint_exists w files name d.disk ≡ true
      → get_checkpoint w files name d.disk ≡ ok saved
      → rollback w files name d
        ≡ ((replace w saved d.running).0, record d { running = (replace w saved d.running).1 })
  unfolding rollback ◌>>=◌
  rollback_there name d there read = ground arith

  -- Where a rollback returns, the file of the checkpoint was there and was read, the running
  -- configuration has the entries that were read, and the disk is as it was.
  pub rollback_outcome :
      (name : String) (d : Device V Disk)
      → (rollback w files name d).0 ≡ ok tt
      → (saved : Config V) × (check_checkpoint_exists w files name d.disk ≡ true)
        × (get_checkpoint w files name d.disk ≡ ok saved)
        × Agree saved (rollback w files name d).1.running
        × ((rollback w files name d).1.disk ≡ d.disk)
  rollback_outcome name d e = elim (Bool-cases (check_checkpoint_exists w files name d.disk)) [
    | inr missing ↦ let raises = rollback_missing name d missing in ground arith
    | inl there ↦ elim (Result-cases (get_checkpoint w files name d.disk)) [
      | inr (x, unread) ↦ let raises = rollback_unread name d there unread in ground arith
      | inl (saved, read) ↦
          let runs = rollback_there name d there read in
          (
            saved,
            there,
            read,
            rw runs (replace_outcome w saved d.running (ap (λ r. r.0) (sym runs) ∙ e)),
            rw runs refl,
          )
    ]
  ]

  -- What a checkpoint that returns has written can be read under its name.
  get_checkpoint-checkpoint :
      (name : String) (d : Device V Disk)
      → IsKept files d.running
      → (checkpoint w files name d).0 ≡ ok tt
      → get_checkpoint w files name (checkpoint w files name d).1.disk ≡ ok d.running
  unfolding checkpoint get_checkpoint ◌>>=◌
  get_checkpoint-checkpoint name d kept e =
      elim (Result-cases (files.makedirs checkpoints_dir d.disk).0) [
        | inr (x, failed) ↦ ground arith
        | inl (u, made) ↦ ground (
          arith,
          kept.written (get_checkpoint_full_path name) (files.makedirs checkpoints_dir d.disk).1,
          kept.loads-dumps,
        )
      ]

  -- A rollback that returns, to a checkpoint that returned, gives a running configuration with the
  -- entries of the one that the checkpoint was made of, whatever the running configuration has
  -- become meanwhile, if files hold what was written to them and json reads the configuration from
  -- what it wrote of it.
  pub rollback-checkpoint :
      (name : String) (d : Device V Disk) (later : Config V)
      → IsKept files d.running
      → (checkpoint w files name d).0 ≡ ok tt
      → (rollback w files name (record (checkpoint w files name d).1 { running = later })).0 ≡ ok tt
      → Agree d.running
          (rollback w files name
            (record (checkpoint w files name d).1 { running = later })).1.running
  rollback-checkpoint name d later kept made back =
      let d' = record (checkpoint w files name d).1 { running = later } in
      let (saved, there, read, agree, disk) = rollback_outcome name d' back in
      subst (λ c. Agree c (rollback w files name d').1.running)
        (ok-injective (sym read ∙ get_checkpoint-checkpoint name d kept made)) agree
