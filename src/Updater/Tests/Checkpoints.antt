-- ===== src/Updater/Tests/Checkpoints.antt =====
-- Checkpoints and rollbacks, with patches that hold their target.
use sonic_utility.Base.Split.{starts_with}
use sonic_utility.Base.Dict.{remove}
use sonic_utility.Base.Exec.{◌>>=◌}
use sonic_utility.Base.{
  String, Bool, true, false, ◌&&◌, none, some, if◌then◌else◌, [], ◌∷◌, ◌≡◌, refl, arith, ◌==◌,
  eq_iff, is_nil,
}
use sonic_utility.Base.Dict.{Dict, lookup, insert, has_key, lookup-insert}
use sonic_utility.Base.Result.{Result, ok, err}
use sonic_utility.Updater.Apply.{
  UpdaterError, value_error, Config, Agree, Wrappers, get_empty_tables, apply,
}
use sonic_utility.Updater.Apply.Outcomes.{AgreeInFront, apply_outcome}
use sonic_utility.Updater.Checkpoints.{
  Files, Device, check_checkpoint_exists, get_checkpoint, checkpoint, rollback, list_checkpoints,
}
use sonic_utility.Updater.Checkpoints.Rollback.{IsKept, rollback_outcome, rollback-checkpoint}

abbrev same_entries : Dict String → Dict String → Bool
same_entries [] [] = true
same_entries [] (f ∷ e) = false
same_entries (f ∷ d) [] = false
same_entries ((k, v) ∷ d) ((j, u) ∷ e) = (k == j) && ((v == u) && same_entries d e)

abbrev same_tables : Config String → Config String → Bool
same_tables [] [] = true
same_tables [] (t ∷ b) = false
same_tables (t ∷ a) [] = false
same_tables ((k, d) ∷ a) ((j, e) ∷ b) = (k == j) && (same_entries d e && same_tables a b)

same_entries_sound : (d e : Dict String) → same_entries d e ≡ true → d ≡ e
same_entries_sound [] [] s = refl
same_entries_sound [] (f ∷ e) s = ground arith
same_entries_sound (f ∷ d) [] s = ground arith
same_entries_sound ((k, v) ∷ d) ((j, u) ∷ e) s =
    ground (arith, eq_iff k j, eq_iff v u, same_entries_sound d e)

same_tables_sound : (a b : Config String) → same_tables a b ≡ true → a ≡ b
same_tables_sound [] [] s = refl
same_tables_sound [] (t ∷ b) s = ground arith
same_tables_sound (t ∷ a) [] s = ground arith
same_tables_sound ((k, d) ∷ a) ((j, e) ∷ b) s =
    ground (arith, eq_iff k j, same_entries_sound d e, same_tables_sound a b)

same_tables-Agree : (a b : Config String) → same_tables a b ≡ true → Agree a b
same_tables-Agree a b s table key = let e = same_tables_sound a b s in ground arith

abbrev wrappers : Wrappers String (Config String) (Config String)
wrappers = record {
  simulate_patch = λ p c. ok p;
  generate_patch = λ a b. b;
  same = same_tables;
  same_sound = same_tables-Agree;
  validate_field_operation = λ a b. ok tt;
  sort = λ p c. ok (p ∷ []);
  apply_change = λ p c. (ok tt, p);
}

abbrev before : Config String
before = ("VLAN", ("Vlan10", "up") ∷ []) ∷ []

abbrev after : Config String
after = ("VLAN", ("Vlan20", "up") ∷ []) ∷ ("BUFFER_PG", ("lossy", "1") ∷ []) ∷ []

-- Two configurations that are written as two texts; the disk is a dictionary of files.
abbrev written : Config String → String
written c = if same_tables c before then "before" else "after"

abbrev read_back : String → Result UpdaterError (Config String)
read_back text =
    if text == "before" then ok before else if text == "after" then ok after else err value_error

abbrev files : Files String (Dict String)
files = record {
  is_file = λ path disk. has_key path disk;
  is_dir = λ path disk. true;
  listdir = λ path disk. ok ("day1.cp.json" ∷ "notes" ∷ []);
  makedirs = λ path disk. (ok tt, disk);
  read = λ path disk. elim (lookup path disk) [ none ↦ err value_error | some text ↦ ok text ];
  write = λ path text disk. (ok tt, insert path text disk);
  remove = λ path disk. (ok tt, remove path disk);
  dumps = written;
  loads = read_back;
}

files-IsKept : IsKept files after
files-IsKept = record {
  written = λ path disk e.
      ground (arith, lookup-insert path path (files.dumps after) disk, eq_iff path path);
  loads-dumps = refl;
}

abbrev device : Device String (Dict String)
device = record { running = after; disk = ("/etc/sonic/checkpoints/day1.cp.json", "before") ∷ [] }

listed : list_checkpoints wrappers files device ≡ ok ("day1" ∷ [])
unfolding list_checkpoints
listed = refl

apply_outcome_example :
    (target : Config String) × (wrappers.simulate_patch after before ≡ ok target)
    × (wrappers.validate_field_operation before target ≡ ok tt)
    × (is_nil (get_empty_tables target) ≡ true)
    × AgreeInFront wrappers target (apply wrappers after before).1
unfolding apply ◌>>=◌ remove
apply_outcome_example = apply_outcome wrappers after before refl

rollback_outcome_example :
    (saved : Config String) × (check_checkpoint_exists wrappers files "day1" device.disk ≡ true)
    × (get_checkpoint wrappers files "day1" device.disk ≡ ok saved)
    × Agree saved (rollback wrappers files "day1" device).1.running
    × ((rollback wrappers files "day1" device).1.disk ≡ device.disk)
unfolding rollback ◌>>=◌ lookup starts_with remove
rollback_outcome_example = rollback_outcome wrappers files "day1" device refl

rollback-checkpoint_example :
    Agree after
      (rollback wrappers files "day2"
        (record (checkpoint wrappers files "day2" device).1 { running = before })).1.running
unfolding checkpoint ◌>>=◌ rollback lookup insert starts_with remove
rollback-checkpoint_example =
    rollback-checkpoint wrappers files "day2" device before files-IsKept refl refl
