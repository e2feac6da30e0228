-- ===== src/Updater/Checkpoints.antt =====
-- generic_config_updater/generic_updater.py: FileSystemConfigRollbacker.
pub mod Rollback
use Prim.Native.Char.{Char}
use Prim.Native.String.{◌++◌ as str_append}
use sonic_utility.Base.{
  String, Bool, true, false, not, Option, none, some, List, [], ◌∷◌, ◌≡◌, if◌then◌else◌, ◌==◌,
}
use sonic_utility.Base.Split.{starts_with}
use sonic_utility.Base.Result.{Result, ok, err}
use sonic_utility.Base.Result.{◌>>=◌ as then_read}
use sonic_utility.Base.Exec.{Exec, pure, raise, lift, gets, query, ◌>>=◌, ◌>>◌}
use sonic_utility.Updater.Apply.{Config, UpdaterError, value_error, Wrappers, replace}

-- What the rollbacker asks of the operating system, on the content of a disk, and of Python's json.
-- Which names are one file, and which of the calls raise, is left to them.
pub record Files (V Disk : Type 0) : Type 0 where
  pub is_file : String → Disk → Bool
  pub is_dir : String → Disk → Bool
  pub listdir : String → Disk → Result UpdaterError (List String)
  pub makedirs : String → Exec Disk UpdaterError (Unit {0})
  pub read : String → Disk → Result UpdaterError String
  -- open(path, "w") and write: it may raise after the file was emptied
  pub write : String → String → Exec Disk UpdaterError (Unit {0})
  pub remove : String → Exec Disk UpdaterError (Unit {0})
  pub dumps : Config V → String
  pub loads : String → Result UpdaterError (Config V)

-- The running configuration, and the disk.
pub record Device (V Disk : Type 0) : Type 0 where
  pub running : Config V
  pub disk : Disk

abbrev pub checkpoints_dir : String
checkpoints_dir = "/etc/sonic/checkpoints"

abbrev checkpoint_ext : String
checkpoint_ext = ".cp.json"

-- os.path.join, for a directory that does not end in a slash
unfoldable pub path_join : String → String → String
path_join dir file = if starts_with "/" file then file else str_append dir (str_append "/" file)

unfoldable pub get_checkpoint_full_path : String → String
unfolding path_join
get_checkpoint_full_path name = path_join checkpoints_dir (str_append name checkpoint_ext)

abbrev with_char : Char → Option String → Option String
with_char c none = none
with_char c (some s) = some (String.◌∷◌ c s)

-- The text before the extension, if it ends in it.
unfoldable pub before_ext : String → String → Option String
before_ext ext String.[] = if String.[] == ext then some "" else none
before_ext ext (String.◌∷◌ c s) =
    let rest = before_ext ext s in if String.◌∷◌ c s == ext then some "" else with_char c rest

abbrev with_name : Option String → List String → List String
with_name none names = names
with_name (some name) names = name ∷ names

unfoldable pub names_of : List String → List String
unfolding before_ext
names_of [] = []
names_of (file_name ∷ rest) = with_name (before_ext checkpoint_ext file_name) (names_of rest)

module _ {V Patch Change Disk : Type 0} (w : Wrappers V Patch Change) (files : Files V Disk) where
  abbrev pub Command : Type 0 → Type 0
  Command A = Exec (Device V Disk) UpdaterError A

  abbrev on_disk : Exec Disk UpdaterError (Unit {0}) → Command (Unit {0})
  on_disk m d = let (r, disk) = m d.disk in (r, record d { disk = disk })

  unfoldable pub check_checkpoint_exists : String → Disk → Bool
  unfolding get_checkpoint_full_path
  check_checkpoint_exists name disk = files.is_file (get_checkpoint_full_path name) disk

  -- `_get_checkpoint_content`
  unfoldable pub get_checkpoint : String → Disk → Result UpdaterError (Config V)
  unfolding get_checkpoint_full_path
  get_checkpoint name disk = then_read (files.read (get_checkpoint_full_path name) disk) files.loads

  unfoldable pub checkpoint : String → Command (Unit {0})
  unfolding get_checkpoint_full_path
  checkpoint name = do
    json_content ← gets (λ d. d.running)
    on_disk (files.makedirs checkpoints_dir)
    on_disk (files.write (get_checkpoint_full_path name) (files.dumps json_content))

  abbrev on_running : Exec (Config V) UpdaterError (Unit {0}) → Command (Unit {0})
  on_running m d = let (r, running) = m d.running in (r, record d { running = running })

  abbrev must_exist : Bool → Command (Unit {0})
  must_exist true = pure tt
  must_exist false = raise value_error

  unfoldable pub rollback : String → Command (Unit {0})
  unfolding check_checkpoint_exists get_checkpoint replace
  rollback name = do
    there ← gets (λ d. check_checkpoint_exists name d.disk)
    must_exist there
    target_config ← query (λ d. get_checkpoint name d.disk)
    on_running (replace w target_config)

  unfoldable pub list_checkpoints : Device V Disk → Result UpdaterError (List String)
  unfolding names_of
  list_checkpoints d =
      let listed = then_read (files.listdir checkpoints_dir d.disk) (λ l. ok (names_of l)) in
      if files.is_dir checkpoints_dir d.disk then listed else ok []

  unfoldable pub delete_checkpoint : String → Command (Unit {0})
  unfolding check_checkpoint_exists get_checkpoint_full_path
  delete_checkpoint name = do
    there ← gets (λ d. check_checkpoint_exists name d.disk)
    must_exist there
    on_disk (files.remove (get_checkpoint_full_path name))
