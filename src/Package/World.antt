-- ===== src/Package/World.antt =====
-- The state that the package manager works on, and its effects outside the program: docker, files,
-- services and commands. An external call may raise, and its position in the run decides that.
use sonic_utility.Base.{ℕ, suc, String, Bool, Option, List, [], ◌∷◌, ◌++◌, if◌then◌else◌}
use sonic_utility.Base.Dict.{Dict}
use sonic_utility.Base.Result.{Result, ok, err}
use sonic_utility.Base.Exec.{Exec}
use sonic_utility.Package.Semver.{Semver}
use sonic_utility.Package.Model.{Metadata}
use sonic_utility.Package.Errors.{Error, system_error}
use sonic_utility.Package.Database.{Database}
use sonic_utility.Package.ConfigDb.{Connector}
use sonic_utility.Package.Feature.{SonicDb}

-- The steps of ServiceCreator.create and remove, each of which writes or deletes files or runs a
-- command.
pub data ServiceStep : Type 0 where
  container_mgmt service_mgmt dependent_list systemd_service dump_script reconciliation yang_module
        initial_config autogen_cli daemon_reload :
      ServiceStep

pub data RemovedFile : Type 0 where
  service_unit instance_unit mgmt_script ctl_script dump_plugin reconcile_file : RemovedFile

pub data RebootType : Type 0 where
  fast warm : RebootType

pub data CliCommand : Type 0 where
  show config clear : CliCommand

pub data Effect : Type 0 where
  pull_image : Option String → String → Effect
  load_image : String → Effect
  remove_image : Option String → Effect
  remove_containers : Option String → Effect
  create_step : String → ServiceStep → Effect
  remove_file : String → RemovedFile → Effect
  remove_step : String → ServiceStep → Effect
  remove_config : String → Effect
  shutdown_order : RebootType → List String → Effect
  install_plugin : String → CliCommand → Effect
  uninstall_plugin : String → CliCommand → Effect
  wait_feature_state : String → String → Effect
  save_image : Option String → String → Effect

-- An image, with the repository that its first tag names.
pub record Image : Type 0 where
  pub id : String
  pub repository : String

module _ (sv : Semver) where
  -- What the manager meets: which external calls raise, the images that docker gives, the metadata
  -- that metadata.py reads from them, and the versions of the base OS components.
  pub record Environment : Type 0 where
    pub fails : ℕ → Bool
    -- where the writing of packages.json is the call that raises: whether the file was emptied
    pub empties : ℕ → Bool
    pub pulled : Option String → String → Image
    pub loaded : String → Image
    pub from_local : Option String → Result (Error sv) (Metadata sv)
    pub from_registry : Option String → String → Result (Error sv) (Metadata sv)
    pub from_tarball : String → Result (Error sv) (Metadata sv)
    pub version_info : Dict String
    -- the name of the temporary file that is made after so many calls
    pub temporary_file : ℕ → String
    pub in_chroot : Bool

  module _ (cn : Connector) where
    pub record World : Type 0 where
      pub database : Database sv
      pub features : SonicDb cn.Db
      -- the external calls that did not raise, the oldest first
      pub effects : List Effect
      -- the external calls that were made
      pub calls : ℕ

    abbrev pub Act : Type 0 → Type 0
    Act A = Exec World (Error sv) A

    module _ (env : Environment) where
      unfoldable pub perform : Effect → Act (Unit {0})
      perform e w =
          if env.fails w.calls
          then (err system_error, record w { calls = suc w.calls })
          else (ok tt, record w { calls = suc w.calls; effects = w.effects ++ e ∷ [] })
