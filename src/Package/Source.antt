-- ===== src/Package/Source.antt =====
-- sonic_package_manager/source.py: where a package's manifest and image come from.
use Prim.Native.String.{◌++◌ as str_append}
use sonic_utility.Base.{String, Bool, true, Option, none, some, if◌then◌else◌}
use sonic_utility.Base.Result.{Result, ok, err}
use sonic_utility.Base.Exec.{pure, raise, ◌>>=◌, ◌>>◌}
use sonic_utility.Base.Text.{is_empty}
use sonic_utility.Package.Semver.{Semver}
use sonic_utility.Package.Model.{Package, PackageEntry, Metadata}
use sonic_utility.Package.Errors.{Error, not_implemented_error}
use sonic_utility.Package.Database.{Database, get_package, new_entry}
use sonic_utility.Package.ConfigDb.{Connector}
use sonic_utility.Package.World.{
  Act, Environment, Image, perform, pull_image, load_image, remove_image,
}

-- not x, for an optional text: `None` or the empty text
abbrev pub is_missing : Option String → Bool
is_missing none = true
is_missing (some text) = is_empty text

module _ (sv : Semver) where
  pub data PackageSource : Type 0 where
    tarball : String → PackageSource
    registry : Option String → String → PackageSource
    local : PackageEntry sv → PackageSource

  abbrev none_text : Option String → String
  none_text none = "None"
  none_text (some text) = text

  -- The image of an entry: built-in packages go by the name of their repository.
  unfoldable pub local_image : PackageEntry sv → Option String
  local_image e =
      if e.built_in then some (str_append (none_text e.repository) ":latest") else e.image_id

  -- get_metadata of the three classes
  unfoldable pub get_metadata : Environment sv → PackageSource → Result (Error sv) (Metadata sv)
  unfolding local_image
  get_metadata env (tarball path) = env.from_tarball path
  get_metadata env (registry repository reference) = env.from_registry repository reference
  get_metadata env (local e) = env.from_local (local_image e)

  -- `has_package` and `get_package`: the entry in the database, or a new one.
  unfoldable pub entry_for : Database sv → Metadata sv → PackageEntry sv
  unfolding get_package
  entry_for db m =
      let table = m.manifest.package_table in
      elim (get_package sv table.name db).0 [
        | ok entry ↦ entry
        | err e ↦ new_entry sv table.name none (some table.description) none
      ]

  -- get_package: LocalSource has its own.
  unfoldable pub package_entry : Database sv → PackageSource → Metadata sv → PackageEntry sv
  unfolding entry_for
  package_entry db (tarball path) m = entry_for db m
  package_entry db (registry repository reference) m = entry_for db m
  package_entry db (local e) m = e

  unfoldable pub source_package :
      Environment sv → Database sv → PackageSource → Result (Error sv) (Package sv)
  unfolding get_metadata package_entry
  source_package env db source = elim (get_metadata env source) [
    | err e ↦ err e
    | ok m ↦ ok (record { entry = package_entry db source m; metadata = m })
  ]

  module _ (cn : Connector) (env : Environment sv) where
    abbrev with_entry : Package sv → PackageEntry sv → Package sv
    with_entry p e = record p { entry = e }

    -- install_image: a pull from the registry records the first reference as the default one. The
    -- local source has no such method.
    unfoldable pub install_image : PackageSource → Package sv → Act sv cn (Package sv × Image)
    unfolding perform
    install_image (tarball path) p = do
      perform sv cn env (load_image path)
      pure (p, env.loaded path)
    install_image (registry repository reference) p = do
      perform sv cn env (pull_image repository reference)
      pure (
        with_entry p (
            if is_missing p.entry.default_reference
            then record p.entry { default_reference = some reference }
            else p.entry),
        env.pulled repository reference,
      )
    install_image (local e) p = raise not_implemented_error

    abbrev record_image : Package sv × Image → Package sv
    record_image (p, image) = with_entry p (record p.entry {
      image_id = some image.id;
      repository =
          if is_missing p.entry.repository then some image.repository else p.entry.repository;
    })

    -- PackageSource.install: returns the package, whose entry it changes.
    unfoldable pub source_install : PackageSource → Package sv → Act sv cn (Package sv)
    unfolding install_image
    source_install source p = do installed ← install_image source p; pure (record_image installed)

    -- PackageSource.uninstall
    unfoldable pub source_uninstall : Package sv → Act sv cn (Package sv)
    unfolding perform
    source_uninstall p = do
      perform sv cn env (remove_image p.entry.image_id)
      pure (with_entry p (record p.entry { image_id = none }))
