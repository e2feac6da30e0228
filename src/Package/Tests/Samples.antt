-- ===== src/Package/Tests/Samples.antt =====
-- Three releases, the constraints on them, two packages, and a world without failures.
use sonic_utility.Base.{
  ℕ, String, Bool, true, false, ◌&&◌, Option, none, some, List, [], ◌∷◌, if◌then◌else◌, ◌==◌, ltb,
  leb, nat_eq,
}
use sonic_utility.Base.Dict.{Dict}
use sonic_utility.Base.Result.{Result, ok, err}
use sonic_utility.Package.Semver.{Semver}
use sonic_utility.Package.Model.{ServiceTable, PackageConstraint, PackageEntry, Metadata, Package}
use sonic_utility.Package.Errors.{Error, metadata_error}
use sonic_utility.Package.Database.{Database, json}
use sonic_utility.Package.ConfigDb.{Config, persistent_connector}
use sonic_utility.Package.Feature.{SonicDb}
use sonic_utility.Package.World.{World, Environment}

pub data Release : Type 0 where
  first minor_update next : Release

pub data Range : Type 0 where
  any : Range
  exactly : Release → Range
  compatible : Release → Range

abbrev rank : Release → ℕ
rank first = 0
rank minor_update = 1
rank next = 2

abbrev major_of : Release → ℕ
major_of first = 1
major_of minor_update = 1
major_of next = 2

abbrev minor_of : Release → ℕ
minor_of first = 0
minor_of minor_update = 1
minor_of next = 0

abbrev release_text : Release → String
release_text first = "1.0.0"
release_text minor_update = "1.1.0+4"
release_text next = "2.0.0"

abbrev parse_release : String → Option Release
parse_release text =
    if text == "1.0.0"
    then some first
    else if text == "1.1.0+4"
    then some minor_update
    else if text == "2.0.0"
    then some next
    else none

abbrev range_text : Range → String
range_text any = "*"
range_text (exactly first) = "==1.0.0"
range_text (exactly minor_update) = "==1.1.0+4"
range_text (exactly next) = "==2.0.0"
range_text (compatible first) = "^1.0.0"
range_text (compatible minor_update) = "^1.1.0"
range_text (compatible next) = "^2.0.0"

abbrev parse_range : String → Option Range
parse_range text =
    if text == "*"
    then some any
    else if text == "==1.0.0"
    then some (exactly first)
    else if text == "==1.1.0+4"
    then some (exactly minor_update)
    else if text == "==2.0.0"
    then some (exactly next)
    else if text == "^1.0.0"
    then some (compatible first)
    else if text == "^1.1.0"
    then some (compatible minor_update)
    else if text == "^2.0.0"
    then some (compatible next)
    else none

abbrev match_range : Range → Release → Bool
match_range any v = true
match_range (exactly w) v = nat_eq (rank w) (rank v)
match_range (compatible w) v = nat_eq (major_of w) (major_of v) && leb (rank w) (rank v)

abbrev target : Range → Option Release
target any = none
target (exactly v) = some v
target (compatible v) = none

abbrev is_exactly : Range → Bool
is_exactly any = false
is_exactly (exactly v) = true
is_exactly (compatible v) = false

abbrev pub releases : Semver
releases = record {
  Version = Release;
  Spec = Range;
  parse_version = parse_release;
  version_text = release_text;
  major = major_of;
  minor = minor_of;
  patch = λ v. 0;
  version_eq = λ v w. nat_eq (rank v) (rank w);
  version_lt = λ v w. ltb (rank v) (rank w);
  parse_spec = parse_range;
  spec_text = range_text;
  expression = range_text;
  match_spec = match_range;
  target = target;
  is_equality = is_exactly;
}

abbrev pub service : String → ServiceTable
service name = record {
  name = name;
  asic_service = false;
  host_service = true;
  delayed = false;
  check_up_status = false;
  support_rate_limit = true;
}

abbrev pub metadata_of :
    String
    → Release
    → List (PackageConstraint releases)
    → List (PackageConstraint releases)
    → Dict Release
    → Metadata releases
metadata_of name v depends breaks components = record {
  manifest = record {
    package_table = record {
      version = v;
      name = name;
      description = "a package";
      base_os = [];
      depends = depends;
      breaks = breaks;
    };
    service = service name;
    cli = record { mandatory = false; show = "/show.py"; config = ""; clear = "" };
  };
  components = components;
}

abbrev pub entry_of : String → Option Release → PackageEntry releases
entry_of name none = record {
  name = name;
  repository = some "docker.io/azure";
  description = none;
  default_reference = some "1.0.0";
  version = none;
  installed = false;
  built_in = false;
  image_id = none;
}
entry_of name (some v) = record {
  name = name;
  repository = some "docker.io/azure";
  description = none;
  default_reference = some "1.0.0";
  version = some v;
  installed = true;
  built_in = false;
  image_id = some name;
}

abbrev pub constraint_on : String → Range → PackageConstraint releases
constraint_on name c = record { name = name; constraint = c; components = [] }

-- `router` depends on `agent`.
abbrev pub agent : Package releases
agent = record {
  entry = entry_of "agent" (some first);
  metadata = metadata_of "agent" first [] [] [];
}

abbrev pub router : Package releases
router = record {
  entry = entry_of "router" (some first);
  metadata = metadata_of "router" first (constraint_on "agent" (compatible first) ∷ []) [] [];
}

-- The base OS package, which is built in.
abbrev pub base_entry : PackageEntry releases
base_entry = record (entry_of "base" (some first)) { built_in = true; image_id = none }

abbrev pub database : Database releases
database = record {
  packages =
      ("agent", agent.entry)
      ∷ ("router", router.entry)
      ∷ ("base", base_entry)
      ∷ ("monitor", entry_of "monitor" none)
      ∷ [];
  file = some (json []);
}

abbrev from_local : Option String → Result (Error releases) (Metadata releases)
from_local none = err metadata_error
from_local (some image) =
    if image == "agent"
    then ok agent.metadata
    else if image == "router"
    then ok router.metadata
    else if image == "docker.io/azure:latest"
    then ok (metadata_of "base" first [] [] [])
    else err metadata_error

-- The registry has a release of every package, the second tarball one that depends on what is not
-- installed.
abbrev from_tarball : String → Result (Error releases) (Metadata releases)
from_tarball path =
    if path == "/monitor.gz"
    then ok (metadata_of "monitor" first [] [] [])
    else if path == "/base.gz"
    then ok (metadata_of "base" next [] [] [])
    else ok (metadata_of "orphan" first (constraint_on "parent" any ∷ []) [] [])

abbrev pub environment : Environment releases
environment = record {
  fails = λ n. false;
  pulled = λ repository reference. record { id = "pulled"; repository = "docker.io/azure" };
  loaded = λ path. record { id = "loaded"; repository = "docker.io/azure" };
  from_local = from_local;
  from_registry = λ repository reference. ok (metadata_of "agent" minor_update [] [] []);
  from_tarball = from_tarball;
  version_info = [];
  empties = λ n. true;
  temporary_file = λ n. "/tmp/image";
  in_chroot = false;
}

abbrev pub config : Config
config =
    (
      "FEATURE",
      ("agent", ("state", "enabled") ∷ ("auto_restart", "disabled") ∷ [])
          ∷ ("router", ("state", "disabled") ∷ [])
          ∷ [],
    )
    ∷ ("AUTO_TECHSUPPORT", ("GLOBAL", ("state", "enabled") ∷ []) ∷ [])
    ∷ []

abbrev pub features : SonicDb Config
features = record { initial = config; persistent = none; running = some config }

abbrev pub world : World releases persistent_connector
world = record { database = database; features = features; effects = []; calls = 0 }
