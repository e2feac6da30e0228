-- ===== src/Lib.antt =====
-- sonic-utilities: the command line tools of the SONiC network operating system, as far as they
-- decide something. Paths are those of the repository.
--
-- Package: sonic_package_manager/, which installs, upgrades and removes packages that come as docker
-- images.
--   Package/Semver        what the code uses of the third-party package semantic_version, a parameter
--   Package/Version, Constraint, Reference
--                         version.py, constraint.py, reference.py and parse_reference_expression
--   Package/Model, Errors the data of manifests, packages and exceptions
--   Package/Database      database.py: PackageDatabase and packages.json
--   Package/Tree          manager.py: the validation of dependencies and conflicts
--   Package/ConfigDb, Feature
--                         service_creator/sonic_db.py and feature.py: the registry of features
--   Package/World         the state of the manager, and its effects outside the program
--   Package/Source        source.py: images from a registry, a tarball or the local docker
--   Package/Creator       service_creator/creator.py: the order of its steps
--   Package/Manager       manager.py: PackageManager
-- The manager calls the sources, the creator and the database; the creator calls the registry, which
-- writes to every connector of the configuration. Base has what these share: dictionaries with the
-- order of insertion, results, texts, and Exec, methods whose changes survive an exception.
--
-- Updater: generic_config_updater/, which applies patches to the configuration of the device.
--   Updater/Moves, Dfs, Bfs, Memoization
--                         patch_sorter.py: the three sorters, over moves as an interface
--   Updater/Sorters       patch_sorter.py: PatchSorter, StrictPatchSorter
--   Updater/Apply         generic_updater.py: PatchApplier and ConfigReplacer
--   Updater/Checkpoints   generic_updater.py: FileSystemConfigRollbacker
--
-- RouteCheck: scripts/route_check.py, which compares the routes of APPL_DB with those of the ASIC.
--   RouteCheck/Diff       diff_sorted_lists; RouteCheck/Filters the filters of routes
--   RouteCheck/Check      check_routes and the interval of main
--   RouteCheck/Messages   set_level and print_message
--
-- DbMigrator: scripts/db_migrator.py, which brings the databases to the present version.
--   DbMigrator/Databases  the operations of swsscommon's connectors, as an interface with laws
--   DbMigrator/Tables, Missing, Warm, Names, References
--                         the rewritings of the tables, on CONFIG_DB and for a warm reboot
--   DbMigrator/Versions   the handlers of the versions, and migrate
-- The handlers of the versions call the rewritings, and migrate calls a handler by the name that the
-- last one returned, as getattr does.
--
-- AclLoader: acl_loader/main.py, which brings the rules of a file to the database.
--   AclLoader/Values, Tables, Convert, Actions, Rules
--                         the conversion of the rules of a file: fields, actions, whole rules
--   AclLoader/Update      the full and the incremental update, and the deletion of rules
-- It writes through the same connectors as the migrator, with the same laws.
--
-- FdbFilter: fdbutil/filter_fdb_entries.py, which drops the forwarding entries of hosts that ARP does
-- not know; Python's ipaddress is a parameter.
--
-- A method is a function from the state to its result and the new state. Each call that changes
-- something outside the program is one effect; the environment says which of them raise, by their
-- position in the run, so a theorem about all environments is one about every failure at every
-- position. The writing of packages.json is such a call too: where it raises, the file is as it
-- was or has lost its content. The files of checkpoints are on a disk whose operations are an
-- interface. Objects that the code copies are values: PackageDatabase hands out copies of its
-- entries. Loops are by recursion on the lists that they run over. Only the searches of the
-- sorters are on fuel: a call of the search by depth, with memory or without, visits a hash that
-- was not visited before, so more fuel than there are hashes is enough; a round of the search by
-- breadth takes an item from the queues, and appends some only where it visits a new hash. The
-- loop of migrate is on fuel too: 18 rounds are enough, one more than there are handlers in the
-- longest chain.
--
-- Not modelled: the lock and the check of option names around the methods of PackageManager,
-- clients of docker and of registries (their answers are parameters), the text of generated
-- files, messages of exceptions, and commands that only print. jsonpatch and the YANG models are
-- parameters, and so are the moves of the search and the change applier; the splitters of
-- configurations and NonStrictPatchSorter are left out. Of the migrator the steps for Mellanox
-- buffers, for dynamic buffers and for the ports of the S6100 are parameters, and a version in
-- the database that names another attribute of the class counts as one that is missing. Of the
-- route check Python's ipaddress is a parameter; signals and waiting are left out. Of the ACL
-- loader the reading of the tables and of the file and the tables that show prints are left out,
-- and the databases of the ASICs, which get the same writings; the updates take the values of
-- rules as texts, as they are stored.
pub mod Base
pub mod Package
pub mod RouteCheck
pub mod AclLoader
pub mod FdbFilter
pub mod DbMigrator
pub mod Updater
