-- ===== src/DbMigrator/Tables/Interfaces.antt =====
-- scripts/db_migrator.py: which entries `migrate_interface_table` leaves as they are.
use sonic_utility.Base.{◌≡◌, String, true, ◌⊎◌, List}
use sonic_utility.Base.Dict.{Dict}
use sonic_utility.Base.Split.{elem}
use sonic_utility.DbMigrator.Databases.{Databases}
use sonic_utility.DbMigrator.Tables.{is_ip_prefix_in_key}
use Prim.Native.Char.{Char}

-- The key of an entry that stays: it has a prefix, or is among the interfaces with an entry.
abbrev pub IsFixed : String → List String → Type 0
IsFixed k if_db = (is_ip_prefix_in_key k ≡ true) ⊎ (elem k if_db ≡ true)
