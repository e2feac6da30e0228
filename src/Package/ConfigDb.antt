-- ===== src/Package/ConfigDb.antt =====
-- sonic_package_manager/service_creator/sonic_db.py: access to the configuration databases.
use sonic_utility.Base.{
  String, true, ◌&&◌, Option, none, some, [], ◌∷◌, ◌≡◌, refl, if◌then◌else◌, is_nil, get_or, arith,
  Option-cases, inl, inr, ◌==◌, eq_iff,
}
use sonic_utility.Base.Dict.{Dict, lookup, insert, remove, lookup-insert, lookup-remove}

abbrev pub Fields : Type 0
Fields = Dict String

-- What the feature registry uses of a connector, swsscommon's ConfigDBConnector or the one below:
-- an entry that is not there reads as the empty dictionary, `set_entry` of `None` deletes.
pub record Connector : Type 1 where
  pub Db : Type 0
  pub get_entry : String → String → Db → Fields
  pub set_entry : String → String → Option Fields → Db → Db
  pub get_entry-set_entry :
      (table key t k : String) (data_ : Option Fields) (db : Db)
      → get_entry t k (set_entry table key data_ db)
        ≡ (if (table == t) && (key == k) then get_or data_ [] else get_entry t k db)

-- PersistentConfigDbConnector: the configuration in a JSON file. Table names are in upper case, as
-- all that the program passes are, so `upper` is left out.
abbrev pub Config : Type 0
Config = Dict (Dict Fields)

unfoldable pub get_table : String → Config → Dict Fields
get_table table config = get_or (lookup table config) []

unfoldable pub get_entry : String → String → Config → Fields
unfolding get_table
get_entry table key config = get_or (lookup key (get_table table config)) []

-- _del_key: a table that is left empty is deleted.
unfoldable pub del_key : String → String → Config → Config
del_key table key config = elim (lookup table config) [
  | none ↦ config
  | some data_ ↦
      if is_nil (remove key data_)
      then remove table config
      else insert table (remove key data_) config
]

unfoldable pub set_entry : String → String → Option Fields → Config → Config
unfolding del_key get_table
set_entry table key none config = del_key table key config
set_entry table key (some data_) config =
    insert table (insert key data_ (get_table table config)) config

lookup_nil_table : (key : String) (d : Dict Fields) → is_nil d ≡ true → lookup key d ≡ none
unfolding lookup
lookup_nil_table key [] h = refl
lookup_nil_table key ((k, v) ∷ d) h = cc

-- After `set_entry` the entry has the fields that were set, or none where it was deleted, and
-- every other entry reads as before.
pub get_entry-set_entry :
    (table key t k : String) (data_ : Option Fields) (config : Config)
    → get_entry t k (set_entry table key data_ config)
      ≡ (if (table == t) && (key == k) then get_or data_ [] else get_entry t k config)
unfolding get_entry set_entry
get_entry-set_entry table key t k (some data_) config = ground (
  arith,
  eq_iff table t,
  lookup-insert table t (insert key data_ (get_table table config)) config,
  lookup-insert key k data_ (get_table table config),
)
get_entry-set_entry table key t k none config = elim (Option-cases (lookup table config)) [
  | inl e ↦ ground (arith, eq_iff table t, lookup_nil_table k [] refl)
  | inr (d, e) ↦ ground (
    arith,
    eq_iff table t,
    lookup-remove table t config,
    lookup-insert table t (remove key d) config,
    lookup-remove key k d,
    lookup_nil_table k (remove key d),
    lookup_nil_table k [] refl,
  )
]

-- The JSON connector is one that the feature registry can work with.
abbrev pub persistent_connector : Connector
persistent_connector = record {
  Db = Config;
  get_entry = get_entry;
  set_entry = set_entry;
  get_entry-set_entry = get_entry-set_entry;
}
