-- ===== src/DbMigrator/Tests/Dictionaries.antt =====
-- The databases as dictionaries, for runs of the migrator.
pub mod Lawful
use sonic_utility.Base.{
  ◌≡◌, refl, sym, ap, ◌∙◌, String, Bool, true, false, ◌&&◌, List, [], ◌∷◌, Option, none, some, ◌==◌,
  if◌then◌else◌, get_or, or_else, arith, eq_iff, is_some,
}
use sonic_utility.Base.Dict.{
  Dict, lookup, insert, remove, merge, has_key, IsUnique, lookup-insert, lookup-remove,
  IsUnique-remove,
}
use sonic_utility.Base.Split.{starts_with}
use sonic_utility.DbMigrator.Databases.{Databases, Entry, get_entry, field}

pub record Store : Type 0 where
  pub config : Dict (Dict Entry)
  pub app : Dict Entry
  pub loglevel : Dict Entry
  pub warm : Option String

-- A dictionary as a reader sees it: of equal keys the first.
first_only : {V : Type 0} → Dict V → Dict V
first_only [] = []
first_only ((k, v) ∷ d) = (k, v) ∷ remove k (first_only d)

tidy : Dict Entry → Dict Entry
unfolding first_only
tidy [] = []
tidy ((k, e) ∷ d) = (k, first_only e) ∷ remove k (tidy d)

with_prefix : {V : Type 0} → String → Dict V → List String
with_prefix p [] = []
with_prefix p ((k, v) ∷ d) =
    let rest = with_prefix p d in if starts_with p k then k ∷ rest else rest

table_of : String → Store → Dict Entry
table_of table s = get_or (lookup table s.config) []

with_table : String → Dict Entry → Store → Store
with_table table d s = record s { config = insert table d s.config }

put_entry : String → String → Option Entry → Store → Store
unfolding table_of with_table
put_entry table key none s = with_table table (remove key (table_of table s)) s
put_entry table key (some e) s = with_table table (insert key e (table_of table s)) s

abbrev entry_at : String → Dict Entry → Entry
entry_at key d = get_or (lookup key d) []

unfoldable pub store : Databases Store
unfolding tidy with_prefix table_of with_table put_entry
store = record {
  get_table = λ table s. tidy (table_of table s);
  set_entry = put_entry;
  mod_entry = λ table key e s.
      with_table table
        (insert key (merge (entry_at key (table_of table s)) (first_only e)) (table_of table s)) s;
  config_set = λ table key name value s.
      with_table table
        (insert key (insert name value (entry_at key (table_of table s))) (table_of table s)) s;
  delete_table = λ table s. record s { config = remove table s.config };
  config_keys = λ prefix s. [];
  config_get_all = λ key s. [];
  app_table = λ table s. [];
  app_keys = λ prefix s. with_prefix prefix s.app;
  app_set = λ key name value s. record s {
    app = insert key (insert name value (entry_at key s.app)) s.app;
  };
  app_delete = λ key s. record s { app = remove key s.app };
  app_has = λ key name s. has_key name (entry_at key s.app);
  loglevel_keys = λ s. with_prefix "" s.loglevel;
  loglevel_get_all = λ key s. entry_at key s.loglevel;
  loglevel_delete = λ key s. record s { loglevel = remove key s.loglevel };
  warm_restart = λ s. s.warm;
}

lookup-first_only : {V : Type 0} (k : String) (d : Dict V) → lookup k (first_only d) ≡ lookup k d
unfolding first_only lookup
lookup-first_only k [] = refl
lookup-first_only k ((j, v) ∷ d) =
    ground (arith, lookup-first_only k d, lookup-remove j k (first_only d))

first_only-IsUnique : {V : Type 0} (d : Dict V) → IsUnique (first_only d)
unfolding first_only
first_only-IsUnique [] = tt
first_only-IsUnique ((j, v) ∷ d) = (
  ground (arith, lookup-remove j j (first_only d), eq_iff j j),
  IsUnique-remove j (first_only d) (first_only-IsUnique d),
)

tidy-IsUnique : (d : Dict Entry) → IsUnique (tidy d)
unfolding tidy
tidy-IsUnique [] = tt
tidy-IsUnique ((j, v) ∷ d) = (
  ground (arith, lookup-remove j j (tidy d), eq_iff j j),
  IsUnique-remove j (tidy d) (tidy-IsUnique d),
)

lookup-tidy :
    (k : String) (d : Dict Entry) → get_or (lookup k (tidy d)) [] ≡ first_only (entry_at k d)
unfolding tidy lookup first_only
lookup-tidy k [] = refl
lookup-tidy k ((j, v) ∷ d) = ground (arith, lookup-tidy k d, lookup-remove j k (tidy d))
