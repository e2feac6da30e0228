-- ===== src/DbMigrator/Tests/Dictionaries/Lawful.antt =====
-- The dictionaries keep the laws of the connectors.
use sonic_utility.Base.{
  ◌≡◌, refl, sym, ap, ◌∙◌, subst, String, ◌&&◌, [], Option, none, some, ◌==◌, if◌then◌else◌, get_or,
  or_else, arith, eq_iff,
}
use sonic_utility.Base.Dict.{
  Dict, lookup, insert, remove, merge, IsUnique, lookup-insert, lookup-remove, lookup-merge,
}
use sonic_utility.DbMigrator.Databases.{Entry, get_entry, field, Laws}
use sonic_utility.DbMigrator.Tests.Dictionaries.{
  Store, store, table_of, with_table, put_entry, entry_at, first_only, lookup-first_only,
  first_only-IsUnique, tidy-IsUnique, lookup-tidy,
}

field-store :
    (t k f : String) (s : Store) → field store t k f s ≡ lookup f (entry_at k (table_of t s))
unfolding field store
field-store t k f s =
    ap (lookup f) (lookup-tidy k (table_of t s)) ∙ lookup-first_only f (entry_at k (table_of t s))

table_of-with_table :
    (t table : String) (d : Dict Entry) (s : Store)
    → table_of t (with_table table d s) ≡ (if table == t then d else table_of t s)
unfolding table_of with_table
table_of-with_table t table d s = ground (arith, lookup-insert table t d s.config)

field-with_table :
    (t k f table : String) (d : Dict Entry) (s : Store)
    → field store t k f (with_table table d s)
      ≡ (if table == t then lookup f (entry_at k d) else field store t k f s)
field-with_table t k f table d s = ground (
  arith,
  field-store t k f (with_table table d s),
  field-store t k f s,
  table_of-with_table t table d s,
)

fields_once : (t k : String) (s : Store) → IsUnique (get_entry store t k s)
unfolding store get_entry lookup
fields_once t k s =
    subst IsUnique (sym (lookup-tidy k (table_of t s)))
      (first_only-IsUnique (entry_at k (table_of t s)))

field-put_entry :
    (t k f table key : String) (e : Option Entry) (s : Store)
    → field store t k f (put_entry table key e s)
      ≡ (if (table == t) && (key == k) then lookup f (get_or e []) else field store t k f s)
unfolding put_entry
field-put_entry t k f table key none s = ground (
  arith,
  field-with_table t k f table (remove key (table_of table s)) s,
  lookup-remove key k (table_of table s),
  eq_iff table t,
  field-store t k f s,
)
field-put_entry t k f table key (some e) s = ground (
  arith,
  field-with_table t k f table (insert key e (table_of table s)) s,
  lookup-insert key k e (table_of table s),
  eq_iff table t,
  field-store t k f s,
)

field-mod :
    (t k f table key : String) (e : Entry) (s : Store)
    → field store t k f (
        with_table table
          (insert key (merge (entry_at key (table_of table s)) (first_only e)) (table_of table s))
          s)
      ≡ (if (table == t) && (key == k)
          then or_else (lookup f e) (field store t k f s)
          else field store t k f s)
field-mod t k f table key e s = ground (
  arith,
  field-with_table t k f table
      (insert key (merge (entry_at key (table_of table s)) (first_only e)) (table_of table s)) s,
  lookup-insert key k (merge (entry_at key (table_of table s)) (first_only e)) (table_of table s),
  lookup-merge f (entry_at key (table_of table s)) (first_only e) (first_only-IsUnique e),
  lookup-first_only f e,
  eq_iff table t,
  eq_iff key k,
  field-store t k f s,
)

field-set :
    (t k f table key name value : String) (s : Store)
    → field store t k f (
        with_table table
          (insert key (insert name value (entry_at key (table_of table s))) (table_of table s))
          s)
      ≡ (if (table == t) && (key == k) && (name == f) then some value else field store t k f s)
field-set t k f table key name value s = ground (
  arith,
  field-with_table t k f table
      (insert key (insert name value (entry_at key (table_of table s))) (table_of table s)) s,
  lookup-insert key k (insert name value (entry_at key (table_of table s))) (table_of table s),
  lookup-insert name f value (entry_at key (table_of table s)),
  eq_iff table t,
  eq_iff key k,
  field-store t k f s,
)

field-deleted :
    (t k f table : String) (s : Store)
    → field store t k f (record s { config = remove table s.config })
      ≡ (if table == t then none else field store t k f s)
unfolding table_of lookup
field-deleted t k f table s = ground (
  arith,
  field-store t k f (record s { config = remove table s.config }),
  field-store t k f s,
  lookup-remove table t s.config,
)

field-same :
    (t k f : String) (s s' : Store)
    → s.config ≡ s'.config
    → field store t k f s ≡ field store t k f s'
unfolding table_of
field-same t k f s s' e = ground (arith, field-store t k f s, field-store t k f s')

pub store-Laws : Laws store
unfolding store
store-Laws = record {
  keys_once = λ t s. tidy-IsUnique (table_of t s);
  fields_once = fields_once;
  field-set_entry = field-put_entry;
  field-mod_entry = field-mod;
  field-config_set = field-set;
  field-delete_table = field-deleted;
  field-app_set =
      λ t k f key name value s. field-same t k f (store.app_set key name value s) s refl;
  field-app_delete = λ t k f key s. field-same t k f (store.app_delete key s) s refl;
  field-loglevel_delete = λ t k f key s. field-same t k f (store.loglevel_delete key s) s refl;
}
