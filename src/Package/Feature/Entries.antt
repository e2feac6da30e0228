-- ===== src/Package/Feature/Entries.antt =====
-- What `register`, `deregister` and `update` do to the FEATURE table of every connector.
use sonic_utility.Base.{
  String, Bool, false, ◌&&◌, ◌||◌, Option, none, some, [], ◌≡◌, refl, ◌∙◌, if◌then◌else◌, or_else,
  arith, ◌==◌, eq_iff,
}
use sonic_utility.Base.Dict.{lookup, merge, IsUnique, lookup-merge}
use sonic_utility.Package.Model.{ServiceTable}
use sonic_utility.Package.ConfigDb.{Fields, Connector}
use sonic_utility.Package.Feature.{
  SonicDb, feature_table, auto_ts_feature, syslog_config, for_connectors, register_on,
  register_auto_ts, register_syslog_config, register, deregister_on, deregister, update_on, update,
  move_entry, get_default_feature_entries, get_non_configurable_feature_entries,
}
use sonic_utility.Package.Feature.Each.{
  Every, OnEach, for_connectors-OnEach, OnEach-trans, OnEach-refl, if-OnEach, every,
}

module _ (cn : Connector) where
  open cn use {Db, get_entry, set_entry, get_entry-set_entry}

  -- The FEATURE table reads the same.
  abbrev SameFeatures : Db → Db → Type 0
  SameFeatures a b = (k : String) → get_entry feature_table k b ≡ get_entry feature_table k a

  move_entry-SameFeatures :
      (table : String) (defaults : Fields) (new_name : String) (old_name : Option String) (db : Db)
      → (table == feature_table) ≡ false
      → SameFeatures db (move_entry cn table defaults new_name old_name db)
  unfolding move_entry
  move_entry-SameFeatures table defaults new_name none db other k =
      rw get_entry-set_entry (rw other)
  move_entry-SameFeatures table defaults new_name (some old_name) db other k =
      rw get_entry-set_entry (rw other (rw get_entry-set_entry (rw other)))

  moved :
      (table : String) (defaults : Fields) (new_name : String) (old_name : Option String)
      (s : SonicDb Db)
      → (table == feature_table) ≡ false
      → OnEach SameFeatures s (for_connectors (move_entry cn table defaults new_name old_name) s)
  moved table defaults new_name old_name s other =
      for_connectors-OnEach (λ _. Unit) SameFeatures
        (move_entry cn table defaults new_name old_name)
        (λ db _. move_entry-SameFeatures table defaults new_name old_name db other) s (every s)

  register_auto_ts-SameFeatures :
      (new_name : String) (old_name : Option String) (s : SonicDb Db)
      → OnEach SameFeatures s (register_auto_ts cn new_name old_name s)
  unfolding register_auto_ts
  register_auto_ts-SameFeatures new_name old_name s =
      if-OnEach SameFeatures _ s _ s (moved auto_ts_feature _ new_name old_name s refl)
        (OnEach-refl SameFeatures (λ db k. refl) s)

  -- The two calls that follow the loop in `register` and in `update`.
  rest-SameFeatures :
      (rate_limit : Bool) (new_name : String) (old_name : Option String) (s : SonicDb Db)
      → OnEach SameFeatures s (
          let with_auto_ts = register_auto_ts cn new_name old_name s in
          if rate_limit
          then register_syslog_config cn new_name old_name with_auto_ts
          else with_auto_ts)
  unfolding register_syslog_config
  rest-SameFeatures rate_limit new_name old_name s =
      let first = register_auto_ts-SameFeatures new_name old_name s in
      if-OnEach SameFeatures rate_limit s _ _
        (OnEach-trans SameFeatures SameFeatures SameFeatures (λ a b c r q k. q k ∙ r k) s
          (register_auto_ts cn new_name old_name s) _ first
          (moved syslog_config _ new_name old_name _ refl))
        first

  -- What stands in the fields of the registered feature: what the manifest fixes, else what the
  -- configuration had, else the defaults with the given state and owner. No other feature changes.
  abbrev pub Registered : ServiceTable → Option String → Option String → Db → Db → Type 0
  Registered service state owner db db' =
      (k field : String)
      → lookup field (get_entry feature_table k db') ≡ (
          if service.name == k
          then or_else (lookup field (get_non_configurable_feature_entries service)) (
              or_else (lookup field (get_entry feature_table k db))
                (lookup field (get_default_feature_entries state owner)))
          else lookup field (get_entry feature_table k db))

  -- The entries that a manifest fixes have five different names.
  pub non_configurable-IsUnique :
      (service : ServiceTable) → IsUnique (get_non_configurable_feature_entries service)
  unfolding get_non_configurable_feature_entries lookup
  non_configurable-IsUnique service = (refl, (refl, (refl, (refl, (refl, tt)))))

  register_on-Registered :
      (service : ServiceTable) (state owner : Option String) (db : Db)
      → IsUnique (get_entry feature_table service.name db)
      → Registered service state owner db (
          register_on cn service.name
            (get_default_feature_entries state owner)
            (get_non_configurable_feature_entries service)
            db)
  unfolding register_on
  register_on-Registered service state owner db u k field =
      let fixed = get_non_configurable_feature_entries service in
      let current = get_entry feature_table service.name db in
      let defaults = get_default_feature_entries state owner in
      rw get_entry-set_entry (
        ground (
          arith,
          eq_iff service.name k,
          lookup-merge field (merge defaults current) fixed (non_configurable-IsUnique service),
          lookup-merge field defaults current u,
        ))

  -- Registering a feature writes on every connector the fields that the manifest fixes, keeps the
  -- other fields that were configured, fills in the defaults for the rest, and changes no other
  -- feature, if what is configured has no field twice.
  pub register-Registered :
      (service : ServiceTable) (state owner : Option String) (s : SonicDb Db)
      → Every (λ db. IsUnique (get_entry feature_table service.name db)) s
      → OnEach (Registered service state owner) s (register cn service state owner s)
  unfolding register
  register-Registered service state owner s u =
      OnEach-trans (Registered service state owner) SameFeatures (Registered service state owner)
        (λ a b c r q k field. rw (q k) (r k field)) s _ _
        (for_connectors-OnEach (λ db. IsUnique (get_entry feature_table service.name db))
          (Registered service state owner) _
          (λ db one. register_on-Registered service state owner db one) s u)
        (rest-SameFeatures service.support_rate_limit service.name none _)

  abbrev pub is_feature_table : String → Bool
  is_feature_table t = t == feature_table || t == auto_ts_feature || t == syslog_config

  -- The three entries of the feature are empty, and every other entry is as it was.
  abbrev pub Deregistered : String → Db → Db → Type 0
  Deregistered name db db' =
      (t k : String)
      → get_entry t k db' ≡ (if is_feature_table t && (name == k) then [] else get_entry t k db)

  deregister_on-Deregistered :
      (name : String) (db : Db) → Deregistered name db (deregister_on cn name db)
  unfolding deregister_on
  deregister_on-Deregistered name db t k = ground (
    arith,
    eq_iff t feature_table,
    eq_iff feature_table t,
    eq_iff t auto_ts_feature,
    eq_iff auto_ts_feature t,
    eq_iff t syslog_config,
    eq_iff syslog_config t,
    get_entry-set_entry feature_table name t k none db,
    get_entry-set_entry auto_ts_feature name t k none (set_entry feature_table name none db),
    get_entry-set_entry syslog_config name t k none
        (set_entry auto_ts_feature name none (set_entry feature_table name none db)),
  )

  -- Deregistering a feature deletes its entries in the three tables of features on every
  -- connector, and nothing else.
  pub deregister-Deregistered :
      (name : String) (s : SonicDb Db) → OnEach (Deregistered name) s (deregister cn name s)
  unfolding deregister
  deregister-Deregistered name s =
      for_connectors-OnEach (λ _. Unit) (Deregistered name) (deregister_on cn name)
        (λ db _. deregister_on-Deregistered name db) s (every s)

  -- The entry of the old name, with the fields that the new manifest fixes, stands under the new
  -- name; the old name has no entry, unless it is the new one; no other feature changes.
  abbrev pub Updated : ServiceTable → ServiceTable → Db → Db → Type 0
  Updated old_service new_service db db' =
      (k field : String)
      → lookup field (get_entry feature_table k db') ≡ (
          if new_service.name == k
          then or_else (lookup field (get_non_configurable_feature_entries new_service))
              (lookup field (get_entry feature_table old_service.name db))
          else if old_service.name == k
          then none
          else lookup field (get_entry feature_table k db))

  update_on-Updated :
      (old_service new_service : ServiceTable) (db : Db)
      → Updated old_service new_service db (
          update_on cn old_service.name new_service.name
            (get_non_configurable_feature_entries new_service)
            db)
  unfolding update_on lookup
  update_on-Updated old_service new_service db k field = rw get_entry-set_entry (
      ground (
        arith,
        lookup-merge field (get_entry feature_table old_service.name db)
            (get_non_configurable_feature_entries new_service)
            (non_configurable-IsUnique new_service),
        get_entry-set_entry feature_table old_service.name feature_table k none db,
      ))

  -- Updating a feature moves its entry to the new name on every connector, with the fields that
  -- the new manifest fixes and all others as they were, and changes no other feature.
  pub update-Updated :
      (old_service new_service : ServiceTable) (s : SonicDb Db)
      → OnEach (Updated old_service new_service) s (update cn old_service new_service s)
  unfolding update
  update-Updated old_service new_service s =
      OnEach-trans (Updated old_service new_service) SameFeatures (Updated old_service new_service)
        (λ a b c r q k field. rw (q k) (r k field)) s _ _
        (for_connectors-OnEach (λ _. Unit) (Updated old_service new_service) _
          (λ db _. update_on-Updated old_service new_service db) s (every s))
        (rest-SameFeatures new_service.support_rate_limit new_service.name (some old_service.name)
          _)
