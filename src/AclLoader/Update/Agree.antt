-- ===== src/AclLoader/Update/Agree.antt =====
-- acl_loader/main.py: the rules that the two updates leave.
use sonic_utility.Base.{
  ◌≡◌, refl, sym, ap, ◌∙◌, String, Bool, true, false, not, ◌&&◌, ◌||◌, List, [], none, ◌==◌, get_or,
  is_some, arith, Option-cases, inl, inr,
}
use sonic_utility.Base.Dict.{Dict, lookup, IsUnique}
use sonic_utility.Base.Split.{elem, upper}
use sonic_utility.Base.Result.{Result, ok}
use sonic_utility.Base.Fault.{Fault}
use sonic_utility.DbMigrator.Databases.{Databases, Entry, field, Laws, for_keys}
use sonic_utility.DbMigrator.Tables.{first_part}
use sonic_utility.AclLoader.Update.{
  Loader, keys, entry_of, kept, is_table_control_plane, is_table_data_plane, delete_rule, add_rule,
  replace_rule, in_table, full_update, incremental_update,
}
use sonic_utility.AclLoader.Update.Steps.{
  elem-keys, elem-kept, answer, elem-keep_if, keep_if-ends, lookup-same_entry, field-delete_rules,
  field-add_rules, field-replace_rules, field-mod_rules,
}

-- The field's value in the rules of a dictionary, and that it has none where the rule is not there.
absent_field :
    (f k : String) (d : Dict Entry) → is_some (lookup k d) ≡ false → lookup f (entry_of k d) ≡ none
unfolding lookup
absent_field f k d h = elim (Option-cases (lookup k d)) [
  | inl n ↦ rw (n) refl
  | inr (e, n) ↦ ground arith
]

module _ {S : Type 0} (db : Databases S) (laws : Laws db) (l : Loader) (s : S) where
  -- The rules that the loader has read are those of the database, no rule of the file is twice, and
  -- the table of each rule is known with its type.
  pub record IsRead : Type 0 where
    pub read : (k f : String) → field db "ACL_RULE" k f s ≡ lookup f (entry_of k l.rules_db_info)
    pub once : IsUnique l.rules_info
    pub typed :
        (k : String)
        → elem k (keys l.rules_info) || elem k (keys l.rules_db_info) ≡ true
        → is_some (lookup "type" (entry_of (first_part k) l.tables_db_info)) ≡ true

  -- After a full update that is not confined to a table, each rule has the fields of the file, and no
  -- others.
  field-full_update :
      (k f : String)
      → l.current_table ≡ none
      → IsRead
      → field db "ACL_RULE" k f (full_update db l s) ≡ lookup f (entry_of k l.rules_info)
  unfolding full_update
  field-full_update k f confined h =
      let ks = kept (in_table db l.current_table) (keys l.rules_db_info) in
      let all : in_table db l.current_table k ≡ true = rw (confined) refl in
      ground (
        arith,
        field-mod_rules db laws k f l.rules_info (for_keys (delete_rule db) ks s) h.once,
        field-delete_rules db laws k f ks s,
        elem-kept k (in_table db l.current_table) (keys l.rules_db_info),
        elem-keys k l.rules_db_info,
        absent_field f k l.rules_db_info,
        h.read k f,
        all,
      )

  abbrev control : String → Result Fault Bool
  control k = is_table_control_plane l.tables_db_info (first_part k)

  abbrev data_plane : String → Result Fault Bool
  data_plane k = is_table_data_plane l.tables_db_info (first_part k)

  -- A rule is of one kind or the other, where its table is known.
  other_kind :
      (k : String) (b : Bool) → control k ≡ ok b → answer (data_plane k) ≡ not (answer (control k))
  unfolding is_table_data_plane
  other_kind k b e = rw (e) refl

  -- The four loops after the deletion, by the keys that they run over.
  field-loops :
      (k f : String) (new_control new_data current_control current_data : List String)
      → IsRead
      → elem k new_control ≡ elem k (keys l.rules_info) && answer (control k)
      → elem k new_data ≡ elem k (keys l.rules_info) && answer (data_plane k)
      → elem k current_control ≡ elem k (keys l.rules_db_info) && answer (control k)
      → elem k current_data ≡ elem k (keys l.rules_db_info) && answer (data_plane k)
      → (elem k (keys l.rules_info) || elem k (keys l.rules_db_info) ≡ true
          → answer (data_plane k) ≡ not (answer (control k)))
      → field db "ACL_RULE" k f (
          for_keys (replace_rule db l) (kept (λ k. elem k current_control) (keys l.rules_info)) (
            for_keys (delete_rule db) (kept (λ k. not (elem k new_control)) current_control) (
              for_keys
                (add_rule db l.rules_info)
                (kept (λ k. not (elem k current_control)) new_control)
                (for_keys
                  (add_rule db l.rules_info)
                  new_data
                  (for_keys (delete_rule db) current_data s)))))
        ≡ lookup f (entry_of k l.rules_info)
  field-loops k f new_control new_data current_control current_data h nc nd cc cd kinds =
      let s_1 = for_keys (delete_rule db) current_data s in
      let s_2 = for_keys (add_rule db l.rules_info) new_data s_1 in
      let added = kept (λ k. not (elem k current_control)) new_control in
      let s_3 = for_keys (add_rule db l.rules_info) added s_2 in
      let removed = kept (λ k. not (elem k new_control)) current_control in
      let s_4 = for_keys (delete_rule db) removed s_3 in
      let existing = kept (λ k. elem k current_control) (keys l.rules_info) in
      let f_1 = field-delete_rules db laws k f current_data s in
      let f_2 = field-add_rules db laws k f l.rules_info new_data s_1 in
      let f_3 = field-add_rules db laws k f l.rules_info added s_2 in
      let f_4 = field-delete_rules db laws k f removed s_3 in
      let f_5 = field-replace_rules db laws k f l existing s_4 in
      let e_3 = elem-kept k (λ k. not (elem k current_control)) new_control in
      let e_4 = elem-kept k (λ k. not (elem k new_control)) current_control in
      let e_5 = elem-kept k (λ k. elem k current_control) (keys l.rules_info) in
      ground (
        arith,
        f_1,
        f_2,
        f_3,
        f_4,
        f_5,
        e_3,
        e_4,
        e_5,
        nc,
        nd,
        cc,
        cd,
        kinds,
        h.read k f,
        elem-keys k l.rules_info,
        elem-keys k l.rules_db_info,
        absent_field f k l.rules_info,
        absent_field f k l.rules_db_info,
        lookup-same_entry f (entry_of k l.rules_info) (entry_of k l.rules_db_info),
      )

  control-answers :
      (k : String)
      → is_some (lookup "type" (entry_of (first_part k) l.tables_db_info)) ≡ true
      → (b : Bool) × (control k ≡ ok b)
  unfolding is_table_control_plane lookup
  control-answers k h = elim (Option-cases (lookup (first_part k) l.tables_db_info)) [
    | inl n ↦
        let none_there = ap (λ o. is_some (lookup "type" (get_or o []))) n in
        ground (arith, none_there)
    | inr (table, n) ↦ elim (Option-cases (lookup "type" table)) [
      | inl m ↦
          let none_there : is_some (lookup "type" (entry_of (first_part k) l.tables_db_info))
              ≡ false =
            rw (n) rw (m) refl in
          ground (arith, none_there)
      | inr (type, m) ↦ (upper type == "CTRLPLANE", rw (n) rw (m) refl)
    ]
  ]

  data_plane-answers :
      (k : String)
      → is_some (lookup "type" (entry_of (first_part k) l.tables_db_info)) ≡ true
      → (b : Bool) × (data_plane k ≡ ok b)
  unfolding is_table_data_plane
  data_plane-answers k h = let (b, e) = control-answers k h in (not b, rw (e) refl)

  kinds_apart :
      (k : String)
      → IsRead
      → elem k (keys l.rules_info) || elem k (keys l.rules_db_info) ≡ true
      → answer (data_plane k) ≡ not (answer (control k))
  kinds_apart k h e = let (b, a) = control-answers k (h.typed k e) in other_kind k b a

  -- An incremental update ends without an exception and leaves each rule with the fields that the file
  -- gives it, and no others, as a full update does that is not confined to a table, if the rules that
  -- the loader has read are those of the database, no rule of the file is twice, and the table of each
  -- rule is known with its type.
  pub incremental_update-full_update :
      l.current_table ≡ none
      → IsRead
      → (s' : S) × (incremental_update db l s ≡ ok s')
        × ((k f : String)
            → (field db "ACL_RULE" k f s' ≡ lookup f (entry_of k l.rules_info))
              × (field db "ACL_RULE" k f s' ≡ field db "ACL_RULE" k f (full_update db l s)))
  unfolding incremental_update
  incremental_update-full_update confined h =
      let (nc, t_1) =
        keep_if-ends control (keys l.rules_info)
          (λ k e. control-answers k (h.typed k (ground arith))) in
      let (nd, t_2) =
        keep_if-ends data_plane (keys l.rules_info)
          (λ k e. data_plane-answers k (h.typed k (ground arith))) in
      let (cc, t_3) =
        keep_if-ends control (keys l.rules_db_info)
          (λ k e. control-answers k (h.typed k (ground arith))) in
      let (cd, t_4) =
        keep_if-ends data_plane (keys l.rules_db_info)
          (λ k e. data_plane-answers k (h.typed k (ground arith))) in
      let made = λ (k : String) (f : String).
        field-loops k f nc nd cc cd h (elem-keep_if k control (keys l.rules_info) t_1)
          (elem-keep_if k data_plane (keys l.rules_info) t_2)
          (elem-keep_if k control (keys l.rules_db_info) t_3)
          (elem-keep_if k data_plane (keys l.rules_db_info) t_4) (kinds_apart k h) in
      (
        _,
        rw (t_1) rw (t_2) rw (t_3) rw (t_4) refl,
        λ k f. (made k f, made k f ∙ sym (field-full_update k f confined h)),
      )
