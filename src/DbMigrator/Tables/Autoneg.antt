-- ===== src/DbMigrator/Tables/Autoneg.antt =====
-- scripts/db_migrator.py: what `migrate_config_db_port_table_for_auto_neg` makes of CONFIG_DB.
use sonic_utility.Base.{
  ◌≡◌, refl, String, false, not, ◌&&◌, ◌||◌, Option, none, some, ◌==◌, if◌then◌else◌, get_or,
  is_some, arith, eq_iff, Option-cases, inl, inr,
}
use sonic_utility.Base.Dict.{lookup}
use sonic_utility.DbMigrator.Databases.{Databases, Entry, get_entry, field, Laws}
use sonic_utility.DbMigrator.Tables.{migrate_autoneg, migrate_config_db_port_table_for_auto_neg}
use sonic_utility.DbMigrator.Tables.Each.{field-for_each_same, field-for_each}

-- The new value of `autoneg`, and of `adv_speeds`, by the old values of the port.
abbrev pub new_autoneg : Option String → Option String
new_autoneg none = none
new_autoneg (some v) = if v == "1" then some "on" else if v == "0" then some "off" else some v

abbrev pub new_adv_speeds : Option String → Option String → Option String → Option String
new_adv_speeds autoneg speed adv_speeds =
    if (get_or autoneg "" == "1") && is_some speed && not (is_some adv_speeds)
    then speed
    else adv_speeds

as_new :
    (o : Option String)
    → (if get_or o "" == "1" then some "on" else if get_or o "" == "0" then some "off" else o)
      ≡ new_autoneg o
as_new none = refl
as_new (some v) = refl

module _ {S : Type 0} (db : Databases S) (laws : Laws db) where
  own_autoneg :
      (k : String) (e : Entry) (s : S)
      → field db "PORT" k "autoneg" (migrate_autoneg db k e s) ≡ (
          if get_or (lookup "autoneg" e) "" == "1"
          then some "on"
          else if get_or (lookup "autoneg" e) "" == "0"
          then some "off"
          else field db "PORT" k "autoneg" s)
  unfolding migrate_autoneg
  own_autoneg k e s =
      let on = db.config_set "PORT" k "autoneg" "on" s in
      ground (
        arith,
        laws.field-config_set "PORT" k "autoneg" "PORT" k "autoneg" "on" s,
        laws.field-config_set "PORT" k "autoneg" "PORT" k "autoneg" "off" s,
        laws.field-config_set "PORT" k "autoneg" "PORT" k "adv_speeds"
            (get_or (lookup "speed" e) "") on,
        eq_iff k k,
      )

  other_port :
      (k f j : String) (e : Entry) (s : S)
      → (j == k) ≡ false
      → field db "PORT" k f (migrate_autoneg db j e s) ≡ field db "PORT" k f s
  unfolding migrate_autoneg
  other_port k f j e s miss =
      let on = db.config_set "PORT" j "autoneg" "on" s in
      ground (
        arith,
        laws.field-config_set "PORT" k f "PORT" j "autoneg" "on" s,
        laws.field-config_set "PORT" k f "PORT" j "autoneg" "off" s,
        laws.field-config_set "PORT" k f "PORT" j "adv_speeds" (get_or (lookup "speed" e) "") on,
      )

  own_adv_speeds :
      (k : String) (e : Entry) (s : S)
      → field db "PORT" k "adv_speeds" (migrate_autoneg db k e s) ≡ (
          if (get_or (lookup "autoneg" e) "" == "1")
            && is_some (lookup "speed" e)
            && not (is_some (lookup "adv_speeds" e))
          then lookup "speed" e
          else field db "PORT" k "adv_speeds" s)
  unfolding migrate_autoneg
  own_adv_speeds k e s =
      let on = db.config_set "PORT" k "autoneg" "on" s in
      ground (
        arith,
        laws.field-config_set "PORT" k "adv_speeds" "PORT" k "autoneg" "on" s,
        laws.field-config_set "PORT" k "adv_speeds" "PORT" k "autoneg" "off" s,
        laws.field-config_set "PORT" k "adv_speeds" "PORT" k "adv_speeds"
            (get_or (lookup "speed" e) "") on,
        eq_iff k k,
      )

  other_field :
      (t k f j : String) (e : Entry) (s : S)
      → ("PORT" == t) && (("autoneg" == f) || ("adv_speeds" == f)) ≡ false
      → field db t k f (migrate_autoneg db j e s) ≡ field db t k f s
  unfolding migrate_autoneg
  other_field t k f j e s h =
      let on = db.config_set "PORT" j "autoneg" "on" s in
      ground (
        arith,
        laws.field-config_set t k f "PORT" j "autoneg" "on" s,
        laws.field-config_set t k f "PORT" j "autoneg" "off" s,
        laws.field-config_set t k f "PORT" j "adv_speeds" (get_or (lookup "speed" e) "") on,
      )

  -- A field of the entry that the table shows.
  shown :
      (k f : String) (s : S) {e : Entry}
      → lookup k (db.get_table "PORT" s) ≡ some e
      → field db "PORT" k f s ≡ lookup f e
  unfolding field get_entry
  shown k f s h = rw (h) refl

  unshown :
      (k f : String) (s : S)
      → lookup k (db.get_table "PORT" s) ≡ none
      → field db "PORT" k f s ≡ none
  unfolding field get_entry lookup
  unshown k f s h = rw (h) refl

  autoneg-lem :
      (k : String) (s : S)
      → field db "PORT" k "autoneg" (migrate_config_db_port_table_for_auto_neg db s)
        ≡ new_autoneg (field db "PORT" k "autoneg" s)
  unfolding migrate_config_db_port_table_for_auto_neg
  autoneg-lem k s =
      let all =
        field-for_each db "PORT" k "autoneg" (migrate_autoneg db)
          (λ e o.
            if get_or (lookup "autoneg" e) "" == "1"
            then some "on"
            else if get_or (lookup "autoneg" e) "" == "0"
            then some "off"
            else o)
          (db.get_table "PORT" s) s (own_autoneg k) (other_port k "autoneg")
          (laws.keys_once "PORT" s) in
      elim (Option-cases (lookup k (db.get_table "PORT" s))) [
        | inl h ↦ ground (arith, all, h, unshown k "autoneg" s h)
        | inr (e, h) ↦ ground (arith, all, h, shown k "autoneg" s h, as_new (lookup "autoneg" e))
      ]

  adv_speeds-lem :
      (k : String) (s : S)
      → field db "PORT" k "adv_speeds" (migrate_config_db_port_table_for_auto_neg db s)
        ≡ new_adv_speeds
            (field db "PORT" k "autoneg" s)
            (field db "PORT" k "speed" s)
            (field db "PORT" k "adv_speeds" s)
  unfolding migrate_config_db_port_table_for_auto_neg
  adv_speeds-lem k s =
      let all =
        field-for_each db "PORT" k "adv_speeds" (migrate_autoneg db)
          (λ e o.
            if (get_or (lookup "autoneg" e) "" == "1")
              && is_some (lookup "speed" e)
              && not (is_some (lookup "adv_speeds" e))
            then lookup "speed" e
            else o)
          (db.get_table "PORT" s) s (own_adv_speeds k) (other_port k "adv_speeds")
          (laws.keys_once "PORT" s) in
      elim (Option-cases (lookup k (db.get_table "PORT" s))) [
        | inl h ↦ ground (
          arith,
          all,
          h,
          unshown k "autoneg" s h,
          unshown k "speed" s h,
          unshown k "adv_speeds" s h,
        )
        | inr (e, h) ↦
            ground
              (arith, all, h, shown k "autoneg" s h, shown k "speed" s h, shown k "adv_speeds" s h)
      ]

  unchanged :
      (t k f : String) (s : S)
      → ("PORT" == t) && (("autoneg" == f) || ("adv_speeds" == f)) ≡ false
      → field db t k f (migrate_config_db_port_table_for_auto_neg db s) ≡ field db t k f s
  unfolding migrate_config_db_port_table_for_auto_neg
  unchanged t k f s h =
      field-for_each_same db t k f (migrate_autoneg db) (db.get_table "PORT" s) s
        (λ j e s. other_field t k f j e s h)

  -- After the migration of the ports `autoneg` is on for 1 and off for 0 and else as before; where it
  -- was 1, a port with a speed but no `adv_speeds` advertises its speed; no other field has changed.
  pub migrate_autoneg-fields :
      (t k f : String) (s : S)
      → field db t k f (migrate_config_db_port_table_for_auto_neg db s) ≡ (
          if ("PORT" == t) && ("autoneg" == f)
          then new_autoneg (field db "PORT" k "autoneg" s)
          else if ("PORT" == t) && ("adv_speeds" == f)
          then new_adv_speeds
              (field db "PORT" k "autoneg" s)
              (field db "PORT" k "speed" s)
              (field db "PORT" k "adv_speeds" s)
          else field db t k f s)
  migrate_autoneg-fields t k f s = ground (
    arith,
    autoneg-lem k s,
    adv_speeds-lem k s,
    eq_iff "PORT" t,
    eq_iff "autoneg" f,
    eq_iff "adv_speeds" f,
    unchanged t k f s,
  )
