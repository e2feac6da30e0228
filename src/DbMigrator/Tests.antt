-- ===== src/DbMigrator/Tests.antt =====
-- The migrator on a small switch of version 3.0.0, and on one without a version.
pub mod Dictionaries
use sonic_utility.DbMigrator.Warm.{migrate_vxlan_config}
use sonic_utility.DbMigrator.Warm.{migrate_loglevel}
use sonic_utility.DbMigrator.Warm.{migrate_lo}
use sonic_utility.DbMigrator.Warm.{migrate_intf_table}
use sonic_utility.DbMigrator.Warm.{add_intf}
use sonic_utility.DbMigrator.Versions.{set_version}
use sonic_utility.DbMigrator.Versions.{run}
use sonic_utility.DbMigrator.Versions.{round}
use sonic_utility.DbMigrator.Versions.{name_of}
use sonic_utility.DbMigrator.Tables.{set_pfcwd_enable}
use sonic_utility.DbMigrator.Tables.{set_lacp_key}
use sonic_utility.DbMigrator.Tables.{plain_keys}
use sonic_utility.DbMigrator.Tables.{migrate_port_qos_map_global}
use sonic_utility.DbMigrator.Tables.{migrate_pfc_wd_table}
use sonic_utility.DbMigrator.Tables.{migrate_feature_table}
use sonic_utility.DbMigrator.Tables.{add_plain_tables}
use sonic_utility.DbMigrator.Tables.{add_plain}
use sonic_utility.DbMigrator.Missing.{migrate_copp_table}
use sonic_utility.DbMigrator.Missing.{merge_init_cfg}
use sonic_utility.DbMigrator.Missing.{add_missing}
use sonic_utility.DbMigrator.Databases.{for_keys}
use sonic_utility.Base.Split.{starts_with}
use sonic_utility.Base.Split.{replace_text}
use sonic_utility.Base.Split.{elem}
use sonic_utility.Base.Split.{contains}
use sonic_utility.Base.Split.{after_prefix}
use sonic_utility.Base.Exec.{raise}
use sonic_utility.Base.Exec.{query}
use sonic_utility.Base.Exec.{pure}
use sonic_utility.Base.Exec.{lift}
use sonic_utility.Base.Dict.{merge}
use sonic_utility.DbMigrator.Versions.{common_migration_ops}
use sonic_utility.DbMigrator.Tables.{migrate_autoneg}
use sonic_utility.DbMigrator.Databases.{for_each}
use sonic_utility.Base.Dict.{insert}
use sonic_utility.DbMigrator.References.{reference_remove}
use sonic_utility.DbMigrator.References.{migrate_qos_fieldval_reference_format}
use sonic_utility.DbMigrator.Versions.{next}
use sonic_utility.DbMigrator.Versions.{named}
use sonic_utility.DbMigrator.Versions.{migrate_loop}
use sonic_utility.DbMigrator.Databases.{get_entry}
use sonic_utility.DbMigrator.Versions.{get_version}
use sonic_utility.Base.Exec.{◌>>=◌}
use sonic_utility.DbMigrator.Tables.{is_ip_prefix_in_key}
use sonic_utility.Base.Dict.{remove}
use sonic_utility.Base.Dict.{lookup}
use sonic_utility.Base.Split.{join}
use sonic_utility.DbMigrator.Names.{without_last}
use sonic_utility.Base.Split.{nth}
use sonic_utility.DbMigrator.Names.{ends_in}
use sonic_utility.DbMigrator.Names.{item_name}
use sonic_utility.Base.Split.{split}
use sonic_utility.Base.Fault.{collect}
use sonic_utility.Base.Text.{has_char}
use sonic_utility.Base.{
  ◌≡◌, ◌≢◌, refl, String, Bool, true, false, List, [], ◌∷◌, Option, none, some, inr,
}
use sonic_utility.Base.Dict.{Dict}
use sonic_utility.Base.Result.{ok}
use sonic_utility.DbMigrator.Databases.{field}
use sonic_utility.DbMigrator.Tables.{
  migrate_config_db_port_table_for_auto_neg, migrate_interface_table,
}
use sonic_utility.DbMigrator.Tables.Autoneg.{migrate_autoneg-fields}
use sonic_utility.DbMigrator.Missing.{
  migrate_init_cfg, migrate_restapi, migrate_telemetry, migrate_console_switch,
  migrate_device_metadata,
}
use sonic_utility.DbMigrator.Missing.Added.{field-migrate_init_cfg, field-missing_config}
use sonic_utility.DbMigrator.Names.{new_value}
use sonic_utility.DbMigrator.Versions.{Platform, migrate}
use sonic_utility.DbMigrator.Versions.Ends.{migrate-ends}
use sonic_utility.DbMigrator.Versions.Final.{migrate-IsCurrent}
use sonic_utility.DbMigrator.Tests.Dictionaries.{Store, store}
use sonic_utility.DbMigrator.Tests.Dictionaries.Lawful.{store-Laws}

abbrev switch : Store
switch = record {
  config =
      ("VERSIONS", ("DATABASE", ("VERSION", "version_3_0_0") ∷ []) ∷ [])
      ∷ (
        "PORT",
        ("Ethernet0", ("autoneg", "1") ∷ ("speed", "40000") ∷ [])
            ∷ ("Ethernet4", ("autoneg", "0") ∷ [])
            ∷ [],
      )
      ∷ ("INTERFACE", ("Ethernet0|10.0.0.0/31", ("NULL", "NULL") ∷ []) ∷ ("Ethernet4", []) ∷ [])
      ∷ ("PORT_QOS_MAP", ("Ethernet0", ("pfc_enable", "3,4") ∷ []) ∷ [])
      ∷ ("DEVICE_METADATA", ("localhost", ("hwsku", "ACS") ∷ []) ∷ [])
      ∷ [];
  app = ("COPP_TABLE:default", []) ∷ [];
  loglevel = [];
  warm = none;
}

abbrev platform : Platform Store
platform = record {
  asic_type = "mellanox";
  hwsku = "ACS";
  init_cfg = some (("FEATURE", ("bgp", ("state", "enabled") ∷ []) ∷ []) ∷ []);
  if_tables = "INTERFACE" ∷ "VLAN_INTERFACE" ∷ [];
  mlnx_migrate_buffer_pool_size = λ v w s. (false, s);
  mlnx_migrate_buffer_profile = λ v w s. (true, s);
  mlnx_flush_new_buffer_configuration = λ s. (true, s);
  mlnx_is_buffer_model_dynamic = λ s. (false, s);
  mlnx_reclaiming_unused_buffer = λ s. s;
  migrate_config_db_buffer_tables_for_dynamic_calculation = λ s. (true, s);
  prepare_dynamic_buffer_for_warm_reboot = λ tables s. (true, s);
  migrate_mgmt_ports_on_s6100 = λ s. s;
}

references_become_names : new_value "|" "[BUFFER_PROFILE|a],x,[BUFFER_PROFILE|b]" ≡ ok (some "a,b")
unfolding new_value has_char collect split item_name ends_in nth without_last join
references_become_names = refl

migrate_autoneg-fields_example :
    field store "PORT" "Ethernet0" "adv_speeds"
      (migrate_config_db_port_table_for_auto_neg store switch)
    ≡ some "40000"
unfolding field lookup store remove
migrate_autoneg-fields_example =
    migrate_autoneg-fields store store-Laws "PORT" "Ethernet0" "adv_speeds" switch

field-migrate_init_cfg_example :
    field store "FEATURE" "bgp" "state"
      (migrate_init_cfg store (("FEATURE", ("bgp", ("state", "enabled") ∷ []) ∷ []) ∷ []) switch)
    ≡ some "enabled"
unfolding lookup field store
field-migrate_init_cfg_example =
    field-migrate_init_cfg store store-Laws "FEATURE" "bgp" "state"
      (("FEATURE", ("bgp", ("state", "enabled") ∷ []) ∷ []) ∷ []) switch (refl, (refl, tt), tt)

field-missing_config_example :
    field store "DEVICE_METADATA" "localhost" "hwsku" (
      migrate_device_metadata store
        (migrate_console_switch store (migrate_telemetry store (migrate_restapi store switch))))
    ≡ some "ACS"
unfolding field lookup store
field-missing_config_example =
    field-missing_config store store-Laws "DEVICE_METADATA" "localhost" "hwsku" switch refl

migrate-ends_example : migrate store platform 18 switch ≢ (ok false, switch)
migrate-ends_example = migrate-ends store platform switch

migrate-IsCurrent_example :
    field store "VERSIONS" "DATABASE" "VERSION" (migrate store platform 18 switch).1
    ≡ some "version_4_0_0"
unfolding lookup migrate ◌>>=◌ get_version get_entry store migrate_loop named next
    migrate_qos_fieldval_reference_format reference_remove insert
    migrate_config_db_port_table_for_auto_neg for_each remove migrate_autoneg common_migration_ops
    merge lift pure query raise collect after_prefix contains elem join nth replace_text split
    starts_with has_char for_keys add_missing merge_init_cfg migrate_console_switch
    migrate_copp_table migrate_device_metadata migrate_init_cfg migrate_restapi migrate_telemetry
    ends_in item_name new_value without_last add_plain add_plain_tables is_ip_prefix_in_key
    migrate_feature_table migrate_interface_table migrate_pfc_wd_table migrate_port_qos_map_global
    plain_keys set_lacp_key set_pfcwd_enable name_of round run set_version add_intf
    migrate_intf_table migrate_lo migrate_loglevel migrate_vxlan_config
migrate-IsCurrent_example =
    migrate-IsCurrent store store-Laws platform 18 switch
      (record { file_keys = (refl, (refl, tt), tt); ports = λ s h. h }) refl
