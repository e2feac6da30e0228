-- ===== src/AclLoader/Rules/Whole.antt =====
-- acl_loader/main.py: a whole rule raises no exception but the loader's own.
use sonic_utility.Base.{◌≡◌, refl, ℕ, String, true, Option, none, some, if◌then◌else◌, arith}
use sonic_utility.Base.Result.{Result, guard}
use sonic_utility.Base.Fault.{Fault, at_key}
use sonic_utility.DbMigrator.Databases.{Entry}
use sonic_utility.AclLoader.Values.{acl_loader_exception, raised}
use sonic_utility.AclLoader.Tables.{
  Rule, Settings, Props, is_table_mirror, is_table_l3v6, is_table_l3, is_table_ipv6,
}
use sonic_utility.AclLoader.Convert.{
  convert_l2, convert_ip, convert_icmp, convert_vlan, convert_byte, convert_ethertype,
  convert_protocol, convert_address, validate_rule_fields,
}
use sonic_utility.AclLoader.Update.{is_table_control_plane}
use sonic_utility.AclLoader.Actions.{
  mirror_action, session_or_raise, mirror_props, accept_props, validate_actions, convert_action,
  get_session_name,
}
use sonic_utility.AclLoader.Rules.{convert_fields, convert_rule_to_db_schema, all_props}
use sonic_utility.AclLoader.Rules.Clean.{
  is_clean, bind_clean, guard_clean, well_formed, has_type, clean_protocol, clean_address,
  clean_vlan, clean_byte, clean_ethertype, clean_key, clean_control, clean_mirror, clean_l3v6,
  clean_l3, clean_ipv6,
}

clean_mirror_action : (stage : Option String) → is_clean (mirror_action stage) ≡ true
clean_mirror_action none = refl
clean_mirror_action (some stage) = ground arith

clean_session : (o : Option String) → is_clean (session_or_raise o) ≡ true
clean_session none = refl
clean_session (some s) = ground arith

clean_mirror_props : (st : Settings) → is_clean (mirror_props st) ≡ true
unfolding mirror_props
clean_mirror_props st =
    bind_clean (session_or_raise (get_session_name st)) _ (clean_session (get_session_name st))
      (λ s.
        bind_clean (mirror_action st.mirror_stage) _ (clean_mirror_action st.mirror_stage)
          (λ k. refl))

validate_clean : (props : Props) → is_clean (validate_rule_fields props) ≡ true
unfolding validate_rule_fields
validate_clean props = ground arith

module _ (st : Settings) (t : String) (h : has_type st.tables_db_info t ≡ true) where
  clean_accept : is_clean (accept_props st t) ≡ true
  unfolding accept_props
  clean_accept =
      bind_clean (raised (is_table_control_plane st.tables_db_info t)) _
        (clean_control st.tables_db_info t h)
        (λ c.
          bind_clean (raised (is_table_mirror st.tables_db_info t)) _
            (clean_mirror st.tables_db_info t h)
            (λ m. let mirrored = clean_mirror_props st in ground arith))

  clean_validate : (props : Entry) → is_clean (validate_actions st t props) ≡ true
  unfolding validate_actions
  clean_validate props =
      bind_clean (raised (is_table_control_plane st.tables_db_info t)) _
        (clean_control st.tables_db_info t h)
        (λ c.
          bind_clean (raised (at_key t st.tables_db_info)) _ (clean_key st.tables_db_info t h)
            (λ e. refl))

  clean_action : (rule : Rule) → is_clean (convert_action st t rule) ≡ true
  unfolding convert_action
  clean_action rule = bind_clean _ _ (let accepted = clean_accept in ground arith) (λ props.
      bind_clean (validate_actions st t props) _ (clean_validate props) (λ valid.
        bind_clean (guard valid.0 acl_loader_exception) _ (guard_clean valid.0) (λ a. refl)))

  module _ (ip_network_version : String → Result Fault ℕ) (rule : Rule)
      (g : well_formed ip_network_version rule ≡ true) where
    clean_ip : is_clean (convert_ip ip_network_version st.tables_db_info t rule) ≡ true
    unfolding convert_ip well_formed
    clean_ip =
        bind_clean (convert_protocol st.tables_db_info t rule.protocol) _
          (clean_protocol st.tables_db_info t h rule.protocol)
          (λ p.
            bind_clean
              (convert_address ip_network_version "SRC_IP" "SRC_IPV6" rule.source_ip_address) _
              (clean_address ip_network_version "SRC_IP" "SRC_IPV6" rule.source_ip_address
                (ground arith))
              (λ s.
                bind_clean
                  (convert_address ip_network_version "DST_IP" "DST_IPV6"
                    rule.destination_ip_address)
                  _
                  (clean_address ip_network_version "DST_IP" "DST_IPV6" rule.destination_ip_address
                    (ground arith))
                  (λ d.
                    bind_clean (raised (is_table_mirror st.tables_db_info t)) _
                      (clean_mirror st.tables_db_info t h) (λ m. refl))))

    clean_icmp : is_clean (convert_icmp st.tables_db_info t rule) ≡ true
    unfolding convert_icmp well_formed
    clean_icmp =
        bind_clean (raised (is_table_ipv6 st.tables_db_info t)) _ (clean_ipv6 st.tables_db_info t h)
          (λ v6.
            bind_clean (convert_byte (if v6 then "ICMPV6_TYPE" else "ICMP_TYPE") rule.icmp_type) _
              (clean_byte _ rule.icmp_type (ground arith))
              (λ a.
                bind_clean (convert_byte (if v6 then "ICMPV6_CODE" else "ICMP_CODE") rule.icmp_code)
                  _ (clean_byte _ rule.icmp_code (ground arith)) (λ b. refl)))

    clean_l2 : is_clean (convert_l2 rule) ≡ true
    unfolding convert_l2 well_formed
    clean_l2 =
        bind_clean (convert_ethertype rule.ethertype) _ (clean_ethertype rule.ethertype) (λ a.
          bind_clean (convert_vlan rule.vlan_id) _ (clean_vlan rule.vlan_id (ground arith))
            (λ b. refl))

    clean_fields : is_clean (convert_fields ip_network_version st t rule) ≡ true
    unfolding convert_fields
    clean_fields = bind_clean (convert_action st t rule) _ (clean_action rule) (λ a.
        bind_clean (convert_l2 rule) _ clean_l2 (λ b.
          bind_clean (convert_ip ip_network_version st.tables_db_info t rule) _ clean_ip
            (λ c. bind_clean (convert_icmp st.tables_db_info t rule) _ clean_icmp (λ d. refl))))

    -- A rule that is well formed, of a table with its type, is converted or skipped.
    pub convert_rule-is_clean :
        is_clean (convert_rule_to_db_schema ip_network_version st t rule) ≡ true
    unfolding convert_rule_to_db_schema
    convert_rule-is_clean =
        bind_clean (raised (is_table_l3v6 st.tables_db_info t)) _ (clean_l3v6 st.tables_db_info t h)
          (λ a.
            bind_clean (raised (is_table_l3 st.tables_db_info t)) _ (clean_l3 st.tables_db_info t h)
              (λ b. bind_clean (convert_fields ip_network_version st t rule) _ clean_fields (λ f.
                bind_clean (validate_rule_fields (all_props st rule a b f)) _
                  (validate_clean (all_props st rule a b f)) (λ d. refl))))
