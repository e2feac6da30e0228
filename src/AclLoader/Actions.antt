-- ===== src/AclLoader/Actions.antt =====
-- acl_loader/main.py: the actions of a rule, and which of them the switch supports.
pub mod Bounded
use Prim.Native.String.{◌++◌ as str_append}
use sonic_utility.Base.{
  ℕ, String, Bool, true, false, not, ◌&&◌, ◌||◌, List, [], ◌∷◌, Option, none, some, ◌==◌,
  if◌then◌else◌, get_or, is_nil, length, nat_eq,
}
use sonic_utility.Base.Dict.{Dict, lookup, has_key, insert, merge}
use sonic_utility.Base.Split.{elem, upper, split, starts_with, contains}
use sonic_utility.Base.Text.{replace, is_empty, show_nat}
use sonic_utility.Base.Result.{Result, ok, err, ◌>>=◌, ◌>>◌, guard}
use sonic_utility.Base.Fault.{Fault, at_key}
use sonic_utility.DbMigrator.Databases.{Entry}
use sonic_utility.AclLoader.Values.{
  Value, text, Failure, acl_loader_exception, fault, raised, show_int, minus,
}
use sonic_utility.AclLoader.Tables.{
  Rule, Settings, Props, is_table_mirror, is_table_l3v6, is_table_l3, is_table_ipv6,
  is_table_egress,
}
use sonic_utility.AclLoader.Convert.{
  convert_l2, convert_ip, convert_icmp, convert_transport, convert_input_interface,
  validate_rule_fields,
}
use sonic_utility.AclLoader.Update.{is_table_control_plane}

first_session : List String → Option String
first_session [] = none
first_session (k ∷ ks) =
    let rest = first_session ks in if starts_with "everflow" k then some k else rest

-- not o, for a text or None
abbrev is_missing : Option String → Bool
is_missing none = true
is_missing (some s) = is_empty s

unfoldable pub get_session_name : Settings → Option String
unfolding first_session
get_session_name st =
    if is_missing st.requested_session then first_session st.sessions else st.requested_session

-- Whether the capability of the switch for an action, if it is stored, contains its value.
abbrev has_action : Option String → String → Bool
has_action none action_value = false
has_action (some actions) action_value = contains action_value actions

abbrev is_listed : Option String → String → Bool
is_listed none action_key = false
is_listed (some action_list) action_key = elem (upper action_key) (split "," action_list)

unfoldable pub is_supported : Entry → Entry → String → String → Bool
is_supported aclcapability switchcapability action_key action_value =
    is_listed (lookup "action_list" aclcapability) action_key
    && (not (action_key == "PACKET_ACTION")
        || has_action (lookup (str_append "ACL_ACTION|" (upper action_key)) switchcapability)
            action_value)

-- for action_key in dict(action_props): what is not deleted
unfoldable pub supported_only : Entry → Entry → Entry → Entry
unfolding is_supported
supported_only acl switch [] = []
supported_only acl switch ((k, v) ∷ props) =
    let rest = supported_only acl switch props in
    if is_supported acl switch k v then (k, v) ∷ rest else rest

-- The answer, and what is left of the actions, which the code deletes in place.
unfoldable pub validate_actions : Settings → String → Entry → Result Failure (Bool × Entry)
unfolding supported_only
validate_actions st table_name action_props = do
  control ← raised (is_table_control_plane st.tables_db_info table_name)
  table ← raised (at_key table_name st.tables_db_info)
  let stage = get_or (lookup "stage" table) "INGRESS"
  let left = supported_only (st.acl_capability (upper stage)) st.switch_capability action_props
  ok (if control then (true, action_props) else (nat_eq (length action_props) (length left), left))

abbrev pub mirror_action : Option String → Result Failure String
mirror_action none = err acl_loader_exception
mirror_action (some stage) =
    if stage == "INGRESS"
    then ok "MIRROR_INGRESS_ACTION"
    else if stage == "EGRESS"
    then ok "MIRROR_EGRESS_ACTION"
    else err acl_loader_exception

abbrev pub session_or_raise : Option String → Result Failure String
session_or_raise none = err acl_loader_exception
session_or_raise (some s) = if is_empty s then err acl_loader_exception else ok s

unfoldable pub mirror_props : Settings → Result Failure Entry
mirror_props st = do
  session_name ← session_or_raise (get_session_name st)
  key ← mirror_action st.mirror_stage
  ok ((key, session_name) ∷ [])

unfoldable pub accept_props : Settings → String → Result Failure Entry
unfolding mirror_props
accept_props st table_name =
    let mirrored = mirror_props st in
    raised (is_table_control_plane st.tables_db_info table_name) >>= λ control.
    raised (is_table_mirror st.tables_db_info table_name) >>= λ mirror.
    if control
    then ok (("PACKET_ACTION", "ACCEPT") ∷ [])
    else if mirror
    then mirrored
    else ok (("PACKET_ACTION", "FORWARD") ∷ [])

unfoldable pub texts : Entry → Props
texts [] = []
texts ((k, v) ∷ d) = (k, text v) ∷ texts d

unfoldable pub convert_action : Settings → String → Rule → Result Failure Props
unfolding accept_props texts
convert_action st table_name rule = do
  let action = rule.forwarding_action
  let accepted = accept_props st table_name
  rule_props ←
      if action == "ACCEPT"
      then accepted
      else if action == "DROP" || action == "REJECT"
      then ok (("PACKET_ACTION", "DROP") ∷ [])
      else err acl_loader_exception
  valid ← validate_actions st table_name rule_props
  guard valid.0 acl_loader_exception
  ok (texts valid.1)
