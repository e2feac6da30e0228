-- ===== src/AclLoader/Actions/Bounded.antt =====
-- acl_loader/main.py: the keys of actions have no bounds.
use sonic_utility.Base.{
  ◌≡◌, refl, subst, String, Bool, true, false, ◌||◌, [], ◌∷◌, Option, none, some, ◌==◌,
  if◌then◌else◌, All, arith, Bool-cases, inl, inr,
}
use sonic_utility.Base.Split.{elem}
use sonic_utility.Base.Result.{ok, err, guard, >>=-eq-ok, ok-injective}
use sonic_utility.Base.Fault.{at_key}
use sonic_utility.DbMigrator.Databases.{Entry}
use sonic_utility.AclLoader.Values.{text, acl_loader_exception, raised}
use sonic_utility.AclLoader.Tables.{Rule, Settings, Props, is_table_mirror}
use sonic_utility.AclLoader.Convert.{}
use sonic_utility.AclLoader.Convert.Bounds.{is_bounded, IsBounded}
use sonic_utility.AclLoader.Actions.{
  supported_only, is_supported, validate_actions, accept_props, mirror_props, mirror_action, texts,
  convert_action, get_session_name, session_or_raise,
}
use sonic_utility.AclLoader.Rules.{}
use sonic_utility.AclLoader.Update.{is_table_control_plane}

-- An action is a text under a key that has no bounds.
abbrev IsFree : String × String → Type 0
IsFree e = is_bounded e.0 (text e.1) ≡ true

supported-IsFree :
    (acl switch props : Entry) → All IsFree props → All IsFree (supported_only acl switch props)
unfolding supported_only
supported-IsFree acl switch [] h = tt
supported-IsFree acl switch ((k, v) ∷ props) h = elim (Bool-cases (is_supported acl switch k v)) [
  | inl e ↦ rw (e) (h.0, supported-IsFree acl switch props h.1)
  | inr e ↦ rw (e) (supported-IsFree acl switch props h.1)
]

texts-IsBounded : (d : Entry) → All IsFree d → IsBounded (texts d)
unfolding texts
texts-IsBounded [] h = tt
texts-IsBounded ((k, v) ∷ d) h = (h.0, texts-IsBounded d h.1)

mirror_action-IsFree :
    (stage : Option String) (session : String) {key : String}
    → mirror_action stage ≡ ok key
    → IsFree (key, session)
unfolding is_bounded elem
mirror_action-IsFree none session e = ground arith
mirror_action-IsFree (some stage) session e = elim (Bool-cases (stage == "INGRESS")) [
  | inl i ↦ subst (λ k. IsFree (k, session)) (ok-injective (rw (i) at (e))) refl
  | inr i ↦ elim (Bool-cases (stage == "EGRESS")) [
    | inl g ↦ subst (λ k. IsFree (k, session)) (ok-injective (rw (g) at (rw (i) at (e)))) refl
    | inr g ↦ ground arith
  ]
]

mirror-IsFree : (st : Settings) {props : Entry} → mirror_props st ≡ ok props → All IsFree props
unfolding mirror_props
mirror-IsFree st e =
    let (session, t_1, e_1) = >>=-eq-ok (session_or_raise (get_session_name st)) _ e in
    let (key, t_2, e_2) = >>=-eq-ok (mirror_action st.mirror_stage) _ e_1 in
    subst (All IsFree) (ok-injective e_2) (mirror_action-IsFree st.mirror_stage session t_2, tt)

accept_choice :
    (st : Settings) (control mirror : Bool) {props : Entry}
    → (if control
        then ok (("PACKET_ACTION", "ACCEPT") ∷ [])
        else if mirror
        then mirror_props st
        else ok (("PACKET_ACTION", "FORWARD") ∷ []))
      ≡ ok props
    → All IsFree props
unfolding is_bounded elem
accept_choice st true mirror e = subst (All IsFree) (ok-injective e) (refl, tt)
accept_choice st false true e = mirror-IsFree st e
accept_choice st false false e = subst (All IsFree) (ok-injective e) (refl, tt)

accept-IsFree :
    (st : Settings) (table_name : String) {props : Entry}
    → accept_props st table_name ≡ ok props
    → All IsFree props
unfolding accept_props
accept-IsFree st table_name e =
    let (control, t_1, e_1) =
      >>=-eq-ok (raised (is_table_control_plane st.tables_db_info table_name)) _ e in
    let (mirror, t_2, e_2) =
      >>=-eq-ok (raised (is_table_mirror st.tables_db_info table_name)) _ e_1 in
    accept_choice st control mirror e_2

abbrev LeavesFree : Bool × Entry → Type 0
LeavesFree p = All IsFree p.1

choose :
    (p q : Bool × Entry) (c : Bool) → LeavesFree p → LeavesFree q → LeavesFree (if c then p else q)
choose p q true x y = x
choose p q false x y = y

valid_free :
    (st : Settings) (table_name : String) (props : Entry) {valid : Bool × Entry}
    → validate_actions st table_name props ≡ ok valid
    → All IsFree props
    → LeavesFree valid
unfolding validate_actions
valid_free st table_name props e h =
    let (control, t_1, e_1) =
      >>=-eq-ok (raised (is_table_control_plane st.tables_db_info table_name)) _ e in
    let (table, t_2, e_2) = >>=-eq-ok (raised (at_key table_name st.tables_db_info)) _ e_1 in
    subst LeavesFree (ok-injective e_2) (choose _ _ control h (supported-IsFree _ _ props h))

action-IsFree :
    (st : Settings) (table_name action : String) {props : Entry}
    → (if action == "ACCEPT"
        then accept_props st table_name
        else if action == "DROP" || action == "REJECT"
        then ok (("PACKET_ACTION", "DROP") ∷ [])
        else err acl_loader_exception)
      ≡ ok props
    → All IsFree props
unfolding is_bounded elem
action-IsFree st table_name action e = elim (Bool-cases (action == "ACCEPT")) [
  | inl a ↦ accept-IsFree st table_name (rw (a) at (e))
  | inr a ↦ elim (Bool-cases (action == "DROP" || action == "REJECT")) [
    | inl d ↦ subst (All IsFree) (ok-injective (rw (d) at (rw (a) at (e)))) (refl, tt)
    | inr d ↦ ground arith
  ]
]

pub action-IsBounded :
    (st : Settings) (table_name : String) (rule : Rule) {props : Props}
    → convert_action st table_name rule ≡ ok props
    → IsBounded props
unfolding convert_action
action-IsBounded st table_name rule e =
    let (rule_props, t_1, e_1) =
      >>=-eq-ok
        (if rule.forwarding_action == "ACCEPT"
          then accept_props st table_name
          else if rule.forwarding_action == "DROP" || rule.forwarding_action == "REJECT"
          then ok (("PACKET_ACTION", "DROP") ∷ [])
          else err acl_loader_exception)
        _ e in
    let (valid, t_2, e_2) = >>=-eq-ok (validate_actions st table_name rule_props) _ e_1 in
    let (done, t_3, e_3) = >>=-eq-ok (guard valid.0 acl_loader_exception) _ e_2 in
    let free = action-IsFree st table_name rule.forwarding_action t_1 in
    subst IsBounded (ok-injective e_3)
      (texts-IsBounded valid.1 (valid_free st table_name rule_props t_2 free))
