-- ===== src/RouteCheck/Messages.antt =====
-- scripts/route_check.py: `set_level` and `print_message`.
use sonic_utility.Base.{
  ◌≡◌, refl, sym, ap, ◌∙◌, ℕ, zero, suc, ◌+◌, ◌-◌, ◌≤◌, String, Bool, false, List, [], ◌∷◌,
  if◌then◌else◌, nat_eq, leb, arith, inl, inr, Bool-cases,
}

pub data Level : Type 0 where
  level_err : Level
  level_info : Level
  level_debug : Level

-- The numbers of `syslog`
abbrev log_warning : ℕ
log_warning = 4

abbrev log_info : ℕ
log_info = 6

abbrev log_debug : ℕ
log_debug = 7

pub record Logging : Type 0 where
  pub report_level : ℕ
  pub write_to_syslog : Bool

abbrev at_start : Logging
at_start = record { report_level = log_warning; write_to_syslog = false }

unfoldable pub set_level : Level → Bool → Logging → Logging
set_level level_err log_to_syslog state = record state { write_to_syslog = log_to_syslog }
set_level level_info log_to_syslog state = record {
  report_level = log_info;
  write_to_syslog = log_to_syslog;
}
set_level level_debug log_to_syslog state = record {
  report_level = log_debug;
  write_to_syslog = log_to_syslog;
}

-- len(s)
unfoldable pub text_length : String → ℕ
text_length String.[] = 0
text_length (String.◌∷◌ c s) = suc (text_length s)

-- s[0:n]
unfoldable pub text_take : ℕ → String → String
text_take zero s = String.[]
text_take (suc n) String.[] = String.[]
text_take (suc n) (String.◌∷◌ c s) = String.◌∷◌ c (text_take n s)

-- s + t
unfoldable pub text_append : String → String → String
text_append String.[] t = t
text_append (String.◌∷◌ c s) t = String.◌∷◌ c (text_append s t)

-- ''.join(args)
unfoldable pub joined : List String → String
joined [] = ""
joined (arg ∷ args) = text_append arg (joined args)

abbrev pub msg_len_max : ℕ
msg_len_max = 1000

-- The loop over the arguments, which stops where no room is left.
unfoldable pub append_args : String → List String → String
unfolding text_length text_take text_append
append_args msg [] = msg
append_args msg (arg ∷ args) =
    let rem_len = msg_len_max - text_length msg in
    let rest = append_args (text_append msg (text_take rem_len arg)) args in
    if nat_eq rem_len 0 then msg else rest

-- What is printed and returned; nothing is printed below the level.
unfoldable pub print_message : ℕ → List String → Logging → String
unfolding append_args
print_message lvl args state = if leb lvl state.report_level then append_args "" args else ""

text_take-append :
    (n : ℕ) (s t : String)
    → text_take n (text_append s t)
      ≡ text_append (text_take n s) (text_take (n - text_length (text_take n s)) t)
unfolding text_take text_length text_append
text_take-append zero s t = refl
text_take-append (suc n) String.[] t =
    let same : suc n ≡ suc n - 0 = omega arith in ap (λ k. text_take k t) same
text_take-append (suc n) (String.◌∷◌ c s) t = ap (String.◌∷◌ c) (
    let same : n - text_length (text_take n s) ≡ suc n - suc (text_length (text_take n s)) =
      omega arith in
    text_take-append n s t ∙ ap (λ k. text_append (text_take n s) (text_take k t)) same)

text_length-append : (s t : String) → text_length (text_append s t) ≡ text_length s + text_length t
unfolding text_length text_append
text_length-append String.[] t = ground arith
text_length-append (String.◌∷◌ c s) t = ground (arith, text_length-append s t)

text_length-take : (n : ℕ) (s : String) → text_length (text_take n s) ≤ n
unfolding text_length text_take
text_length-take zero s = omega arith
text_length-take (suc n) String.[] = omega arith
text_length-take (suc n) (String.◌∷◌ c s) = ground (arith, text_length-take n s)

text_take_zero : (n : ℕ) (s : String) → n ≡ 0 → text_take n s ≡ ""
unfolding text_take
text_take_zero zero s h = refl
text_take_zero (suc n) s h = ground arith

text_take_nil : (n : ℕ) → text_take n "" ≡ ""
unfolding text_take
text_take_nil zero = refl
text_take_nil (suc n) = refl

text_append_nil : (s : String) → text_append s "" ≡ s
unfolding text_append
text_append_nil String.[] = refl
text_append_nil (String.◌∷◌ c s) = ap (String.◌∷◌ c) (text_append_nil s)

text_append_assoc :
    (s t u : String) → text_append (text_append s t) u ≡ text_append s (text_append t u)
unfolding text_append
text_append_assoc String.[] t u = refl
text_append_assoc (String.◌∷◌ c s) t u = ap (String.◌∷◌ c) (text_append_assoc s t u)

append_args_lem :
    (msg : String) (args : List String)
    → text_length msg ≤ msg_len_max
    → append_args msg args
      ≡ text_append msg (text_take (msg_len_max - text_length msg) (joined args))
unfolding append_args joined
append_args_lem msg [] h =
    sym (ap (text_append msg) (text_take_nil (msg_len_max - text_length msg)) ∙ text_append_nil msg)
append_args_lem msg (arg ∷ args) h =
    let room = msg_len_max - text_length msg in
    let longer = text_append msg (text_take room arg) in
    let fits : text_length longer ≤ msg_len_max =
      ground (arith, text_length-append msg (text_take room arg), text_length-take room arg) in
    elim (Bool-cases (nat_eq room 0)) [
      | inl e ↦
          ground (arith, text_take_zero room (text_append arg (joined args)), text_append_nil msg)
      | inr e ↦ rw (e) (
          append_args_lem longer args fits
          ∙ text_append_assoc msg (text_take room arg) _
          ∙ ap (λ k. text_append msg (text_append (text_take room arg) (text_take k (joined args))))
              (ground (arith, text_length-append msg (text_take room arg)))
          ∙ ap (text_append msg) (sym (text_take-append room arg (joined args))))
    ]

-- What `print_message` returns is the first 1000 characters of its arguments, one after the other,
-- where the level is reached, and nothing where it is not.
pub print_message_lem :
    (lvl : ℕ) (args : List String) (state : Logging)
    → print_message lvl args state
      ≡ (if leb lvl state.report_level then text_take msg_len_max (joined args) else "")
unfolding print_message text_append text_length
print_message_lem lvl args state =
    ap (λ t. if leb lvl state.report_level then t else "") (append_args_lem "" args (omega arith))
