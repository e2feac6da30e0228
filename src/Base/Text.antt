-- ===== src/Base/Text.antt =====
-- Python's operations on `str` that the program uses, by recursion on the characters.
use Prim.Native.Nat.{ℕ, zero, suc, ◌+◌, ◌/◌, ◌%◌}
use Prim.Native.Char.{Char, code}
use Prim.Native.String.{String}
use Prim.Native.String.{◌++◌ as str_append}
use mathlib.Core.Path.{◌≡◌, refl}
use mathlib.Core.Logic.{◌≢◌}
use mathlib.Core.Bool.{Bool, true, false, ◌&&◌, ◌||◌}
use native.Mathlib.Omega.{arith}
use text.Mathlib.TextEquality.{Char-path}
use sonic_utility.Base.Tests.{leb, nat_eq, if◌then◌else◌}

-- s.replace(a, b), for single characters
unfoldable pub replace : Char → Char → String → String
replace a b String.[] = String.[]
replace a b (String.◌∷◌ c s) =
    String.◌∷◌ (if nat_eq (code c) (code a) then b else c) (replace a b s)

-- c in s
unfoldable pub has_char : Char → String → Bool
has_char a String.[] = false
has_char a (String.◌∷◌ c s) = nat_eq (code c) (code a) || has_char a s

-- not s
abbrev pub is_empty : String → Bool
is_empty String.[] = true
is_empty (String.◌∷◌ c s) = false

-- Replacing `a` by `b` and back gives the text again, if it held no `b`.
pub replace-replace :
    (a b : Char) (s : String) → has_char b s ≡ false → replace b a (replace a b s) ≡ s
unfolding replace has_char
replace-replace a b String.[] h = refl
replace-replace a b (String.◌∷◌ c s) h = ground (arith, replace-replace a b s, Char-path c a)

pub has_char-replace :
    (a b : Char) (s : String) → code a ≢ code b → has_char a (replace a b s) ≡ false
unfolding replace has_char
has_char-replace a b String.[] h = refl
has_char-replace a b (String.◌∷◌ c s) h = ground (arith, has_char-replace a b s h)

-- [A-Za-z0-9_-]
unfoldable pub is_name_char : Char → Bool
is_name_char c =
    let n = code c in
    (leb b'A' n && leb n b'Z')
    || (leb b'a' n && leb n b'z')
    || (leb b'0' n && leb n b'9')
    || nat_eq n b'_'
    || nat_eq n b'-'

-- The longest prefix of name characters, and what follows.
unfoldable pub span_name : String → String × String
unfolding is_name_char
span_name String.[] = (String.[], String.[])
span_name (String.◌∷◌ c s) =
    let (name, rest) = span_name s in
    if is_name_char c then (String.◌∷◌ c name, rest) else (String.[], String.◌∷◌ c s)

-- What `.*` matches: the text up to the end of the line.
unfoldable pub first_line : String → String
first_line String.[] = String.[]
first_line (String.◌∷◌ c s) = if nat_eq (code c) 10 then String.[] else String.◌∷◌ c (first_line s)

abbrev digit_text : ℕ → String
digit_text n =
    if nat_eq n 0
    then "0"
    else if nat_eq n 1
    then "1"
    else if nat_eq n 2
    then "2"
    else if nat_eq n 3
    then "3"
    else if nat_eq n 4
    then "4"
    else if nat_eq n 5
    then "5"
    else if nat_eq n 6
    then "6"
    else if nat_eq n 7
    then "7"
    else if nat_eq n 8
    then "8"
    else "9"

digits_text : ℕ → ℕ → String → String
digits_text zero n acc = acc
digits_text (suc fuel) n acc =
    let longer = str_append (digit_text (n % 10)) acc in
    let rest = digits_text fuel (n / 10) longer in if nat_eq (n / 10) 0 then longer else rest

-- str(n): one digit for each round, and `n` has at most `n + 1` digits.
unfoldable pub show_nat : ℕ → String
unfolding digits_text
show_nat n = digits_text (n + 1) n ""

show_nat_runs : show_nat 2022 ≡ "2022"
unfolding show_nat
show_nat_runs = refl
