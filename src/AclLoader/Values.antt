-- ===== src/AclLoader/Values.antt =====
-- acl_loader/main.py: the values of a rule, and what the conversion asks of them: Python's `bool`, `int`
-- and `str`, and the formatting of the TCP flags.
use Prim.Native.Char.{code}
use Prim.Native.String.{◌++◌ as str_append}
use sonic_utility.Base.{
  ◌≡◌, refl, ℕ, zero, suc, ◌+◌, ◌-◌, ◌*◌, ◌/◌, ◌%◌, String, Bool, true, false, not, ◌&&◌, Option,
  none, some, ◌==◌, if◌then◌else◌, leb, nat_eq,
}
use sonic_utility.Base.Text.{is_empty, show_nat}
use sonic_utility.Base.Split.{strip}
use sonic_utility.Base.Result.{Result, ok, err}
use sonic_utility.Base.Fault.{Fault}
use sonic_utility.Base.Int.{ℤ, pos, negsuc}

-- A value is a number or a text.
pub data Value : Type 0 where
  number : ℤ → Value
  text : String → Value

-- What is raised: the loader's own exception, or one of Python.
pub data Failure : Type 0 where
  acl_loader_exception : Failure
  fault : Fault → Failure

abbrev pub raised : {A : Type 0} → Result Fault A → Result Failure A
raised (ok a) = ok a
raised (err f) = err (fault f)

-- bool(value)
unfoldable pub is_true : Value → Bool
is_true (number (pos n)) = not (nat_eq n 0)
is_true (number (negsuc n)) = true
is_true (text s) = not (is_empty s)

-- value == s, for a text
unfoldable pub is_text : String → Value → Bool
is_text s (number i) = false
is_text s (text t) = t == s

-- value == n, for a number
unfoldable pub is_number : ℕ → Value → Bool
is_number n (number (pos m)) = nat_eq m n
is_number n (number (negsuc m)) = false
is_number n (text s) = false

-- str(i)
unfoldable pub show_int : ℤ → String
show_int (pos n) = show_nat n
show_int (negsuc n) = str_append "-" (show_nat (suc n))

unfoldable pub show_value : Value → String
show_value (number i) = show_int i
show_value (text s) = s

-- The digits of a text after the first, where single underscores may stand between them.
digits : ℕ → Bool → String → Option ℕ
digits n after_digit String.[] = if after_digit then some n else none
digits n after_digit (String.◌∷◌ c s) =
    let next = digits (10 * n + (code c - b'0')) true s in
    let skipped = digits n false s in
    if leb b'0' (code c) && leb (code c) b'9'
    then next
    else if after_digit && nat_eq (code c) b'_'
    then skipped
    else none

abbrev negated : ℕ → ℤ
negated zero = pos 0
negated (suc n) = negsuc n

abbrev signed : (ℕ → ℤ) → Option ℕ → Option ℤ
signed sign none = none
signed sign (some n) = some (sign n)

int_of : String → Option ℤ
unfolding digits
int_of String.[] = none
int_of (String.◌∷◌ c s) =
    if nat_eq (code c) b'-'
    then signed negated (digits 0 false s)
    else if nat_eq (code c) b'+'
    then signed pos (digits 0 false s)
    else signed pos (digits 0 false (String.◌∷◌ c s))

-- int(value), for texts of ASCII digits; none is the ValueError.
unfoldable pub to_int : Value → Option ℤ
unfolding int_of
to_int (number i) = some i
to_int (text s) = int_of (strip s)

-- i - n
unfoldable pub minus : ℤ → ℕ → ℤ
minus (pos m) n = if leb n m then pos (m - n) else negsuc (n - m - 1)
minus (negsuc m) n = negsuc (m + n)

abbrev hex_digit : ℕ → String
hex_digit n =
    if nat_eq n 10
    then "a"
    else if nat_eq n 11
    then "b"
    else if nat_eq n 12
    then "c"
    else if nat_eq n 13
    then "d"
    else if nat_eq n 14
    then "e"
    else if nat_eq n 15
    then "f"
    else show_nat n

-- '0x{:02x}' for numbers of at most two digits
unfoldable pub hex : ℕ → String
hex n = str_append "0x" (str_append (hex_digit (n / 16)) (hex_digit (n % 16)))

int_runs : to_int (text " -1_0 ") ≡ some (negsuc 9)
unfolding to_int strip
int_runs = refl

hex_runs : hex 18 ≡ "0x12"
unfolding hex show_nat
hex_runs = refl
