-- ===== src/Base/Split.antt =====
-- Python's `split`, `lower`, `startswith` and their like, on texts.
use Prim.Native.Nat.{ℕ, zero, suc, ◌-◌}
use Prim.Native.Char.{Char, code}
use Prim.Native.String.{String}
use Prim.Native.String.{◌++◌ as str_append}
use mathlib.Core.Path.{◌≡◌, refl}
use mathlib.Core.Bool.{Bool, true, false, ◌&&◌, ◌||◌}
use mathlib.Core.List.{List, [], ◌∷◌}
use mathlib.Core.Option.{Option, none, some}
use text.Mathlib.Text.{◌==◌}
use sonic_utility.Base.Text.{is_empty}
use sonic_utility.Base.Tests.{leb, nat_eq, if◌then◌else◌}

-- One more character at the head of the first piece.
abbrev pub onto_first : Char → List String → List String
onto_first c [] = String.◌∷◌ c String.[] ∷ []
onto_first c (piece ∷ pieces) = String.◌∷◌ c piece ∷ pieces

-- s.split(a), for a single character
unfoldable pub split : Char → String → List String
split a String.[] = String.[] ∷ []
split a (String.◌∷◌ c s) =
    let pieces = split a s in
    if nat_eq (code c) (code a) then String.[] ∷ pieces else onto_first c pieces

-- s.split(a, 1)
unfoldable pub split_once : Char → String → List String
split_once a String.[] = String.[] ∷ []
split_once a (String.◌∷◌ c s) =
    let pieces = split_once a s in
    if nat_eq (code c) (code a) then String.[] ∷ s ∷ [] else onto_first c pieces

-- a.join(l), for a single character
unfoldable pub join : Char → List String → String
join a [] = String.[]
join a (x ∷ []) = x
join a (x ∷ y ∷ ys) = str_append x (String.◌∷◌ a (join a (y ∷ ys)))

-- l[n]
unfoldable pub nth {ℓ} : {A : Type ℓ} → ℕ → List A → Option A
nth n [] = none
nth zero (x ∷ xs) = some x
nth (suc n) (x ∷ xs) = nth n xs

-- s.startswith(p), and what follows `p`
unfoldable pub after_prefix : String → String → Option String
after_prefix String.[] s = some s
after_prefix (String.◌∷◌ c p) String.[] = none
after_prefix (String.◌∷◌ c p) (String.◌∷◌ d s) =
    let rest = after_prefix p s in if nat_eq (code c) (code d) then rest else none

unfoldable pub starts_with : String → String → Bool
starts_with String.[] s = true
starts_with (String.◌∷◌ c p) String.[] = false
starts_with (String.◌∷◌ c p) (String.◌∷◌ d s) = nat_eq (code c) (code d) && starts_with p s

-- p in s
unfoldable pub contains : String → String → Bool
unfolding starts_with
contains p String.[] = starts_with p String.[]
contains p (String.◌∷◌ c s) = starts_with p (String.◌∷◌ c s) || contains p s

text_size : String → ℕ
text_size String.[] = zero
text_size (String.◌∷◌ c s) = suc (text_size s)

-- The characters of an occurrence are passed over.
replaced : String → String → ℕ → String → String
unfolding starts_with text_size
replaced a b skip String.[] = String.[]
replaced a b (suc skip) (String.◌∷◌ c s) = replaced a b skip s
replaced a b zero (String.◌∷◌ c s) =
    if starts_with a (String.◌∷◌ c s)
    then str_append b (replaced a b (text_size a - 1) s)
    else String.◌∷◌ c (replaced a b zero s)

-- s.replace(a, b), where `a` is not empty
unfoldable pub replace_text : String → String → String → String
unfolding replaced
replace_text a b s = replaced a b zero s

is_space : Char → Bool
is_space c = let n = code c in nat_eq n b' ' || (leb 9 n && leb n 13)

lstrip : String → String
unfolding is_space
lstrip String.[] = String.[]
lstrip (String.◌∷◌ c s) = let rest = lstrip s in if is_space c then rest else String.◌∷◌ c s

rstrip : String → String
unfolding is_space
rstrip String.[] = String.[]
rstrip (String.◌∷◌ c s) =
    let rest = rstrip s in if is_space c && is_empty rest then String.[] else String.◌∷◌ c rest

-- s.strip(), for the blanks of ASCII
unfoldable pub strip : String → String
unfolding lstrip rstrip
strip s = lstrip (rstrip s)

-- The character at the place in the second text where `c` stands in the first.
translate : String → String → Char → Char
translate (String.◌∷◌ a s) (String.◌∷◌ b t) c =
    let rest = translate s t c in if nat_eq (code c) (code a) then b else rest
translate s t c = c

-- s.lower(), for the letters A to Z
unfoldable pub lower : String → String
unfolding translate
lower String.[] = String.[]
lower (String.◌∷◌ c s) =
    String.◌∷◌ (translate "ABCDEFGHIJKLMNOPQRSTUVWXYZ" "abcdefghijklmnopqrstuvwxyz" c) (lower s)

-- s.upper(), for the letters a to z
unfoldable pub upper : String → String
unfolding translate
upper String.[] = String.[]
upper (String.◌∷◌ c s) =
    String.◌∷◌ (translate "abcdefghijklmnopqrstuvwxyz" "ABCDEFGHIJKLMNOPQRSTUVWXYZ" c) (upper s)

-- x in l
unfoldable pub elem : String → List String → Bool
elem x [] = false
elem x (y ∷ ys) = (y == x) || elem x ys

lower_runs : lower "Vrf-RED|FC00::1" ≡ "vrf-red|fc00::1"
unfolding lower
lower_runs = refl

split_runs : split "/" "10.0.0.0/8/" ≡ "10.0.0.0" ∷ "8" ∷ "" ∷ []
unfolding split
split_runs = refl

strip_runs : strip " a b\n" ≡ "a b"
unfolding strip
strip_runs = refl

replace_text_runs :
    replace_text "lo" "Loopback0" "INTF_TABLE:lo:10.0.0.1" ≡ "INTF_TABLE:Loopback0:10.0.0.1"
unfolding replace_text
replace_text_runs = refl
