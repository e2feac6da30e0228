-- ===== src/DbMigrator/Names.antt =====
-- scripts/db_migrator.py: the names in a field with references in the format of ABNF, `[TABLE|name]`.
use sonic_utility.Base.{
  String, Bool, false, ◌&&◌, ◌||◌, Option, none, some, ◌==◌, if◌then◌else◌, nat_eq,
}
use sonic_utility.Base.Text.{has_char, is_empty}
use sonic_utility.Base.Split.{split, join}
use sonic_utility.Base.Result.{Result, ok, err, ◌>>=◌}
use sonic_utility.Base.Fault.{Fault, index_error, at_index, collect}
use Prim.Native.Char.{Char, code}

-- s[-1] == c
unfoldable pub ends_in : Char → String → Bool
ends_in a String.[] = false
ends_in a (String.◌∷◌ c String.[]) = nat_eq (code c) (code a)
ends_in a (String.◌∷◌ c (String.◌∷◌ d s)) = ends_in a (String.◌∷◌ d s)

-- s[:-1]
unfoldable pub without_last : String → String
without_last String.[] = String.[]
without_last (String.◌∷◌ c String.[]) = String.[]
without_last (String.◌∷◌ c (String.◌∷◌ d s)) = String.◌∷◌ c (without_last (String.◌∷◌ d s))

-- The name of an item that is a reference; an empty item has no first character.
unfoldable pub item_name : Char → String → Result Fault (Option String)
item_name delimiter String.[] = err index_error
item_name delimiter (String.◌∷◌ c s) =
    if nat_eq (code c) b'[' && has_char delimiter (String.◌∷◌ c s) && ends_in "]" (String.◌∷◌ c s)
    then (at_index 1 (split delimiter (without_last s)) >>= λ name. ok (some name))
    else ok none

-- The new value of a field, none where it stays.
unfoldable pub new_value : Char → String → Result Fault (Option String)
new_value delimiter value =
    if is_empty value || value == "NULL"
    then ok none
    else if has_char "[" value && has_char delimiter value && has_char "]" value
    then (collect (item_name delimiter) (split "," value) >>= λ names. ok (some (join "," names)))
    else ok none
