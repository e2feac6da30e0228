-- ===== src/Updater/Tests/Sorted.antt =====
-- The patch sorters on configurations with two parts.
use sonic_utility.Updater.Dfs.{dfs}
use sonic_utility.Updater.Sorters.{search}
use sonic_utility.Updater.Sorters.{sort_patch}
use sonic_utility.Base.{
  ℕ, ◌+◌, ◌*◌, ◌≤◌, true, Option, some, [], ◌∷◌, ◌≡◌, refl, sym, ap, ◌∙◌, if◌then◌else◌, nat_eq,
  arith,
}
use sonic_utility.Base.Result.{ok}
use sonic_utility.Updater.Sorters.{depth_first, Tools, sort_strict}
use sonic_utility.Updater.Sorters.Found.{IsMoving, apply_all, sort_strict-apply_all}

data Part : Type 0 where
  absent low high : Part

abbrev code : Part → ℕ
code absent = 0
code low = 1
code high = 2

abbrev Pair : Type 0
Pair = Part × Part

abbrev hash : Pair → ℕ
hash c = 3 * code c.0 + code c.1

abbrev part_at : ℕ → Part
part_at n = if nat_eq n 0 then absent else if nat_eq n 1 then low else high

part_at-code : (p : Part) → part_at (code p) ≡ p
part_at-code absent = refl
part_at-code low = refl
part_at-code high = refl

code_bound : (p : Part) → code p ≤ 2
code_bound absent = omega arith
code_bound low = omega arith
code_bound high = omega arith

code_injective : (p q : Part) → code p ≡ code q → p ≡ q
code_injective p q e = sym (part_at-code p) ∙ ap part_at e ∙ part_at-code q

hash_injective : (c d : Pair) → hash c ≡ hash d → c ≡ d
hash_injective c d e =
    let first : code c.0 ≡ code d.0 = ground (arith, code_bound c.1, code_bound d.1) in
    let second : code c.1 ≡ code d.1 = ground arith in
    ap (λ x. (x, c.1)) (code_injective c.0 d.0 first)
    ∙ ap (λ y. (d.0, y)) (code_injective c.1 d.1 second)

nat_eq_right : (a b : ℕ) → nat_eq a b ≡ true → a ≡ b
nat_eq_right a b e = ground arith

some-same : {A : Type 0} {a b : A} → ◌≡◌ {A = Option A} (some a) (some b) → a ≡ b
some-same e = cc

-- A patch is the configuration that it makes.
abbrev tools : Tools Pair Pair Pair
tools = record {
  wrapper = record {
    generate = λ c t. t ∷ [];
    validate = λ m c t. true;
    apply = λ m c. some m;
    equal = λ c d. nat_eq (hash c) (hash d);
    equal_sound = λ c d e. hash_injective c d (nat_eq_right (hash c) (hash d) e);
    hash = λ c t. hash c;
  };
  patch_of = λ m. m;
  apply_patch = λ p c. ok p;
  is_empty_config = λ c. nat_eq (hash c) 0;
  validate_config_db_patch_has_yang_models = λ p. true;
  validate_config_db_config = λ c. true;
}

moving : IsMoving tools
moving = record {
  moves = λ m c c' e. ap ok (some-same e);
  injective = λ t c d e. hash_injective c d e;
}

sort_strict-apply_all_example :
    (target : Pair) × (tools.apply_patch (high, low) (low, absent) ≡ ok target)
    × (apply_all tools ((high, low) ∷ []) (low, absent) ≡ ok target)
    × (true ≡ true)
unfolding sort_strict sort_patch search dfs
sort_strict-apply_all_example =
    sort_strict-apply_all tools moving depth_first 3 (low, absent) (high, low)
      {changes = (high, low) ∷ []} refl
