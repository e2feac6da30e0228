-- ===== src/Base/Dict.antt =====
-- Python's `dict` with string keys: an association list in the order of insertion, which is the
-- order in which the program iterates.
use Prim.Native.String.{String}
use mathlib.Core.Path.{◌≡◌, refl, sym, subst, subst₂}
use mathlib.Core.Bool.{Bool}
use mathlib.Core.Option.{Option, none, some, some-injective}
use mathlib.Core.List.{List, [], ◌∷◌}
use mathlib.Core.Logic.{inl, inr}
use native.Mathlib.Omega.{arith}
use text.Mathlib.Text.{◌==◌}
use text.Mathlib.TextEquality.{eq_iff}
use sonic_utility.Base.Tests.{if◌then◌else◌, is_some, or_else, Bool-cases, All}

abbrev pub Dict {ℓ} : Type ℓ → Type ℓ
Dict V = List (String × V)

module _ {ℓ} {V : Type ℓ} where
  -- d.get(k)
  unfoldable pub lookup : String → Dict V → Option V
  lookup k [] = none
  lookup k ((j, v) ∷ d) = if j == k then some v else lookup k d

  -- k in d
  abbrev pub has_key : String → Dict V → Bool
  has_key k d = is_some (lookup k d)

  -- d[k] = v: in place where the key is there, else at the end
  unfoldable pub insert : String → V → Dict V → Dict V
  insert k v [] = (k, v) ∷ []
  insert k v ((j, w) ∷ d) = if j == k then (j, v) ∷ d else (j, w) ∷ insert k v d

  -- d.pop(k, None)
  unfoldable pub remove : String → Dict V → Dict V
  remove k [] = []
  remove k ((j, v) ∷ d) = let rest = remove k d in if j == k then rest else (j, v) ∷ rest

  -- { **d, **e }
  unfoldable pub merge : Dict V → Dict V → Dict V
  merge d [] = d
  merge d ((k, v) ∷ e) = merge (insert k v d) e

  pub lookup-insert :
      (k j : String) (v : V) (d : Dict V)
      → lookup j (insert k v d) ≡ (if k == j then some v else lookup j d)
  unfolding lookup insert
  lookup-insert k j v [] = refl
  lookup-insert k j v ((i, w) ∷ d) =
      ground (arith, eq_iff k j, eq_iff i k, eq_iff i j, lookup-insert k j v d)

  pub lookup-remove :
      (k j : String) (d : Dict V) → lookup j (remove k d) ≡ (if k == j then none else lookup j d)
  unfolding lookup remove
  lookup-remove k j [] = ground arith
  lookup-remove k j ((i, v) ∷ d) =
      ground (arith, lookup-remove k j d, eq_iff i k, eq_iff i j, eq_iff k j)

  -- No key occurs twice, as in every `dict`.
  abbrev pub IsUnique : Dict V → Type ℓ
  IsUnique [] = Unit
  IsUnique ((k, v) ∷ d) = (lookup k d ≡ none) × IsUnique d

  pub lookup-merge :
      (j : String) (d e : Dict V)
      → IsUnique e
      → lookup j (merge d e) ≡ or_else (lookup j e) (lookup j d)
  unfolding lookup merge
  lookup-merge j d [] u = refl
  lookup-merge j d ((k, v) ∷ e) u =
      ground (arith, lookup-merge j (insert k v d) e u.1, lookup-insert k j v d, eq_iff k j)

module _ {ℓ} {V : Type ℓ} where
  pub IsUnique-insert : (k : String) (v : V) (d : Dict V) → IsUnique d → IsUnique (insert k v d)
  unfolding insert lookup
  IsUnique-insert k v [] u = (refl, tt)
  IsUnique-insert k v ((i, w) ∷ d) u =
      ground (arith, IsUnique-insert k v d u.1, lookup-insert k i v d, eq_iff i k, eq_iff k i)

  pub IsUnique-remove : (k : String) (d : Dict V) → IsUnique d → IsUnique (remove k d)
  unfolding remove
  IsUnique-remove k [] u = tt
  IsUnique-remove k ((i, w) ∷ d) u =
      ground (arith, IsUnique-remove k d u.1, lookup-remove k i d, eq_iff i k)

  -- A property of keys and values that hold throughout.
  abbrev pub Entries {κ} : (String → V → Type κ) → Dict V → Type κ
  Entries P [] = Unit
  Entries P ((k, v) ∷ d) = P k v × Entries P d

  pub Entries-insert {κ} :
      (P : String → V → Type κ) (k : String) (v : V) (d : Dict V)
      → P k v
      → Entries P d
      → Entries P (insert k v d)
  unfolding insert
  Entries-insert P k v [] p h = (p, tt)
  Entries-insert P k v ((i, w) ∷ d) p h = elim (Bool-cases (i == k)) [
    | inl e ↦ rw (e, insert) (subst (λ j. P j v) (sym ((eq_iff i k).0 e)) p, h.1)
    | inr e ↦ rw (e, insert) (h.0, Entries-insert P k v d p h.1)
  ]

  pub Entries-remove {κ} :
      (P : String → V → Type κ) (k : String) (d : Dict V) → Entries P d → Entries P (remove k d)
  unfolding remove
  Entries-remove P k [] h = tt
  Entries-remove P k ((i, w) ∷ d) h = ground (arith, Entries-remove P k d h.1)

  pub Entries-lookup {κ} :
      (P : String → V → Type κ) (k : String) (d : Dict V) {v : V}
      → Entries P d
      → lookup k d ≡ some v
      → P k v
  unfolding lookup
  Entries-lookup P k [] h e = cc
  Entries-lookup P k ((i, w) ∷ d) {v} h e = elim (Bool-cases (i == k)) [
    | inl hit ↦ let same : w ≡ v = ground arith in subst₂ P ((eq_iff i k).0 hit) same h.0
    | inr miss ↦ Entries-lookup P k d h.1 (ground arith)
  ]

pub ruleset dict_laws = (lookup-insert, lookup-remove)

-- A property of all entries is one of all entries afterwards.
module _ {ℓ κ} {V : Type ℓ} (P : String × V → Type κ) where
  pub All-insert : (k : String) (v : V) (d : Dict V) → P (k, v) → All P d → All P (insert k v d)
  unfolding insert
  All-insert k v [] p a = (p, tt)
  All-insert k v ((j, w) ∷ d) p a = elim (Bool-cases (j == k)) [
    | inl e ↦ rw (e) (subst (λ i. P (i, v)) (sym ((eq_iff j k).0 e)) p, a.1)
    | inr e ↦ rw (e) (a.0, All-insert k v d p a.1)
  ]

  pub All-merge : (d e : Dict V) → All P d → All P e → All P (merge d e)
  unfolding merge
  All-merge d [] a b = a
  All-merge d ((k, v) ∷ e) a b = All-merge (insert k v d) e (All-insert k v d b.0 a) b.1

  -- And of the one that a key stands for.
  pub All-lookup : (k : String) (d : Dict V) {v : V} → All P d → lookup k d ≡ some v → P (k, v)
  unfolding lookup
  All-lookup k [] a e = ground arith
  All-lookup k ((j, w) ∷ d) {v = v} a e = elim (Bool-cases (j == k)) [
    | inl h ↦
        let same : some w ≡ some v = rw (h) at (e) in
        subst₂ (λ i x. P (i, x)) ((eq_iff j k).0 h) (some-injective w v same) a.0
    | inr h ↦ All-lookup k d a.1 (rw (h) at (e))
  ]
