-- ===== src/Updater/Memoization/Sound.antt =====
-- patch_sorter.py: the moves that MemoizationSorter finds and remembers.
use sonic_utility.Base.{
  ℕ, zero, suc, Bool, true, false, Option, none, some, List, [], ◌∷◌, ◌≡◌, refl, sym, subst,
  if◌then◌else◌, nat_eq, ltb, length, arith, Bool-cases, inl, inr,
}
use sonic_utility.Base.Result.{Result, ok, err}
use sonic_utility.Updater.Moves.{Stop, MoveWrapper, is_visited}
use sonic_utility.Updater.Bfs.Sound.{Way}
use sonic_utility.Updater.Memoization.{
  Memory, remembered, Answer, Search, better, improve, attempt, best, remember, answer, memo,
}

module _ {Config Move : Type 0} (w : MoveWrapper Config Move) (target : Config)
    (injective : (c d : Config) → w.hash c target ≡ w.hash d target → c ≡ d) where
  abbrev Moves : Config → Option (List Move) → Type 0
  Moves c none = Unit
  Moves c (some ms) = Way w target c ms target

  abbrev Known : Config → Option (Option (List Move)) → Type 0
  Known c none = Unit
  Known c (some o) = Moves c o

  -- What is remembered for the hash of a configuration leads from it to the target.
  abbrev Right : Memory w target → Type 0
  Right s = (c : Config) → Known c (remembered w target (w.hash c target) s.mem)

  abbrev Found : Config → Result Stop (Option (List Move)) → Type 0
  Found c (err e) = Unit
  Found c (ok o) = Moves c o

  record Sound (c : Config) (a : Answer w target) : Type 0 where
    found : Found c a.0
    right : Right a.1

  abbrev SoundSearch : Search w target → Type 0
  SoundSearch sort = (c : Config) (s : Memory w target) → Right s → Sound c (sort c s)

  better-Moves :
      (c c' : Config) (bst : Option (List Move)) (m : Move) (o : Option (List Move))
      → w.validate m c target ≡ true
      → w.apply m c ≡ some c'
      → Moves c bst
      → Moves c' o
      → Moves c (better w target bst m o)
  better-Moves c c' bst m none valid applied b h = b
  better-Moves c c' none m (some ms) valid applied b h = (valid, c', applied, h)
  better-Moves c c' (some bs) m (some ms) valid applied b h =
      elim (Bool-cases (ltb (suc (length ms)) (length bs))) [
        | inl shorter ↦ rw shorter (valid, c', applied, h)
        | inr longer ↦ rw longer b
      ]

  module _ (sort : Search w target) (sound : SoundSearch sort) (c : Config) where
    abbrev Continues : (Option (List Move) → Memory w target → Answer w target) → Type 0
    Continues rest =
        (bst : Option (List Move)) (s : Memory w target)
        → Moves c bst
        → Right s
        → Sound c (rest bst s)

    improve-Sound :
        (rest : Option (List Move) → Memory w target → Answer w target) (bst : Option (List Move))
        (m : Move) (c' : Config) (a : Answer w target)
        → Continues rest
        → w.validate m c target ≡ true
        → w.apply m c ≡ some c'
        → Moves c bst
        → Sound c' a
        → Sound c (improve w target rest bst m a.0 a.1)
    improve-Sound rest bst m c' (err e, s) k valid applied b h = record {
      found = tt;
      right = h.right;
    }
    improve-Sound rest bst m c' (ok o, s) k valid applied b h =
        k (better w target bst m o) s (better-Moves c c' bst m o valid applied b h.found) h.right

    attempt-Sound :
        (rest : Option (List Move) → Memory w target → Answer w target) (bst : Option (List Move))
        (m : Move) (o : Option Config) (s : Memory w target)
        → Continues rest
        → w.validate m c target ≡ true
        → w.apply m c ≡ o
        → Moves c bst
        → Right s
        → Sound c (attempt w target sort rest bst m o s)
    attempt-Sound rest bst m none s k valid applied b h = record { found = tt; right = h }
    attempt-Sound rest bst m (some c') s k valid applied b h =
        improve-Sound rest bst m c' (sort c' s) k valid applied b (sound c' s h)

    if-Sound :
        (b : Bool) (x y : Answer w target)
        → (b ≡ true → Sound c x)
        → Sound c y
        → Sound c (if b then x else y)
    if-Sound true x y hx hy = hx refl
    if-Sound false x y hx hy = hy

    best-Sound : (ms : List Move) → Continues (best w target sort c ms)
    best-Sound [] bst s b h = record { found = b; right = h }
    best-Sound (m ∷ ms) bst s b h =
        if-Sound (w.validate m c target) _ _
          (λ valid.
            attempt-Sound (best w target sort c ms) bst m (w.apply m c) s (best-Sound ms) valid refl
              b h)
          (best-Sound ms bst s b h)

    remember-Sound :
        (a : Answer w target) → Sound c a → Sound c (remember w target (w.hash c target) a)
    remember-Sound (err e, s) h = record { found = tt; right = h.right }
    remember-Sound (ok o, s) h = record {
      found = h.found;
      right = λ d. elim (Bool-cases (nat_eq (w.hash d target) (w.hash c target))) [
        | inl same ↦
            let equal : w.hash d target ≡ w.hash c target = ground arith in
            rw same (subst (λ x. Moves x o) (sym (injective d c equal)) h.found)
        | inr other ↦ rw other (h.right d)
      ];
    }

    answer-Sound :
        (s : Memory w target) (o : Option (Option (List Move)))
        → Right s
        → Known c o
        → Sound c (answer w target sort c s o)
    answer-Sound s (some moves) h k = record { found = k; right = h }
    answer-Sound s none h k =
        if-Sound (is_visited (w.hash c target) s.visited) _ _
          (λ seen. record { found = tt; right = h })
          (remember-Sound _ (best-Sound (w.generate c target) none _ tt h))

  memo-Sound : (fuel : ℕ) → SoundSearch (memo w target fuel)
  unfolding memo
  memo-Sound zero c s h = record { found = tt; right = h }
  memo-Sound (suc fuel) c s h =
      if-Sound (memo w target fuel) (memo-Sound fuel) c (w.equal c target) _ _
        (λ same. record { found = w.equal_sound c target same; right = h })
        (answer-Sound (memo w target fuel) (memo-Sound fuel) c s _ h (h c))

  -- A new sorter's search finds only moves that lead to the target: each one is valid for the
  -- configuration that the moves before it make, and can be applied to it, if no two configurations
  -- have the same hash, which the sorter remembers its answers under.
  pub memo_sound :
      (fuel : ℕ) (c : Config) (ms : List Move)
      → (memo w target fuel c (record { visited = []; mem = [] })).0 ≡ ok (some ms)
      → Way w target c ms target
  memo_sound fuel c ms e =
      subst (Found c) e (memo-Sound fuel c (record { visited = []; mem = [] }) (λ d. tt)).found
