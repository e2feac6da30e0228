-- ===== src/Updater/Bfs/Sound.antt =====
-- patch_sorter.py: the moves that BfsSorter finds.
use sonic_utility.Base.{
  ℕ, zero, suc, Bool, true, false, Option, none, some, List, [], ◌∷◌, ◌++◌, ◌≡◌, refl, sym, subst,
  if◌then◌else◌, All,
}
use sonic_utility.Base.Result.{Result, ok, err}
use sonic_utility.Updater.Moves.{Stop, MoveWrapper, is_visited}
use sonic_utility.Updater.Bfs.{Item, with_move, expand, Answer, go_on, bfs}

module _ {Config Move : Type 0} (w : MoveWrapper Config Move) (target : Config) where
  -- Each move is valid on the way to the target, and the last one gives the last configuration.
  abbrev pub Way : Config → List Move → Config → Type 0
  Way c [] d = c ≡ d
  Way c (m ∷ ms) d =
      (w.validate m c target ≡ true) × (c' : Config) × (w.apply m c ≡ some c') × Way c' ms d

  Way-append :
      (c d d' : Config) (ms : List Move) (m : Move)
      → Way c ms d
      → w.validate m d target ≡ true
      → w.apply m d ≡ some d'
      → Way c (ms ++ m ∷ []) d'
  Way-append c d d' [] m p valid applied = (
    subst (λ x. w.validate m x target ≡ true) (sym p) valid,
    d',
    subst (λ x. w.apply m x ≡ some d') (sym p) applied,
    refl,
  )
  Way-append c d d' (m' ∷ ms) m (v, c', a, p) valid applied =
      (v, c', a, Way-append c' d d' ms m p valid applied)

  module _ (start : Config) where
    -- Every item's moves lead to its configuration.
    abbrev Reached : List (Item w target) → Type 0
    Reached = All (λ (i : Item w target). Way start i.1 i.0)

    abbrev ReachedResult : Result Stop (List (Item w target)) → Type 0
    ReachedResult (err e) = Unit
    ReachedResult (ok items) = Reached items

    Reached-append : (xs ys : List (Item w target)) → Reached xs → Reached ys → Reached (xs ++ ys)
    Reached-append [] ys hx hy = hy
    Reached-append (x ∷ xs) ys (h, hs) hy = (h, Reached-append xs ys hs hy)

    with_move-Reached :
        (c : Config) (prv : List Move) (m : Move) (o : Option Config)
        (r : Result Stop (List (Item w target)))
        → Way start prv c
        → w.validate m c target ≡ true
        → w.apply m c ≡ o
        → ReachedResult r
        → ReachedResult (with_move w target prv m o r)
    with_move-Reached c prv m none r p valid applied h = tt
    with_move-Reached c prv m (some d) (err e) p valid applied h = tt
    with_move-Reached c prv m (some d) (ok items) p valid applied h =
        (Way-append start c d prv m p valid applied, h)

    if-Reached :
        (b : Bool) (x y : Result Stop (List (Item w target)))
        → (b ≡ true → ReachedResult x)
        → ReachedResult y
        → ReachedResult (if b then x else y)
    if-Reached true x y hx hy = hx refl
    if-Reached false x y hx hy = hy

    expand-Reached :
        (c : Config) (prv ms : List Move)
        → Way start prv c
        → ReachedResult (expand w target c prv ms)
    unfolding expand
    expand-Reached c prv [] p = tt
    expand-Reached c prv (m ∷ ms) p =
        if-Reached (w.validate m c target) _ _
          (λ valid.
            with_move-Reached c prv m (w.apply m c) (expand w target c prv ms) p valid refl
              (expand-Reached c prv ms p))
          (expand-Reached c prv ms p)

    abbrev Right : Answer w target → Type 0
    Right (err e) = Unit
    Right (ok none) = Unit
    Right (ok (some ms)) = Way start ms target

    if-Right :
        (b : Bool) (x y : Answer w target)
        → (b ≡ true → Right x)
        → Right y
        → Right (if b then x else y)
    if-Right true x y hx hy = hx refl
    if-Right false x y hx hy = hy

    go_on-Right :
        (next : List (Item w target) → List ℕ → Answer w target) (rest : List (Item w target))
        (v : List ℕ) (r : Result Stop (List (Item w target)))
        → ((q : List (Item w target)) (u : List ℕ) → Reached q → Right (next q u))
        → Reached rest
        → ReachedResult r
        → Right (go_on w target next rest v r)
    go_on-Right next rest v (err e) k h hr = tt
    go_on-Right next rest v (ok items) k h hr = k (rest ++ items) v (Reached-append rest items h hr)

    bfs-Right :
        (fuel : ℕ) (queue : List (Item w target)) (v : List ℕ)
        → Reached queue
        → Right (bfs w target fuel queue v)
    unfolding bfs
    bfs-Right zero queue v h = tt
    bfs-Right (suc fuel) [] v h = tt
    bfs-Right (suc fuel) ((c, prv) ∷ rest) v (p, h) =
        if-Right (is_visited (w.hash c target) v) _ _ (λ _. bfs-Right fuel rest v h)
          (if-Right (w.equal c target) _ _
            (λ same. subst (Way start prv) (w.equal_sound c target same) p)
            (go_on-Right (bfs w target fuel) rest (w.hash c target ∷ v)
              (expand w target c prv (w.generate c target)) (bfs-Right fuel) h
              (expand-Reached c prv (w.generate c target) p)))

  -- What the search finds leads from the first configuration to the target: each move is valid for
  -- the configuration that the moves before it make, and can be applied to it.
  pub bfs_sound :
      (fuel : ℕ) (start : Config) (v : List ℕ) (ms : List Move)
      → bfs w target fuel ((start, []) ∷ []) v ≡ ok (some ms)
      → Way start ms target
  bfs_sound fuel start v ms e =
      subst (Right start) e (bfs-Right start fuel ((start, []) ∷ []) v (refl, tt))
