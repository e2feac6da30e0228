-- ===== src/Updater/Dfs/Ends.antt =====
-- patch_sorter.py: the calls of DfsSorter, counted by the hashes that are not visited.
use sonic_utility.Base.{
  ℕ, zero, suc, ◌≤◌, ◌<◌, Bool, true, false, Option, none, some, List, [], ◌∷◌, ◌≡◌, ◌≢◌, refl,
  if◌then◌else◌, arith, nat_eq, Bool-cases, inl, inr,
}
use sonic_utility.Base.Result.{Result, ok, err}
use sonic_utility.Updater.Moves.{Stop, out_of_fuel, MoveWrapper, Diff, has_no_diff, is_visited}
use sonic_utility.Updater.Dfs.{Search, at_target, or_next, attempt, try_moves, visit, dfs}

-- How many of the hashes are not visited.
abbrev pub unvisited : List ℕ → List ℕ → ℕ
unvisited [] v = 0
unvisited (h ∷ hs) v = if is_visited h v then unvisited hs v else suc (unvisited hs v)

abbrev pub IsGrown : List ℕ → List ℕ → Type 0
IsGrown v v' = (h : ℕ) → is_visited h v ≡ true → is_visited h v' ≡ true

pub unvisited-IsGrown : (hs v v' : List ℕ) → IsGrown v v' → unvisited hs v' ≤ unvisited hs v
unvisited-IsGrown [] v v' g = ground arith
unvisited-IsGrown (h ∷ hs) v v' g = ground (arith, g h, unvisited-IsGrown hs v v' g)

pub cons-IsGrown : (k : ℕ) (v : List ℕ) → IsGrown v (k ∷ v)
cons-IsGrown k v h e = ground arith

pub unvisited-cons :
    (hs v : List ℕ) (k : ℕ)
    → is_visited k hs ≡ true
    → is_visited k v ≡ false
    → unvisited hs (k ∷ v) < unvisited hs v
unvisited-cons [] v k known new = ground arith
unvisited-cons (h ∷ hs) v k known new = elim (Bool-cases (nat_eq k h)) [
  | inl same ↦ ground (arith, unvisited-IsGrown hs v (k ∷ v) (cons-IsGrown k v))
  | inr other ↦ ground (arith, unvisited-cons hs v k)
]

module _ {Config Move : Type 0} (w : MoveWrapper Config Move) (hashes : List ℕ) (t : Config) where
  abbrev Answer : Type 0
  Answer = Result Stop (Option (List Move)) × List ℕ

  -- The fuel did not run out, and what was visited still is.
  record Fuelled (v : List ℕ) (a : Answer) : Type 0 where
    answered : a.0 ≢ err out_of_fuel
    grown : IsGrown v a.1

  Fuelled-later : (v v' : List ℕ) (a : Answer) → IsGrown v v' → Fuelled v' a → Fuelled v a
  Fuelled-later v v' a g f = record { answered = f.answered; grown = λ h e. f.grown h (g h e) }

  -- The search answers from every configuration, if fewer than `n` hashes are not visited.
  abbrev AnswersBelow : ℕ → (Diff Config → Search w) → Type 0
  AnswersBelow n sort =
      (c : Config) (v : List ℕ) → unvisited hashes v < n → Fuelled v (sort (at_target w c t) v)

  module _ (n : ℕ) where
    abbrev Answers : Search w → Type 0
    Answers s = (v : List ℕ) → unvisited hashes v < n → Fuelled v (s v)

    or_next-Answers :
        (m : Move) (rest : Search w) (v v' : List ℕ) (r : Result Stop (Option (List Move)))
        → unvisited hashes v < n
        → Fuelled v (r, v')
        → Answers rest
        → Fuelled v (or_next w m rest r v')
    or_next-Answers m rest v v' (err e) few f others = record {
      answered = f.answered;
      grown = f.grown;
    }
    or_next-Answers m rest v v' (ok (some ms)) few f others = record {
      answered = λ e. cc;
      grown = f.grown;
    }
    or_next-Answers m rest v v' (ok none) few f others =
        let fewer = unvisited-IsGrown hashes v v' f.grown in
        Fuelled-later v v' (rest v') f.grown (others v' (ground arith))

    attempt-Answers :
        (sort : Diff Config → Search w) (c : Config) (m : Move) (rest : Search w)
        (o : Option Config)
        → AnswersBelow n sort
        → Answers rest
        → Answers (attempt w (at_target w c t) m sort rest o)
    attempt-Answers sort c m rest none all others v few = record {
      answered = λ e. cc;
      grown = λ h e. e;
    }
    attempt-Answers sort c m rest (some c') all others v few =
        or_next-Answers m rest v (sort (at_target w c' t) v).1 (sort (at_target w c' t) v).0 few
          (all c' v few) others

    if-Answers :
        (b : Bool) (x y : Search w) → Answers x → Answers y → Answers (λ v. if b then x v else y v)
    if-Answers true x y hx hy = hx
    if-Answers false x y hx hy = hy

    try_moves-Answers :
        (sort : Diff Config → Search w) (c : Config) (ms : List Move)
        → AnswersBelow n sort
        → Answers (try_moves w sort (at_target w c t) ms)
    try_moves-Answers sort c [] all v few = record { answered = λ e. cc; grown = λ h e. e }
    try_moves-Answers sort c (m ∷ ms) all v few =
        if-Answers (w.validate m c t)
          (attempt w (at_target w c t) m sort (try_moves w sort (at_target w c t) ms) (w.apply m c))
          (try_moves w sort (at_target w c t) ms)
          (attempt-Answers sort c m (try_moves w sort (at_target w c t) ms) (w.apply m c) all
            (try_moves-Answers sort c ms all))
          (try_moves-Answers sort c ms all) v few

  module _ (finite : (c : Config) → is_visited (w.hash c t) hashes ≡ true) where
    visit-Fuelled :
        (n : ℕ) (sort : Diff Config → Search w) (c : Config) (v : List ℕ) (seen : Bool)
        → is_visited (w.hash c t) v ≡ seen
        → AnswersBelow n sort
        → unvisited hashes v < suc n
        → Fuelled v (visit w sort (at_target w c t) v)
    visit-Fuelled n sort c v true e all few = rw e (record { answered = λ x. cc; grown = λ h y. y })
    visit-Fuelled n sort c v false e all few =
        let fewer = unvisited-cons hashes v (w.hash c t) (finite c) e in
        rw e (
          Fuelled-later v (w.hash c t ∷ v) _ (cons-IsGrown (w.hash c t) v)
            (try_moves-Answers n sort c (w.generate c t) all (w.hash c t ∷ v) (ground arith)))

    dfs-Fuelled : (fuel : ℕ) → AnswersBelow fuel (dfs w fuel)
    unfolding dfs has_no_diff
    dfs-Fuelled zero c v few = ground arith
    dfs-Fuelled (suc fuel) c v few = elim (Bool-cases (w.equal c t)) [
      | inl same ↦ rw same (record { answered = λ x. cc; grown = λ h y. y })
      | inr other ↦ rw other (
          visit-Fuelled fuel (dfs w fuel) c v (is_visited (w.hash c t) v) refl (dfs-Fuelled fuel)
            few)
    ]

    -- The search answers, or raises what a move raised, whatever was visited before, if the hashes
    -- of all configurations with the target are among finitely many, as machine integers are: fuel
    -- that exceeds the number of those that are not visited is enough.
    pub dfs_fuel :
        (fuel : ℕ) (c : Config) (v : List ℕ)
        → unvisited hashes v < fuel
        → (dfs w fuel (at_target w c t) v).0 ≢ err out_of_fuel
    dfs_fuel fuel c v enough = (dfs-Fuelled fuel c v enough).answered
