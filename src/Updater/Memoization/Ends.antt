-- ===== src/Updater/Memoization/Ends.antt =====
-- patch_sorter.py: the calls of MemoizationSorter, counted by the hashes that are not visited.
use sonic_utility.Base.{
  ℕ, zero, suc, ◌<◌, Bool, true, false, Option, none, some, List, [], ◌∷◌, ◌≡◌, ◌≢◌, if◌then◌else◌,
  arith, Bool-cases, inl, inr,
}
use sonic_utility.Base.Result.{ok, err}
use sonic_utility.Updater.Moves.{out_of_fuel, MoveWrapper, is_visited}
use sonic_utility.Updater.Dfs.Ends.{
  IsGrown, cons-IsGrown, unvisited, unvisited-IsGrown, unvisited-cons,
}
use sonic_utility.Updater.Memoization.{
  Memory, Answer, Search, better, improve, attempt, best, remember, answer, memo,
}

module _ {Config Move : Type 0} (w : MoveWrapper Config Move) (target : Config)
    (hashes : List ℕ) where
  -- The fuel did not run out, and what was visited still is.
  record Fuelled (v : List ℕ) (a : Answer w target) : Type 0 where
    answered : a.0 ≢ err out_of_fuel
    grown : IsGrown v a.1.visited

  Fuelled-later : (v v' : List ℕ) (a : Answer w target) → IsGrown v v' → Fuelled v' a → Fuelled v a
  Fuelled-later v v' a g f = record { answered = f.answered; grown = λ h e. f.grown h (g h e) }

  if-Fuelled :
      (v : List ℕ) (b : Bool) (x y : Answer w target)
      → Fuelled v x
      → Fuelled v y
      → Fuelled v (if b then x else y)
  if-Fuelled v true x y hx hy = hx
  if-Fuelled v false x y hx hy = hy

  remember-Fuelled :
      (h : ℕ) (v : List ℕ) (a : Answer w target) → Fuelled v a → Fuelled v (remember w target h a)
  remember-Fuelled h v (err e, s) f = record { answered = f.answered; grown = f.grown }
  remember-Fuelled h v (ok o, s) f = record { answered = λ e. cc; grown = f.grown }

  -- The search answers from every configuration, if fewer than `n` hashes are not visited.
  abbrev AnswersBelow : ℕ → Search w target → Type 0
  AnswersBelow n sort =
      (c : Config) (s : Memory w target)
      → unvisited hashes s.visited < n
      → Fuelled s.visited (sort c s)

  module _ (n : ℕ) (sort : Search w target) (all : AnswersBelow n sort) where
    abbrev Answers : (Option (List Move) → Memory w target → Answer w target) → Type 0
    Answers rest =
        (bst : Option (List Move)) (s : Memory w target)
        → unvisited hashes s.visited < n
        → Fuelled s.visited (rest bst s)

    improve-Answers :
        (rest : Option (List Move) → Memory w target → Answer w target) (bst : Option (List Move))
        (m : Move) (v : List ℕ) (a : Answer w target)
        → Answers rest
        → unvisited hashes v < n
        → Fuelled v a
        → Fuelled v (improve w target rest bst m a.0 a.1)
    improve-Answers rest bst m v (err e, s) k few f = record {
      answered = f.answered;
      grown = f.grown;
    }
    improve-Answers rest bst m v (ok o, s) k few f =
        let fewer = unvisited-IsGrown hashes v s.visited f.grown in
        Fuelled-later v s.visited _ f.grown (k (better w target bst m o) s (ground arith))

    attempt-Answers :
        (rest : Option (List Move) → Memory w target → Answer w target) (bst : Option (List Move))
        (m : Move) (o : Option Config) (s : Memory w target)
        → Answers rest
        → unvisited hashes s.visited < n
        → Fuelled s.visited (attempt w target sort rest bst m o s)
    attempt-Answers rest bst m none s k few = record { answered = λ e. cc; grown = λ h e. e }
    attempt-Answers rest bst m (some c') s k few =
        improve-Answers rest bst m s.visited (sort c' s) k few (all c' s few)

    best-Answers : (c : Config) (ms : List Move) → Answers (best w target sort c ms)
    best-Answers c [] bst s few = record { answered = λ e. cc; grown = λ h e. e }
    best-Answers c (m ∷ ms) bst s few =
        if-Fuelled s.visited (w.validate m c target) _ _
          (attempt-Answers (best w target sort c ms) bst m (w.apply m c) s (best-Answers c ms) few)
          (best-Answers c ms bst s few)

  module _ (finite : (c : Config) → is_visited (w.hash c target) hashes ≡ true) where
    answer-Fuelled :
        (n : ℕ) (sort : Search w target) (c : Config) (s : Memory w target)
        (o : Option (Option (List Move)))
        → AnswersBelow n sort
        → unvisited hashes s.visited < suc n
        → Fuelled s.visited (answer w target sort c s o)
    answer-Fuelled n sort c s (some moves) all few = record { answered = λ e. cc; grown = λ h e. e }
    answer-Fuelled n sort c s none all few =
        elim (Bool-cases (is_visited (w.hash c target) s.visited)) [
          | inl seen ↦ rw seen (record { answered = λ e. cc; grown = λ h e. e })
          | inr new ↦
              let fewer = unvisited-cons hashes s.visited (w.hash c target) (finite c) new in
              rw new (
                Fuelled-later s.visited (w.hash c target ∷ s.visited) _
                  (cons-IsGrown (w.hash c target) s.visited)
                  (remember-Fuelled (w.hash c target) _ _ (
                    best-Answers n sort all c (w.generate c target) none
                      (record s { visited = w.hash c target ∷ s.visited }) (ground arith))))
        ]

    memo-Fuelled : (fuel : ℕ) → AnswersBelow fuel (memo w target fuel)
    unfolding memo
    memo-Fuelled zero c s few = ground arith
    memo-Fuelled (suc fuel) c s few =
        if-Fuelled s.visited (w.equal c target) _ _
          (record { answered = λ e. cc; grown = λ h e. e })
          (answer-Fuelled fuel (memo w target fuel) c s _ (memo-Fuelled fuel) few)

    -- The search answers, or raises what a move raised, whatever is remembered, if the hashes of all
    -- configurations with the target are among finitely many: fuel that exceeds the number of those
    -- that are not visited is enough.
    pub memo_fuel :
        (fuel : ℕ) (c : Config) (s : Memory w target)
        → unvisited hashes s.visited < fuel
        → (memo w target fuel c s).0 ≢ err out_of_fuel
    memo_fuel fuel c s enough = (memo-Fuelled fuel c s enough).answered
