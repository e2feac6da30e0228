-- ===== src/Updater/Dfs/Sound.antt =====
-- patch_sorter.py: the moves that DfsSorter finds.
use sonic_utility.Base.{
  ℕ, zero, suc, Bool, true, false, Option, none, some, List, [], ◌∷◌, ◌≡◌, refl, subst,
  if◌then◌else◌,
}
use sonic_utility.Base.Result.{Result, ok, err}
use sonic_utility.Updater.Moves.{Stop, MoveWrapper, Diff, has_no_diff, diff_hash, is_visited}
use sonic_utility.Updater.Dfs.{Search, at_target, or_next, attempt, try_moves, visit, dfs}

module _ {Config Move : Type 0} (w : MoveWrapper Config Move) where
  -- Each move is valid where it is made, can be applied there, and the last one gives the target.
  abbrev pub Leads : Config → List Move → Config → Type 0
  Leads c [] t = c ≡ t
  Leads c (m ∷ ms) t =
      (w.validate m c t ≡ true) × (c' : Config) × (w.apply m c ≡ some c') × Leads c' ms t

  -- An answer is right: what was found, if anything, leads to the target.
  abbrev Right : Config → Config → Result Stop (Option (List Move)) → Type 0
  Right c t (err e) = Unit
  Right c t (ok none) = Unit
  Right c t (ok (some ms)) = Leads c ms t

  abbrev RightSearch : (Diff Config → Search w) → Type 0
  RightSearch sort =
      (d : Diff Config) (v : List ℕ) → Right d.current_config d.target_config (sort d v).0

  or_next-Right :
      (c t c' : Config) (m : Move) (rest : Search w) (r : Result Stop (Option (List Move)))
      → w.validate m c t ≡ true
      → w.apply m c ≡ some c'
      → Right c' t r
      → ((v : List ℕ) → Right c t (rest v).0)
      → (v : List ℕ) → Right c t (or_next w m rest r v).0
  or_next-Right c t c' m rest (err e) valid applied right others v = tt
  or_next-Right c t c' m rest (ok none) valid applied right others v = others v
  or_next-Right c t c' m rest (ok (some ms)) valid applied right others v =
      (valid, c', applied, right)

  attempt-Right :
      (sort : Diff Config → Search w) (c t : Config) (m : Move) (rest : Search w)
      (r : Option Config)
      → RightSearch sort
      → w.apply m c ≡ r
      → w.validate m c t ≡ true
      → ((v : List ℕ) → Right c t (rest v).0)
      → (v : List ℕ) → Right c t (attempt w (at_target w c t) m sort rest r v).0
  attempt-Right sort c t m rest none right applied valid others v = tt
  attempt-Right sort c t m rest (some c') right applied valid others v =
      or_next-Right c t c' m rest (sort (at_target w c' t) v).0 valid applied
        (right (at_target w c' t) v) others (sort (at_target w c' t) v).1

  if-Right :
      (c t : Config) (b : Bool) (x y : Search w)
      → (b ≡ true → (v : List ℕ) → Right c t (x v).0)
      → ((v : List ℕ) → Right c t (y v).0)
      → (v : List ℕ) → Right c t ((if b then x v else y v)).0
  if-Right c t true x y hx hy v = hx refl v
  if-Right c t false x y hx hy v = hy v

  try_moves-Right :
      (sort : Diff Config → Search w) (c t : Config) (ms : List Move)
      → RightSearch sort
      → (v : List ℕ) → Right c t (try_moves w sort (at_target w c t) ms v).0
  try_moves-Right sort c t [] right v = tt
  try_moves-Right sort c t (m ∷ ms) right v =
      if-Right c t (w.validate m c t)
        (attempt w (at_target w c t) m sort (try_moves w sort (at_target w c t) ms) (w.apply m c))
        (try_moves w sort (at_target w c t) ms)
        (λ valid.
          attempt-Right sort c t m (try_moves w sort (at_target w c t) ms) (w.apply m c) right refl
            valid (try_moves-Right sort c t ms right))
        (try_moves-Right sort c t ms right) v

  pub dfs-Right : (fuel : ℕ) → RightSearch (dfs w fuel)
  unfolding dfs has_no_diff
  dfs-Right zero d v = tt
  dfs-Right (suc fuel) d v =
      if-Right d.current_config d.target_config (w.equal d.current_config d.target_config)
        (λ u. (ok (some []), u)) (visit w (dfs w fuel) d)
        (λ same _. w.equal_sound d.current_config d.target_config same)
        (λ u.
          if-Right d.current_config d.target_config (is_visited (diff_hash w d) u)
            (λ u'. (ok none, u'))
            (λ u'.
              try_moves w (dfs w fuel) d (w.generate d.current_config d.target_config)
                (diff_hash w d ∷ u'))
            (λ _ _. tt)
            (λ u'.
              try_moves-Right (dfs w fuel) d.current_config d.target_config
                (w.generate d.current_config d.target_config) (dfs-Right fuel) (diff_hash w d ∷ u'))
            u)
        v

  -- What the search finds leads to the target: each move is valid for the configuration that the
  -- moves before it make, and can be applied to it, and the last one gives the target.
  pub dfs_sound :
      (fuel : ℕ) (d : Diff Config) (v : List ℕ) (ms : List Move)
      → (dfs w fuel d v).0 ≡ ok (some ms)
      → Leads d.current_config ms d.target_config
  dfs_sound fuel d v ms e = subst (Right d.current_config d.target_config) e (dfs-Right fuel d v)
