-- ===== src/Updater/Sorters/Found.antt =====
-- patch_sorter.py: the changes of PatchSorter and StrictPatchSorter, applied one after the other.
use sonic_utility.Base.{
  ℕ, Bool, true, false, Option, none, some, List, [], ◌∷◌, map, ◌≡◌, refl, sym, ap, ◌∙◌, subst,
  arith,
}
use sonic_utility.Base.Result.{Result, ok, err, ◌>>=◌, guard, >>=-eq-ok, ok-injective}
use sonic_utility.Updater.Moves.{Stop}
use sonic_utility.Updater.Dfs.{at_target}
use sonic_utility.Updater.Dfs.Sound.{Leads, dfs_sound}
use sonic_utility.Updater.Bfs.Sound.{Way, bfs_sound}
use sonic_utility.Updater.Memoization.Sound.{memo_sound}
use sonic_utility.Updater.Sorters.{
  Algorithm, depth_first, breadth_first, memoization, SortError, Tools, answer_of, search,
  changes_of, loaded, sort_patch, sort_strict,
}

-- A move is applied by applying its patch; and for the sorter with memory, configurations with the
-- same hash are the same.
pub record IsMoving {Config Patch Move : Type 0} (tools : Tools Config Patch Move) : Type 0 where
  pub moves :
      (m : Move) (c c' : Config)
      → tools.wrapper.apply m c ≡ some c'
      → tools.apply_patch (tools.patch_of m) c ≡ ok c'
  pub injective : (t c d : Config) → tools.wrapper.hash c t ≡ tools.wrapper.hash d t → c ≡ d

pub guarded : (b : Bool) (e : SortError) {u : Unit {0}} → guard b e ≡ ok u → b ≡ true
guarded true e h = refl
guarded false e h = ground arith

module _ {Config Patch Move : Type 0} (tools : Tools Config Patch Move) where
  -- The changes, applied one after the other.
  unfoldable pub apply_all : List Patch → Config → Result SortError Config
  apply_all [] c = ok c
  apply_all (p ∷ ps) c = do c' ← tools.apply_patch p c; apply_all ps c'

  answer-ok : {A : Type 0} (r : Result Stop A) {a : A} → answer_of tools r ≡ ok a → r ≡ ok a
  answer-ok (ok a) e = ap ok (ok-injective e)
  answer-ok (err x) e = ground arith

  module _ (moving : IsMoving tools) where
    Leads-apply_all :
        (c t : Config) (ms : List Move)
        → Leads tools.wrapper c ms t
        → apply_all (map tools.patch_of ms) c ≡ ok t
    unfolding apply_all
    Leads-apply_all c t [] p = ap ok p
    Leads-apply_all c t (m ∷ ms) (valid, c', applied, rest) =
        rw (moving.moves m c c' applied) (Leads-apply_all c' t ms rest)

    Way-apply_all :
        (c t d : Config) (ms : List Move)
        → Way tools.wrapper t c ms d
        → apply_all (map tools.patch_of ms) c ≡ ok d
    unfolding apply_all
    Way-apply_all c t d [] p = ap ok p
    Way-apply_all c t d (m ∷ ms) (valid, c', applied, rest) =
        rw (moving.moves m c c' applied) (Way-apply_all c' t d ms rest)

    search-apply_all :
        (algorithm : Algorithm) (fuel : ℕ) (c t : Config) (ms : List Move)
        → search tools algorithm fuel c t ≡ ok (some ms)
        → apply_all (map tools.patch_of ms) c ≡ ok t
    unfolding search
    search-apply_all depth_first fuel c t ms e =
        Leads-apply_all c t ms
          (dfs_sound tools.wrapper fuel (at_target tools.wrapper c t) [] ms (answer-ok _ e))
    search-apply_all breadth_first fuel c t ms e =
        Way-apply_all c t t ms (bfs_sound tools.wrapper t fuel c [] ms (answer-ok _ e))
    search-apply_all memoization fuel c t ms e =
        Way-apply_all c t t ms
          (memo_sound tools.wrapper t (moving.injective t) fuel c ms (answer-ok _ e))

    changes_of-apply_all :
        (algorithm : Algorithm) (fuel : ℕ) (c t : Config) (found : Option (List Move))
        {changes : List Patch}
        → search tools algorithm fuel c t ≡ ok found
        → changes_of tools found ≡ ok changes
        → apply_all changes c ≡ ok t
    changes_of-apply_all algorithm fuel c t none s e = ground arith
    changes_of-apply_all algorithm fuel c t (some ms) s e =
        subst (λ x. apply_all x c ≡ ok t) (ok-injective e)
          (search-apply_all algorithm fuel c t ms s)

    -- The changes of a PatchSorter, applied one after the other to the configuration that it was
    -- given, make what the patch makes of it.
    pub sort_patch-apply_all :
        (algorithm : Algorithm) (fuel : ℕ) (running c : Config) (patch : Patch)
        {changes : List Patch}
        → tools.is_empty_config c ≡ false
        → sort_patch tools algorithm fuel running (some c) patch ≡ ok changes
        → apply_all changes c ≡ tools.apply_patch patch c
    unfolding sort_patch loaded
    sort_patch-apply_all algorithm fuel running c patch h e =
        let e0 = rw (h) at (e) in
        let (t, applied, e1) = >>=-eq-ok (tools.apply_patch patch c) _ e0 in
        let (found, searched, e2) = >>=-eq-ok (search tools algorithm fuel c t) _ e1 in
        changes_of-apply_all algorithm fuel c t found searched e2 ∙ sym applied

    -- The changes of StrictPatchSorter, applied one after the other to the running configuration, make
    -- of it what the patch makes of it, and YANG accepts that, whatever algorithm searched, if a move is
    -- applied by its patch and configurations with the same hash are the same.
    pub sort_strict-apply_all :
        (algorithm : Algorithm) (fuel : ℕ) (running : Config) (patch : Patch) {changes : List Patch}
        → sort_strict tools algorithm fuel running patch ≡ ok changes
        → (target : Config) × (tools.apply_patch patch running ≡ ok target)
          × (apply_all changes running ≡ ok target)
          × (tools.validate_config_db_config target ≡ true)
    unfolding sort_strict sort_patch loaded
    sort_strict-apply_all algorithm fuel running patch e =
        let (_, g1, e1) =
          >>=-eq-ok (guard (tools.validate_config_db_patch_has_yang_models patch) _) _ e in
        let (target, applied, e2) = >>=-eq-ok (tools.apply_patch patch running) _ e1 in
        let (_, g2, e3) = >>=-eq-ok (guard (tools.validate_config_db_config target) _) _ e2 in
        let (t, again, e4) = >>=-eq-ok (tools.apply_patch patch running) _ e3 in
        let (found, searched, e5) = >>=-eq-ok (search tools algorithm fuel running t) _ e4 in
        let same : t ≡ target = ok-injective (sym again ∙ applied) in
        (
          target,
          applied,
          changes_of-apply_all algorithm fuel running t found searched e5 ∙ ap ok same,
          guarded _ _ g2,
        )
