-- ===== src/Updater/Bfs/Ends.antt =====
-- patch_sorter.py: the rounds of BfsSorter, counted by the items that are or may be in the queues.
use sonic_utility.Base.{
  ℕ, zero, suc, ◌+◌, ◌≤◌, ◌<◌, Bool, true, false, Option, none, some, List, [], ◌∷◌, ◌++◌, ◌≡◌, ◌≢◌,
  refl, if◌then◌else◌, arith, nat_eq, length, Bool-cases, inl, inr,
}
use sonic_utility.Base.Result.{Result, ok, err}
use sonic_utility.Updater.Moves.{Stop, raised, out_of_fuel, MoveWrapper, is_visited}
use sonic_utility.Updater.Dfs.Ends.{IsGrown, cons-IsGrown}
use sonic_utility.Updater.Bfs.{Item, with_move, expand, go_on, bfs}

length-append : {A : Type 0} (xs ys : List A) → length (xs ++ ys) ≡ length xs + length ys
length-append [] ys = ground arith
length-append (x ∷ xs) ys = ground (arith, length-append xs ys)

-- What the rounds may still append, if each appends at most `b` items: one more than that for each
-- hash that is not visited.
abbrev pub budget : ℕ → List ℕ → List ℕ → ℕ
budget b [] v = 0
budget b (h ∷ hs) v = if is_visited h v then budget b hs v else suc b + budget b hs v

budget-IsGrown : (b : ℕ) (hs v v' : List ℕ) → IsGrown v v' → budget b hs v' ≤ budget b hs v
budget-IsGrown b [] v v' g = ground arith
budget-IsGrown b (h ∷ hs) v v' g = ground (arith, g h, budget-IsGrown b hs v v' g)

budget-cons :
    (b : ℕ) (hs v : List ℕ) (k : ℕ)
    → is_visited k hs ≡ true
    → is_visited k v ≡ false
    → suc b + budget b hs (k ∷ v) ≤ budget b hs v
budget-cons b [] v k known new = ground arith
budget-cons b (h ∷ hs) v k known new = elim (Bool-cases (nat_eq k h)) [
  | inl same ↦ ground (arith, budget-IsGrown b hs v (k ∷ v) (cons-IsGrown k v))
  | inr other ↦ ground (arith, budget-cons b hs v k)
]

module _ {Config Move : Type 0} (w : MoveWrapper Config Move) (target : Config) where
  -- At most as many items as there are moves, and no lack of fuel.
  abbrev FewItems : ℕ → Result Stop (List (Item w target)) → Type 0
  FewItems n (err e) = e ≡ raised
  FewItems n (ok items) = length items ≤ n

  with_move-FewItems :
      (n : ℕ) (prv : List Move) (m : Move) (o : Option Config)
      (r : Result Stop (List (Item w target)))
      → FewItems n r
      → FewItems (suc n) (with_move w target prv m o r)
  with_move-FewItems n prv m none r h = refl
  with_move-FewItems n prv m (some d) (err e) h = h
  with_move-FewItems n prv m (some d) (ok items) h = ground arith

  more-FewItems :
      (n k : ℕ) (r : Result Stop (List (Item w target))) → n ≤ k → FewItems n r → FewItems k r
  more-FewItems n k (err e) more h = h
  more-FewItems n k (ok items) more h = ground arith

  if-FewItems :
      (n : ℕ) (b : Bool) (x y : Result Stop (List (Item w target)))
      → FewItems n x
      → FewItems n y
      → FewItems n (if b then x else y)
  if-FewItems n true x y hx hy = hx
  if-FewItems n false x y hx hy = hy

  expand-FewItems :
      (c : Config) (prv ms : List Move) → FewItems (length ms) (expand w target c prv ms)
  unfolding expand
  expand-FewItems c prv [] = ground arith
  expand-FewItems c prv (m ∷ ms) =
      let items = expand w target c prv ms in
      if-FewItems (suc (length ms)) (w.validate m c target) _ _
        (with_move-FewItems (length ms) prv m (w.apply m c) items (expand-FewItems c prv ms))
        (more-FewItems (length ms) (suc (length ms)) items (ground arith)
          (expand-FewItems c prv ms))

  module _ (hashes : List ℕ) (b : ℕ)
      (finite : (c : Config) → is_visited (w.hash c target) hashes ≡ true)
      (bounded : (c : Config) → length (w.generate c target) ≤ b) where
    go_on-answers :
        (fuel : ℕ) (rest : List (Item w target)) (v : List ℕ)
        (r : Result Stop (List (Item w target)))
        → FewItems b r
        → length rest + (b + budget b hashes v) < fuel
        → ((q : List (Item w target))
            → length q + budget b hashes v < fuel
            → bfs w target fuel q v ≢ err out_of_fuel)
        → go_on w target (bfs w target fuel) rest v r ≢ err out_of_fuel
    go_on-answers fuel rest v (err e) few enough k = λ x. cc
    go_on-answers fuel rest v (ok items) few enough k =
        k (rest ++ items) (ground (arith, length-append rest items))

    -- The search answers, or raises what a move raised, if the hashes of all configurations with the
    -- target are among finitely many and at most `b` moves are generated for a configuration: fuel
    -- is enough that exceeds the length of the queue and one more than `b` for each hash that is not
    -- visited.
    pub bfs_fuel :
        (fuel : ℕ) (queue : List (Item w target)) (v : List ℕ)
        → length queue + budget b hashes v < fuel
        → bfs w target fuel queue v ≢ err out_of_fuel
    unfolding bfs
    bfs_fuel zero queue v enough = ground arith
    bfs_fuel (suc fuel) [] v enough = λ x. cc
    bfs_fuel (suc fuel) ((c, prv) ∷ rest) v enough =
        elim (Bool-cases (is_visited (w.hash c target) v)) [
          | inl seen ↦ rw seen (bfs_fuel fuel rest v (ground arith))
          | inr new ↦ elim (Bool-cases (w.equal c target)) [
            | inl same ↦ rw (new, same) (λ x. cc)
            | inr other ↦
                let fewer = budget-cons b hashes v (w.hash c target) (finite c) new in
                rw (new, other)
                  (go_on-answers fuel rest (w.hash c target ∷ v)
                    (expand w target c prv (w.generate c target))
                    (more-FewItems (length (w.generate c target)) b _ (bounded c)
                      (expand-FewItems c prv (w.generate c target)))
                    (ground arith) (λ q. bfs_fuel fuel q (w.hash c target ∷ v)))
          ]
        ]
