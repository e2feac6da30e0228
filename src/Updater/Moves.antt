-- ===== src/Updater/Moves.antt =====
-- generic_config_updater/patch_sorter.py: Diff, and what the sorters use of a MoveWrapper.
use sonic_utility.Base.{Option, ℕ, Bool, true, false, List, [], ◌∷◌, ◌≡◌, ◌||◌, nat_eq}

-- Why a search stops: a move that cannot be applied raises, and the model runs out of fuel.
pub data Stop : Type 0 where
  raised out_of_fuel : Stop

-- The generators, extenders and validators that a MoveWrapper is made of, and the application of a
-- move; `none` stands for what it raises where the move does not fit the configuration. `hash` is that of a Diff.
pub record MoveWrapper {ℓ} (Config Move : Type ℓ) : Type ℓ where
  pub generate : Config → Config → List Move
  pub validate : Move → Config → Config → Bool
  pub apply : Move → Config → Option Config
  pub equal : Config → Config → Bool
  pub equal_sound : (a b : Config) → equal a b ≡ true → a ≡ b
  pub hash : Config → Config → ℕ

pub record Diff {ℓ} (Config : Type ℓ) : Type ℓ where
  pub current_config : Config
  pub target_config : Config

module _ {ℓ} {Config Move : Type ℓ} (w : MoveWrapper Config Move) where
  unfoldable pub has_no_diff : Diff Config → Bool
  has_no_diff d = w.equal d.current_config d.target_config

  abbrev pub diff_hash : Diff Config → ℕ
  diff_hash d = w.hash d.current_config d.target_config

-- diff_hash in self.visited
abbrev pub is_visited : ℕ → List ℕ → Bool
is_visited h [] = false
is_visited h (k ∷ ks) = nat_eq h k || is_visited h ks
