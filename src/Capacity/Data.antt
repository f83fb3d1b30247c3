-- ===== src/Capacity/Data.antt =====
-- What the capacity learner keeps (src/fleet_manager/node/capacity_learner.py). Percentages are in
-- thousandths, times in seconds.
use ollama_herd.Common.{
  ℕ, zero, suc, ◌+◌, ◌*◌, Bool, Option, List, [], ◌∷◌, ◌++◌, Text, text, leb, length, filter,
}
use ollama_herd.Scorer.Floats.{Float}

pub data CapacityMode : Type 0 where
  full learned_high learned_medium learned_low paused bootstrap : CapacityMode

abbrev pub mode_value : CapacityMode → Text
mode_value CapacityMode.full = text "full"
mode_value CapacityMode.learned_high = text "learned_high"
mode_value CapacityMode.learned_medium = text "learned_medium"
mode_value CapacityMode.learned_low = text "learned_low"
mode_value CapacityMode.paused = text "paused"
mode_value CapacityMode.bootstrap = text "bootstrap"

pub record Observation : Type 0 where
  pub timestamp : ℕ
  pub cpu_pct : ℕ
  pub memory_pct : ℕ

-- `SlotData`
abbrev pub SlotData : Type 0
SlotData = List Observation

pub record ManualOverride : Type 0 where
  pub mode : Text
  pub expires : ℕ

abbrev pub num_slots : ℕ
num_slots = 168

abbrev pub bootstrap_days : ℕ
bootstrap_days = 7

abbrev pub min_samples_for_confidence : ℕ
min_samples_for_confidence = 5

-- `SlotData.prune`: the observations of the last 30 days.
unfoldable pub prune : ℕ → SlotData → SlotData
prune now slot = filter (λ o. leb now (o.timestamp + 30 * 86400)) slot

-- `self._slots[i].add(...)`
unfoldable pub add_at : ℕ → Observation → List SlotData → List SlotData
add_at i o [] = []
add_at zero o (s ∷ ss) = (s ++ o ∷ []) ∷ ss
add_at (suc i) o (s ∷ ss) = s ∷ add_at i o ss

unfoldable pub slot_at : ℕ → List SlotData → SlotData
slot_at i [] = []
slot_at zero (s ∷ ss) = s
slot_at (suc i) (s ∷ ss) = slot_at i ss

unfoldable pub total_samples : List SlotData → ℕ
total_samples [] = 0
total_samples (s ∷ ss) = length s + total_samples ss

-- What the floats of the module need beside their arithmetic: the weight of an observation by its
-- age, `math.exp(-math.log(2) * age_days / DECAY_HALF_LIFE_DAYS)`, and `round(x, 2)`.
pub record CapacityFloats (f : Float) : Type 0 where
  pub decay : ℕ → f.Value
  pub round_2 : f.Value → f.Value

pub record CapacityInfo (f : Float) : Type 0 where
  pub mode : CapacityMode
  pub ceiling_gb : f.Value
  pub availability_score : f.Value
  pub reason : Text
  pub override_active : Bool
  pub learning_confidence : f.Value
  pub days_observed : ℕ

-- The state of `AdaptiveCapacityLearner`.
pub record Learner (f : Float) : Type 0 where
  pub total_memory_gb : f.Value
  pub slots : List SlotData
  pub first_observation : Option ℕ
  pub manual_override : Option ManualOverride
  pub sustained_high_cpu_since : Option ℕ
  pub last_capacity : CapacityInfo f

-- What the detectors say at an observation: the meeting detector, the trend of the fingerprinter,
-- and the slot of the local time.
pub record Sensed (f : Float) : Type 0 where
  pub in_meeting : Bool
  pub cpu_trend : f.Value
  pub slot_index : ℕ
