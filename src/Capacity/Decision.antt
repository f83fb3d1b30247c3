-- ===== src/Capacity/Decision.antt =====
-- When a node takes requests (src/fleet_manager/node/capacity_learner.py).
use ollama_herd.Common.{ℕ, ◌≤◌, ◌<◌, ◌≡◌, Bool, true, false, some, text, ltb}
use ollama_herd.Scorer.Floats.{Float}
use ollama_herd.Capacity.Data.{
  CapacityMode, Observation, ManualOverride, CapacityFloats, Learner, Sensed, bootstrap_days,
}
use ollama_herd.Capacity.{days_observed, learned_availability}

-- The modes in which the router's scorer does not bar the node; it asks for the mode, whatever the
-- ceiling is.
abbrev pub admits : CapacityMode → Bool
admits CapacityMode.paused = false
admits CapacityMode.bootstrap = false
admits _ = true

module _ (f : Float) (c : CapacityFloats f) where
  -- What an offer of the automatic part rests on.
  abbrev pub Earned : ℕ → Sensed f → Observation → Learner f → Type 0
  Earned now s o l =
      (bootstrap_days ≤ days_observed f c now l)
      × (f.ltb (learned_availability f c now s o l) (f.ratio 1 5) ≡ false)

  -- An override that is in force and asks for all memory.
  abbrev pub IsVolunteered : ℕ → Learner f → Type 0
  IsVolunteered now l =
      (m : ManualOverride) × (l.manual_override ≡ some m)
      × (now < m.expires)
      × (m.mode ≡ text "full")
