-- ===== src/Capacity.antt =====
-- The learned capacity of a node (src/fleet_manager/node/capacity_learner.py).
pub mod Data
pub mod Decision
pub mod Sustained
use ollama_herd.Common.{
  ℕ, zero, ◌+◌, ◌-◌, ◌*◌, ◌/◌, ◌%◌, Bool, true, false, not, ◌&&◌, Option, none, some, List, [], ◌∷◌,
  map, Text, text, text_eq, if◌then◌else◌, ltb, leb, ◌==◌, length,
}
use ollama_herd.Scorer.Floats.{Float}
use ollama_herd.Capacity.Data.{
  CapacityMode, Observation, SlotData, ManualOverride, num_slots, bootstrap_days,
  min_samples_for_confidence, prune, add_at, slot_at, total_samples, CapacityFloats, CapacityInfo,
  Learner, Sensed,
}

module _ (f : Float) (c : CapacityFloats f) where
  open f use {Value, ratio, add, sub, mul, div}

  abbrev nat : ℕ → Value
  nat n = ratio n 1

  abbrev max_of : Value → Value → Value
  max_of a b = if f.ltb a b then b else a

  abbrev min_of : Value → Value → Value
  min_of a b = if f.ltb b a then b else a

  -- The sums of a weighted average, with the percentage that is asked for.
  unfoldable pub weighted : (Observation → ℕ) → ℕ → Value × Value → SlotData → Value × Value
  weighted pct now sums [] = sums
  weighted pct now sums (o ∷ os) =
      let weight = c.decay (now - o.timestamp) in
      weighted pct now (add sums.0 (mul (ratio (pct o) 1000) weight), add sums.1 weight) os

  unfoldable pub weighted_avg : (Observation → ℕ) → ℕ → SlotData → Value
  weighted_avg pct now [] = nat 0
  weighted_avg pct now (o ∷ os) =
      let sums = weighted pct now (nat 0, nat 0) (o ∷ os) in
      if f.ltb (nat 0) sums.1 then div sums.0 sums.1 else nat 0

  unfoldable pub days_observed : ℕ → Learner f → ℕ
  days_observed now l = elim l.first_observation [ none ↦ 0 | some t ↦ (now - t) / 86400 ]

  abbrev pub is_bootstrapping : ℕ → Learner f → Bool
  is_bootstrapping now l = ltb (days_observed now l) bootstrap_days

  unfoldable pub learning_confidence : ℕ → Learner f → Value
  learning_confidence now l =
      let days = days_observed now l in
      let day_factor = min_of (nat 1) (div (nat days) (nat 30)) in
      let avg_per_slot = div (nat (total_samples l.slots)) (nat num_slots) in
      let sample_factor = min_of (nat 1) (div avg_per_slot (nat min_samples_for_confidence)) in
      if days == 0
      then nat 0
      else c.round_2 (add (mul day_factor (ratio 3 5)) (mul sample_factor (ratio 2 5)))

  unfoldable pub compute_availability_score : Value → Value → Value → Value → Value → Value
  compute_availability_score historical_cpu current_cpu current_memory cpu_trend slot_confidence =
      let hist_score = max_of (nat 0) (sub (nat 1) (div historical_cpu (nat 100))) in
      let current_score = max_of (nat 0) (
        sub (sub (nat 1) (mul (div current_cpu (nat 100)) (ratio 7 10)))
          (mul (div current_memory (nat 100)) (ratio 3 10))) in
      let trend_score =
        max_of (nat 0) (min_of (nat 1) (sub (ratio 1 2) (mul cpu_trend (ratio 1 2)))) in
      let hist_weight = mul (ratio 2 5) slot_confidence in
      let current_weight = add (ratio 2 5) (mul (ratio 2 5) (sub (nat 1) slot_confidence)) in
      let score =
        add (add (mul hist_score hist_weight) (mul current_score current_weight))
          (mul trend_score (ratio 1 5)) in
      max_of (nat 0) (min_of (nat 1) score)

  unfoldable pub availability_to_ceiling : Value → Value → Value × CapacityMode
  availability_to_ceiling total availability =
      if f.ltb availability (ratio 1 5)
      then (nat 0, CapacityMode.paused)
      else if f.ltb availability (ratio 2 5)
      then (min_of (nat 16) (mul total (ratio 1 8)), CapacityMode.learned_low)
      else if f.ltb availability (ratio 3 5)
      then (min_of (nat 32) (mul total (ratio 1 4)), CapacityMode.learned_medium)
      else if f.ltb availability (ratio 4 5)
      then (min_of (nat 64) (mul total (ratio 1 2)), CapacityMode.learned_high)
      else (mul total (ratio 4 5), CapacityMode.full)

  abbrev reason_for : Value → Value → Text
  reason_for historical_cpu availability =
      if f.ltb availability (ratio 1 5)
      then if f.ltb (nat 60) historical_cpu
        then text "historically_busy_slot"
        else text "currently_busy"
      else if f.ltb availability (ratio 2 5)
      then text "low_availability"
      else if f.ltb availability (ratio 3 5)
      then text "moderate_availability"
      else if f.ltb availability (ratio 4 5)
      then text "good_availability"
      else text "high_availability"

  -- The availability that is learned for the slot, and its capacity.
  unfoldable pub learned_availability : ℕ → Sensed f → Observation → Learner f → Value
  learned_availability now s o l =
      let slot = slot_at s.slot_index l.slots in
      compute_availability_score (weighted_avg (λ x. x.cpu_pct) now slot) (ratio o.cpu_pct 1000)
        (ratio o.memory_pct 1000) s.cpu_trend
        (min_of (nat 1) (div (nat (length slot)) (nat min_samples_for_confidence)))

  unfoldable pub learned_capacity : ℕ → Sensed f → Observation → Learner f → CapacityInfo f
  learned_capacity now s o l =
      let availability = learned_availability now s o l in
      let ceiling = availability_to_ceiling l.total_memory_gb availability in
      let historical_cpu = weighted_avg (λ x. x.cpu_pct) now (slot_at s.slot_index l.slots) in
      record {
        mode = ceiling.1;
        ceiling_gb = ceiling.0;
        availability_score = availability;
        reason = reason_for historical_cpu availability;
        override_active = false;
        learning_confidence = learning_confidence now l;
        days_observed = days_observed now l;
      }

  -- A capacity that is not learned.
  unfoldable pub fixed_capacity :
      ℕ → Learner f → CapacityMode → Value → Value → Text → Bool → CapacityInfo f
  fixed_capacity now l mode ceiling score reason active = record {
    mode = mode;
    ceiling_gb = ceiling;
    availability_score = score;
    reason = reason;
    override_active = active;
    learning_confidence = learning_confidence now l;
    days_observed = days_observed now l;
  }

  -- `_sustained_high_cpu_since` after an observation: the time since which every one was high.
  unfoldable pub track_cpu : ℕ → ℕ → Option ℕ → Option ℕ
  track_cpu now cpu since =
      if ltb 85000 cpu then elim since [ none ↦ some now | some t ↦ some t ] else none

  -- The high load is older than this observation and lasts for 120 seconds.
  unfoldable pub is_sustained : ℕ → ℕ → Option ℕ → Bool
  is_sustained now cpu none = false
  is_sustained now cpu (some t) = ltb 85000 cpu && leb 120 (now - t)

  abbrev is_expired : ℕ → ManualOverride → Bool
  is_expired now m = leb m.expires now

  -- After the manual override: the bootstrap, and what is learned.
  unfoldable pub automatic : ℕ → Sensed f → Observation → Learner f → CapacityInfo f
  automatic now s o l =
      if is_bootstrapping now l
      then fixed_capacity now l CapacityMode.bootstrap (nat 0) (nat 0)
          (text "bootstrap_observation_period") false
      else learned_capacity now s o l

  -- The manual override: an expired one is dropped, and one of another mode has no effect.
  unfoldable pub overridden :
      ℕ → Sensed f → Observation → Learner f → Option ManualOverride → CapacityInfo f × Learner f
  overridden now s o l none = (automatic now s o l, l)
  overridden now s o l (some m) =
      let l' : Learner f = record l { manual_override = none } in
      if is_expired now m
      then (automatic now s o l', l')
      else if text_eq m.mode (text "full")
      then (
        fixed_capacity now l CapacityMode.full (mul l.total_memory_gb (ratio 4 5)) (nat 1)
            (text "manual_override") true,
        l,
      )
      else if text_eq m.mode (text "paused")
      then (
        fixed_capacity now l CapacityMode.paused (nat 0) (nat 0) (text "manual_override") true,
        l,
      )
      else (automatic now s o l, l)

  -- `_compute_capacity`. In a meeting the load is not tracked.
  unfoldable pub compute_capacity :
      ℕ → Sensed f → Observation → Learner f → CapacityInfo f × Learner f
  compute_capacity now s o l =
      let tracked : Learner f = record l {
        sustained_high_cpu_since = track_cpu now o.cpu_pct l.sustained_high_cpu_since;
      } in
      if s.in_meeting
      then (
        fixed_capacity now l CapacityMode.paused (nat 0) (nat 0) (text "meeting_detected") true,
        l,
      )
      else if is_sustained now o.cpu_pct l.sustained_high_cpu_since
      then (
        fixed_capacity now tracked CapacityMode.paused
            (min_of (nat 16) (mul l.total_memory_gb (ratio 1 10))) (ratio 1 10)
            (text "sustained_high_cpu") true,
        tracked,
      )
      else overridden now s o tracked tracked.manual_override

  -- `if sample_count() % 720 == 0: prune every slot`
  abbrev prune_hourly : ℕ → ℕ → List SlotData → List SlotData
  prune_hourly now i slots =
      if length (slot_at i slots) % 720 == 0 then map (prune now) slots else slots

  abbrev first_of : ℕ → Option ℕ → Option ℕ
  first_of now none = some now
  first_of now (some t) = some t

  -- `observe`, which gives the capacity for the heartbeat. The time is the observation's.
  unfoldable pub observe : Sensed f → Observation → Learner f → CapacityInfo f × Learner f
  observe s o l =
      let now = o.timestamp in
      let recorded : Learner f = record l {
        first_observation = first_of now l.first_observation;
        slots = prune_hourly now s.slot_index (add_at s.slot_index o l.slots);
      } in
      let computed = compute_capacity now s o recorded in
      (computed.0, record computed.1 { last_capacity = computed.0 })

  unfoldable pub set_manual_override : ℕ → Text → ℕ → Learner f → Learner f
  set_manual_override now mode duration_hours l = record l {
    manual_override = some (record { mode = mode; expires = now + duration_hours * 3600 });
  }

  unfoldable pub clear_manual_override : Learner f → Learner f
  clear_manual_override l = record l { manual_override = none }
