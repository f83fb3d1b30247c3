-- ===== src/Capacity/Sustained.antt =====
-- A pause for a sustained load, along the observations of a node
-- (src/fleet_manager/node/capacity_learner.py).
use ollama_herd.Common.{
  ℕ, ◌+◌, ◌≤◌, ◌<◌, ◌≡◌, ◌≢◌, ◌⊎◌, refl, sym, ◌∙◌, ap, true, false, Option, none, some, List, [],
  ◌∷◌, Text, if◌then◌else◌, arith, Bool-cases, inl, inr,
}
use ollama_herd.Scorer.Floats.{Float}
use ollama_herd.Capacity.Data.{Observation, ManualOverride, CapacityFloats, Learner, Sensed}
use ollama_herd.Capacity.{
  track_cpu, is_sustained, overridden, compute_capacity, observe, set_manual_override,
  clear_manual_override,
}

some_apart : (t : ℕ) → none ≢ some t
some_apart t e = cc

module _ (f : Float) (c : CapacityFloats f) where
  -- The observations of a node, the newest first.
  abbrev pub History : Type 0
  History = List (Sensed f × Observation)

  -- The learner after a history, and after any overrides.
  pub data Reach : History → Learner f → Type 0 where
    start : (l : Learner f) → l.sustained_high_cpu_since ≡ none → Reach [] l
    observed :
        (s : Sensed f) (o : Observation) (os : History) (l : Learner f)
        → Reach os l
        → Reach ((s, o) ∷ os) (observe f c s o l).1
    override :
        (now : ℕ) (mode : Text) (hours : ℕ) (os : History) (l : Learner f)
        → Reach os l
        → Reach os (set_manual_override f c now mode hours l)
    cleared : (os : History) (l : Learner f) → Reach os l → Reach os (clear_manual_override f c l)

  -- Back to an observation at time `t`, every one outside a meeting shows a load above 85 percent.
  abbrev pub HighSince : ℕ → History → Type 0
  HighSince t [] = ⊥
  HighSince t ((s, o) ∷ os) =
      ((s.in_meeting ≡ true) × HighSince t os)
      ⊎ ((s.in_meeting ≡ false) × (85000 < o.cpu_pct) × ((o.timestamp ≡ t) ⊎ HighSince t os))

  since-overridden :
      (now : ℕ) (s : Sensed f) (o : Observation) (l : Learner f) (m : Option ManualOverride)
      → (overridden f c now s o l m).1.sustained_high_cpu_since ≡ l.sustained_high_cpu_since
  unfolding overridden
  since-overridden now s o l none = refl
  since-overridden now s o l (some m) = ground arith

  since-compute_capacity :
      (now : ℕ) (s : Sensed f) (o : Observation) (l : Learner f)
      → (compute_capacity f c now s o l).1.sustained_high_cpu_since ≡ (
          if s.in_meeting
          then l.sustained_high_cpu_since
          else track_cpu f c now o.cpu_pct l.sustained_high_cpu_since)
  unfolding compute_capacity
  since-compute_capacity now s o l =
      let tracked : Learner f = record l {
        sustained_high_cpu_since = track_cpu f c now o.cpu_pct l.sustained_high_cpu_since;
      } in
      elim (Bool-cases s.in_meeting) [
        | inl busy ↦ rw busy refl
        | inr free ↦ elim (Bool-cases (is_sustained f c now o.cpu_pct l.sustained_high_cpu_since)) [
          | inl hot ↦ rw (free, hot) refl
          | inr cool ↦
              ap (λ r. r.1.sustained_high_cpu_since) (passed free cool)
              ∙ (since-overridden now s o tracked l.manual_override ∙ rw free refl)
        ]
      ]
    where
      passed :
          s.in_meeting ≡ false
          → is_sustained f c now o.cpu_pct l.sustained_high_cpu_since ≡ false
          → compute_capacity f c now s o l
            ≡ overridden f c now s o
                (record l {
                  sustained_high_cpu_since = track_cpu f c now o.cpu_pct l.sustained_high_cpu_since;
                })
                l.manual_override
      passed free cool = rw (free, cool) refl

  -- The time that is kept after an observation.
  since-observe :
      (s : Sensed f) (o : Observation) (l : Learner f)
      → (observe f c s o l).1.sustained_high_cpu_since ≡ (
          if s.in_meeting
          then l.sustained_high_cpu_since
          else track_cpu f c o.timestamp o.cpu_pct l.sustained_high_cpu_since)
  unfolding observe
  since-observe s o l = since-compute_capacity o.timestamp s o _

  track_cpu-cases :
      (now cpu t : ℕ) (since : Option ℕ)
      → track_cpu f c now cpu since ≡ some t
      → (85000 < cpu) × ((now ≡ t) ⊎ (since ≡ some t))
  unfolding track_cpu
  track_cpu-cases now cpu t none e = (ground arith, inl (ground arith))
  track_cpu-cases now cpu t (some u) e = (ground arith, inr (ground arith))

  Reach-HighSince :
      (os : History) (l : Learner f) (t : ℕ)
      → Reach os l
      → l.sustained_high_cpu_since ≡ some t
      → HighSince t os
  unfolding set_manual_override clear_manual_override
  Reach-HighSince _ l t (start _ none_yet) e = elim (some_apart t (sym none_yet ∙ e)) [ ]
  Reach-HighSince _ _ t (observed s o os l before) e = elim (Bool-cases s.in_meeting) [
    | inl busy ↦ inl (busy, Reach-HighSince os l t before (sym (kept busy) ∙ e))
    | inr free ↦
        let now_kept = sym (tracked free) ∙ e in
        let cases = track_cpu-cases o.timestamp o.cpu_pct t l.sustained_high_cpu_since now_kept in
        inr (
          free,
          cases.0,
          elim cases.1 [
            | inl first ↦ inl first
            | inr earlier ↦ inr (Reach-HighSince os l t before earlier)
          ],
        )
  ]
    where
      kept :
          s.in_meeting ≡ true
          → (observe f c s o l).1.sustained_high_cpu_since ≡ l.sustained_high_cpu_since
      kept busy = since-observe s o l ∙ rw busy refl

      tracked :
          s.in_meeting ≡ false
          → (observe f c s o l).1.sustained_high_cpu_since
            ≡ track_cpu f c o.timestamp o.cpu_pct l.sustained_high_cpu_since
      tracked free = since-observe s o l ∙ rw free refl
  Reach-HighSince os _ t (override now mode hours _ l before) e = Reach-HighSince os l t before e
  Reach-HighSince os _ t (cleared _ l before) e = Reach-HighSince os l t before e

  is_sustained-cases :
      (now cpu : ℕ) (since : Option ℕ)
      → is_sustained f c now cpu since ≡ true
      → (t : ℕ) × (since ≡ some t) × (85000 < cpu) × (t + 120 ≤ now)
  unfolding is_sustained
  is_sustained-cases now cpu none h = cc
  is_sustained-cases now cpu (some t) h = (t, refl, ground arith, ground arith)

  -- Where an observation counts as a sustained load, it and every one before it, back to one of at
  -- least 120 seconds ago, showed a load above 85 percent, those in meetings excepted.
  pub is_sustained-HighSince :
      (now cpu : ℕ) (os : History) (l : Learner f)
      → Reach os l
      → is_sustained f c now cpu l.sustained_high_cpu_since ≡ true
      → (t : ℕ) × HighSince t os × (85000 < cpu) × (t + 120 ≤ now)
  is_sustained-HighSince now cpu os l reach h =
      let facts = is_sustained-cases now cpu l.sustained_high_cpu_since h in
      (facts.0, Reach-HighSince os l facts.0 reach facts.1, facts.2, facts.3)
