-- ===== src/Preloader/Wait.antt =====
-- The wait for a model ends, with the right answer (`_wait_until_resident` of
-- src/fleet_manager/server/model_preloader.py).
use ollama_herd.Common.{
  ℕ, zero, suc, ◌+◌, ◌-◌, ◌≤◌, ◌≡◌, ◌⊎◌, refl, Bool, true, false, Option, some, Text, leb, arith,
  Bool-cases, inl, inr,
}
use ollama_herd.Preloader.Load.{
  Fleet, is_resident, poll, wait_until_resident, residency_poll_interval,
}

module _ {W : Type 0} (fleet : Fleet W)
    (advances : (ms : ℕ) (w : W) → fleet.clock w + ms ≤ fleet.clock (fleet.sleep ms w)) where
  -- What the loop answers: the model is resident in the fleet as it then is, or the deadline has
  -- passed and it is not.
  abbrev pub Answered : Option Text → Text → ℕ → Bool × ℕ × W → Type 0
  Answered node_id model deadline r =
      (is_resident fleet node_id model r.2 ≡ r.0) × ((r.0 ≡ true) ⊎ (deadline ≤ fleet.clock r.2))

  poll_answers :
      (fuel : ℕ) (node_id : Option Text) (model : Text) (start deadline : ℕ) (w : W)
      → deadline ≤ fleet.clock w + fuel
      → (r : Bool × ℕ × W) × (poll fleet (suc fuel) node_id model start deadline w ≡ some r)
        × Answered node_id model deadline r
  unfolding poll
  poll_answers zero node_id model start deadline w h =
      let elapsed = fleet.clock w - start in
      elim (Bool-cases (is_resident fleet node_id model w)) [
        | inl here ↦ ((true, elapsed, w), rw here refl, (here, inl refl))
        | inr away ↦
            let late : leb deadline (fleet.clock w) ≡ true = ground arith in
            ((false, elapsed, w), rw (away, late) refl, (away, inr (ground arith)))
      ]
  poll_answers (suc fuel) node_id model start deadline w h =
      let elapsed = fleet.clock w - start in
      elim (Bool-cases (is_resident fleet node_id model w)) [
        | inl here ↦ ((true, elapsed, w), rw here refl, (here, inl refl))
        | inr away ↦ elim (Bool-cases (leb deadline (fleet.clock w))) [
          | inl late ↦ ((false, elapsed, w), rw (away, late) refl, (away, inr (ground arith)))
          | inr early ↦
              let next = fleet.sleep residency_poll_interval w in
              let rest =
                poll_answers fuel node_id model start deadline next
                  (omega (arith, h, advances residency_poll_interval w)) in
              (rest.0, rw (away, early) rest.1, rest.2)
        ]
      ]

  -- The wait ends, within the fuel of one look per millisecond, if time passes while it sleeps. It
  -- answers whether the model is resident in the fleet as it then is, and answers that it is not
  -- only when the time is over.
  pub wait_until_resident_answers :
      (node_id : Option Text) (model : Text) (timeout_ms : ℕ) (w : W)
      → (r : Bool × ℕ × W) × (wait_until_resident fleet node_id model timeout_ms w ≡ some r)
        × Answered node_id model (fleet.clock w + timeout_ms) r
  unfolding wait_until_resident
  wait_until_resident_answers node_id model timeout_ms w =
      poll_answers timeout_ms node_id model (fleet.clock w) (fleet.clock w + timeout_ms) w
        (omega arith)
