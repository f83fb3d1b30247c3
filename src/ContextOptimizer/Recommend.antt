-- ===== src/ContextOptimizer/Recommend.antt =====
-- The recommended context length (src/fleet_manager/server/context_optimizer.py).
use ollama_herd.Common.{
  ℕ, zero, suc, ◌+◌, ◌*◌, ◌/◌, ◌<◌, ◌≤◌, ◌≡◌, ◌⊎◌, refl, ◌∙◌, false, ◌&&◌, leb, ◌==◌, max, arith,
  Bool-cases, inl, inr,
}
use ollama_herd.ContextOptimizer.{double_until, next_power_of_2, compute_recommended_ctx}

-- Doubling `k` times.
unfoldable pub doubled : ℕ → ℕ → ℕ
doubled zero p = p
doubled (suc k) p = doubled k (2 * p)

-- With enough fuel, the doubling ends at the first power that is at least `n`.
double_until_lem :
    (fuel p n : ℕ)
    → 0 < p
    → n ≤ p + fuel
    → (n ≤ double_until fuel p n) × ((double_until fuel p n ≡ p) ⊎ (double_until fuel p n < 2 * n))
unfolding double_until
double_until_lem zero p n positive enough = (omega arith, inl refl)
double_until_lem (suc fuel) p n positive enough =
    let later = double_until_lem fuel (2 * p) n (omega arith) in
    elim (Bool-cases (leb n p)) [
      | inl there ↦ rw there (ground arith, inl refl)
      | inr short ↦
          let low : p < n = ground arith in
          let rest = later (omega arith) in
          rw short (rest.0, inr (elim rest.1 [ inl first ↦ omega arith | inr less ↦ less ]))
    ]

double_until-doubled : (fuel p n : ℕ) → (k : ℕ) × (double_until fuel p n ≡ doubled k p)
unfolding double_until doubled
double_until-doubled zero p n = (zero, refl)
double_until-doubled (suc fuel) p n =
    let (k, e) = double_until-doubled fuel (2 * p) n in
    elim (Bool-cases (leb n p)) [
      | inl there ↦ (zero, rw there refl)
      | inr short ↦ (suc k, rw short e)
    ]

-- The least power of two that is at least a positive number.
next_power_of_2_lem :
    (n : ℕ)
    → 0 < n
    → (n ≤ next_power_of_2 n)
      × (next_power_of_2 n < 2 * n)
      × ((k : ℕ) × (next_power_of_2 n ≡ doubled k 1))
unfolding next_power_of_2
next_power_of_2_lem zero h = elim (absurd h) [ ]
  where
    absurd : 0 < 0 → ⊥
    absurd h = omega arith
next_power_of_2_lem (suc n) h =
    let (above, below) = double_until_lem (suc n) 1 (suc n) (omega arith) (omega arith) in
    (
      above,
      elim below [ inl one ↦ omega arith | inr less ↦ less ],
      double_until-doubled (suc n) 1 (suc n),
    )

some_tokens : (p m : ℕ) → 0 < max p m → p == 0 && m == 0 ≡ false
some_tokens p m h = ground arith

-- Where any tokens were seen, the recommended context holds half as much again as the larger of the
-- two measures, and is either the minimum or a power of two that is less than twice that need.
pub compute_recommended_ctx_bounds :
    (total_p99 max_total_24h min_ctx : ℕ)
    → 0 < max total_p99 max_total_24h
    → (min_ctx ≤ compute_recommended_ctx total_p99 max_total_24h min_ctx)
      × (max total_p99 max_total_24h * 3 / 2
          ≤ compute_recommended_ctx total_p99 max_total_24h min_ctx)
      × ((compute_recommended_ctx total_p99 max_total_24h min_ctx ≡ min_ctx)
          ⊎ ((compute_recommended_ctx total_p99 max_total_24h min_ctx
                < 2 * (max total_p99 max_total_24h * 3 / 2))
              × ((k : ℕ) × (compute_recommended_ctx total_p99 max_total_24h min_ctx
                    ≡ doubled k 1))))
unfolding compute_recommended_ctx
compute_recommended_ctx_bounds p m low positive =
    let (above, below, power) = next_power_of_2_lem (max p m * 3 / 2) (omega arith) in
    rw (some_tokens p m positive) (
      omega arith,
      omega arith,
      elim (Bool-cases (leb (next_power_of_2 (max p m * 3 / 2)) low)) [
        | inl small ↦ inl (ground arith)
        | inr big ↦
            let largest : max low (next_power_of_2 (max p m * 3 / 2))
                ≡ next_power_of_2 (max p m * 3 / 2) =
              ground arith in
            inr (omega arith, (power.0, largest ∙ power.1))
      ],
    )
