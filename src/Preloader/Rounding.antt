-- ===== src/Preloader/Rounding.antt =====
-- Quotients of costs that are rounded up (src/fleet_manager/server/model_preloader.py).
use ollama_herd.Common.{ℕ, zero, suc, ◌+◌, ◌-◌, ◌*◌, ◌/◌, ◌≤◌, ◌<◌, ◌≡◌, ◌↔◌, refl, ◌∙◌, ap, arith}
use native.Mathlib.Nat.{mul-add-div_right, div-eq_of_lt, le-div_iff_mul-le}
use ollama_herd.Preloader.Sizing.{div_up}

pub div_up_exact : (a b : ℕ) → 0 < b → div_up (a * b) b ≡ a
div_up_exact a b pos =
    mul-add-div_right pos a (b - 1) ∙ (ap (λ x. a + x) (div-eq_of_lt below) ∙ omega arith)
  where
    below : b - 1 < b
    below = omega (arith, pos)

-- From GB to MB for each token, and back.
pub converted : (kv n : ℕ) → kv * 1024 * n ≡ kv * (n * 1024)
converted kv n = omega arith

-- A rounded cost compares with a whole size as the cost itself does.
pub lt-div_up : (x a b : ℕ) → 0 < b → (x < div_up a b) ↔ (x * b < a)
lt-div_up x a b pos =
    let both : (suc x ≤ (a + (b - 1)) / b) ↔ (suc x * b ≤ a + (b - 1)) = le-div_iff_mul-le pos in
    let one_more : suc x * b ≡ x * b + b = omega arith in
    (λ h. omega (arith, both.0 h, one_more, pos), λ h. both.1 (omega (arith, h, one_more, pos)))

-- A cost is the same in GB and in MB.
pub div_up-1024 : (a b : ℕ) → 0 < b → div_up (a * 1024) (b * 1024) ≡ div_up a b
div_up-1024 a b pos =
    let many : 0 < b * 1024 = omega (arith, pos) in
    equal (div_up (a * 1024) (b * 1024)) (div_up a b)
      (λ x h.
        let less : x * (b * 1024) < a * 1024 = (lt-div_up x (a * 1024) (b * 1024) many).0 h in
        (lt-div_up x a b pos).1 (omega (arith, less, scaled x)))
      (λ x h.
        let less : x * b < a = (lt-div_up x a b pos).0 h in
        (lt-div_up x (a * 1024) (b * 1024) many).1 (omega (arith, less, scaled x)))
  where
    scaled : (x : ℕ) → x * (b * 1024) ≡ x * b * 1024
    scaled x = omega arith

    equal : (m n : ℕ) → ((x : ℕ) → x < m → x < n) → ((x : ℕ) → x < n → x < m) → m ≡ n
    equal zero zero f g = refl
    equal zero (suc n) f g = omega (arith, g n (omega arith))
    equal (suc m) zero f g = omega (arith, f m (omega arith))
    equal (suc m) (suc n) f g = omega (arith, f m (omega arith), g n (omega arith))
