-- ===== src/Url/Decimal.antt =====
-- `str(n)` and `int(s)` on numbers without a sign.
use ollama_herd.Common.{
  ℕ, zero, suc, ◌+◌, ◌-◌, ◌*◌, ◌/◌, ◌%◌, ◌<◌, ◌≡◌, refl, Bool, true, false, ◌&&◌, [], ◌∷◌, arith,
  Text, ltb, leb, if◌then◌else◌, Bool-cases, inl, inr, all, Option, none, some, is_empty,
}

-- The digits of `n`, put before `acc`. The fuel falls with `n`, so `n + 1` rounds are enough.
print_digits : ℕ → ℕ → Text → Text
print_digits zero n acc = acc
print_digits (suc f) n acc =
    let rest = print_digits f (n / 10) ((n % 10 + b'0') ∷ acc) in
    if ltb n 10 then (n + b'0') ∷ acc else rest

unfoldable pub decimal : ℕ → Text
unfolding print_digits
decimal n = print_digits (suc n) n []

abbrev pub is_digit : ℕ → Bool
is_digit c = leb b'0' c && leb c b'9'

unfoldable pub read_digits : ℕ → Text → ℕ
read_digits acc [] = acc
read_digits acc (c ∷ s) = read_digits (acc * 10 + (c - b'0')) s

-- `int(s)` where `s.isdigit() and s.isascii()`, and `none` elsewhere.
unfoldable pub parse_decimal : Text → Option ℕ
unfolding read_digits
parse_decimal s =
    if is_empty s then none else if all is_digit s then some (read_digits 0 s) else none

read-print_digits :
    (f n : ℕ) (acc : Text) → n < f → read_digits 0 (print_digits f n acc) ≡ read_digits n acc
unfolding print_digits read_digits
read-print_digits zero n acc h = elim h [ ]
read-print_digits (suc f) n acc h = elim (Bool-cases (ltb n 10)) [
  | inl small ↦ ground arith
  | inr large ↦ ground (arith, read-print_digits f (n / 10) ((n % 10 + b'0') ∷ acc))
]

all_digits-print_digits :
    (f n : ℕ) (acc : Text)
    → n < f
    → all is_digit acc ≡ true
    → all is_digit (print_digits f n acc) ≡ true
unfolding print_digits
all_digits-print_digits zero n acc h d = elim h [ ]
all_digits-print_digits (suc f) n acc h d = elim (Bool-cases (ltb n 10)) [
  | inl small ↦ ground arith
  | inr large ↦ ground (arith, all_digits-print_digits f (n / 10) ((n % 10 + b'0') ∷ acc))
]

print_digits_nonempty :
    (f n : ℕ) (acc : Text) → is_empty acc ≡ false → is_empty (print_digits f n acc) ≡ false
unfolding print_digits
print_digits_nonempty zero n acc h = h
print_digits_nonempty (suc f) n acc h =
    ground (arith, print_digits_nonempty f (n / 10) ((n % 10 + b'0') ∷ acc) refl)

pub decimal_nonempty : (n : ℕ) → is_empty (decimal n) ≡ false
unfolding decimal
decimal_nonempty n = ground (arith, print_digits_nonempty n (n / 10) ((n % 10 + b'0') ∷ []) refl)

pub all_digits-decimal : (n : ℕ) → all is_digit (decimal n) ≡ true
unfolding decimal
all_digits-decimal n = all_digits-print_digits (suc n) n [] (omega arith) refl

read_digits-decimal : (n : ℕ) → read_digits 0 (decimal n) ≡ n
unfolding decimal read_digits
read_digits-decimal n = read-print_digits (suc n) n [] (omega arith)

-- A printed number is read back.
pub parse_decimal-decimal : (n : ℕ) → parse_decimal (decimal n) ≡ some n
unfolding parse_decimal
parse_decimal-decimal n = rw (decimal_nonempty n, all_digits-decimal n, read_digits-decimal n) refl
