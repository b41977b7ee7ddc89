-- ===== src/Common/Cstdlib/Digits.antt =====
-- Scanning what was printed gives the number back.
use Prim.Native.Nat.{ℕ, zero, suc, ◌+◌, ◌*◌, ◌/◌, ◌%◌, ◌^◌, ◌<◌}
use mathlib.Core.Path.{◌≡◌, refl, ◌∙◌, ap}
use mathlib.Core.Bool.{true}
use mathlib.Core.List.{◌∷◌, ◌++◌, append_assoc}
use native.Mathlib.Omega.{arith}
use native.Mathlib.Nat.{
  mod-lt, div-lt_iff_lt-mul, div-add-mod', pow-suc, add-mul, mul_assoc, pow-zero,
}
use mathlib.Core.Logic.{inl, inr}
use ua_rate_throttling.Common.Tests.{ltb, ◌==◌, Bool-cases}
use ua_rate_throttling.Common.Lists.{Bytes}
use ua_rate_throttling.Common.Ranges.{all_below, all_below_sound}
use ua_rate_throttling.Common.Cstdlib.{
  digit_value, scan_digits, hex_digits, decimal_digits, decimal_width, print_ulong, radix_digits,
  hex_digit,
}

hex_table : all_below 16 (λ d. digit_value (hex_digit d) == d) ≡ true
unfolding all_below digit_value
hex_table = refl

digit_value_hex : (d : ℕ) → d < 16 → digit_value (hex_digit d) ≡ d
digit_value_hex d h = let e = all_below_sound 16 _ d hex_table h in ground arith

digit_value_decimal : (d : ℕ) → d < 10 → digit_value (b'0' + d) ≡ d
unfolding digit_value
digit_value_decimal d h = ground arith

-- The scan of a digit and what stands behind it.
pub scan_digits_step :
    (base c : ℕ) (s : Bytes) (acc : ℕ)
    → digit_value c < base
    → scan_digits base (c ∷ s) acc ≡ scan_digits base s (acc * base + digit_value c)
unfolding scan_digits
scan_digits_step base c s acc h = ground arith

module _ (base : ℕ) (digit : ℕ → ℕ) (pos : 0 < base)
    (reads : (d : ℕ) → d < base → digit_value (digit d) ≡ d) where
  scan-last_digit :
      (n : ℕ) (rest : Bytes) (acc : ℕ)
      → scan_digits base (digit (n % base) ∷ rest) acc
        ≡ scan_digits base rest (acc * base + n % base)
  scan-last_digit n rest acc =
      let e = reads (n % base) (mod-lt n pos) in
      scan_digits_step base (digit (n % base)) rest acc (rw e (mod-lt n pos)) ∙ (rw e)

  scan-radix_digits :
      (width n : ℕ) (rest : Bytes) (acc : ℕ)
      → n < base ^ width
      → scan_digits base (radix_digits base digit width n ++ rest) acc
        ≡ scan_digits base rest (acc * base ^ width + n)
  unfolding radix_digits
  scan-radix_digits zero n rest acc h =
      let p : base ^ 0 ≡ 1 = pow-zero base in
      let e : acc * base ^ 0 + n ≡ acc = rw p (omega arith) in rw e
  scan-radix_digits (suc width) n rest acc h =
      let below : n / base < base ^ width =
        (div-lt_iff_lt-mul pos).1 (rw (← pow-suc base width) h) in
      let sum : (acc * base ^ width + n / base) * base + n % base ≡ acc * base ^ suc width + n =
        rw (pow-suc base width, add-mul, mul_assoc) (omega (arith, div-add-mod' n base)) in
      rw append_assoc (
        scan-radix_digits width (n / base) (digit (n % base) ∷ rest) acc below
        ∙ scan-last_digit n rest (acc * base ^ width + n / base)
        ∙ (rw sum))

pub scan-hex_digits :
    (width n : ℕ) (rest : Bytes) (acc : ℕ)
    → n < 16 ^ width
    → scan_digits 16 (hex_digits width n ++ rest) acc ≡ scan_digits 16 rest (acc * 16 ^ width + n)
unfolding hex_digits
scan-hex_digits = scan-radix_digits 16 hex_digit (omega arith) digit_value_hex

pub scan-decimal_digits :
    (width n : ℕ) (rest : Bytes) (acc : ℕ)
    → n < 10 ^ width
    → scan_digits 10 (decimal_digits width n ++ rest) acc
      ≡ scan_digits 10 rest (acc * 10 ^ width + n)
unfolding decimal_digits
scan-decimal_digits = scan-radix_digits 10 (λ d. b'0' + d) (omega arith) digit_value_decimal

scan-decimal_zero :
    (width n : ℕ) (rest : Bytes)
    → n < 10 ^ width
    → scan_digits 10 (decimal_digits width n ++ rest) 0 ≡ scan_digits 10 rest n
scan-decimal_zero width n rest h =
    scan-decimal_digits width n rest 0 h ∙ ap (λ m. scan_digits 10 rest m) (omega arith)

-- A number has no more digits than `decimal_width` counts, while the fuel lasts.
lt-decimal_width : (fuel n : ℕ) → n < 10 ^ suc fuel → n < 10 ^ decimal_width fuel n
unfolding decimal_width
lt-decimal_width zero n h = h
lt-decimal_width (suc fuel) n h = elim (Bool-cases (ltb n 10)) [
  | inl small ↦ rw small (ground arith)
  | inr large ↦ rw large (
      omega (
        arith,
        pow-suc 10 (decimal_width fuel (n / 10)),
        lt-decimal_width fuel (n / 10) (omega (arith, pow-suc 10 (suc fuel))),
      ))
]

-- Scanning the decimal print of a 64-bit value gives the value.
pub scan-print_ulong :
    (n : ℕ) (rest : Bytes)
    → n < 2 ^ 64
    → scan_digits 10 (print_ulong n ++ rest) 0 ≡ scan_digits 10 rest n
unfolding print_ulong
scan-print_ulong n rest h =
    scan-decimal_zero (decimal_width 19 n) n rest (lt-decimal_width 19 n (omega arith))
