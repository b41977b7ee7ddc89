-- ===== src/Common/Cstdlib/Signed.antt =====
-- The signed decimal conversions of `printf`, `%d` and `%ld`.
use ua_rate_throttling.Common.Tests.{ltb, if◌then◌else◌, Bool-cases}
use Prim.Native.Nat.{ℕ, ◌-◌, ◌^◌, ◌<◌}
use mathlib.Core.Path.{◌≡◌, sym, ap, ◌∙◌}
use mathlib.Core.Bool.{false}
use mathlib.Core.Logic.{◌≢◌, inl, inr}
use mathlib.Core.List.{[], ◌∷◌, append-nil}
use native.Mathlib.Omega.{arith}
use ua_rate_throttling.Common.Lists.{Bytes, All}
use ua_rate_throttling.Common.Cstdlib.{
  print_ulong, scan_digits, scan_number, skip_space, take_sign, skip_prefix, saturate_signed,
  strtol,
}
use ua_rate_throttling.Common.Cstdlib.Digits.{scan-print_ulong}
use ua_rate_throttling.Common.Cstdlib.Plain.{
  is_plain, IsPlain, skip_prefix-IsPlain, print_ulong-IsPlain, strtol-print_ulong,
}

-- `%ld` and `%lld` of a 64-bit pattern.
unfoldable pub print_long : ℕ → Bytes
print_long n = if ltb n (2 ^ 63) then print_ulong n else b'-' ∷ print_ulong (2 ^ 64 - n)

-- `%d` of a 32-bit pattern.
unfoldable pub print_int : ℕ → Bytes
print_int n = if ltb n (2 ^ 31) then print_ulong n else b'-' ∷ print_ulong (2 ^ 32 - n)

scan-whole : (m : ℕ) → m < 2 ^ 64 → scan_digits 10 (print_ulong m) 0 ≡ m
unfolding scan_digits
scan-whole m h =
    ap (λ s. scan_digits 10 s 0) (sym (append-nil (print_ulong m))) ∙ scan-print_ulong m [] h

-- `strtol` undoes `%ld`.
pub strtol-print_long : (n : ℕ) → n < 2 ^ 64 → strtol (print_long n) 10 ≡ n
unfolding print_long strtol scan_number skip_space take_sign skip_prefix saturate_signed
strtol-print_long n h = elim (Bool-cases (ltb n (2 ^ 63))) [
  | inl small ↦ rw small (strtol-print_ulong n (ground arith))
  | inr large ↦
      let m = 2 ^ 64 - n in
      let digits : skip_prefix 10 (print_ulong m) ≡ print_ulong m =
        skip_prefix-IsPlain 10 (print_ulong m) (print_ulong-IsPlain m) in
      rw (large, digits, scan-whole m (ground arith)) (ground arith)
]

-- A character that a text is to be without.
abbrev pub IsApart : ℕ → ℕ → Type 0
IsApart c b = b ≢ c

IsPlain-IsApart : (c : ℕ) (s : Bytes) → is_plain c ≡ false → All IsPlain s → All (IsApart c) s
IsPlain-IsApart c [] h plain = tt
IsPlain-IsApart c (b ∷ s) h plain =
    (λ e. cc (plain.0, h, ap is_plain e), IsPlain-IsApart c s h plain.1)

-- Nothing but digits and a sign stands in a number.
pub print_long-IsApart : (c n : ℕ) → is_plain c ≡ false → b'-' ≢ c → All (IsApart c) (print_long n)
unfolding print_long
print_long-IsApart c n h sign = elim (Bool-cases (ltb n (2 ^ 63))) [
  | inl small ↦ rw small (IsPlain-IsApart c (print_ulong n) h (print_ulong-IsPlain n))
  | inr large ↦ rw large (sign, IsPlain-IsApart c _ h (print_ulong-IsPlain (2 ^ 64 - n)))
]
