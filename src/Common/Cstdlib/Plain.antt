-- ===== src/Common/Cstdlib/Plain.antt =====
-- Text that is digits alone: no space, no sign and no prefix stands before the number.
use Prim.Native.Nat.{ℕ, zero, suc, ◌+◌, ◌*◌, ◌/◌, ◌%◌, ◌^◌, ◌<◌}
use mathlib.Core.Path.{◌≡◌, refl, ap, sym, ◌∙◌}
use mathlib.Core.Bool.{Bool, true, false, ◌&&◌, ◌||◌, not}
use mathlib.Core.List.{[], ◌∷◌, append-nil}
use native.Mathlib.Omega.{arith}
use native.Mathlib.Nat.{mod-lt}
use ua_rate_throttling.Common.Tests.{ltb, ◌==◌}
use ua_rate_throttling.Common.Lists.{Bytes, All, All-append}
use ua_rate_throttling.Common.Ranges.{all_below, all_below_sound}
use ua_rate_throttling.Common.Cstring.{NoNul}
use ua_rate_throttling.Common.Cstdlib.{
  scan_digits, skip_space, take_sign, skip_prefix, scan_number, saturate_unsigned, saturate_signed,
  strtoul, strtol, radix_digits, hex_digit, hex_digits, decimal_width, print_ulong, decimal_digits,
}
use ua_rate_throttling.Common.Cstdlib.Digits.{
  scan-hex_digits, scan-print_ulong, scan-decimal_digits,
}

-- Neither NUL, space, sign nor the letter of `0x`.
abbrev pub is_plain : ℕ → Bool
is_plain c =
    not (c == 0 || c == b' ' || c == b'-' || c == b'+' || c == b'x' || c == b'X' || c == b'/')
    && ltb 13 c
    && ltb c 128

abbrev pub IsPlain : ℕ → Type 0
IsPlain c = is_plain c ≡ true

skip_space-IsPlain : (s : Bytes) → All IsPlain s → skip_space s ≡ s
unfolding skip_space
skip_space-IsPlain [] h = refl
skip_space-IsPlain (c ∷ s) h = ground arith

take_sign-IsPlain : (s : Bytes) → All IsPlain s → take_sign s ≡ (false, s)
unfolding take_sign
take_sign-IsPlain [] h = refl
take_sign-IsPlain (c ∷ s) h = ground arith

pub skip_prefix-IsPlain : (base : ℕ) (s : Bytes) → All IsPlain s → skip_prefix base s ≡ s
unfolding skip_prefix
skip_prefix-IsPlain base [] h = refl
skip_prefix-IsPlain base (z ∷ []) h = refl
skip_prefix-IsPlain base (z ∷ x ∷ s) h = ground arith

pub scan_number-IsPlain :
    (base : ℕ) (s : Bytes) → All IsPlain s → scan_number base s ≡ (false, scan_digits base s 0)
unfolding scan_number
scan_number-IsPlain base s h =
    rw (skip_space-IsPlain s h, take_sign-IsPlain s h, skip_prefix-IsPlain base s h)

-- Where every digit is plain, a printed number is.
module _ (base : ℕ) (digit : ℕ → ℕ) (pos : 0 < base)
    (plain : (d : ℕ) → d < base → IsPlain (digit d)) where
  radix_digits-IsPlain : (width n : ℕ) → All IsPlain (radix_digits base digit width n)
  unfolding radix_digits
  radix_digits-IsPlain zero n = tt
  radix_digits-IsPlain (suc width) n =
      All-append IsPlain (radix_digits base digit width (n / base)) (digit (n % base) ∷ [])
        (radix_digits-IsPlain width (n / base)) (plain (n % base) (mod-lt n pos), tt)

hex_table : all_below 16 (λ d. is_plain (hex_digit d)) ≡ true
unfolding all_below
hex_table = refl

pub hex_digits-IsPlain : (width n : ℕ) → All IsPlain (hex_digits width n)
unfolding hex_digits
hex_digits-IsPlain =
    radix_digits-IsPlain 16 hex_digit (omega arith) (λ d h. all_below_sound 16 _ d hex_table h)

decimal_digit-IsPlain : (d : ℕ) → d < 10 → IsPlain (b'0' + d)
decimal_digit-IsPlain d h = ground arith

pub decimal_digits-IsPlain : (width n : ℕ) → All IsPlain (decimal_digits width n)
unfolding decimal_digits
decimal_digits-IsPlain = radix_digits-IsPlain 10 (λ d. b'0' + d) (omega arith) decimal_digit-IsPlain

pub print_ulong-IsPlain : (n : ℕ) → All IsPlain (print_ulong n)
unfolding print_ulong
print_ulong-IsPlain n = decimal_digits-IsPlain (decimal_width 19 n) n

scan_nil : (base m : ℕ) → scan_digits base [] m ≡ m
unfolding scan_digits
scan_nil base m = refl

saturate_unsigned-eq :
    (p : Bool × ℕ) (m : ℕ) → p ≡ (false, m) → m < 2 ^ 64 → saturate_unsigned p ≡ m
unfolding saturate_unsigned
saturate_unsigned-eq p m e h = rw e (ground arith)

saturate_signed-eq : (p : Bool × ℕ) (m : ℕ) → p ≡ (false, m) → m < 2 ^ 63 → saturate_signed p ≡ m
unfolding saturate_signed
saturate_signed-eq p m e h = rw e (ground arith)

-- `strtoul` and `strtol` of digits alone give the number that they spell.
pub strtoul-IsPlain :
    (base : ℕ) (s : Bytes) (m : ℕ)
    → All IsPlain s
    → scan_digits base s 0 ≡ m
    → m < 2 ^ 64
    → strtoul s base ≡ m
unfolding strtoul
strtoul-IsPlain base s m h e fits =
    saturate_unsigned-eq (scan_number base s) m
      (scan_number-IsPlain base s h ∙ ap (λ (k : ℕ). (false, k)) e) fits

pub strtol-IsPlain :
    (base : ℕ) (s : Bytes) (m : ℕ)
    → All IsPlain s
    → scan_digits base s 0 ≡ m
    → m < 2 ^ 63
    → strtol s base ≡ m
unfolding strtol
strtol-IsPlain base s m h e fits =
    saturate_signed-eq (scan_number base s) m
      (scan_number-IsPlain base s h ∙ ap (λ (k : ℕ). (false, k)) e) fits

-- `strtoul` undoes `%X`.
pub strtoul-hex_digits :
    (width n : ℕ) → n < 16 ^ width → n < 2 ^ 64 → strtoul (hex_digits width n) 16 ≡ n
strtoul-hex_digits width n h fits =
    strtoul-IsPlain 16 (hex_digits width n) n (hex_digits-IsPlain width n)
      (ap (λ s. scan_digits 16 s 0) (sym (append-nil (hex_digits width n)))
        ∙ scan-hex_digits width n [] 0 h
        ∙ scan_nil 16 (0 * 16 ^ width + n)
        ∙ omega arith)
      fits

-- `strtol` undoes `%lu` of a value that is no negative `long`.
pub strtol-print_ulong : (n : ℕ) → n < 2 ^ 63 → strtol (print_ulong n) 10 ≡ n
strtol-print_ulong n fits =
    strtol-IsPlain 10 (print_ulong n) n (print_ulong-IsPlain n)
      (ap (λ s. scan_digits 10 s 0) (sym (append-nil (print_ulong n)))
        ∙ scan-print_ulong n [] (omega arith)
        ∙ scan_nil 10 n)
      fits

-- `strtol` undoes a decimal print of fixed width.
pub strtol-decimal_digits :
    (width n : ℕ) → n < 10 ^ width → n < 2 ^ 63 → strtol (decimal_digits width n) 10 ≡ n
strtol-decimal_digits width n h fits =
    strtol-IsPlain 10 (decimal_digits width n) n (decimal_digits-IsPlain width n)
      (ap (λ s. scan_digits 10 s 0) (sym (append-nil (decimal_digits width n)))
        ∙ scan-decimal_digits width n [] 0 h
        ∙ scan_nil 10 (0 * 10 ^ width + n)
        ∙ omega arith)
      fits

pub IsPlain-NoNul : (s : Bytes) → All IsPlain s → NoNul s
IsPlain-NoNul [] h = tt
IsPlain-NoNul (c ∷ s) h = (ground arith, IsPlain-NoNul s h.1)
