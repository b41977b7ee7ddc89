-- ===== src/Common/Cstdlib.antt =====
-- `strtol`, `strtoul` and `strtoll` of C's <stdlib.h> with 64-bit `long`, and the decimal and
-- hexadecimal conversions of `printf`. A signed result is its 64-bit pattern.
pub mod Digits
pub mod Plain
pub mod Signed
use Prim.Native.Nat.{ℕ, zero, suc, ◌+◌, ◌-◌, ◌*◌, ◌/◌, ◌%◌, ◌^◌}
use mathlib.Core.Bool.{Bool, true, false, ◌&&◌, ◌||◌}
use mathlib.Core.Option.{Option, none, some}
use mathlib.Core.List.{[], ◌∷◌, ◌++◌}
use ua_rate_throttling.Common.Tests.{ltb, ◌==◌, if◌then◌else◌}
use ua_rate_throttling.Common.Lists.{Bytes, codes, get_or}
use ua_rate_throttling.Common.Ctype.{isdigit, isspace, isupper, islower}

-- The value of a digit in any base up to 36; 36 for a byte that is no digit.
unfoldable pub digit_value : ℕ → ℕ
unfolding isdigit islower isupper
digit_value c =
    if isdigit c
    then c - b'0'
    else if islower c
    then c - b'a' + 10
    else if isupper c
    then c - b'A' + 10
    else 36

-- The number that the longest run of digits at the front spells, behind `acc`.
unfoldable pub scan_digits : ℕ → Bytes → ℕ → ℕ
unfolding digit_value
scan_digits base [] acc = acc
scan_digits base (c ∷ s) acc =
    let rest = scan_digits base s (acc * base + digit_value c) in
    if ltb (digit_value c) base then rest else acc

unfoldable pub skip_space : Bytes → Bytes
unfolding isspace
skip_space [] = []
skip_space (c ∷ s) = if isspace c then skip_space s else c ∷ s

-- Whether a minus sign stands there, and what comes behind the sign.
unfoldable pub take_sign : Bytes → Bool × Bytes
take_sign [] = (false, [])
take_sign (c ∷ s) =
    if c == b'-' then (true, s) else if c == b'+' then (false, s) else (false, c ∷ s)

-- In base 16 a `0x` may stand before the digits.
unfoldable pub skip_prefix : ℕ → Bytes → Bytes
skip_prefix base (z ∷ x ∷ s) =
    if base == 16 && z == b'0' && (x == b'x' || x == b'X') then s else z ∷ x ∷ s
skip_prefix base s = s

-- The sign and the magnitude, which no width bounds yet.
unfoldable pub scan_number : ℕ → Bytes → Bool × ℕ
unfolding scan_digits skip_space take_sign skip_prefix
scan_number base s =
    let (minus, rest) = take_sign (skip_space s) in
    (minus, scan_digits base (skip_prefix base rest) 0)

saturate_unsigned : Bool × ℕ → ℕ
saturate_unsigned (minus, m) =
    if ltb (2 ^ 64 - 1) m then 2 ^ 64 - 1 else if minus then (2 ^ 64 - m) % 2 ^ 64 else m

saturate_signed : Bool × ℕ → ℕ
saturate_signed (true, m) = if ltb (2 ^ 63) m then 2 ^ 63 else (2 ^ 64 - m) % 2 ^ 64
saturate_signed (false, m) = if ltb (2 ^ 63 - 1) m then 2 ^ 63 - 1 else m

unfoldable pub strtoul : Bytes → ℕ → ℕ
unfolding scan_number saturate_unsigned
strtoul s base = saturate_unsigned (scan_number base s)

-- `strtol`, and `strtoll`, which has the same width.
unfoldable pub strtol : Bytes → ℕ → ℕ
unfolding scan_number saturate_signed
strtol s base = saturate_signed (scan_number base s)

-- `a < b` of two signed 64-bit patterns.
unfoldable pub signed_ltb : ℕ → ℕ → Bool
signed_ltb a b = ltb ((a + 2 ^ 63) % 2 ^ 64) ((b + 2 ^ 63) % 2 ^ 64)

-- The last `width` digits of `n` in a base, each written by `digit`.
unfoldable pub radix_digits : ℕ → (ℕ → ℕ) → ℕ → ℕ → Bytes
radix_digits base digit zero n = []
radix_digits base digit (suc width) n =
    radix_digits base digit width (n / base) ++ digit (n % base) ∷ []

abbrev pub hex_digit : ℕ → ℕ
hex_digit d = get_or (codes "0123456789ABCDEF") d 0

-- `%08X` of a value below 16 ^ 8 at width 8, and so on.
unfoldable pub hex_digits : ℕ → ℕ → Bytes
unfolding radix_digits
hex_digits = radix_digits 16 hex_digit

unfoldable pub decimal_digits : ℕ → ℕ → Bytes
unfolding radix_digits
decimal_digits = radix_digits 10 (λ d. b'0' + d)

-- How many decimal digits `%lu` writes, of at most `fuel`.
unfoldable pub decimal_width : ℕ → ℕ → ℕ
decimal_width zero n = 1
decimal_width (suc fuel) n =
    let more = suc (decimal_width fuel (n / 10)) in if ltb n 10 then 1 else more

-- `%lu` of a 64-bit value, which has at most 20 digits.
unfoldable pub print_ulong : ℕ → Bytes
unfolding decimal_width decimal_digits
print_ulong n = decimal_digits (decimal_width 19 n) n
