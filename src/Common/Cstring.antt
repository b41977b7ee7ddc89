-- ===== src/Common/Cstring.antt =====
-- C strings: the bytes up to the terminator, and `snprintf` of a text that is known.
use Prim.Native.Nat.{ℕ, ◌-◌, ◌<◌}
use mathlib.Core.Path.{◌≡◌, refl}
use mathlib.Core.Logic.{◌≢◌}
use mathlib.Core.List.{[], ◌∷◌}
use mathlib.Core.Bool.{Bool, true, false, ◌&&◌}
use mathlib.Core.Option.{Option, none, some}
use native.Mathlib.Omega.{arith}
use ua_rate_throttling.Common.Tests.{◌==◌, if◌then◌else◌}
use ua_rate_throttling.Common.Lists.{Bytes, length, take, take-eq_of_le, All}

-- The C string that stands in a buffer: what comes before the first NUL.
unfoldable pub c_string : Bytes → Bytes
c_string [] = []
c_string (c ∷ s) = if c == 0 then [] else c ∷ c_string s

-- `snprintf(buf, size, ...)` with `size > 0`: at most `size - 1` bytes of the text, and the NUL.
unfoldable pub snprintf : ℕ → Bytes → Bytes
snprintf size text = take (size - 1) text

pub snprintf_fits : (size : ℕ) (text : Bytes) → length text < size → snprintf size text ≡ text
unfolding snprintf
snprintf_fits size text h = take-eq_of_le (size - 1) text (omega arith)

-- No byte of a C string is its terminator.
abbrev pub NoNul : Bytes → Type 0
NoNul = All (λ c. c ≢ 0)

pub c_string-eq_of_NoNul : (s : Bytes) → NoNul s → c_string s ≡ s
unfolding c_string
c_string-eq_of_NoNul [] h = refl
c_string-eq_of_NoNul (c ∷ s) h = ground (arith, c_string-eq_of_NoNul s)

-- Whether a text begins with a prefix.
unfoldable pub has_prefix : Bytes → Bytes → Bool
has_prefix text [] = true
has_prefix [] (p ∷ prefix) = false
has_prefix (c ∷ text) (p ∷ prefix) = c == p && has_prefix text prefix

-- `strstr`: the text from the first place on where the needle stands, or a null pointer.
unfoldable pub strstr : Bytes → Bytes → Option Bytes
unfolding has_prefix
strstr [] needle = if has_prefix [] needle then some [] else none
strstr (c ∷ text) needle =
    let later = strstr text needle in
    if has_prefix (c ∷ text) needle then some (c ∷ text) else later
