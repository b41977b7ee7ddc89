-- ===== src/Common/Ranges.antt =====
-- A statement about every byte, checked by evaluation.
use Prim.Native.Nat.{ℕ, zero, suc, ◌+◌, ◌≤◌, ◌<◌}
use mathlib.Core.Path.{◌≡◌}
use mathlib.Core.Bool.{Bool, true, ◌&&◌}
use native.Mathlib.Omega.{arith}

-- A test holds of `start` and of the `count` numbers from it on.
table : ℕ → ℕ → (ℕ → Bool) → Bool
table start zero test = true
table start (suc count) test = test start && table (start + 1) count test

table_sound :
    (start count : ℕ) (test : ℕ → Bool) (n : ℕ)
    → start ≤ n
    → n < start + count
    → table start count test ≡ true
    → test n ≡ true
unfolding table
table_sound start zero test n low high holds = absurd (omega arith)
table_sound start (suc count) test n low high holds =
    ground (arith, table_sound (start + 1) count test n)

unfoldable pub all_below : ℕ → (ℕ → Bool) → Bool
unfolding table
all_below bound test = table 0 bound test

pub all_below_sound :
    (bound : ℕ) (test : ℕ → Bool) (n : ℕ) → all_below bound test ≡ true → n < bound → test n ≡ true
unfolding all_below
all_below_sound bound test n holds small =
    table_sound 0 bound test n (omega arith) (omega arith) holds
