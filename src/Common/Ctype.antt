-- ===== src/Common/Ctype.antt =====
-- The character tests of C's <ctype.h> in the "C" locale, on a byte: no byte from 128 on is a letter
-- or a digit, and `tolower` leaves those bytes alone.
use Prim.Native.Nat.{ℕ, ◌+◌}
use mathlib.Core.Bool.{Bool, ◌&&◌, ◌||◌}
use ua_rate_throttling.Common.Tests.{leb, ◌==◌, if◌then◌else◌}

unfoldable pub isdigit : ℕ → Bool
isdigit c = leb b'0' c && leb c b'9'

unfoldable pub isupper : ℕ → Bool
isupper c = leb b'A' c && leb c b'Z'

unfoldable pub islower : ℕ → Bool
islower c = leb b'a' c && leb c b'z'

unfoldable pub isalnum : ℕ → Bool
unfolding isdigit isupper islower
isalnum c = isdigit c || isupper c || islower c

unfoldable pub isspace : ℕ → Bool
isspace c = c == b' ' || leb 9 c && leb c 13

unfoldable pub tolower : ℕ → ℕ
unfolding isupper
tolower c = if isupper c then c + 32 else c
