-- ===== src/Printer/Lines.antt =====
-- Where a separator stands in no text before it, it tells where that text ends.
use mathlib.Core.Path.{ap₂}
use ua_rate_throttling.Common.{ℕ, ◌≡◌, refl, [], ◌∷◌, ◌++◌, Bytes, All, arith}
use ua_rate_throttling.Common.Cstdlib.Signed.{IsApart}

pub split_at :
    (c : ℕ) (a b r s : Bytes)
    → All (IsApart c) a
    → All (IsApart c) b
    → a ++ c ∷ r ≡ b ++ c ∷ s
    → (a ≡ b) × (r ≡ s)
split_at c [] [] r s ha hb e = (refl, cc e)
split_at c [] (y ∷ b) r s ha hb e = let first : c ≡ y = cc e in absurd (ground (arith, hb.0, first))
split_at c (x ∷ a) [] r s ha hb e = let first : x ≡ c = cc e in absurd (ground (arith, ha.0, first))
split_at c (x ∷ a) (y ∷ b) r s ha hb e =
    let (rest, behind) = split_at c a b r s ha.1 hb.1 (cc e) in
    let first : x ≡ y = cc e in (ap₂ (λ z t. z ∷ t) first rest, behind)
