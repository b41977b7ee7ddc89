-- ===== src/Tests/Listing.antt =====
-- Listing the numbers that pass a test, as ZooKeeper lists the tasks that are there.
use ua_rate_throttling.Common.{
  ℕ, zero, suc, ◌+◌, ◌≤◌, ◌<◌, ◌≡◌, refl, sym, ap, ◌∙◌, subst, Bool, false, ◌==◌, List, [], ◌∷◌,
  All, arith, if◌then◌else◌, Bool-cases, inl, inr,
}
use ua_rate_throttling.Queue.InOrder.{Increasing}
use ua_rate_throttling.System.Libraries.{mem}

-- The numbers from one on, as many as are counted, that pass.
pub picked : ℕ → ℕ → (ℕ → Bool) → List ℕ
picked k zero f = []
picked k (suc c) f = let rest = picked (k + 1) c f in if f k then k ∷ rest else rest

not-mem-above : (k : ℕ) (ns : List ℕ) → All (λ n. k + 1 ≤ n) ns → mem k ns ≡ false
not-mem-above k [] h = refl
not-mem-above k (n ∷ ns) h = ground (arith, h.0, not-mem-above k ns h.1)

All-above : (k m : ℕ) (ns : List ℕ) → k ≤ m + 1 → All (λ n. m < n) ns → All (λ n. k ≤ n) ns
All-above k m [] h above = tt
All-above k m (n ∷ ns) h above = (omega (arith, above.0, h), All-above k m ns h above.1)

pub All-from_zero : (ns : List ℕ) → All (λ n. 0 ≤ n) ns
All-from_zero [] = tt
All-from_zero (n ∷ ns) = (omega arith, All-from_zero ns)

pub picked-mem :
    (k c : ℕ) (f : ℕ → Bool) (ns : List ℕ)
    → Increasing ns
    → All (λ n. k ≤ n) ns
    → All (λ n. n < k + c) ns
    → ((n : ℕ) → k ≤ n → n < k + c → f n ≡ mem n ns)
    → picked k c f ≡ ns
unfolding picked
picked-mem k zero f [] up from to h = refl
picked-mem k zero f (n ∷ ns) up from to h = absurd (omega (arith, from.0, to.0))
picked-mem k (suc c) f [] up from to h =
    rw (h k (omega arith) (omega arith))
      (picked-mem (k + 1) c f [] tt tt tt (λ n a b. h n (omega (arith, a)) (omega (arith, b))))
picked-mem k (suc c) f (n ∷ ns) up from to h =
    let up_to : All (λ n. n < k + 1 + c) (n ∷ ns) =
      subst (λ b. All (λ n. n < b) (n ∷ ns)) (omega arith) to in
    elim (Bool-cases (n == k)) [
      | inl equal ↦
          let e : n ≡ k = ground arith in
          let rest : picked (k + 1) c f ≡ ns =
            picked-mem (k + 1) c f ns up.1 (All-above (k + 1) n ns (omega arith) up.0) up_to.1
              (λ m a b. h m (omega (arith, a)) (omega (arith, b)) ∙ ground arith) in
          rw (h k (omega arith) (omega arith), equal, rest) (ap (λ m. m ∷ ns) (sym e))
      | inr other ↦
          let above : k < n = ground (arith, from.0) in
          let passed : f k ≡ false =
            h k (omega arith) (omega arith)
            ∙ not-mem-above k (n ∷ ns)
                (omega (arith, above), All-above (k + 1) n ns (omega arith) up.0) in
          rw passed (
            picked-mem (k + 1) c f (n ∷ ns) up
              (omega (arith, above), All-above (k + 1) n ns (omega arith) up.0) up_to
              (λ m a b. h m (omega (arith, a)) (omega (arith, b))))
    ]
