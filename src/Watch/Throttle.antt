-- ===== src/Watch/Throttle.antt =====
-- The throttle of the server: its wait for a service level.
use ua_rate_throttling.Common.{
  ℕ, zero, suc, ◌+◌, ◌<◌, ◌≡◌, ◌≢◌, refl, ap, ◌∙◌, Option-cases, inl, inr, true, false, none, some,
  [], ℤ, arith,
}
use ua_rate_throttling.Zoo.{child}
use ua_rate_throttling.Watch.{Server, Event, is_unhealthy, wait_healthy, queue_watcher}

module _ (level : ℕ → ℤ) where
  -- The reading `i`, by another name of its number.
  reading : (i j : ℕ) → i ≡ j → is_unhealthy (level i) ≡ is_unhealthy (level j)
  reading i j e = ap (λ k. is_unhealthy (level k)) e

  wait_healthy_first :
      (fuel n k : ℕ)
      → ((j : ℕ) → j < k → is_unhealthy (level (n + j)) ≡ true)
      → is_unhealthy (level (n + k)) ≡ false
      → k < fuel
      → wait_healthy fuel level n ≡ some (n + k + 1)
  unfolding wait_healthy
  wait_healthy_first zero n k before healthy h = absurd (omega arith)
  wait_healthy_first (suc fuel) n zero before healthy h =
      let now : is_unhealthy (level n) ≡ false = reading n (n + 0) (omega arith) ∙ healthy in
      rw now (ap some (omega arith))
  wait_healthy_first (suc fuel) n (suc k) before healthy h =
      let now : is_unhealthy (level n) ≡ true =
        reading n (n + 0) (omega arith) ∙ before 0 (omega arith) in
      rw now (
        wait_healthy_first fuel (n + 1) k
          (λ j lt. reading (n + 1 + j) (n + suc j) (omega arith) ∙ before (suc j) (omega arith))
          (reading (n + 1 + k) (n + suc k) (omega arith) ∙ healthy) (omega arith)
        ∙ ap some (omega arith))

  wait_healthy_never :
      (fuel n : ℕ)
      → ((j : ℕ) → j < fuel → is_unhealthy (level (n + j)) ≡ true)
      → wait_healthy fuel level n ≡ none
  unfolding wait_healthy
  wait_healthy_never zero n before = refl
  wait_healthy_never (suc fuel) n before =
      let now : is_unhealthy (level n) ≡ true =
        reading n (n + 0) (omega arith) ∙ before 0 (omega arith) in
      rw now (
        wait_healthy_never fuel (n + 1)
          (λ j lt. reading (n + 1 + j) (n + suc j) (omega arith) ∙ before (suc j) (omega arith)))

-- When a child of the queue was created or deleted, the server lists its queue, once and with a new
-- watch, as soon as a reading `k` of its service level is at least 200, and changes nothing else.
pub queue_watcher_lists :
    (e : Event) (fuel : ℕ) (level : ℕ → ℤ) (s : Server)
    → e.kind ≡ child
    → e.path ≢ []
    → (k : ℕ) → ((j : ℕ) → j < k → is_unhealthy (level j) ≡ true)
    → is_unhealthy (level k) ≡ false
    → k < fuel
    → queue_watcher e fuel level s ≡ some (record s { listings = s.listings + 1 })
unfolding queue_watcher
queue_watcher_lists e fuel level s is_child has_path k before healthy h =
    let w : wait_healthy fuel level 0 ≡ some (0 + k + 1) =
      wait_healthy_first level fuel 0 k
        (λ j lt. reading level (0 + j) j (omega arith) ∙ before j lt)
        (reading level (0 + k) k (omega arith) ∙ healthy) h in
    ground (arith, w)

-- While no reading of its service level is at least 200, the server does not get past the loop and
-- lists no task, however many readings it takes.
pub queue_watcher_waits :
    (e : Event) (fuel : ℕ) (level : ℕ → ℤ) (s : Server)
    → e.kind ≡ child
    → e.path ≢ []
    → ((j : ℕ) → j < fuel → is_unhealthy (level j) ≡ true)
    → queue_watcher e fuel level s ≡ none
unfolding queue_watcher
queue_watcher_waits e fuel level s is_child has_path before =
    let w : wait_healthy fuel level 0 ≡ none =
      wait_healthy_never level fuel 0
        (λ j lt. reading level (0 + j) j (omega arith) ∙ before j lt) in
    ground (arith, w)

-- What the watcher has done behind a child event: it has listed the queue once.
pub queue_watcher_asks :
    (e : Event) (fuel : ℕ) (level : ℕ → ℤ) (s s' : Server)
    → e.kind ≡ child
    → e.path ≢ []
    → queue_watcher e fuel level s ≡ some s'
    → s'.listings ≡ s.listings + 1
unfolding queue_watcher
queue_watcher_asks e fuel level s s' is_child has_path ran =
    elim (Option-cases (wait_healthy fuel level 0)) [
      | inl stuck ↦ absurd (ground (arith, ran, stuck))
      | inr (reads, done) ↦ ground (arith, ran, done)
    ]
