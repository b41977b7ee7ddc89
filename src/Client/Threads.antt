-- ===== src/Client/Threads.antt =====
-- The threads of `init_UA_client` of examples/zuthClient.c, which share the counter
-- `running_threads`, as steps between states.
use ua_rate_throttling.Common.{
  ℕ, suc, ◌+◌, ◌-◌, ◌≤◌, ◌<◌, Bool, ◌≡◌, arith, ◌*◌, true, false, ◌⊎◌, refl, inl, inr, ltb, zero,
  Bool-cases,
}

-- Where the main thread is: before the round `n` of the loop, behind the counting of its thread,
-- behind the loop, or behind the wait, where it disconnects and deletes the client.
pub data Main : Type 0 where
  starting : (n : ℕ) → Main
  counted : (n : ℕ) → Main
  waiting : Main
  deleting : Main

-- The counter, and the threads that have not counted themselves out and may use the client.
pub record Threads : Type 0 where
  pub main : Main
  pub running_threads : ℕ
  pub reading : ℕ

abbrev pub init_threads : Threads
init_threads = record { main = starting 0; running_threads = 0; reading = 0 }

-- A step of a program whose loop has `rounds` rounds (1 in the source, for arrays of 100).
pub data Step (rounds : ℕ) : Threads → Threads → Type 0 where
  -- The attributes can be had, and `running_threads++`.
  count :
      (n running reading : ℕ)
      → n < rounds
      → Step rounds
          (record { main = starting n; running_threads = running; reading = reading })
          (record { main = counted n; running_threads = running + 1; reading = reading })
  -- They cannot: `break`.
  no_attributes :
      (n running reading : ℕ)
      → n < rounds
      → Step rounds
          (record { main = starting n; running_threads = running; reading = reading })
          (record { main = waiting; running_threads = running; reading = reading })
  -- `pthread_create`, and the next round.
  create :
      (n running reading : ℕ)
      → Step rounds
          (record { main = counted n; running_threads = running; reading = reading })
          (record { main = starting (n + 1); running_threads = running; reading = reading + 1 })
  -- Its failure: `running_threads--`, and `break`.
  no_thread :
      (n running reading : ℕ)
      → Step rounds
          (record { main = counted n; running_threads = running; reading = reading })
          (record { main = waiting; running_threads = running - 1; reading = reading })
  -- The end of the loop.
  all_created :
      (n running reading : ℕ)
      → rounds ≤ n
      → Step rounds
          (record { main = starting n; running_threads = running; reading = reading })
          (record { main = waiting; running_threads = running; reading = reading })
  -- A thread has its date: `running_threads--`, and it returns.
  finish :
      (main : Main) (running reading : ℕ)
      → Step rounds
          (record { main = main; running_threads = running; reading = suc reading })
          (record { main = main; running_threads = running - 1; reading = reading })
  -- The end of the wait, `running_threads > 0` fails.
  wake :
      (reading : ℕ)
      → Step rounds
          (record { main = waiting; running_threads = 0; reading = reading })
          (record { main = deleting; running_threads = 0; reading = reading })

-- What the program can reach, in a number of steps.
pub data Steps (rounds : ℕ) : ℕ → Threads → Threads → Type 0 where
  here : {s : Threads} → Steps rounds 0 s s
  then_step :
      {k : ℕ} {s t u : Threads} → Steps rounds k s t → Step rounds t u → Steps rounds (k + 1) s u

abbrev pub being_created : Main → ℕ
being_created (counted n) = 1
being_created _ = 0

-- The main thread is behind its wait.
abbrev pub is_deleting : Main → Bool
is_deleting deleting = true
is_deleting _ = false

-- The counter counts the threads that may use the client, and the one that is being created.
pub record IsCounted (s : Threads) : Type 0 where
  pub counts : s.running_threads ≡ s.reading + being_created s.main
  pub quiet : is_deleting s.main ≡ true → s.reading ≡ 0

init_threads-IsCounted : IsCounted init_threads
init_threads-IsCounted = record { counts = refl; quiet = λ h. refl }

Step-IsCounted : {rounds : ℕ} {s t : Threads} → Step rounds s t → IsCounted s → IsCounted t
Step-IsCounted (count n running reading h) c = record {
  counts = omega (arith, c.counts);
  quiet = λ e. absurd (cc e);
}
Step-IsCounted (no_attributes n running reading h) c = record {
  counts = omega (arith, c.counts);
  quiet = λ e. absurd (cc e);
}
Step-IsCounted (create n running reading) c = record {
  counts = omega (arith, c.counts);
  quiet = λ e. absurd (cc e);
}
Step-IsCounted (no_thread n running reading) c = record {
  counts = omega (arith, c.counts);
  quiet = λ e. absurd (cc e);
}
Step-IsCounted (all_created n running reading h) c = record {
  counts = omega (arith, c.counts);
  quiet = λ e. absurd (cc e);
}
Step-IsCounted (finish main running reading) c = record {
  counts = omega (arith, c.counts);
  quiet = λ e. omega (arith, c.quiet e);
}
Step-IsCounted (wake reading) c = record {
  counts = omega (arith, c.counts);
  quiet = λ e. omega (arith, c.counts);
}

Steps-IsCounted : {rounds k : ℕ} {s t : Threads} → Steps rounds k s t → IsCounted s → IsCounted t
Steps-IsCounted here c = c
Steps-IsCounted (then_step steps step) c = Step-IsCounted step (Steps-IsCounted steps c)

-- For any number of rounds and any interleaving of the threads with the main thread: the counter is
-- the number of the threads that may use the client and of the one that is being created, so that
-- it never goes below 0, and when the main thread is behind its wait and deletes the client, no
-- thread uses it any more.
pub deleting-Quiet :
    (rounds k : ℕ) (s : Threads)
    → Steps rounds k init_threads s
    → (s.running_threads ≡ s.reading + being_created s.main)
      × (is_deleting s.main ≡ true → s.reading ≡ 0)
deleting-Quiet rounds k s steps =
    let c = Steps-IsCounted steps init_threads-IsCounted in (c.counts, c.quiet)

-- The steps that a state leaves at most.
abbrev pub left : ℕ → Main → ℕ
left rounds (starting n) = 3 * (rounds - n) + 2
left rounds (counted n) = 3 * (rounds - (n + 1)) + 4
left rounds waiting = 1
left rounds deleting = 0

Step-left :
    {rounds : ℕ} {s t : Threads}
    → Step rounds s t
    → left rounds t.main + t.reading < left rounds s.main + s.reading
Step-left {rounds} (count n running reading h) = omega (arith, h)
Step-left {rounds} (no_attributes n running reading h) = omega (arith, h)
Step-left {rounds} (create n running reading) = omega arith
Step-left {rounds} (no_thread n running reading) = omega arith
Step-left {rounds} (all_created n running reading h) = omega (arith, h)
Step-left {rounds} (finish main running reading) = omega arith
Step-left {rounds} (wake reading) = omega arith

Steps-left :
    {rounds k : ℕ} {s t : Threads}
    → Steps rounds k s t
    → k + (left rounds t.main + t.reading) ≤ left rounds s.main + s.reading
Steps-left here = omega arith
Steps-left (then_step steps step) = omega (arith, Steps-left steps, Step-left step)

-- A state in which no step can be taken is the end.
step_or_end :
    (rounds : ℕ) (main : Main) (running reading : ℕ)
    → running ≡ reading + being_created main
    → (is_deleting main ≡ true)
      ⊎ ((t : Threads) × Step rounds
            (record { main = main; running_threads = running; reading = reading })
            t)
step_or_end rounds (starting n) running reading c = elim (Bool-cases (ltb n rounds)) [
  | inl more ↦ inr (_, no_attributes n running reading (ground arith))
  | inr over ↦ inr (_, all_created n running reading (ground arith))
]
step_or_end rounds (counted n) running reading c = inr (_, create n running reading)
step_or_end rounds waiting zero reading c = inr (_, wake reading)
step_or_end rounds waiting (suc running) zero c = absurd (omega (arith, c))
step_or_end rounds waiting (suc running) (suc reading) c =
    inr (_, finish waiting (suc running) reading)
step_or_end rounds deleting running reading c = inl refl

-- The main thread comes to delete the client, however the threads and the main thread interleave:
-- a run of a loop with `rounds` rounds has at most 3 * rounds + 2 steps, and as long as the main
-- thread is not behind its wait there is a next one.
pub deleting-Reached :
    (rounds k : ℕ) (s : Threads)
    → Steps rounds k init_threads s
    → (k ≤ 3 * rounds + 2) × ((is_deleting s.main ≡ true) ⊎ ((t : Threads) × Step rounds s t))
deleting-Reached rounds k s steps = (
  omega (arith, Steps-left steps),
  step_or_end rounds s.main s.running_threads s.reading
      (Steps-IsCounted steps init_threads-IsCounted).counts,
)
