-- ===== src/Completion/Counts.antt =====
-- What a run of completions leaves in the counters.
use ua_rate_throttling.Common.{
  ℕ, ◌+◌, ◌^◌, ◌<◌, ◌≡◌, ◌&&◌, ◌||◌, List, [], ◌∷◌, leb, ltb, arith, Bool, refl, ◌∙◌, Option, some,
  ◌==◌, if◌then◌else◌, ◌>>=◌,
}
use ua_rate_throttling.Zoo.{ZooCode}
use ua_rate_throttling.Completion.{
  Counters, Completion, silent_data, silent_stat, complete, increment, batch_shutdown,
}

unfoldable pub complete_all : List (Completion × ZooCode) → Counters → Option Counters
complete_all [] c = some c
complete_all ((k, rc) ∷ ks) c = do c' ← complete k rc c; complete_all ks c'

-- How many calls there are of `zkUA_my_silent_data_completion`, of `zkUA_my_silent_stat_completion`,
-- and of the others.
abbrev pub is_data : Completion → ℕ
is_data silent_data = 1
is_data _ = 0

abbrev pub is_stat : Completion → ℕ
is_stat silent_stat = 1
is_stat _ = 0

abbrev pub is_loud : Completion → ℕ
is_loud silent_data = 0
is_loud silent_stat = 0
is_loud _ = 1

unfoldable pub tally : (Completion → ℕ) → List (Completion × ZooCode) → ℕ
tally p [] = 0
tally p ((k, rc) ∷ ks) = p k + tally p ks

-- In batch mode the client is told to stop by each callback that is not silent, and by the response
-- that completes the number of requests sent.
abbrev pub should_stop : Counters → ℕ → ℕ → Bool
should_stop c loud data' =
    c.shutdown_this_thing
    || c.batch_mode && (ltb 0 loud || ltb c.recvd c.to_send && leb c.to_send (c.recvd + data'))

pub record Counted (ks : List (Completion × ZooCode)) (c c' : Counters) : Type 0 where
  pub receives : c'.recvd ≡ c.recvd + tally is_data ks
  pub sends : c'.sent ≡ c.sent + tally is_stat ks
  pub stops : c'.shutdown_this_thing ≡ should_stop c (tally is_loud ks) (tally is_data ks)
  pub keeps_to_send : c'.to_send ≡ c.to_send
  pub keeps_batch_mode : c'.batch_mode ≡ c.batch_mode

-- That many increments of a counter do not pass the greatest `int`, nor go from -1 to 0.
abbrev pub HasRoom : ℕ → ℕ → Type 0
HasRoom n times = (n + times < 2 ^ 32) × (n < 2 ^ 31 → n + times < 2 ^ 31)

-- What one callback leaves in the counters.
record Completed (k : Completion) (c c' : Counters) : Type 0 where
  receives : c'.recvd ≡ c.recvd + is_data k
  sends : c'.sent ≡ c.sent + is_stat k
  stops : c'.shutdown_this_thing ≡ should_stop c (is_loud k) (is_data k)
  keeps_to_send : c'.to_send ≡ c.to_send
  keeps_batch_mode : c'.batch_mode ≡ c.batch_mode

increment-next : (n : ℕ) → HasRoom n 1 → increment n ≡ some (n + 1)
increment-next n room = ground (arith, room)

abbrev Ends : Completion → ZooCode → Counters → Type 0
Ends k rc c = (c' : Counters) × (complete k rc c ≡ some c') × Completed k c c'

loud-complete :
    (k : Completion) (rc : ZooCode) (c : Counters)
    → is_loud k ≡ 1
    → complete k rc c ≡ some (batch_shutdown c)
unfolding complete batch_shutdown
loud-complete k rc c loud = ground (arith, loud)

loud-silent : (k : Completion) → is_loud k ≡ 1 → (is_data k ≡ 0) × (is_stat k ≡ 0)
loud-silent k loud = (ground (arith, loud), ground (arith, loud))

loud-Ends : (k : Completion) (rc : ZooCode) (c : Counters) → is_loud k ≡ 1 → Ends k rc c
unfolding batch_shutdown
loud-Ends k rc c loud = (
  batch_shutdown c,
  loud-complete k rc c loud,
  record {
    receives = omega (arith, loud-silent k loud);
    sends = omega (arith, loud-silent k loud);
    stops = ground (arith, loud, loud-silent k loud);
    keeps_to_send = refl;
    keeps_batch_mode = refl;
  },
)

-- What a silent response leaves.
abbrev received : Counters → Counters
received c =
    let c' = record c { recvd = c.recvd + 1 } in
    if c'.recvd == c'.to_send then batch_shutdown c' else c'

silent_data-Ends : (rc : ZooCode) (c : Counters) → HasRoom c.recvd 1 → Ends silent_data rc c
unfolding complete batch_shutdown
silent_data-Ends rc c room = (
  received c,
  rw (increment-next c.recvd room) refl,
  record {
    receives = ground arith;
    sends = ground arith;
    stops = ground (arith, room);
    keeps_to_send = ground arith;
    keeps_batch_mode = ground arith;
  },
)

silent_stat-Ends : (rc : ZooCode) (c : Counters) → HasRoom c.sent 1 → Ends silent_stat rc c
unfolding complete
silent_stat-Ends rc c room = (
  record c { sent = c.sent + 1 },
  rw (increment-next c.sent room) refl,
  record {
    receives = omega arith;
    sends = refl;
    stops = ground arith;
    keeps_to_send = refl;
    keeps_batch_mode = refl;
  },
)

silent-Ends :
    (k : Completion) (rc : ZooCode) (c : Counters)
    → HasRoom c.recvd (is_data k)
    → HasRoom c.sent (is_stat k)
    → Ends k rc c
silent-Ends silent_data rc c room room' = silent_data-Ends rc c room
silent-Ends silent_stat rc c room room' = silent_stat-Ends rc c room'
silent-Ends _ rc c room room' = loud-Ends _ rc c refl

Counted-stops :
    (k : Completion) (ks : List (Completion × ZooCode)) (c c' c'' : Counters)
    → Completed k c c'
    → Counted ks c' c''
    → c''.shutdown_this_thing
      ≡ should_stop c (is_loud k + tally is_loud ks) (is_data k + tally is_data ks)
Counted-stops k ks c c' c'' h x =
    ground (arith, x.stops, h.stops, h.receives, h.keeps_to_send, h.keeps_batch_mode)

HasRoom-first : (n a b : ℕ) → HasRoom n (a + b) → HasRoom n a
HasRoom-first n a b room = (omega (arith, room.0), λ h. omega (arith, room.1 h))

HasRoom-rest : (n n' a b : ℕ) → n' ≡ n + a → HasRoom n (a + b) → HasRoom n' b
HasRoom-rest n n' a b e room = (omega (arith, room.0), λ h. omega (arith, room.1 (omega arith)))

-- If neither counter overflows, any sequence of callbacks comes to its end; `recvd` has grown by the
-- number of silent data callbacks and `sent` by the number of silent stat callbacks; the flag that
-- stops the client is set just if it was, or in batch mode there was a callback of another kind or the
-- number of responses reached `to_send` from below; `to_send` and the mode have not changed.
pub complete_all-Counted :
    (ks : List (Completion × ZooCode)) (c : Counters)
    → HasRoom c.recvd (tally is_data ks)
    → HasRoom c.sent (tally is_stat ks)
    → (c' : Counters) × (complete_all ks c ≡ some c') × Counted ks c c'
unfolding complete_all tally
complete_all-Counted [] c room room' = (
  c,
  refl,
  record {
    receives = omega arith;
    sends = omega arith;
    stops = ground arith;
    keeps_to_send = refl;
    keeps_batch_mode = refl;
  },
)
complete_all-Counted ((k, rc) ∷ ks) c room room' =
    let (c', first, h) =
      silent-Ends k rc c (HasRoom-first _ _ _ room) (HasRoom-first _ _ _ room') in
    let (c'', rest, x) =
      complete_all-Counted ks c' (HasRoom-rest _ _ _ _ h.receives room)
        (HasRoom-rest _ _ _ _ h.sends room') in
    (
      c'',
      rw first rest,
      record {
        receives = omega (arith, x.receives, h.receives);
        sends = omega (arith, x.sends, h.sends);
        stops = Counted-stops k ks c c' c'' h x;
        keeps_to_send = x.keeps_to_send ∙ h.keeps_to_send;
        keeps_batch_mode = x.keeps_batch_mode ∙ h.keeps_batch_mode;
      },
    )
