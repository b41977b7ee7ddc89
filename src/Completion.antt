-- ===== src/Completion.antt =====
-- The completion callbacks of src/zk_cli.c: what each changes in the counters and flags of the file.
-- What they print is not modelled, and neither are the buffers that they free.
pub mod Counts
use ua_rate_throttling.Common.{
  ℕ, ◌+◌, ◌-◌, ◌%◌, ◌^◌, Bool, true, ◌==◌, if◌then◌else◌, Option, none, some, ◌>>=◌,
}
use ua_rate_throttling.Zoo.{ZooCode}

-- `to_send`, `sent`, `recvd`, `batchMode` and `shutdownThisThing`; an `int` is its 32-bit pattern.
pub record Counters : Type 0 where
  pub to_send : ℕ
  pub sent : ℕ
  pub recvd : ℕ
  pub batch_mode : Bool
  pub shutdown_this_thing : Bool

-- An increment of the greatest `int` is undefined.
abbrev pub increment : ℕ → Option ℕ
increment n = if n == 2 ^ 31 - 1 then none else some ((n + 1) % 2 ^ 32)

-- `if (batchMode) shutdownThisThing = 1;`
pub batch_shutdown : Counters → Counters
batch_shutdown c = record c {
  shutdown_this_thing = if c.batch_mode then true else c.shutdown_this_thing;
}

-- `zkUA_my_string_completion`
my_string_completion : ZooCode → Counters → Counters
unfolding batch_shutdown
my_string_completion rc c = batch_shutdown c

-- `zkUA_my_string_completion_free_data`
my_string_completion_free_data : ZooCode → Counters → Counters
unfolding my_string_completion
my_string_completion_free_data rc c = my_string_completion rc c

-- `zkUA_my_data_completion`
my_data_completion : ZooCode → Counters → Counters
unfolding batch_shutdown
my_data_completion rc c = batch_shutdown c

-- `zkUA_my_silent_data_completion`
my_silent_data_completion : ZooCode → Counters → Option Counters
unfolding batch_shutdown
my_silent_data_completion rc c = do
  recvd ← increment c.recvd
  let c' = record c { recvd = recvd }
  some (if c'.recvd == c'.to_send then batch_shutdown c' else c')

-- `zkUA_my_strings_completion`
my_strings_completion : ZooCode → Counters → Counters
unfolding batch_shutdown
my_strings_completion rc c = batch_shutdown c

-- `zkUA_my_strings_stat_completion`
my_strings_stat_completion : ZooCode → Counters → Counters
unfolding batch_shutdown my_strings_completion
my_strings_stat_completion rc c = batch_shutdown (my_strings_completion rc c)

-- `zkUA_my_void_completion`
my_void_completion : ZooCode → Counters → Counters
unfolding batch_shutdown
my_void_completion rc c = batch_shutdown c

-- `zkUA_my_stat_completion`
my_stat_completion : ZooCode → Counters → Counters
unfolding batch_shutdown
my_stat_completion rc c = batch_shutdown c

-- `zkUA_my_silent_stat_completion`
my_silent_stat_completion : ZooCode → Counters → Option Counters
my_silent_stat_completion rc c = do sent ← increment c.sent; some (record c { sent = sent })

-- Which callback the client library calls.
pub data Completion : Type 0 where
  string string_free_data data_ silent_data strings strings_stat void stat silent_stat : Completion

unfoldable pub complete : Completion → ZooCode → Counters → Option Counters
unfolding my_string_completion my_string_completion_free_data my_data_completion
    my_silent_data_completion my_strings_completion my_strings_stat_completion my_void_completion
    my_stat_completion my_silent_stat_completion
complete string rc c = some (my_string_completion rc c)
complete string_free_data rc c = some (my_string_completion_free_data rc c)
complete data_ rc c = some (my_data_completion rc c)
complete silent_data rc c = my_silent_data_completion rc c
complete strings rc c = some (my_strings_completion rc c)
complete strings_stat rc c = some (my_strings_stat_completion rc c)
complete void rc c = some (my_void_completion rc c)
complete stat rc c = some (my_stat_completion rc c)
complete silent_stat rc c = my_silent_stat_completion rc c
