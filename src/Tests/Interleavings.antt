-- ===== src/Tests/Interleavings.antt =====
-- Two clients and the callback of a server in turns, at concrete inputs.
use ua_rate_throttling.Common.{ℕ, ◌≡◌, refl, true, some, List, [], ◌∷◌, ◌++◌, codes, arith}
use ua_rate_throttling.Zoo.{zok}
use ua_rate_throttling.Task.{task_id_cmp}
use ua_rate_throttling.Task.Name.{task_name}
use ua_rate_throttling.Queue.{process_tasks, execute_all}
use ua_rate_throttling.Queue.Libraries.{ByteString}
use ua_rate_throttling.Queue.InOrder.{sort-Increasing}
use ua_rate_throttling.System.{message_sent, History, here, next, client_goes_on, callback_begins}
use ua_rate_throttling.System.Pending.{Holding, names_of}
use ua_rate_throttling.System.Sent.{Sends-Holding}
use ua_rate_throttling.System.Interleaved.{History-IsFifo}
use ua_rate_throttling.Tests.Sorting.{insertion_sort}
use ua_rate_throttling.Tests.Tasks.{Shop, host, stack, documented, connection, shop}
use ua_rate_throttling.Tests.Delivery.{services}
use ua_rate_throttling.Tests.Systems.{
  queue, sequential, sending, first, second, messages_sent, tasks_in, read_sent, write_sent,
  shop-IsReady,
}

shop-Holding : Holding host stack services queue sequential shop []
unfolding names_of
shop-Holding = record {
  increasing = tt;
  counters = tt;
  below = tt;
  there = λ name. refl;
  held = tt;
  ready = shop-IsReady;
}

abbrev message : ℕ × ByteString
message =
    message_sent host stack documented services insertion_sort queue sequential (λ size w. refl)
      connection (codes "read") (sending 7 shop)

pub first-Holding : Holding host stack services queue sequential first ((0, message) ∷ [])
first-Holding =
    (Sends-Holding host stack documented services insertion_sort queue sequential (λ size w. refl)
      (omega arith) read_sent [] shop-Holding).0

sorted_first : insertion_sort.sort task_id_cmp (tasks_in first) ≡ some (task_name 0 ∷ [])
unfolding names_of
sorted_first =
    sort-Increasing insertion_sort (0 ∷ []) first-Holding.increasing first-Holding.counters
      (tasks_in first)
      (sequential.lists first (0 ∷ []) first-Holding.increasing first-Holding.counters
        first-Holding.there)

-- The second client sends while the callback is about to run the task of the first.
between :
    History host stack documented services insertion_sort queue sequential
      (λ size w. refl)
      ([], shop)
      messages_sent
      (task_name 0 ∷ [], second)
between =
    next
      (next (next here (client_goes_on read_sent))
        (callback_begins (task_name 0 ∷ []) sorted_first))
      (client_goes_on write_sent)

History-IsFifo_example :
    (pending : List (ℕ × ByteString)) × (second.served ++ pending ≡ shop.served ++ messages_sent)
    × (w' : Shop) × (execute_all host queue (task_name 0 ∷ []) second ≡ some w')
    × (w'' : Shop) × (process_tasks host insertion_sort zok (some (tasks_in w')) queue true w'
        ≡ some (true, w''))
    × (w''.served ≡ second.served ++ pending)
History-IsFifo_example =
    History-IsFifo host stack documented services insertion_sort queue sequential (λ size w. refl)
      (omega arith) shop shop-IsReady (λ name. refl) messages_sent (task_name 0 ∷ []) second between
      true
