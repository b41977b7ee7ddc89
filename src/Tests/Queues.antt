-- ===== src/Tests/Queues.antt =====
-- The theorems on tasks and queues at concrete inputs.
use mathlib.Core.List.{Mem, Perm, Pairwise, map, mem-cons, not-mem-nil}
use mathlib.Core.List.Perm
use mathlib.Core.Logic.Or
use native.Mathlib.Bridge.{le_prop}
use ua_rate_throttling.Common.{
  ◌≡◌, refl, true, some, List, [], ◌∷◌, Bytes, codes, arith, ℕ, snprintf,
}
use ua_rate_throttling.Zoo.{zok}
use ua_rate_throttling.Task.{task_id_cmp}
use ua_rate_throttling.Task.Name.{task_name, order, task_id_cmp-task_name}
use ua_rate_throttling.Task.Order.{IsAscending, IsCounter, sort-task_names}
use ua_rate_throttling.Queue.{read_request, path_to_task, execute_all, process_tasks}
use ua_rate_throttling.Queue.Documented.{IsDistinct, same}
use ua_rate_throttling.Queue.Batch.{IsReady, IsTaken-eq, request_at, Drained, execute_all-Drained}
use ua_rate_throttling.Queue.InOrder.{process_tasks-InOrder}
use ua_rate_throttling.Tests.Sorting.{insertion_sort}
use ua_rate_throttling.Tests.Services.{Store, host, documented}

abbrev queue : Bytes
queue = codes "/Servers/a/Queue/b"

-- Two tasks, each with a message on channel 7.
abbrev store : Store
store = record { node = λ p. some (7 ∷ codes "message"); served = [] }

store-IsReady : IsReady host documented store
unfolding request_at read_request same
store-IsReady = λ p. (
  omega arith,
  IsTaken-eq host documented store _ (7, record { length = 7; bytes = some (codes "message") }) refl
      (tt, (λ e. cc e), refl),
)

abbrev counters : List ℕ
counters = 9 ∷ 10 ∷ []

-- The children of the queue, as ZooKeeper may list them.
abbrev children : List Bytes
children = task_name 10 ∷ task_name 9 ∷ []

children-Perm : Perm children (map task_name counters)
children-Perm = Perm.swap (task_name 9) (task_name 10) []

counters-IsAscending : IsAscending counters
counters-IsAscending =
    Pairwise.cons
      (λ m k.
        Or.elim le_prop (mem-cons.0 k) (λ (e : m ≡ 10). omega arith)
          (λ k'. absurd (not-mem-nil k')))
      (Pairwise.cons (λ m k. absurd (not-mem-nil k)) Pairwise.nil)

task_id_cmp-task_name_example : task_id_cmp (task_name 9) (task_name 10) ≡ some (order 9 10)
task_id_cmp-task_name_example = task_id_cmp-task_name 9 10 (omega arith) (omega arith)

counters-IsCounter : (n : ℕ) → Mem n counters → IsCounter n
counters-IsCounter n k =
    Or.elim le_prop (mem-cons.0 k) (λ (e : n ≡ 9). omega arith)
      (λ k'.
        Or.elim le_prop (mem-cons.0 k') (λ (e : n ≡ 10). omega arith)
          (λ k''. absurd (not-mem-nil k'')))

sort-task_names_example : insertion_sort.sort task_id_cmp children ≡ some (map task_name counters)
sort-task_names_example =
    sort-task_names insertion_sort counters children counters-IsAscending counters-IsCounter
      children-Perm

abbrev names : List Bytes
names = codes "a" ∷ codes "b" ∷ []

names-IsDistinct : IsDistinct (map (path_to_task queue) names)
unfolding path_to_task same snprintf
names-IsDistinct = (refl, (refl, tt))

execute_all-Drained_example :
    (w' : Store) × (execute_all host queue names store ≡ some w')
    × Drained host documented (map (path_to_task queue) names) store w'
execute_all-Drained_example =
    execute_all-Drained host documented queue names store store-IsReady names-IsDistinct

process_tasks-InOrder_example :
    (w' : Store) × (process_tasks host insertion_sort zok (some children) queue true store
      ≡ some (true, w'))
    × Drained host documented (map (path_to_task queue) (map task_name counters)) store w'
process_tasks-InOrder_example =
    process_tasks-InOrder host documented insertion_sort queue (omega arith) counters (omega arith)
      (omega arith) children children-Perm store store-IsReady true
