-- ===== src/Queue/InOrder.antt =====
-- The order in which the server runs the tasks of its queue.
use mathlib.Core.Logic.Or
use mathlib.Core.List.{Mem, Perm, Pairwise, map, mem-cons, not-mem-nil}
use native.Mathlib.Bridge.{le_prop}
use ua_rate_throttling.Common.{
  append_cancel_left, ℕ, ◌≤◌, ◌<◌, ◌≡◌, refl, ap, sym, ◌∙◌, Bool, true, false, ◌&&◌, some, List, [],
  ◌∷◌, ◌++◌, Bytes, length, length-append, All, arith, codes, snprintf_fits, Bool-cases, inl, inr,
}
use ua_rate_throttling.Zoo.{zok}
use ua_rate_throttling.Znode.{buffer_size}
use ua_rate_throttling.Task.{task_id_cmp}
use ua_rate_throttling.Task.Name.{task_name, task_number, task_number-task_name}
use ua_rate_throttling.Task.Order.{Qsort, IsCounter, IsAscending, sort-task_names}
use ua_rate_throttling.Queue.{process_tasks, path_to_task}
use ua_rate_throttling.Queue.Libraries.{Host}
use ua_rate_throttling.Queue.Documented.{Documented, same, same→eq, listed, IsDistinct}
use ua_rate_throttling.Queue.Batch.{IsReady, Drained, execute_all-Drained}

-- Counters as ZooKeeper hands them out: each is above those before it.
abbrev pub Increasing : List ℕ → Type 0
Increasing [] = Unit
Increasing (n ∷ ns) = All (λ m. n < m) ns × Increasing ns

lt_of_mem : (n m : ℕ) (ns : List ℕ) → All (λ k. n < k) ns → Mem m ns → n < m
lt_of_mem n m [] h k = absurd (not-mem-nil k)
lt_of_mem n m (x ∷ ns) h k =
    Or.elim le_prop (mem-cons.0 k) (λ (e : m ≡ x). omega arith) (lt_of_mem n m ns h.1)

IsCounter-of_mem : (m : ℕ) (ns : List ℕ) → All IsCounter ns → Mem m ns → IsCounter m
IsCounter-of_mem m [] h k = absurd (not-mem-nil k)
IsCounter-of_mem m (x ∷ ns) h k =
    Or.elim le_prop (mem-cons.0 k) (λ (e : m ≡ x). omega arith) (IsCounter-of_mem m ns h.1)

Increasing-IsAscending : (ns : List ℕ) → Increasing ns → IsAscending ns
Increasing-IsAscending [] h = Pairwise.nil
Increasing-IsAscending (n ∷ ns) h =
    Pairwise.cons (λ m k. omega (arith, lt_of_mem n m ns h.0 k)) (Increasing-IsAscending ns h.1)

length-task_name : (n : ℕ) → length (task_name n) ≡ 15
unfolding task_name
length-task_name n = refl

module _ (queue : Bytes) (short : length queue ≤ 65000) where
  pub path_to_task-eq :
      (n : ℕ) → path_to_task queue (task_name n) ≡ (queue ++ codes "/") ++ task_name n
  unfolding path_to_task
  path_to_task-eq n = snprintf_fits buffer_size ((queue ++ codes "/") ++ task_name n) (
      omega (
        arith,
        length-task_name n,
        length-append (queue ++ codes "/") (task_name n),
        length-append queue (codes "/"),
      ))

  -- Tasks with different counters have different paths.
  pub path_to_task_injective :
      (m n : ℕ)
      → IsCounter m
      → IsCounter n
      → path_to_task queue (task_name m) ≡ path_to_task queue (task_name n)
      → m ≡ n
  path_to_task_injective m n hm hn e =
      let names : task_name m ≡ task_name n =
        append_cancel_left (queue ++ codes "/") (task_name m) (task_name n)
          (sym (path_to_task-eq m) ∙ e ∙ path_to_task-eq n) in
      cc (ap task_number names, task_number-task_name m hm, task_number-task_name n hn)

  not-listed :
      (n : ℕ) (ns : List ℕ)
      → IsCounter n
      → All IsCounter ns
      → All (λ m. n < m) ns
      → listed (path_to_task queue (task_name n)) (map (path_to_task queue) (map task_name ns))
        ≡ false
  not-listed n [] hn hs above = refl
  not-listed n (m ∷ ns) hn hs above =
      elim (Bool-cases
        (same (path_to_task queue (task_name m)) (path_to_task queue (task_name n)))) [
          | inl equal ↦
              absurd
                (omega (arith, above.0, path_to_task_injective m n hs.0 hn (same→eq _ _ equal)))
          | inr different ↦ rw different (not-listed n ns hn hs.1 above.1)
        ]

  tasks-IsDistinct :
      (ns : List ℕ)
      → All IsCounter ns
      → Increasing ns
      → IsDistinct (map (path_to_task queue) (map task_name ns))
  tasks-IsDistinct [] hs h = tt
  tasks-IsDistinct (n ∷ ns) hs h = (not-listed n ns hs.0 hs.1 h.0, tasks-IsDistinct ns hs.1 h.1)

pub and-true : (b : Bool) → (b && true) ≡ b
and-true true = refl
and-true false = refl

-- However ZooKeeper lists them, the tasks are sorted by their counters.
pub sort-Increasing :
    (q : Qsort) (ns : List ℕ)
    → Increasing ns
    → All IsCounter ns
    → (children : List Bytes) → Perm children (map task_name ns)
    → q.sort task_id_cmp children ≡ some (map task_name ns)
sort-Increasing q ns increasing counters children perm =
    sort-task_names q ns children (Increasing-IsAscending ns increasing)
      (λ n k. IsCounter-of_mem n ns counters k) perm

-- If the path of a queue has at most 65000 bytes, the queue holds tasks with increasing ten-digit
-- counters, every znode fits the buffer that it is read into, the message of each readable task
-- consists of complete chunks, on an open channel that it does not close, and ZooKeeper lists the
-- tasks, in any order, then the callback ends without a fault, leaves `running` as it was, has the
-- stack process the message of each task with a readable document once and in the order of the
-- counters, deletes these tasks, and changes no other znode.
pub process_tasks-InOrder :
    (host : Host) (d : Documented host) (q : Qsort) (queue : Bytes)
    → length queue ≤ 65000
    → (ns : List ℕ) → Increasing ns
    → All IsCounter ns
    → (children : List Bytes) → Perm children (map task_name ns)
    → (w : host.World) → IsReady host d w
    → (running : Bool)
    → (w' : host.World) × (process_tasks host q zok (some children) queue running w
        ≡ some (running, w'))
      × Drained host d (map (path_to_task queue) (map task_name ns)) w w'
unfolding process_tasks
process_tasks-InOrder host d q queue short ns increasing counters children perm w ready running =
    let sorted = sort-Increasing q ns increasing counters children perm in
    let (w', ran, drained) =
      execute_all-Drained host d queue (map task_name ns) w ready
        (tasks-IsDistinct queue short ns counters increasing) in
    (w', rw (sorted, ran) (ap (λ b. some (b, w')) (and-true running)), drained)
