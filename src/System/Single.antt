-- ===== src/System/Single.antt =====
-- What running the first task of a queue does to the queue.
use mathlib.Core.List.{append-nil, append_assoc}
use ua_rate_throttling.Common.{
  ℕ, ◌≤◌, ◌<◌, ◌≡◌, refl, sym, ap, ◌∙◌, subst, Bool, false, codes, none, some, List, [], ◌∷◌, ◌++◌,
  Bytes, length, All, ◌==◌, if◌then◌else◌, Bool-cases, inl, inr, arith,
}
use ua_rate_throttling.Zoo.{zok}
use ua_rate_throttling.Task.Name.{task_name}
use ua_rate_throttling.Task.Order.{Qsort, IsCounter}
use ua_rate_throttling.Queue.{path_to_task, execute_request, execute_all, process_tasks}
use ua_rate_throttling.Queue.Libraries.{Host, ByteString}
use ua_rate_throttling.Queue.Documented.{Documented, same, same→eq, listed}
use ua_rate_throttling.Queue.Batch.{Executed, Executed-IsReady, execute_request-Executed}
use ua_rate_throttling.Queue.Keeps.{execute_request-keeps}
use ua_rate_throttling.Queue.InOrder.{and-true, sort-Increasing, path_to_task-eq}
use ua_rate_throttling.Chunk.Libraries.{Stack}
use ua_rate_throttling.System.Libraries.{mem, exists_node, child_node, task_node, Sequential}
use ua_rate_throttling.System.Pending.{
  same-append, names_of, listed-task_names, Entry, numbers, contents, same-task_node, node_at, Held,
  Holding,
}

mem-above : (n : ℕ) (ns : List ℕ) → All (λ m. n < m) ns → mem n ns ≡ false
mem-above n [] h = refl
mem-above n (m ∷ ns) h = ground (arith, h.0, mem-above n ns h.1)

module _ (host : Host) (stack : Stack host) (d : Documented host) (queue : Bytes)
    (z : Sequential host stack d queue) (fits : length queue ≤ 65000) where
  module _ (n : ℕ) (m : ℕ × ByteString) (es : List Entry) (w w' : host.World)
      (h : Holding host stack d queue z w ((n, m) ∷ es))
      (x : Executed host d (task_node queue n) w w') where
    -- The znode of the task goes, and every other task stays.
    node_at-run :
        (k : ℕ)
        → IsCounter k
        → node_at host stack d queue z w' k
          ≡ (if n == k then none else node_at host stack d queue z w k)
    node_at-run k hk =
        x.nodes (task_node queue k)
        ∙ (rw (h.held.0, same-task_node queue fits n k h.counters.0 hk) (ground arith))

    Held-run :
        (fs : List Entry)
        → All IsCounter (numbers fs)
        → All (λ k. n < k) (numbers fs)
        → Held host stack d queue z w fs
        → Held host stack d queue z w' fs
    Held-run [] counters above held = tt
    Held-run ((k, m') ∷ fs) counters above held =
        let other : (n == k) ≡ false = ground (arith, above.0) in
        (rw (node_at-run k counters.0, other) held.0, Held-run fs counters.1 above.1 held.1)

    there-run :
        (name : Bytes) → exists_node (d.node w' (child_node queue name)) ≡ listed name (names_of es)
    unfolding names_of
    there-run name =
        let nodes : d.node w' (child_node queue name)
            ≡ (if same (task_name n) name then none else d.node w (child_node queue name)) =
          x.nodes (child_node queue name)
          ∙ (rw (h.held.0, same-append (queue ++ codes "/") (task_name n) name) (ground arith)) in
        elim (Bool-cases (same (task_name n) name)) [
          | inl hit ↦
              rw (nodes, hit)
                (sym (mem-above n (numbers es) h.increasing.0)
                  ∙ sym (listed-task_names queue fits n (numbers es) h.counters.0 h.counters.1)
                  ∙ ap (λ t. listed t (names_of es)) (same→eq (task_name n) name hit))
          | inr miss ↦ rw (nodes, miss) (h.there name ∙ (rw miss))
        ]

    run-Holding : z.counter w' ≡ z.counter w → Holding host stack d queue z w' es
    run-Holding counter = record {
      increasing = h.increasing.1;
      counters = h.counters.1;
      below = rw counter h.below.1;
      there = there-run;
      held = Held-run es h.counters.1 h.increasing.0 h.held.1;
      ready = Executed-IsReady host d x h.ready;
    }

  -- The first task is run without a fault: its message is processed, and the others stay.
  pub execute_request-Holding :
      (n : ℕ) (m : ℕ × ByteString) (es : List Entry) (w : host.World)
      → Holding host stack d queue z w ((n, m) ∷ es)
      → (w' : host.World) × (execute_request host (path_to_task queue (task_name n)) w ≡ some w')
        × Holding host stack d queue z w' es
        × (d.served w' ≡ d.served w ++ m ∷ [])
  execute_request-Holding n m es w h =
      let (w', ran, x) = execute_request-Executed host d (task_node queue n) w h.ready in
      (
        w',
        rw (path_to_task-eq queue fits n) ran,
        run-Holding n m es w w' h x (
            execute_request-keeps host z.counter z.counter-delete z.counter-process
              (task_node queue n) w w' ran),
        x.serves ∙ (rw h.held.0),
      )

  -- The rest of the batch is run to its end.
  pub execute_all-Holding :
      (batch newer : List Entry) (w : host.World)
      → Holding host stack d queue z w (batch ++ newer)
      → (w' : host.World) × (execute_all host queue (names_of batch) w ≡ some w')
        × Holding host stack d queue z w' newer
        × (d.served w' ≡ d.served w ++ contents batch)
  unfolding names_of execute_all
  execute_all-Holding [] newer w h = (w, refl, h, sym (append-nil (d.served w)))
  execute_all-Holding ((n, m) ∷ batch) newer w h =
      let (w1, ran, h1, served) = execute_request-Holding n m (batch ++ newer) w h in
      let (w2, rest, h2, more) = execute_all-Holding batch newer w1 h1 in
      (
        w2,
        rw ran rest,
        h2,
        more ∙ (rw served (append_assoc (d.served w) (m ∷ []) (contents batch))),
      )

  -- Working a queue off takes the messages that are in it, in the order of their tasks.
  pub process_tasks-Holding :
      (q : Qsort) (w : host.World) (es : List Entry)
      → Holding host stack d queue z w es
      → (running : Bool)
      → (w' : host.World) × (process_tasks host q zok (some (z.children w)) queue running w
          ≡ some (running, w'))
        × Holding host stack d queue z w' []
        × (d.served w' ≡ d.served w ++ contents es)
  unfolding process_tasks names_of
  process_tasks-Holding q w es h running =
      let sorted =
        sort-Increasing q (numbers es) h.increasing h.counters (z.children w)
          (z.lists w (numbers es) h.increasing h.counters h.there) in
      let (w', ran, emptied, served) =
        execute_all-Holding es [] w
          (subst (Holding host stack d queue z w) (sym (append-nil es)) h) in
      (w', rw (sorted, ran) (ap (λ b. some (b, w')) (and-true running)), emptied, served)
