-- ===== src/System/Noticed.antt =====
-- No readable task stays in the queue of a running server without the server being about to see it.
use mathlib.Core.List.{Perm, map}
use ua_rate_throttling.Common.{
  ℕ, ◌+◌, ◌≤◌, ◌<◌, ◌≡◌, ◌⊎◌, refl, sym, ap, ◌∙◌, subst, Bool, true, false, ◌&&◌, ◌||◌, Option,
  none, some, List, [], ◌∷◌, ◌++◌, Bytes, length, All, All-append, ◌==◌, Bool-cases, inl, inr,
  arith,
}
use ua_rate_throttling.Task.{task_id_cmp}
use ua_rate_throttling.Task.Name.{task_name}
use ua_rate_throttling.Task.Order.{Qsort, IsCounter}
use ua_rate_throttling.Watch.{Server}
use ua_rate_throttling.Watch.Throttle.{queue_watcher_asks}
use ua_rate_throttling.Queue.{execute_request, path_to_task, process_tasks}
use ua_rate_throttling.Queue.Libraries.{Host}
use ua_rate_throttling.Queue.Documented.{Documented, same, same_refl, same→eq, listed}
use ua_rate_throttling.Queue.Batch.{
  IsReady, request_at, request_at-none, is_some, Executed, execute_request-Executed,
}
use ua_rate_throttling.Queue.InOrder.{Increasing, path_to_task-eq, sort-Increasing}
use ua_rate_throttling.Zoo.{ZooCode, is_zok}
use ua_rate_throttling.System.Pending.{listed-task_names}
use ua_rate_throttling.System.Libraries.{mem, exists_node, task_node}
use ua_rate_throttling.System.Waking.{
  Waking, notify, set_up, was_deleted, Wakes, others_create, others_delete, others_work,
  event_is_handled, queue_is_listed, listing_fails, batch_begins, any_mem, on_its_way, readable,
  task_is_run, Woken, at_start, then_wakes,
}

listed-mem :
    (n : ℕ) (ns : List ℕ) → mem n ns ≡ true → listed (task_name n) (map task_name ns) ≡ true
listed-mem n [] h = cc
listed-mem n (m ∷ ns) h = elim (Bool-cases (m == n)) [
  | inl hit ↦
      let e : m ≡ n = ground arith in
      rw (ap (λ k. same (task_name k) (task_name n)) e ∙ same_refl (task_name n)) refl
  | inr miss ↦
      let later : listed (task_name n) (map task_name ns) ≡ true =
        listed-mem n ns (ground (arith, h, miss)) in
      ground (arith, later)
]

any_mem-append :
    (n : ℕ) (ls : List (List ℕ)) (ns : List ℕ) → mem n ns ≡ true → any_mem n (ls ++ ns ∷ []) ≡ true
any_mem-append n [] ns h = ground (arith, h)
any_mem-append n (l ∷ ls) ns h = ground (arith, any_mem-append n ls ns h)

module _ (host : Host) (d : Documented host) (q : Qsort) (queue : Bytes)
    (fits : length queue ≤ 65000) where
  record Noticed (s : Waking host.World) : Type 0 where
    waits : s.watch ≡ false → (0 < s.events + s.asked) ⊎ (s.running ≡ false)
    known :
        s.watch ≡ true
        → (n : ℕ) → IsCounter n
        → readable host d queue s.world n ≡ true
        → on_its_way n s ≡ true
    lists : All (λ ns. Increasing ns × All IsCounter ns) s.listings

  not-readable-none : is_some host d (request_at host d none) ≡ false
  not-readable-none = rw (request_at-none host d) refl

  readable-there :
      (o : Option Bytes) → is_some host d (request_at host d o) ≡ true → exists_node o ≡ true
  readable-there none h = absurd (cc (h, not-readable-none))
  readable-there (some data') h = refl

  notify-Noticed :
      (s : Waking host.World)
      → (s.watch ≡ false → (0 < s.events + s.asked) ⊎ (s.running ≡ false))
      → All (λ ns. Increasing ns × All IsCounter ns) s.listings
      → Noticed (notify s)
  notify-Noticed s waits lists = record {
    waits = λ e. elim (Bool-cases s.watch) [
      | inl set ↦ rw set (inl (omega arith))
      | inr fired ↦ rw fired (waits fired)
    ];
    known = λ e. absurd (cc e);
    lists = lists;
  }

  -- Behind its run no task is readable that the callback does not run later.
  run-known :
      (name : Bytes) (w w' : host.World) (n : ℕ)
      → Executed host d (path_to_task queue name) w w'
      → readable host d queue w' n ≡ true
      → (readable host d queue w n ≡ true) × (same name (task_name n) ≡ false)
  run-known name w w' n x h =
      let p = path_to_task queue name in
      let nodes = x.nodes (task_node queue n) in
      elim (Bool-cases
        (same p (task_node queue n) && is_some host d (request_at host d (d.node w p)))) [
          | inl deleted ↦
              let e : d.node w' (task_node queue n) ≡ none = nodes ∙ (rw deleted) in
              absurd (cc (h, not-readable-none, e))
          | inr stays ↦
              let e : d.node w' (task_node queue n) ≡ d.node w (task_node queue n) =
                nodes ∙ (rw stays) in
              let still : readable host d queue w n ≡ true =
                ap (λ o. is_some host d (request_at host d o)) (sym e) ∙ h in
              (
                still,
                elim (Bool-cases (same name (task_name n))) [
                  | inl hit ↦
                      let path : p ≡ task_node queue n =
                        ap (path_to_task queue) (same→eq name (task_name n) hit)
                        ∙ path_to_task-eq queue fits n in
                      let there : is_some host d (request_at host d (d.node w p)) ≡ true =
                        ap (λ r. is_some host d (request_at host d (d.node w r))) path ∙ still in
                      let equal : same p (task_node queue n) ≡ true =
                        ap (λ r. same r (task_node queue n)) path ∙ same_refl (task_node queue n) in
                      absurd (ground (arith, stays, there, equal))
                  | inr miss ↦ miss
                ],
              )
        ]

  run-Noticed :
      (s : Waking host.World) (name : Bytes) (names : List Bytes) (w' : host.World)
      → Noticed s
      → s.batch ≡ name ∷ names
      → IsReady host d s.world
      → execute_request host (path_to_task queue name) s.world ≡ some w'
      → Noticed (record s { world = w'; batch = names })
  run-Noticed s name names w' h front ready ran = record {
    waits = h.waits;
    known = λ set n hn r.
        let (w1, ran1, x1) =
          execute_request-Executed host d (path_to_task queue name) s.world ready in
        let x : Executed host d (path_to_task queue name) s.world w' =
          subst (Executed host d (path_to_task queue name) s.world) (cc (ran, ran1)) x1 in
        let (before, other) = run-known name s.world w' n x r in
        let way : (listed (task_name n) (name ∷ names) || any_mem n s.listings) ≡ true =
          ap (λ b. listed (task_name n) b || any_mem n s.listings) (sym front)
          ∙ h.known set n hn before in
        ground (arith, way, other);
    lists = h.lists;
  }

  begin-Noticed :
      (s : Waking host.World) (ns : List ℕ) (rest : List (List ℕ)) (children sorted : List Bytes)
      → Noticed s
      → s.batch ≡ []
      → s.listings ≡ ns ∷ rest
      → Perm children (map task_name ns)
      → q.sort task_id_cmp children ≡ some sorted
      → Noticed (record s { batch = sorted; listings = rest })
  begin-Noticed s ns rest children sorted h empty front perm done =
      let lists = subst (All (λ ns. Increasing ns × All IsCounter ns)) front h.lists in
      let order : sorted ≡ map task_name ns =
        cc (done, sort-Increasing q ns lists.0.0 lists.0.1 children perm) in
      record {
        waits = h.waits;
        known = λ set n hn r.
            let way : (listed (task_name n) [] || any_mem n (ns ∷ rest)) ≡ true =
              (λ i. listed (task_name n) (sym empty i) || any_mem n (sym front i))
              ∙ h.known set n hn r in
            elim (Bool-cases (mem n ns)) [
              | inl inside ↦
                  let first : listed (task_name n) sorted ≡ true =
                    ap (listed (task_name n)) order ∙ listed-mem n ns inside in
                  rw first refl
              | inr outside ↦ ground (arith, way, outside)
            ];
        lists = lists.1;
      }

  -- The callback stops the server on an error.
  failure-stops :
      (rc : ZooCode) (running running' : Bool) (w w' : host.World)
      → is_zok rc ≡ false
      → process_tasks host q rc none queue running w ≡ some (running', w')
      → (running' ≡ false) × (w' ≡ w)
  unfolding process_tasks
  failure-stops rc running running' w w' fails ran = (ground (arith, fails, ran), cc ran)

  Wakes-Noticed : {s s' : Waking host.World} → Noticed s → Wakes host d q queue s s' → Noticed s'
  Wakes-Noticed {s} h (others_create m data' w' hm free created) =
      notify-Noticed (record s { world = w' }) h.waits h.lists
  Wakes-Noticed {s} h (others_delete m w' hm there deleted) =
      notify-Noticed (record s { world = w' }) h.waits h.lists
  Wakes-Noticed {s} h (others_work w' queue_stays stays) = record {
    waits = h.waits;
    known = λ set n hn r.
        h.known set n hn
          (ap (λ o. is_some host d (request_at host d o)) (sym (stays (task_name n))) ∙ r);
    lists = h.lists;
  }
  Wakes-Noticed {s} h (event_is_handled k e fuel level server' events is_child has_path ran) =
      let asks = queue_watcher_asks e fuel level s.server server' is_child has_path ran in
      record { waits = λ unset. inl (omega (arith, asks)); known = h.known; lists = h.lists }
  Wakes-Noticed {s} h (queue_is_listed k ns asked up counters there) = record {
    waits = λ unset. absurd (cc unset);
    known = λ set n hn r.
        let inside : mem n ns ≡ true =
          sym (listed-task_names queue fits n ns hn counters)
          ∙ sym (there (task_name n))
          ∙ readable-there _ r in
        ground (arith, any_mem-append n s.listings ns inside);
    lists =
        All-append (λ ns. Increasing ns × All IsCounter ns) s.listings (ns ∷ []) h.lists
          ((up, counters), tt);
  }
  Wakes-Noticed {s} h (listing_fails k rc running' w' asked fails ran) =
      let (stops, same_world) = failure-stops rc s.running running' s.world w' fails ran in
      record {
        waits = λ unset. inr stops;
        known = λ set n hn r.
            h.known set n hn (ap (λ w. readable host d queue w n) (sym same_world) ∙ r);
        lists = h.lists;
      }
  Wakes-Noticed {s} h (batch_begins ns rest children sorted empty front perm done) =
      begin-Noticed s ns rest children sorted h empty front perm done
  Wakes-Noticed {s} h (task_is_run name names w' front ready ran) =
      let kept = run-Noticed s name names w' h front ready ran in
      elim (Bool-cases (was_deleted host d q queue s.world (path_to_task queue name) w')) [
        | inl deleted ↦
            rw deleted (notify-Noticed (record s { world = w'; batch = names }) h.waits h.lists)
        | inr stays ↦ rw stays kept
      ]

  Woken-Noticed : {s s' : Waking host.World} → Noticed s → Woken host d q queue s s' → Noticed s'
  Woken-Noticed h at_start = h
  Woken-Noticed h (then_wakes before step) = Wakes-Noticed (Woken-Noticed h before) step

-- From the setup of the server on, within one session with ZooKeeper, while others create and
-- delete tasks in its queue and do nothing else to the queue and what is in it, and in whatever
-- order child events are handled, listings are answered or fail, and tasks are run: a task in the
-- queue with a readable document is in the batch that the callback runs, or in a listing for it, or
-- the server has an event to handle or a listing to come, or a listing has failed and the callback
-- has stopped the server. The path of the queue has at most 65000 bytes, and while a task is run
-- every znode can be read and the stack takes the message of each task.
pub Woken-on_its_way :
    (host : Host) (d : Documented host) (q : Qsort) (queue : Bytes)
    → length queue ≤ 65000
    → (w : host.World) (server : Server) (s : Waking host.World)
    → Woken host d q queue (set_up w server) s
    → (n : ℕ) → IsCounter n
    → readable host d queue s.world n ≡ true
    → (on_its_way n s ≡ true) ⊎ ((0 < s.events + s.asked) ⊎ (s.running ≡ false))
Woken-on_its_way host d q queue fits w server s woken n hn r =
    let start : Noticed host d q queue fits (set_up w server) = record {
      waits = λ e. inl (omega arith);
      known = λ e. absurd (cc e);
      lists = tt;
    } in
    let noticed = Woken-Noticed host d q queue fits start woken in
    elim (Bool-cases s.watch) [
      | inl set ↦ inl (noticed.known set n hn r)
      | inr unset ↦ inr (noticed.waits unset)
    ]
