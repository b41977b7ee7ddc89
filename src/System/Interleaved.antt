-- ===== src/System/Interleaved.antt =====
-- The queue is first in, first out also while clients write into it during a run of the callback.
use ua_rate_throttling.Common.{
  ℕ, ◌≤◌, ◌≡◌, refl, sym, ap, ◌∙◌, subst, Bool, false, some, List, [], ◌∷◌, ◌++◌, Bytes, length,
  append-nil, append_assoc,
}
use ua_rate_throttling.Zoo.{zok}
use ua_rate_throttling.Task.Name.{task_name}
use ua_rate_throttling.Task.{task_id_cmp}
use ua_rate_throttling.Task.Order.{Qsort}
use ua_rate_throttling.Queue.{process_tasks, execute_all, execute_request, path_to_task}
use ua_rate_throttling.Queue.Libraries.{Host, ByteString}
use ua_rate_throttling.Queue.Documented.{Documented}
use ua_rate_throttling.Queue.Batch.{IsReady}
use ua_rate_throttling.Queue.InOrder.{sort-Increasing}
use ua_rate_throttling.Chunk.{good}
use ua_rate_throttling.Chunk.Libraries.{Stack}
use ua_rate_throttling.System.{
  Move, client_goes_on, callback_begins, task_runs, History, here, next,
}
use ua_rate_throttling.System.Libraries.{exists_node, child_node, Sequential}
use ua_rate_throttling.System.Pending.{
  names_of, Entry, numbers, contents, contents-append, contents-append_all, Holding,
}
use ua_rate_throttling.System.Sent.{Sends-Holding}
use ua_rate_throttling.System.Single.{
  process_tasks-Holding, execute_request-Holding, execute_all-Holding,
}

module _ (host : Host) (stack : Stack host)
    (s : ua_rate_throttling.Chunk.Documented.Documented host stack) (d : Documented host)
    (q : Qsort) (queue : Bytes) (z : Sequential host stack d queue)
    (buffers : (size : ℕ) (w : host.World) → stack.get_send_buffer size w ≡ good)
    (fits : length queue ≤ 65000) where
  -- The queue holds the tasks that the callback has still to run, and the newer ones behind them.
  -- What has been served and what is in the queue make up the messages, in their order.
  record Flowing (total : List (ℕ × ByteString)) (names : List Bytes) (w : host.World)
      : Type 0 where
    batch : List Entry
    newer : List Entry
    names-batch : names ≡ names_of batch
    holding : Holding host stack d queue z w (batch ++ newer)
    flow : d.served w ++ contents (batch ++ newer) ≡ total

  client-Flowing :
      {total : List (ℕ × ByteString)} {names : List Bytes} {w w' : host.World} {m : ℕ × ByteString}
      → Flowing total names w
      → ua_rate_throttling.System.Sends host stack s d q queue z buffers w m w'
      → Flowing (total ++ m ∷ []) names w'
  client-Flowing {total} {names} {w} {w'} {m} f sends =
      let es = f.batch ++ f.newer in
      let entry : Entry = (z.counter w, m) in
      let (h', served) = Sends-Holding host stack s d q queue z buffers fits sends es f.holding in
      let together : es ++ entry ∷ [] ≡ f.batch ++ (f.newer ++ entry ∷ []) =
        append_assoc f.batch f.newer (entry ∷ []) in
      record {
        batch = f.batch;
        newer = f.newer ++ entry ∷ [];
        names-batch = f.names-batch;
        holding = subst (Holding host stack d queue z w') together h';
        flow =
            ap (λ l. d.served w' ++ contents l) (sym together)
            ∙ (rw (served, contents-append es entry)
                (sym (append_assoc (d.served w) (contents es) (m ∷ []))
                  ∙ ap (λ ms. ms ++ m ∷ []) f.flow));
      }

  begin-Flowing :
      {total : List (ℕ × ByteString)} {w : host.World} (sorted : List Bytes)
      → Flowing total [] w
      → q.sort task_id_cmp (z.children w) ≡ some sorted
      → Flowing total sorted w
  unfolding names_of
  begin-Flowing {total} {w} sorted f e =
      let es = f.batch ++ f.newer in
      let h = f.holding in
      let all : es ++ [] ≡ es = append-nil es in
      let listed =
        sort-Increasing q (numbers es) h.increasing h.counters (z.children w)
          (z.lists w (numbers es) h.increasing h.counters h.there) in
      record {
        batch = es;
        newer = [];
        names-batch = cc (e, listed);
        holding = subst (Holding host stack d queue z w) (sym all) h;
        flow = ap (λ l. d.served w ++ contents l) all ∙ f.flow;
      }

  run-Flowing :
      {total : List (ℕ × ByteString)} {name : Bytes} {names : List Bytes} {w w' : host.World}
      (batch newer : List Entry)
      → name ∷ names ≡ names_of batch
      → Holding host stack d queue z w (batch ++ newer)
      → d.served w ++ contents (batch ++ newer) ≡ total
      → execute_request host (path_to_task queue name) w ≡ some w'
      → Flowing total names w'
  unfolding names_of
  run-Flowing [] newer named h flow ran = cc
  run-Flowing {total} {name} {names} {w} {w'} ((n, m) ∷ batch) newer named h flow ran =
      let (w1, ran1, h1, served) =
        execute_request-Holding host stack d queue z fits n m (batch ++ newer) w h in
      let same_name : name ≡ task_name n = cc named in
      let same_world : w1 ≡ w' =
        cc (ran1, ran, ap (λ k. execute_request host (path_to_task queue k) w) same_name) in
      record {
        batch = batch;
        newer = newer;
        names-batch = cc named;
        holding = subst (λ v. Holding host stack d queue z v (batch ++ newer)) same_world h1;
        flow =
            ap (λ v. d.served v ++ contents (batch ++ newer)) (sym same_world)
            ∙ (rw served (append_assoc (d.served w) (m ∷ []) (contents (batch ++ newer)) ∙ flow));
      }

  Move-Flowing :
      {total ns : List (ℕ × ByteString)} {state state' : List Bytes × host.World}
      → Flowing total state.0 state.1
      → Move host stack s d q queue z buffers state ns state'
      → Flowing (total ++ ns) state'.0 state'.1
  Move-Flowing f (client_goes_on sends) = client-Flowing f sends
  Move-Flowing {total} f (callback_begins {w = w} sorted e) =
      subst (λ l. Flowing l sorted w) (sym (append-nil total)) (begin-Flowing sorted f e)
  Move-Flowing {total} f (task_runs {names = names} {w' = w'} ran) =
      subst (λ l. Flowing l names w') (sym (append-nil total))
        (run-Flowing f.batch f.newer f.names-batch f.holding f.flow ran)

  History-Flowing :
      {total ms : List (ℕ × ByteString)} {state state' : List Bytes × host.World}
      → Flowing total state.0 state.1
      → History host stack s d q queue z buffers state ms state'
      → Flowing (total ++ ms) state'.0 state'.1
  History-Flowing {total} {ms} {state} {state'} f here =
      subst (λ l. Flowing l state'.0 state'.1) (sym (append-nil total)) f
  History-Flowing {total} {ms} {state} {state'} f (next {ms = ms'} {ns = ns} before move) =
      subst (λ l. Flowing l state'.0 state'.1) (append_assoc total ms' ns)
        (Move-Flowing (History-Flowing f before) move)

-- Let the queue of a server be empty at first, every znode fit the buffer that it is read into, and the
-- stack take the message of each task that is anywhere. Let clients with a connection and a send
-- buffer send chunks (CanSend: of bytes, whose tasks fit the buffer that the server reads them into,
-- with ids of 32 bits, and whose messages are complete chunks on a channel that is open at the server
-- and that they do not close) while ZooKeeper's 32-bit counter does not overflow, and let nobody else
-- write below the queue. Then, however these chunks and the single tasks that the server's callback
-- runs follow each other: what the server has processed, with what is pending, is the messages of the
-- chunks in the order in which they were sent; and if the clients stop, the callback runs its
-- remaining tasks to their end without a fault, and its next run all others, so that what was pending
-- is processed, each message once. The path of the queue has at most 65000 bytes, and a client gets a
-- buffer whenever it asks.
pub History-IsFifo :
    (host : Host) (stack : Stack host)
    (s : ua_rate_throttling.Chunk.Documented.Documented host stack) (d : Documented host)
    (q : Qsort) (queue : Bytes) (z : Sequential host stack d queue)
    (buffers : (size : ℕ) (w : host.World) → stack.get_send_buffer size w ≡ good)
    → length queue ≤ 65000
    → (w0 : host.World) → IsReady host d w0
    → ((name : Bytes) → exists_node (d.node w0 (child_node queue name)) ≡ false)
    → (ms : List (ℕ × ByteString)) (names : List Bytes) (w : host.World)
    → History host stack s d q queue z buffers ([], w0) ms (names, w)
    → (running : Bool)
    → (pending : List (ℕ × ByteString)) × (d.served w ++ pending ≡ d.served w0 ++ ms)
      × (w' : host.World) × (execute_all host queue names w ≡ some w')
      × (w'' : host.World) × (process_tasks host q zok (some (z.children w')) queue running w'
          ≡ some (running, w''))
      × (d.served w'' ≡ d.served w ++ pending)
unfolding names_of
History-IsFifo host stack s d q queue z buffers fits w0 ready empty ms names w history running =
    let f =
      History-Flowing host stack s d q queue z buffers fits
        (record {
          batch = [];
          newer = [];
          names-batch = refl;
          holding = record {
            increasing = tt;
            counters = tt;
            below = tt;
            there = empty;
            held = tt;
            ready = ready;
          };
          flow = append-nil (d.served w0);
        })
        history in
    let (w1, ran1, h1, served1) =
      execute_all-Holding host stack d queue z fits f.batch f.newer w f.holding in
    let (w2, ran2, h2, served2) =
      process_tasks-Holding host stack d queue z fits q w1 f.newer h1 running in
    (
      contents (f.batch ++ f.newer),
      f.flow,
      w1,
      ap (λ l. execute_all host queue l w) f.names-batch ∙ ran1,
      w2,
      ran2,
      served2
          ∙ (rw (served1, contents-append_all f.batch f.newer)
              (append_assoc (d.served w) (contents f.batch) (contents f.newer))),
    )
