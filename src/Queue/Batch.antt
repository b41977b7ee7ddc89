-- ===== src/Queue/Batch.antt =====
-- What working off a batch of tasks leaves behind.
use ua_rate_throttling.Common.{
  length, ◌<◌, subst, ℕ, ◌≡◌, refl, ap, sym, ◌∙◌, Bool, true, false, ◌&&◌, Option, none, some, List,
  [], ◌∷◌, ◌++◌, Bytes, if◌then◌else◌, append-nil, Bool-cases, inl, inr, arith, ◌<◌,
}
use mathlib.Core.Path.{ap₂, subst}
use mathlib.Core.List.{map, append_assoc}
use ua_rate_throttling.Znode.{buffer_size}
use ua_rate_throttling.Queue.{read_request, run_request, execute_request, execute_all, path_to_task}
use ua_rate_throttling.Queue.Libraries.{Host, ByteString}
use ua_rate_throttling.Queue.Documented.{
  Documented, same, text, same_comm, same→eq, IsDistinct, listed,
}

module _ (host : Host) (d : Documented host) where
  -- The request in a znode.
  unfoldable pub request_at : Option Bytes → Option (ℕ × ByteString)
  request_at data' = read_request host (text data')

  pub request_at-none : request_at none ≡ none
  unfolding request_at read_request
  request_at-none = rw d.loads_nothing

  abbrev pub to_list : Option (ℕ × ByteString) → List (ℕ × ByteString)
  to_list none = []
  to_list (some r) = r ∷ []

  abbrev pub is_some : Option (ℕ × ByteString) → Bool
  is_some none = false
  is_some (some r) = true

  -- The stack takes a message: it consists of complete chunks, its channel is open, and it does
  -- not close it.
  abbrev pub IsTaken : host.World → ℕ → ByteString → Type 0
  IsTaken w id dst = d.IsOpen w id × d.IsWhole dst × (d.closes dst ≡ false)

  -- A znode can be read into the buffer, and the stack takes a message in it.
  abbrev pub IsReadable : host.World → Option Bytes → Type 0
  IsReadable w data' =
      (length (text data') < buffer_size)
      × ((id : ℕ) (dst : ByteString) → request_at data' ≡ some (id, dst) → IsTaken w id dst)

  abbrev pub IsReady : host.World → Type 0
  IsReady w = (p : Bytes) → IsReadable w (d.node w p)

  -- What is known of a message is known by any other name of it.
  pub IsTaken-eq :
      (w : host.World) (r : Option (ℕ × ByteString)) (m : ℕ × ByteString)
      → r ≡ some m
      → IsTaken w m.0 m.1
      → (id : ℕ) (dst : ByteString) → r ≡ some (id, dst)
      → IsTaken w id dst
  IsTaken-eq w r m read taken id dst e =
      let same_message : m ≡ (id, dst) = cc (read, e) in
      subst (λ m. IsTaken w m.0 m.1) same_message taken

  -- A message is taken as long as its channel stays open.
  pub IsReadable-later :
      (w w' : host.World) (data' : Option Bytes)
      → ((id : ℕ) → d.IsOpen w id → d.IsOpen w' id)
      → IsReadable w data'
      → IsReadable w' data'
  IsReadable-later w w' data' opens h = (
    h.0,
    λ id dst e. let (opened, bytes, stays) = h.1 id dst e in (opens id opened, bytes, stays),
  )

  -- What one call of `zuth_executeRequest` does.
  pub record Executed (p : Bytes) (w w' : host.World) : Type 0 where
    pub nodes :
        (q : Bytes)
        → d.node w' q ≡ (if same p q && is_some (request_at (d.node w p)) then none else d.node w q)
    pub serves : d.served w' ≡ d.served w ++ to_list (request_at (d.node w p))
    pub opens : (id : ℕ) → d.IsOpen w id → d.IsOpen w' id

  run_request-Executed :
      (p : Bytes) (w : host.World) (r : Option (ℕ × ByteString))
      → request_at (d.node w p) ≡ r
      → ((id : ℕ) (dst : ByteString) → r ≡ some (id, dst) → IsTaken w id dst)
      → (w' : host.World) × (run_request host p w r ≡ some w') × Executed p w w'
  unfolding run_request
  run_request-Executed p w none e open_ids = (
    w,
    refl,
    record {
      nodes = λ q. rw e (ground arith);
      serves = rw e (sym (append-nil (d.served w)));
      opens = λ id h. h;
    },
  )
  run_request-Executed p w (some (id, dst)) e open_ids =
      let (opened, bytes, stays) = open_ids id dst refl in
      let (w', done, logged, kept, opens) = d.processes id dst w opened bytes stays in
      (
        host.zoo_delete p w',
        rw done,
        record {
          nodes = λ q. rw e (d.deletes p q w' ∙ ground (arith, kept q));
          serves = rw e (d.deletes_only p w' ∙ logged);
          opens = λ i h. d.deletes_none p w' i (opens i h);
        },
      )

  pub execute_request-Executed :
      (p : Bytes) (w : host.World)
      → IsReady w
      → (w' : host.World) × (execute_request host p w ≡ some w') × Executed p w w'
  unfolding execute_request request_at
  execute_request-Executed p w ready =
      let (w', ran, x) =
        run_request-Executed p w (read_request host (text (d.node w p))) refl (ready p).1 in
      (w', ap (λ t. run_request host p w (read_request host t)) (d.gets p w (ready p).0) ∙ ran, x)

  pub Executed-IsReady : {p : Bytes} {w w' : host.World} → Executed p w w' → IsReady w → IsReady w'
  Executed-IsReady {p} {w} {w'} x ready q =
      elim (Bool-cases (same p q && is_some (request_at (d.node w p)))) [
        | inl gone ↦
            let n : d.node w' q ≡ none = x.nodes q ∙ (rw gone) in
            subst (IsReadable w') (sym n)
              (omega arith, λ id dst e. absurd (cc (e, request_at-none)))
        | inr stays ↦
            let n : d.node w' q ≡ d.node w q = x.nodes q ∙ (rw stays) in
            subst (IsReadable w') (sym n) (IsReadable-later w w' (d.node w q) x.opens (ready q))
      ]

  -- The requests of a batch, in its order.
  abbrev pub requests : List Bytes → host.World → List (ℕ × ByteString)
  requests [] w = []
  requests (p ∷ ps) w = to_list (request_at (d.node w p)) ++ requests ps w

  pub record Drained (paths : List Bytes) (w w' : host.World) : Type 0 where
    -- A listed task with a readable document is gone, and all else is as it was.
    pub nodes :
        (q : Bytes)
        → d.node w' q
          ≡ (if listed q paths && is_some (request_at (d.node w q)) then none else d.node w q)
    pub keeps_open : (id : ℕ) → d.IsOpen w id → d.IsOpen w' id
    -- The requests are served in the order of the batch, each once.
    pub serves : d.served w' ≡ d.served w ++ requests paths w

  -- A step deletes none of the other tasks.
  requests-Executed :
      (p : Bytes) (ps : List Bytes) (w w' : host.World)
      → Executed p w w'
      → listed p ps ≡ false
      → requests ps w' ≡ requests ps w
  requests-Executed p [] w w' x h = refl
  requests-Executed p (q ∷ ps) w w' x h =
      let apart : same p q ≡ false = same_comm p q ∙ ground arith in
      let kept : d.node w' q ≡ d.node w q = x.nodes q ∙ (rw apart) in
      ap₂ (λ a b. to_list (request_at a) ++ b) kept (requests-Executed p ps w w' x (ground arith))

  -- The znode at the end, from the znode in between.
  node_at_end : Bool → Option Bytes → Option Bytes
  node_at_end on_list data' = if on_list && is_some (request_at data') then none else data'

  node_at_end-none : (b : Bool) → node_at_end b none ≡ none
  unfolding node_at_end
  node_at_end-none true = rw request_at-none
  node_at_end-none false = refl

  node_at_end_self :
      (b : Bool) (data' : Option Bytes)
      → node_at_end b (node_at_end true data') ≡ node_at_end true data'
  unfolding node_at_end
  node_at_end_self b data' = ground (arith, request_at-none)

  nodes_step :
      (p : Bytes) (ps : List Bytes) (w w' : host.World) (q : Bytes)
      → Executed p w w'
      → node_at_end (listed q ps) (d.node w' q) ≡ node_at_end (listed q (p ∷ ps)) (d.node w q)
  nodes_step p ps w w' q x = elim (Bool-cases (same p q)) [
    | inl hit ↦
        let e : d.node w q ≡ d.node w p = ap (d.node w) (sym (same→eq p q hit)) in
        let n : d.node w' q ≡ node_at_end true (d.node w q) =
          unfold node_at_end in (x.nodes q ∙ (rw (hit, e))) in
        rw (hit, n) (node_at_end_self (listed q ps) (d.node w q))
    | inr miss ↦ let n : d.node w' q ≡ d.node w q = x.nodes q ∙ (rw miss) in rw (miss, n)
  ]

  Drained-step :
      {p : Bytes} {ps : List Bytes} {w w' w'' : host.World}
      → Executed p w w'
      → listed p ps ≡ false
      → Drained ps w' w''
      → Drained (p ∷ ps) w w''
  unfolding node_at_end
  Drained-step {p} {ps} {w} {w'} {w''} x apart rest = record {
    nodes = λ q. rest.nodes q ∙ nodes_step p ps w w' q x;
    serves =
        rest.serves
        ∙ ap₂ ◌++◌ x.serves (requests-Executed p ps w w' x apart)
        ∙ append_assoc (d.served w) (to_list (request_at (d.node w p))) (requests ps w);
    keeps_open = λ id h. rest.keeps_open id (x.opens id h);
  }

  -- Where every znode fits the buffer that it is read into, and the message of each readable task
  -- consists of complete chunks, on an open channel that it does not close, working off any list of
  -- tasks with different paths ends without a fault, has the stack process the message of each
  -- readable task once and in order, deletes those tasks, and leaves every other znode, the listed
  -- tasks without a readable document too, as it was.
  pub execute_all-Drained :
      (queue : Bytes) (names : List Bytes) (w : host.World)
      → IsReady w
      → IsDistinct (map (path_to_task queue) names)
      → (w' : host.World) × (execute_all host queue names w ≡ some w')
        × Drained (map (path_to_task queue) names) w w'
  unfolding execute_all
  execute_all-Drained queue [] w ready distinct = (
    w,
    refl,
    record { nodes = λ q. refl; keeps_open = λ id h. h; serves = sym (append-nil (d.served w)) },
  )
  execute_all-Drained queue (name ∷ names) w ready distinct =
      let (w1, ran, x) = execute_request-Executed (path_to_task queue name) w ready in
      let (w2, rest, drained) =
        execute_all-Drained queue names w1 (Executed-IsReady x ready) distinct.1 in
      (w2, rw ran rest, Drained-step x distinct.0 drained)
