-- ===== src/System/Pending.antt =====
-- The tasks that are in a queue, and what adding one and working them off does to them.
use ua_rate_throttling.Common.{
  ℕ, ◌+◌, ◌≤◌, ◌<◌, ◌≡◌, refl, sym, ap, ◌∙◌, false, ◌||◌, Option, some, List, [], ◌∷◌, ◌++◌, Bytes,
  codes, length, All, ◌==◌, if◌then◌else◌, Bool-cases, inl, inr, arith, subst,
}
use ua_rate_throttling.Znode.{buffer_size}
use mathlib.Core.List.{map}
use ua_rate_throttling.Task.Name.{task_name}
use ua_rate_throttling.Task.Order.{IsCounter}
use ua_rate_throttling.Queue.Libraries.{Host, ByteString}
use ua_rate_throttling.Queue.Documented.{Documented, same, same→eq, same_refl, listed}
use ua_rate_throttling.Queue.Batch.{
  IsReadable, IsReady, IsTaken, IsTaken-eq, IsReadable-later, request_at,
}
use ua_rate_throttling.Queue.InOrder.{Increasing, path_to_task-eq, path_to_task_injective}
use ua_rate_throttling.Chunk.Libraries.{Stack}
use ua_rate_throttling.System.Libraries.{
  mem, exists_node, child_node, task_node, task_prefix, CountsUp, Sequential,
}

-- A message with the counter of its task.
abbrev pub Entry : Type 0
Entry = ℕ × (ℕ × ByteString)

abbrev pub numbers : List Entry → List ℕ
numbers [] = []
numbers ((n, m) ∷ es) = n ∷ numbers es

abbrev pub contents : List Entry → List (ℕ × ByteString)
contents [] = []
contents ((n, m) ∷ es) = m ∷ contents es

All-numbers :
    (P : ℕ → Type 0) (es : List Entry) (e : Entry)
    → All P (numbers es)
    → P e.0
    → All P (numbers (es ++ e ∷ []))
All-numbers P [] e h p = (p, tt)
All-numbers P ((n, m) ∷ es) e h p = (h.0, All-numbers P es e h.1 p)

below_raised : (c c' : ℕ) (ns : List ℕ) → c ≤ c' → All (λ n. n < c) ns → All (λ n. n < c') ns
below_raised c c' [] h below = tt
below_raised c c' (n ∷ ns) h below = (omega (arith, h, below.0), below_raised c c' ns h below.1)

-- Counters that go up, with one above them all.
Increasing-append :
    (es : List Entry) (e : Entry)
    → Increasing (numbers es)
    → All (λ n. n < e.0) (numbers es)
    → Increasing (numbers (es ++ e ∷ []))
Increasing-append [] e h above = omega arith
Increasing-append ((n, m) ∷ es) e h above =
    (All-numbers (λ m. n < m) es e h.0 above.0, Increasing-append es e h.1 above.1)

pub same-append : (p s t : Bytes) → same (p ++ s) (p ++ t) ≡ same s t
unfolding same
same-append [] s t = refl
same-append (c ∷ p) s t = ground (arith, same-append p s t)

-- The names of the tasks of entries.
unfoldable pub names_of : List Entry → List Bytes
names_of es = map task_name (numbers es)

listed-append :
    (name : Bytes) (es : List Entry) (e : Entry)
    → listed name (names_of (es ++ e ∷ []))
      ≡ (listed name (names_of es) || same (task_name e.0) name)
unfolding names_of
listed-append name [] e = ground arith
listed-append name ((n, m) ∷ es) e = ground (arith, listed-append name es e)

pub contents-append :
    (es : List Entry) (e : Entry) → contents (es ++ e ∷ []) ≡ contents es ++ e.1 ∷ []
contents-append [] e = refl
contents-append ((n, m) ∷ es) e = ap (λ ms. m ∷ ms) (contents-append es e)

pub contents-append_all : (es fs : List Entry) → contents (es ++ fs) ≡ contents es ++ contents fs
contents-append_all [] fs = refl
contents-append_all (e ∷ es) fs = ap (λ ms. e.1 ∷ ms) (contents-append_all es fs)

-- Two paths of tasks are the same exactly if their counters are.
pub same-task_node :
    (queue : Bytes)
    → length queue ≤ 65000
    → (m n : ℕ) → IsCounter m
    → IsCounter n
    → same (task_node queue m) (task_node queue n) ≡ (m == n)
same-task_node queue fits m n hm hn = elim (Bool-cases (m == n)) [
  | inl equal ↦
      let e : m ≡ n = ground arith in
      ap (λ k. same (task_node queue m) (task_node queue k)) (sym e)
      ∙ same_refl (task_node queue m)
      ∙ sym equal
  | inr other ↦ elim (Bool-cases (same (task_node queue m) (task_node queue n))) [
    | inl hit ↦ absurd (
        ground (
          arith,
          path_to_task_injective queue fits m n hm hn
              (path_to_task-eq queue fits m ∙ same→eq _ _ hit ∙ sym (path_to_task-eq queue fits n)),
        ))
    | inr miss ↦ miss ∙ sym other
  ]
]

-- Whether a name is that of a task.
pub listed-task_names :
    (queue : Bytes)
    → length queue ≤ 65000
    → (n : ℕ) (ns : List ℕ) → IsCounter n
    → All IsCounter ns
    → listed (task_name n) (map task_name ns) ≡ mem n ns
listed-task_names queue fits n [] h hs = refl
listed-task_names queue fits n (k ∷ ns) h hs =
    rw
      (
        sym (same-append (queue ++ codes "/") (task_name k) (task_name n)),
        same-task_node queue fits k n hs.0 h,
        listed-task_names queue fits n ns h hs.1,
      )
      refl

module _ (host : Host) (stack : Stack host) (d : Documented host) (queue : Bytes)
    (z : Sequential host stack d queue) where
  abbrev pub node_at : host.World → ℕ → Option Bytes
  node_at w n = d.node w (task_node queue n)

  -- The znodes of the entries hold tasks with their messages.
  abbrev pub Held : host.World → List Entry → Type 0
  Held w [] = Unit
  Held w ((n, m) ∷ es) = (request_at host d (node_at w n) ≡ some m) × Held w es

  -- The queue holds the tasks of these entries, and nothing else.
  pub record Holding (w : host.World) (es : List Entry) : Type 0 where
    pub increasing : Increasing (numbers es)
    pub counters : All IsCounter (numbers es)
    pub below : All (λ n. n < z.counter w) (numbers es)
    pub there :
        (name : Bytes) → exists_node (d.node w (child_node queue name)) ≡ listed name (names_of es)
    pub held : Held w es
    pub ready : IsReady host d w

  module _ (fits : length queue ≤ 65000) (data' : Bytes) (w : host.World)
      (counts : CountsUp (z.counter w)) where
    counter : IsCounter (z.counter w)
    counter = omega (arith, counts)

    abbrev created : host.World
    created = (stack.zoo_create (task_prefix queue) data' w).1

    node_at-created :
        (n : ℕ)
        → IsCounter n
        → node_at created n ≡ (if z.counter w == n then some data' else node_at w n)
    node_at-created n h =
        z.creates data' w (task_node queue n) counter
        ∙ ap (λ b. if b then some data' else node_at w n)
            (same-task_node queue fits (z.counter w) n counter h)

    Held-created :
        (es : List Entry)
        → All IsCounter (numbers es)
        → All (λ n. n < z.counter w) (numbers es)
        → Held w es
        → Held created es
    Held-created [] counters below h = tt
    Held-created ((n, m) ∷ es) counters below h =
        let other : (z.counter w == n) ≡ false = ground (arith, below.0) in
        (rw (node_at-created n counters.0, other) h.0, Held-created es counters.1 below.1 h.1)

    Held-append :
        (w' : host.World) (es : List Entry) (e : Entry)
        → Held w' es
        → request_at host d (node_at w' e.0) ≡ some e.1
        → Held w' (es ++ e ∷ [])
    Held-append w' [] e h read = (read, tt)
    Held-append w' ((n, m) ∷ es) e h read = (h.0, Held-append w' es e h.1 read)

    created-IsReady :
        (m : ℕ × ByteString)
        → IsReady host d w
        → length data' < buffer_size
        → request_at host d (some data') ≡ some m
        → IsTaken host d w m.0 m.1
        → IsReady host d created
    created-IsReady m ready short read taken p =
        elim (Bool-cases (same (task_node queue (z.counter w)) p)) [
          | inl new ↦
              subst (IsReadable host d created) (sym (z.creates data' w p counter ∙ (rw new))) (
                short,
                IsTaken-eq host d created _ m read
                    (z.creates_open data' w m.0 taken.0, taken.1, taken.2),
              )
          | inr old ↦
              subst (IsReadable host d created) (sym (z.creates data' w p counter ∙ (rw old)))
                (IsReadable-later host d w created (d.node w p) (z.creates_open data' w) (ready p))
        ]

    -- A task that is created stands behind those that are there.
    pub created-Holding :
        (es : List Entry) (m : ℕ × ByteString)
        → Holding w es
        → length data' < buffer_size
        → request_at host d (some data') ≡ some m
        → IsTaken host d w m.0 m.1
        → Holding created (es ++ (z.counter w, m) ∷ [])
    created-Holding es m h short read taken = record {
      increasing = Increasing-append es _ h.increasing h.below;
      counters = All-numbers IsCounter es _ h.counters counter;
      below = rw (z.counts data' w counts) (
          All-numbers (λ n. n < z.counter w + 1) es _
            (below_raised (z.counter w) (z.counter w + 1) (numbers es) (omega arith) h.below)
            (omega arith));
      there = λ name.
          rw
            (
              z.creates data' w (child_node queue name) counter,
              same-append (queue ++ codes "/") (task_name (z.counter w)) name,
              listed-append name es (z.counter w, m),
            )
            (ground (arith, h.there name));
      held =
          Held-append created es (z.counter w, m) (Held-created es h.counters h.below h.held)
            (rw (node_at-created (z.counter w) counter) (ground (arith, read)));
      ready = created-IsReady m h.ready short read taken;
    }
