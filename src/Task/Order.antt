-- ===== src/Task/Order.antt =====
-- Sorting the tasks of a queue: `qsort` with `taskIdCmp`.
mod Ascending
use mathlib.Core.Logic.{∥∥₁_elim}
use mathlib.Core.HLevel.{×_prop}
use native.Mathlib.Bridge.{le_prop}
use native.Mathlib.Decide.{ℕ_discrete}
use mathlib.Core.List.{
  Mem, Perm, Pairwise, map, mem-map, mem-cons, mem-cons_self, mem-cons_of_mem, Pairwise-map,
  mem-map_of_mem,
}
use mathlib.Core.List.Perm
use mathlib.Core.Path.{ap₂}
use ua_rate_throttling.Common.{
  ℕ, ◌^◌, ◌≤◌, ◌<◌, ◌≡◌, refl, Option, none, some, List, [], ◌∷◌, Bytes, ℤ, arith, ap, sym, ◌∙◌,
  subst,
}
use ua_rate_throttling.Task.{task_id_cmp}
use ua_rate_throttling.Task.Name.{
  task_name, task_number, task_number-task_name, order, task_id_cmp-task_name,
}
pub use Ascending.{IsAscending}
use Ascending.{ascending_unique}

-- `qsort` of C's standard library, on an array of strings, with a comparator that may fault. What
-- is documented: where the comparator orders the elements by a key, the array is left holding the
-- same elements in ascending order, and the order of equal elements is not specified.
pub record Qsort : Type 0 where
  pub sort : (Bytes → Bytes → Option ℤ) → List Bytes → Option (List Bytes)
  pub sorts :
      (compare : Bytes → Bytes → Option ℤ) (key : Bytes → ℕ) (xs : List Bytes)
      → ((a b : Bytes) → Mem a xs → Mem b xs → compare a b ≡ some (order (key a) (key b)))
      → (ys : List Bytes) × (sort compare xs ≡ some ys)
        × Perm ys xs
        × Pairwise (λ a b. key a ≤ key b) ys

-- A task counter that ZooKeeper prints in ten digits.
abbrev pub IsCounter : ℕ → Type 0
IsCounter n = n < 10 ^ 10

counter_of : Option ℕ → ℕ
counter_of none = 0
counter_of (some n) = n

key : Bytes → ℕ
key name = counter_of (task_number name)

key-task_name : (n : ℕ) → IsCounter n → key (task_name n) ≡ n
unfolding key counter_of
key-task_name n h = rw (task_number-task_name n h)

-- What is known of an element of the array.
abbrev IsTask : Bytes → Type 0
IsTask name = (name ≡ task_name (key name)) × IsCounter (key name)

Bytes-set : IsSet Bytes
Bytes-set = hlevel

IsTask-prop : (name : Bytes) → IsProp (IsTask name)
IsTask-prop name = ×_prop (Bytes-set _ _) le_prop

module _ (ns : List ℕ) (counters : (n : ℕ) → Mem n ns → IsCounter n) where
  mem-IsTask : (name : Bytes) → Mem name (map task_name ns) → IsTask name
  mem-IsTask name m = ∥∥₁_elim (mem-map.0 m) (IsTask-prop name) λ (n, k, e).
      let q : key name ≡ n = ap key (sym e) ∙ key-task_name n (counters n k) in
      (sym e ∙ ap task_name (sym q), subst IsCounter (sym q) (counters n k))

map-key-task_names :
    (ns : List ℕ) → ((n : ℕ) → Mem n ns → IsCounter n) → map key (map task_name ns) ≡ ns
map-key-task_names [] h = refl
map-key-task_names (n ∷ ns) h =
    ap₂ ◌∷◌ (key-task_name n (h n mem-cons_self))
      (map-key-task_names ns (λ m k. h m (mem-cons_of_mem n k)))

task_names-map-key :
    (ys : List Bytes) → ((y : Bytes) → Mem y ys → IsTask y) → map task_name (map key ys) ≡ ys
task_names-map-key [] h = refl
task_names-map-key (y ∷ ys) h =
    ap₂ ◌∷◌ (sym (h y mem-cons_self).0) (task_names-map-key ys (λ z m. h z (mem-cons_of_mem y m)))

-- The comparator orders tasks by their counters.
task_id_cmp-IsTask :
    (a b : Bytes) → IsTask a → IsTask b → task_id_cmp a b ≡ some (order (key a) (key b))
task_id_cmp-IsTask a b ha hb =
    ap₂ task_id_cmp ha.0 hb.0 ∙ task_id_cmp-task_name (key a) (key b) ha.1 hb.1

-- Whatever order the children of a queue are returned in, sorting them with `taskIdCmp` puts the
-- tasks in the order of their counters, which is the order in which ZooKeeper created them.
pub sort-task_names :
    (q : Qsort) (ns : List ℕ) (children : List Bytes)
    → IsAscending ns
    → ((n : ℕ) → Mem n ns → IsCounter n)
    → Perm children (map task_name ns)
    → q.sort task_id_cmp children ≡ some (map task_name ns)
sort-task_names q ns children ascending counters perm =
    let is_task : ((a : Bytes) → Mem a children → IsTask a) =
      λ a m. mem-IsTask ns counters a ((Perm.mem_iff perm).0 m) in
    let (ys, sorted, same, ordered) =
      q.sorts task_id_cmp key children
        (λ a b ma mb. task_id_cmp-IsTask a b (is_task a ma) (is_task b mb)) in
    let keys : map key ys ≡ ns =
      ascending_unique (map key ys) ns
        ((Pairwise-map {R = λ (m n : ℕ). m ≤ n} (λ a b. le_prop) key).1 ordered) ascending
        (subst (Perm (map key ys)) (map-key-task_names ns counters)
          (Perm.map key (Perm.trans same perm))) in
    let back : map task_name (map key ys) ≡ ys =
      task_names-map-key ys (λ y m. is_task y ((Perm.mem_iff same).0 m)) in
    sorted ∙ ap some (sym back ∙ ap (map task_name) keys)
