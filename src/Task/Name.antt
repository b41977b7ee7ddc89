-- ===== src/Task/Name.antt =====
-- The names that ZooKeeper gives to tasks, and the ids that the server reads off them.
use ua_rate_throttling.Common.{
  ℕ, ◌^◌, ◌<◌, ◌≡◌, refl, ap, ◌∙◌, Option, some, ◌++◌, Bytes, codes, arith, ◌>>=◌, ◌==◌, ltb,
  if◌then◌else◌, ℤ, pos, negsuc,
}
use mathlib.Core.Path.{ap₂}
use ua_rate_throttling.Common.Cstdlib.Plain.{strtol-decimal_digits}
use ua_rate_throttling.Common.Cstdlib.{decimal_digits, strtol}
use ua_rate_throttling.Task.{extract_task_id, task_id_cmp, compare_ids}

-- The child that a create of "task-" with ZOO_SEQUENCE makes: ZooKeeper appends its counter in ten
-- decimal digits.
unfoldable pub task_name : ℕ → Bytes
unfolding decimal_digits
task_name n = codes "task-" ++ decimal_digits 10 n

pub extract_task_id-task_name : (n : ℕ) → extract_task_id (task_name n) ≡ some (decimal_digits 10 n)
unfolding extract_task_id task_name
extract_task_id-task_name n = refl

-- The number that a task's id stands for.
unfoldable pub task_number : Bytes → Option ℕ
task_number name = do id ← extract_task_id name; some (strtol id 10)

-- The id that is read off a task's name is the counter that ZooKeeper put there.
pub task_number-task_name : (n : ℕ) → n < 10 ^ 10 → task_number (task_name n) ≡ some n
unfolding task_number
task_number-task_name n h =
    rw (extract_task_id-task_name n) (ap some (strtol-decimal_digits 10 n h (omega arith)))

-- The order of numbers, as a comparator tells it.
unfoldable pub order : ℕ → ℕ → ℤ
order m n = if m == n then pos 0 else if ltb m n then negsuc 0 else pos 1

compare_ids-order : (m n : ℕ) → m < 2 ^ 63 → n < 2 ^ 63 → compare_ids m n ≡ order m n
unfolding compare_ids order
compare_ids-order m n hm hn = ground arith

-- `taskIdCmp` orders the tasks of a queue by their counters, while these have ten digits.
pub task_id_cmp-task_name :
    (m n : ℕ)
    → m < 10 ^ 10
    → n < 10 ^ 10
    → task_id_cmp (task_name m) (task_name n) ≡ some (order m n)
unfolding task_id_cmp
task_id_cmp-task_name m n hm hn =
    rw (extract_task_id-task_name m, extract_task_id-task_name n)
      (ap some (
        ap₂ compare_ids (strtol-decimal_digits 10 m hm (omega arith))
          (strtol-decimal_digits 10 n hn (omega arith))
        ∙ compare_ids-order m n (omega arith) (omega arith)))
