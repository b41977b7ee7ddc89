-- ===== src/Task.antt =====
-- The order of tasks: `zuth_extractTaskId` and `taskIdCmp` of examples/zuthServer.c.
pub mod Name
pub mod Order
use ua_rate_throttling.Common.{
  ℕ, ◌+◌, ◌%◌, ◌^◌, Option, some, [], Bytes, codes, length, drop, ◌==◌, if◌then◌else◌, ℤ, pos,
  negsuc, strstr, ◌>>=◌,
}
use ua_rate_throttling.Common.Cstdlib.{strtol, signed_ltb}

abbrev task : Bytes
task = codes "task-"

-- `zuth_extractTaskId`: what stands behind the first "task-". Without one, `strlen` reads through a
-- null pointer, and the result is `none`.
unfoldable pub extract_task_id : Bytes → Option Bytes
unfolding strstr
extract_task_id name = do loc_task ← strstr name task; some (drop (length task) loc_task)

-- The comparison of two ids, each the 64-bit pattern of a `long long`.
unfoldable pub compare_ids : ℕ → ℕ → ℤ
unfolding signed_ltb
compare_ids t1 t2 =
    if t1 == t2
    then pos 0
    else if signed_ltb t1 t2
    then negsuc 0
    else if signed_ltb t2 t1
    then pos 1
    else pos 0

-- `taskIdCmp`
unfoldable pub task_id_cmp : Bytes → Bytes → Option ℤ
task_id_cmp name1 name2 = do
  task_id1 ← extract_task_id name1
  task_id2 ← extract_task_id name2
  some (compare_ids (strtol task_id1 10) (strtol task_id2 10))
