-- ===== src/Hash.antt =====
-- The keys of the task table: `zkUA_hash` and `zkUA_equalKeys` of src/zk_cli.c. The table itself is a
-- copy of another library's, and nothing is put into it.
pub mod Keys
use ua_rate_throttling.Common.{
  ℕ, ◌+◌, ◌-◌, ◌*◌, ◌%◌, ◌^◌, Bool, true, false, ◌&&◌, [], ◌∷◌, Bytes, take, ltb, ◌==◌,
  if◌then◌else◌,
}

-- A `char` as an `int`, and that as an `unsigned int`.
abbrev widen : ℕ → ℕ
widen c = if ltb c 128 then c else c + 2 ^ 32 - 256

-- `hash * 33 + c`, in 32 bits
hash_step : ℕ → ℕ → ℕ
hash_step hash c = (hash * 32 % 2 ^ 32 + hash + widen c) % 2 ^ 32

hash_from : ℕ → Bytes → ℕ
unfolding hash_step
hash_from hash [] = hash
hash_from hash (c ∷ s) = hash_from (hash_step hash c) s

-- `zkUA_hash`
unfoldable pub hash : Bytes → ℕ
unfolding hash_from
hash s = hash_from 5381 s

-- `memcmp` of two buffers of the same size
memcmp_eq : Bytes → Bytes → Bool
memcmp_eq [] [] = true
memcmp_eq [] (b ∷ t) = false
memcmp_eq (a ∷ s) [] = false
memcmp_eq (a ∷ s) (b ∷ t) = a == b && memcmp_eq s t

-- `zkUA_equalKeys`: `sizeof(unsigned long)` bytes are compared, of keys that have as many.
unfoldable pub equal_keys : Bytes → Bytes → Bool
unfolding memcmp_eq
equal_keys k1 k2 = memcmp_eq (take 8 k1) (take 8 k2)
