-- ===== src/Tests/Sorting.antt =====
-- A sort that keeps what is documented of `qsort`: insertion, with a comparator that may fault.
use mathlib.Core.Logic.Or
use mathlib.Core.List.{Mem, Perm, Pairwise, mem-cons, mem-cons_self, mem-cons_of_mem, not-mem-nil}
use mathlib.Core.List.Perm
use mathlib.Core.List.Pairwise
use native.Mathlib.Bridge.{le_prop}
use ua_rate_throttling.Common.{
  ℕ, ◌≤◌, ◌<◌, ◌≡◌, refl, ap, Option, some, List, [], ◌∷◌, Bytes, ℤ, pos, negsuc, zero, suc, arith,
  ◌>>=◌, ltb, Bool-cases, inl, inr,
}
use ua_rate_throttling.Task.Name.{order}
use ua_rate_throttling.Task.Order.{Qsort}

abbrev Comparator : Type 0
Comparator = Bytes → Bytes → Option ℤ

-- Where an element goes before the head, and where it goes into the tail.
place : Bytes → Bytes → List Bytes → Option (List Bytes) → ℤ → Option (List Bytes)
place x y ys rest (pos zero) = some (x ∷ y ∷ ys)
place x y ys rest (pos (suc n)) = do tail ← rest; some (y ∷ tail)
place x y ys rest (negsuc n) = some (x ∷ y ∷ ys)

insert : Comparator → Bytes → List Bytes → Option (List Bytes)
unfolding place
insert compare x [] = some (x ∷ [])
insert compare x (y ∷ ys) =
    let rest = insert compare x ys in do result ← compare x y; place x y ys rest result

pub sort : Comparator → List Bytes → Option (List Bytes)
unfolding insert
sort compare [] = some []
sort compare (x ∷ xs) = do sorted ← sort compare xs; insert compare x sorted

module _ (compare : Comparator) (key : Bytes → ℕ) where
  abbrev Ordered : List Bytes → Type 0
  Ordered = Pairwise (λ a b. key a ≤ key b)

  abbrev Inserted : Bytes → List Bytes → Type 0
  Inserted x ys =
      (zs : List Bytes) × (insert compare x ys ≡ some zs) × Perm zs (x ∷ ys) × Ordered zs

  place_low :
      (x y : Bytes) (ys : List Bytes) (rest : Option (List Bytes))
      → key x ≤ key y
      → place x y ys rest (order (key x) (key y)) ≡ some (x ∷ y ∷ ys)
  unfolding place order
  place_low x y ys rest h = ground arith

  place_high :
      (x y : Bytes) (ys zs : List Bytes)
      → key y < key x
      → place x y ys (some zs) (order (key x) (key y)) ≡ some (y ∷ zs)
  unfolding place order
  place_high x y ys zs h = ground arith

  below :
      (x y : Bytes) (ys : List Bytes)
      → key x ≤ key y
      → Ordered (y ∷ ys)
      → (b : Bytes) → Mem b (y ∷ ys)
      → key x ≤ key b
  below x y ys h (Pairwise.cons p _) b m =
      Or.elim le_prop (mem-cons.0 m) (λ (e : b ≡ y). omega (arith, ap key e, h))
        (λ k. omega (arith, h, p b k))

  above : (y : Bytes) (ys : List Bytes) → Ordered (y ∷ ys) → (b : Bytes) → Mem b ys → key y ≤ key b
  above y ys (Pairwise.cons p _) b m = p b m

  insert-Inserted :
      (x : Bytes) (ys : List Bytes)
      → ((b : Bytes) → Mem b ys → compare x b ≡ some (order (key x) (key b)))
      → Ordered ys
      → Inserted x ys
  unfolding insert
  insert-Inserted x [] agrees ordered =
      (x ∷ [], refl, Perm.refl _, Pairwise.cons (λ b m. absurd (not-mem-nil m)) Pairwise.nil)
  insert-Inserted x (y ∷ ys) agrees ordered = elim (Bool-cases (ltb (key y) (key x))) [
    | inl high ↦
        let (zs, done, perm, sorted) =
          insert-Inserted x ys (λ b m. agrees b (mem-cons_of_mem y m)) (Pairwise.of_cons ordered) in
        (
          y ∷ zs,
          rw (agrees y mem-cons_self, done) (place_high x y ys zs (ground arith)),
          Perm.trans (Perm.cons y perm) (Perm.swap x y ys),
          Pairwise.cons
              (λ b m.
                Or.elim le_prop (mem-cons.0 ((Perm.mem_iff perm).0 m))
                  (λ (e : b ≡ x). ground (arith, ap key e)) (λ k. above y ys ordered b k))
              sorted,
        )
    | inr low ↦ (
      x ∷ y ∷ ys,
      rw (agrees y mem-cons_self) (place_low x y ys _ (ground arith)),
      Perm.refl _,
      Pairwise.cons (below x y ys (ground arith) ordered) ordered,
    )
  ]

  pub sort-Sorted :
      (xs : List Bytes)
      → ((a b : Bytes) → Mem a xs → Mem b xs → compare a b ≡ some (order (key a) (key b)))
      → (ys : List Bytes) × (sort compare xs ≡ some ys) × Perm ys xs × Ordered ys
  unfolding sort
  sort-Sorted [] agrees = ([], refl, Perm.refl _, Pairwise.nil)
  sort-Sorted (x ∷ xs) agrees =
      let (ys, done, perm, sorted) =
        sort-Sorted xs (λ a b ma mb. agrees a b (mem-cons_of_mem x ma) (mem-cons_of_mem x mb)) in
      let (zs, done', perm', sorted') =
        insert-Inserted x ys
          (λ b m. agrees x b mem-cons_self (mem-cons_of_mem x ((Perm.mem_iff perm).0 m))) sorted in
      (zs, rw done done', Perm.trans perm' (Perm.cons x perm), sorted')

abbrev pub insertion_sort : Qsort
insertion_sort = record { sort = sort; sorts = sort-Sorted }
