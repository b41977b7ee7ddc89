-- ===== src/Task/Order/Ascending.antt =====
-- Only one ascending list of numbers holds given numbers.
use mathlib.Core.Logic.Or
use mathlib.Core.List.{Mem, Perm, Pairwise, mem-cons, mem-cons_self}
use mathlib.Core.List.Perm
use mathlib.Core.List.Pairwise
use mathlib.Core.Path.{ap₂}
use native.Mathlib.Bridge.{le_prop}
use native.Mathlib.Nat.{le_refl}
use ua_rate_throttling.Common.{ℕ, ◌≤◌, ◌≡◌, List, [], ◌∷◌, arith, subst, sym}

abbrev pub IsAscending : List ℕ → Type 0
IsAscending = Pairwise (λ (a b : ℕ). a ≤ b)

-- The head of an ascending list is below all of it.
head-le : (x : ℕ) (xs : List ℕ) (m : ℕ) → IsAscending (x ∷ xs) → Mem m (x ∷ xs) → x ≤ m
head-le x xs m (Pairwise.cons h _) e = Or.elim le_prop (mem-cons.0 e) (λ q. rw q (le_refl x)) (h m)

heads-le : (x y : ℕ) (xs ys : List ℕ) → IsAscending (x ∷ xs) → Perm (y ∷ ys) (x ∷ xs) → x ≤ y
heads-le x y xs ys s p = head-le x xs y s ((Perm.mem_iff p).0 mem-cons_self)

pub ascending_unique : (xs ys : List ℕ) → IsAscending xs → IsAscending ys → Perm xs ys → xs ≡ ys
ascending_unique [] ys sx sy p = Perm.nil-eq p
ascending_unique (x ∷ xs) [] sx sy p = Perm.eq-nil p
ascending_unique (x ∷ xs) (y ∷ ys) sx sy p =
    let e : x ≡ y = omega (arith, heads-le x y xs ys sx (Perm.symm p), heads-le y x ys xs sy p) in
    ap₂ ◌∷◌ e (
      ascending_unique xs ys (Pairwise.of_cons sx) (Pairwise.of_cons sy) (
        Perm.cons_inv
          (Perm.trans p (subst (λ z. Perm (y ∷ ys) (z ∷ ys)) (sym e) (Perm.refl (y ∷ ys))))))
