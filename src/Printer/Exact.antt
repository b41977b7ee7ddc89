-- ===== src/Printer/Exact.antt =====
-- The values whose printed lines tell them apart, and what a line tells of its value.
use mathlib.Core.List.{append_cancel_right}
use ua_rate_throttling.Common.{
  ℕ, ◌+◌, ◌%◌, ◌^◌, ◌<◌, ◌≡◌, refl, sym, ap, ◌∙◌, inl, inr, Bool-cases, ◌∷◌, ◌++◌, append_assoc,
  append_cancel_left, Bytes, codes, All, All-append, ◌==◌, arith,
}
use ua_rate_throttling.Common.Cstdlib.{strtol}
use ua_rate_throttling.Common.Cstdlib.Signed.{
  print_long, strtol-print_long, print_long-IsApart, IsApart,
}
use ua_rate_throttling.Printer.{
  JsonValue, json_object, json_array, json_string, json_integer, json_real, json_true, json_false,
  json_null, JsonElements, no_element, element, JsonMembers, no_member, member, json_array_size,
  json_object_size, json_plural, print_json_indent, print_json_aux, print_json_object,
}
use ua_rate_throttling.Printer.Lines.{split_at}
use ua_rate_throttling.Printer.Shape.{head, below, print_json_aux-head}

abbrev pub IsLine : Bytes → Type 0
IsLine = All (IsApart b'\n')

-- The values that can be told apart: no string and no key has a line feed in it, an integer has 64
-- bits, the sizes are those of arrays and objects in memory, and the reals are some that `%f` tells
-- apart.
unfoldable mutual
  pub IsExact : (ℕ → Type 0) → JsonValue → Type 0
  IsExact R (json_object ms) = (json_object_size ms < 2 ^ 63) × AreExactMembers R ms
  IsExact R (json_array es) = (json_array_size es < 2 ^ 63) × AreExactElements R es
  IsExact R (json_string s) = IsLine s
  IsExact R (json_integer n) = n < 2 ^ 64
  IsExact R (json_real x) = R x
  IsExact R json_true = Unit
  IsExact R json_false = Unit
  IsExact R json_null = Unit

  pub AreExactMembers : (ℕ → Type 0) → JsonMembers → Type 0
  AreExactMembers R no_member = Unit
  AreExactMembers R (member k v ms) = IsLine k × IsExact R v × AreExactMembers R ms

  pub AreExactElements : (ℕ → Type 0) → JsonElements → Type 0
  AreExactElements R no_element = Unit
  AreExactElements R (element v es) = IsExact R v × AreExactElements R es

pub print_long_injective : (m n : ℕ) → m < 2 ^ 64 → n < 2 ^ 64 → print_long m ≡ print_long n → m ≡ n
print_long_injective m n hm hn e =
    sym (strtol-print_long m hm) ∙ ap (λ s. strtol s 10) e ∙ strtol-print_long n hn

-- A line with a size tells it, whatever stands behind the space.
pub size-eq :
    (p x y : Bytes) (m n : ℕ)
    → m < 2 ^ 63
    → n < 2 ^ 63
    → p ++ (print_long (m % 2 ^ 64) ++ b' ' ∷ x) ≡ p ++ (print_long (n % 2 ^ 64) ++ b' ' ∷ y)
    → m ≡ n
size-eq p x y m n hm hn e =
    let (numbers, behind) =
      split_at b' ' (print_long (m % 2 ^ 64)) (print_long (n % 2 ^ 64)) x y
        (print_long-IsApart b' ' _ refl (omega arith))
        (print_long-IsApart b' ' _ refl (omega arith)) (append_cancel_left p _ _ e) in
    omega
      (arith, print_long_injective (m % 2 ^ 64) (n % 2 ^ 64) (omega arith) (omega arith) numbers)

-- A line with a text between quotes tells it.
pub quoted-eq : (p s t : Bytes) → p ++ (s ++ codes "\"") ≡ p ++ (t ++ codes "\"") → s ≡ t
quoted-eq p s t e = append_cancel_right s t (codes "\"") (append_cancel_left p _ _ e)

json_plural-IsLine : (n : ℕ) → IsLine (json_plural n ++ codes ":")
unfolding json_plural
json_plural-IsLine n = elim (Bool-cases (n % 2 ^ 32 == 1)) [
  | inl one ↦ rw one (omega arith)
  | inr many ↦ rw many (omega arith)
]

counted-IsLine :
    (p unit : Bytes) (n : ℕ)
    → IsLine p
    → IsLine unit
    → IsLine (p ++ (print_long (n % 2 ^ 64) ++ (unit ++ (json_plural n ++ codes ":"))))
counted-IsLine p unit n hp hu = All-append (IsApart b'\n') p _ hp (
    All-append (IsApart b'\n') (print_long (n % 2 ^ 64)) _
      (print_long-IsApart b'\n' _ refl (omega arith))
      (All-append (IsApart b'\n') unit _ hu (json_plural-IsLine n)))

quoted-IsLine : (p s : Bytes) → IsLine p → IsLine s → IsLine (p ++ (s ++ codes "\""))
quoted-IsLine p s hp hs =
    All-append (IsApart b'\n') p _ hp (All-append (IsApart b'\n') s _ hs (omega arith))

-- A member is the indented line of its key, its value, and the members behind it.
key_line :
    (format_real : ℕ → Bytes) (k : Bytes) (v : JsonValue) (ms : JsonMembers) (i : ℕ) (r : Bytes)
    → print_json_object format_real (member k v ms) i ++ r
      ≡ print_json_indent (i + 2)
        ++ ((codes "JSON Key: \"" ++ (k ++ codes "\""))
            ++ b'\n'
              ∷ (print_json_aux format_real v (i + 2) ++ (print_json_object format_real ms i ++ r)))
unfolding print_json_aux
key_line format_real k v ms i r = simp append_assoc

module _ (format_real : ℕ → Bytes) (R : ℕ → Type 0)
    (line : (x : ℕ) → R x → IsLine (format_real x)) where
  head-IsLine : (v : JsonValue) → IsExact R v → IsLine (head format_real v)
  unfolding head IsExact
  head-IsLine (json_object ms) h =
      counted-IsLine (codes "JSON Object of ") (codes " pair") (json_object_size ms) (omega arith)
        (omega arith)
  head-IsLine (json_array es) h =
      counted-IsLine (codes "JSON Array of ") (codes " element") (json_array_size es) (omega arith)
        (omega arith)
  head-IsLine (json_string s) h = quoted-IsLine (codes "JSON String: \"") s (omega arith) h
  head-IsLine (json_integer n) h =
      quoted-IsLine (codes "JSON Integer: \"") (print_long n) (omega arith)
        (print_long-IsApart b'\n' n refl (omega arith))
  head-IsLine (json_real x) h =
      All-append (IsApart b'\n') (codes "JSON Real: ") _ (omega arith) (line x h)
  head-IsLine json_true h = omega arith
  head-IsLine json_false h = omega arith
  head-IsLine json_null h = omega arith

  -- The first lines of two values whose texts begin alike, and what is left.
  pub first_lines :
      (a b : JsonValue)
      → IsExact R a
      → IsExact R b
      → (i : ℕ) (r s : Bytes)
      → print_json_aux format_real a i ++ r ≡ print_json_aux format_real b i ++ s
      → (head format_real a ≡ head format_real b)
        × (below format_real a i ++ r ≡ below format_real b i ++ s)
  first_lines a b ha hb i r s e =
      split_at b'\n' (head format_real a) (head format_real b) _ _ (head-IsLine a ha)
        (head-IsLine b hb)
        (append_cancel_left (print_json_indent i) _ _
          (sym (print_json_aux-head format_real a i r) ∙ e ∙ print_json_aux-head format_real b i s))

  -- The same of the line of a key.
  pub key_lines :
      (k l : Bytes) (v w : JsonValue) (ms ns : JsonMembers)
      → IsLine k
      → IsLine l
      → (i : ℕ) (r s : Bytes)
      → print_json_object format_real (member k v ms) i ++ r
        ≡ print_json_object format_real (member l w ns) i ++ s
      → (k ≡ l)
        × (print_json_aux format_real v (i + 2) ++ (print_json_object format_real ms i ++ r)
            ≡ print_json_aux format_real w (i + 2) ++ (print_json_object format_real ns i ++ s))
  key_lines k l v w ms ns hk hl i r s e =
      let prefix = codes "JSON Key: \"" in
      let (heads, rests) =
        split_at b'\n' (prefix ++ (k ++ codes "\"")) (prefix ++ (l ++ codes "\"")) _ _
          (quoted-IsLine prefix k (omega arith) hk) (quoted-IsLine prefix l (omega arith) hl)
          (append_cancel_left (print_json_indent (i + 2)) _ _
            (sym (key_line format_real k v ms i r) ∙ e ∙ key_line format_real l w ns i s)) in
      (quoted-eq prefix k l heads, rests)
