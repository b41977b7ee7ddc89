-- ===== src/Printer/Unambiguous.antt =====
-- The printed text tells a value apart from every other.
use mathlib.Core.Path.{ap₂}
use ua_rate_throttling.Common.{
  ℕ, ◌+◌, ◌≡◌, refl, sym, ap, ◌∙◌, subst, [], ◌++◌, append_assoc, append_cancel_left, Bytes, codes,
  arith,
}
use ua_rate_throttling.Printer.{
  JsonValue, json_object, json_array, json_string, json_integer, json_real, json_true, json_false,
  json_null, JsonElements, no_element, element, JsonMembers, no_member, member, json_array_size,
  json_object_size, print_json_aux, print_json_object, print_json_array, print_json,
}
use ua_rate_throttling.Printer.Shape.{
  letter, members_of, elements_of, text_of, number_of, rebuild, rebuild-eq, head, below, letter-eq,
}
use ua_rate_throttling.Printer.Exact.{
  IsLine, IsExact, AreExactMembers, AreExactElements, print_long_injective, size-eq, quoted-eq,
  first_lines, key_lines,
}

module _ (format_real : ℕ → Bytes) (R : ℕ → Type 0) (line : (x : ℕ) → R x → IsLine (format_real x))
    (exact : (x y : ℕ) → R x → R y → format_real x ≡ format_real y → x ≡ y) where
  -- Values whose texts begin alike have one shape: the second value is one with the letter of the
  -- first, and what is left of the lines.
  same_shape :
      (a b : JsonValue)
      → IsExact R a
      → IsExact R b
      → (i : ℕ) (r s : Bytes)
      → print_json_aux format_real a i ++ r ≡ print_json_aux format_real b i ++ s
      → (b ≡ rebuild (letter a) b)
        × IsExact R (rebuild (letter a) b)
        × (head format_real a ≡ head format_real (rebuild (letter a) b))
        × (below format_real a i ++ r ≡ below format_real (rebuild (letter a) b) i ++ s)
  same_shape a b ha hb i r s e =
      let (heads, rests) = first_lines format_real R line a b ha hb i r s e in
      let shape = rebuild-eq (letter a) b (letter-eq format_real a b heads) in
      (
        shape,
        subst (IsExact R) shape hb,
        heads ∙ ap (head format_real) shape,
        rests ∙ ap (λ v. below format_real v i ++ s) shape,
      )

  mutual
    unfolding head below IsExact print_json_aux json_object_size json_array_size

    value-eq :
        (a b : JsonValue)
        → IsExact R a
        → IsExact R b
        → (i : ℕ) (r s : Bytes)
        → print_json_aux format_real a i ++ r ≡ print_json_aux format_real b i ++ s
        → (a ≡ b) × (r ≡ s)
    value-eq (json_object ms) b ha hb i r s e =
        let (shape, hb', heads, rests) = same_shape (json_object ms) b ha hb i r s e in
        let sizes = size-eq (codes "JSON Object of ") _ _ _ _ ha.0 hb'.0 heads in
        let (same, behind) = members-eq ms (members_of b) ha.1 hb'.1 sizes i r s rests in
        (ap json_object same ∙ sym shape, behind)
    value-eq (json_array es) b ha hb i r s e =
        let (shape, hb', heads, rests) = same_shape (json_array es) b ha hb i r s e in
        let sizes = size-eq (codes "JSON Array of ") _ _ _ _ ha.0 hb'.0 heads in
        let (same, behind) = elements-eq es (elements_of b) ha.1 hb'.1 sizes i r s rests in
        (ap json_array same ∙ sym shape, behind)
    value-eq (json_string t) b ha hb i r s e =
        let (shape, hb', heads, rests) = same_shape (json_string t) b ha hb i r s e in
        (
          ap json_string (quoted-eq (codes "JSON String: \"") t (text_of b) heads) ∙ sym shape,
          rests,
        )
    value-eq (json_integer n) b ha hb i r s e =
        let (shape, hb', heads, rests) = same_shape (json_integer n) b ha hb i r s e in
        let same =
          print_long_injective n (number_of b) ha hb'
            (quoted-eq (codes "JSON Integer: \"") _ _ heads) in
        (ap json_integer same ∙ sym shape, rests)
    value-eq (json_real x) b ha hb i r s e =
        let (shape, hb', heads, rests) = same_shape (json_real x) b ha hb i r s e in
        let same =
          exact x (number_of b) ha hb' (append_cancel_left (codes "JSON Real: ") _ _ heads) in
        (ap json_real same ∙ sym shape, rests)
    value-eq json_true b ha hb i r s e =
        let (shape, hb', heads, rests) = same_shape json_true b ha hb i r s e in (sym shape, rests)
    value-eq json_false b ha hb i r s e =
        let (shape, hb', heads, rests) = same_shape json_false b ha hb i r s e in (sym shape, rests)
    value-eq json_null b ha hb i r s e =
        let (shape, hb', heads, rests) = same_shape json_null b ha hb i r s e in (sym shape, rests)

    members-eq :
        (ms ns : JsonMembers)
        → AreExactMembers R ms
        → AreExactMembers R ns
        → json_object_size ms ≡ json_object_size ns
        → (i : ℕ) (r s : Bytes)
        → print_json_object format_real ms i ++ r ≡ print_json_object format_real ns i ++ s
        → (ms ≡ ns) × (r ≡ s)
    members-eq no_member no_member hm hn sizes i r s e = (refl, e)
    members-eq no_member (member l w ns) hm hn sizes i r s e = absurd (omega (arith, sizes))
    members-eq (member k v ms) no_member hm hn sizes i r s e = absurd (omega (arith, sizes))
    members-eq (member k v ms) (member l w ns) (hk, hv, hms) (hl, hw, hns) sizes i r s e =
        let (keys, rests) = key_lines format_real R line k l v w ms ns hk hl i r s e in
        let (values, behind) = value-eq v w hv hw (i + 2) _ _ rests in
        let (others, last) = members-eq ms ns hms hns (omega (arith, sizes)) i r s behind in
        (λ j. member (keys j) (values j) (others j), last)

    elements-eq :
        (es fs : JsonElements)
        → AreExactElements R es
        → AreExactElements R fs
        → json_array_size es ≡ json_array_size fs
        → (i : ℕ) (r s : Bytes)
        → print_json_array format_real es i ++ r ≡ print_json_array format_real fs i ++ s
        → (es ≡ fs) × (r ≡ s)
    elements-eq no_element no_element he hf sizes i r s e = (refl, e)
    elements-eq no_element (element w fs) he hf sizes i r s e = absurd (omega (arith, sizes))
    elements-eq (element v es) no_element he hf sizes i r s e = absurd (omega (arith, sizes))
    elements-eq (element v es) (element w fs) he hf sizes i r s e =
        let (values, behind) =
          value-eq v w he.0 hf.0 (i + 2) (print_json_array format_real es i ++ r)
            (print_json_array format_real fs i ++ s)
            (sym (append_assoc (print_json_aux format_real v (i + 2)) _ r)
              ∙ e
              ∙ append_assoc (print_json_aux format_real w (i + 2)) _ s) in
        let (others, last) = elements-eq es fs he.1 hf.1 (omega (arith, sizes)) i r s behind in
        (ap₂ element values others, last)

-- Two values that print the same text are equal, where no string and no key in them has a line feed,
-- integers have 64 bits, arrays and objects have fewer than 2 ^ 63 items, and the reals in them are
-- some that `%f` writes on one line and tells apart.
pub print_json_injective :
    (format_real : ℕ → Bytes) (R : ℕ → Type 0) (line : (x : ℕ) → R x → IsLine (format_real x))
    (exact : (x y : ℕ) → R x → R y → format_real x ≡ format_real y → x ≡ y) (a b : JsonValue)
    → IsExact R a
    → IsExact R b
    → print_json format_real a ≡ print_json format_real b
    → a ≡ b
unfolding print_json
print_json_injective format_real R line exact a b ha hb e =
    (value-eq format_real R line exact a b ha hb 0 [] [] (ap (λ t. t ++ []) e)).0
