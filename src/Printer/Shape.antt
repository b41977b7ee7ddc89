-- ===== src/Printer/Shape.antt =====
-- The first line of a printed value, and what of the value it tells.
use ua_rate_throttling.Common.{
  ℕ, ◌%◌, ◌^◌, ◌≡◌, refl, sym, ap, ◌∙◌, [], ◌∷◌, ◌++◌, append_assoc, Bytes, codes, get_or, ◌==◌,
  if◌then◌else◌,
}
use ua_rate_throttling.Common.Cstdlib.Signed.{print_long}
use ua_rate_throttling.Printer.{
  JsonValue, json_object, json_array, json_string, json_integer, json_real, json_true, json_false,
  json_null, JsonElements, no_element, JsonMembers, no_member, json_array_size, json_object_size,
  json_plural, print_json_indent, print_json_aux, print_json_object, print_json_array,
}

-- The letter behind `JSON `.
abbrev pub letter : JsonValue → ℕ
letter (json_object ms) = b'O'
letter (json_array es) = b'A'
letter (json_string s) = b'S'
letter (json_integer n) = b'I'
letter (json_real x) = b'R'
letter json_true = b'T'
letter json_false = b'F'
letter json_null = b'N'

abbrev pub members_of : JsonValue → JsonMembers
members_of (json_object ms) = ms
members_of v = no_member

abbrev pub elements_of : JsonValue → JsonElements
elements_of (json_array es) = es
elements_of v = no_element

abbrev pub text_of : JsonValue → Bytes
text_of (json_string s) = s
text_of v = []

abbrev pub number_of : JsonValue → ℕ
number_of (json_integer n) = n
number_of (json_real x) = x
number_of v = 0

-- The value with a letter and the parts of another.
abbrev pub rebuild : ℕ → JsonValue → JsonValue
rebuild l v =
    if l == b'O'
    then json_object (members_of v)
    else if l == b'A'
    then json_array (elements_of v)
    else if l == b'S'
    then json_string (text_of v)
    else if l == b'I'
    then json_integer (number_of v)
    else if l == b'R'
    then json_real (number_of v)
    else if l == b'T'
    then json_true
    else if l == b'F'
    then json_false
    else json_null

rebuild-letter : (v : JsonValue) → rebuild (letter v) v ≡ v
rebuild-letter (json_object ms) = refl
rebuild-letter (json_array es) = refl
rebuild-letter (json_string s) = refl
rebuild-letter (json_integer n) = refl
rebuild-letter (json_real x) = refl
rebuild-letter json_true = refl
rebuild-letter json_false = refl
rebuild-letter json_null = refl

pub rebuild-eq : (l : ℕ) (v : JsonValue) → l ≡ letter v → v ≡ rebuild l v
rebuild-eq l v e = sym (rebuild-letter v) ∙ ap (λ k. rebuild k v) (sym e)

module _ (format_real : ℕ → Bytes) where
  unfoldable pub head : JsonValue → Bytes
  head (json_object ms) =
      codes "JSON Object of "
      ++ (print_long (json_object_size ms % 2 ^ 64)
          ++ (b' ' ∷ codes "pair" ++ (json_plural (json_object_size ms) ++ codes ":")))
  head (json_array es) =
      codes "JSON Array of "
      ++ (print_long (json_array_size es % 2 ^ 64)
          ++ (b' ' ∷ codes "element" ++ (json_plural (json_array_size es) ++ codes ":")))
  head (json_string s) = codes "JSON String: \"" ++ (s ++ codes "\"")
  head (json_integer n) = codes "JSON Integer: \"" ++ (print_long n ++ codes "\"")
  head (json_real x) = codes "JSON Real: " ++ format_real x
  head json_true = codes "JSON True"
  head json_false = codes "JSON False"
  head json_null = codes "JSON Null"

  unfoldable pub below : JsonValue → ℕ → Bytes
  below (json_object ms) indent = print_json_object format_real ms indent
  below (json_array es) indent = print_json_array format_real es indent
  below v indent = []

  letter-head : (v : JsonValue) → get_or (head v) 5 0 ≡ letter v
  unfolding head
  letter-head (json_object ms) = refl
  letter-head (json_array es) = refl
  letter-head (json_string s) = refl
  letter-head (json_integer n) = refl
  letter-head (json_real x) = refl
  letter-head json_true = refl
  letter-head json_false = refl
  letter-head json_null = refl

  pub letter-eq : (a b : JsonValue) → head a ≡ head b → letter a ≡ letter b
  letter-eq a b e = sym (letter-head a) ∙ ap (λ h. get_or h 5 0) e ∙ letter-head b

  -- A value is printed as its indented first line and what stands below.
  pub print_json_aux-head :
      (v : JsonValue) (indent : ℕ) (rest : Bytes)
      → print_json_aux format_real v indent ++ rest
        ≡ print_json_indent indent ++ (head v ++ b'\n' ∷ (below v indent ++ rest))
  unfolding print_json_aux head below
  print_json_aux-head (json_object ms) indent rest = simp append_assoc
  print_json_aux-head (json_array es) indent rest = simp append_assoc
  print_json_aux-head (json_string s) indent rest = simp append_assoc
  print_json_aux-head (json_integer n) indent rest = simp append_assoc
  print_json_aux-head (json_real x) indent rest = simp append_assoc
  print_json_aux-head json_true indent rest = simp append_assoc
  print_json_aux-head json_false indent rest = simp append_assoc
  print_json_aux-head json_null indent rest = simp append_assoc
