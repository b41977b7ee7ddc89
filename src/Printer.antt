-- ===== src/Printer.antt =====
-- Printing JSON values as lines of text: src/simple_parse.c. What is printed is the text on stdout.
pub mod Lines
pub mod Shape
pub mod Exact
pub mod Unambiguous
use ua_rate_throttling.Common.{
  ◌⊎◌, inl, inr, ℕ, zero, suc, ◌+◌, ◌%◌, ◌^◌, Bool, true, false, Option, none, some, List, [], ◌∷◌,
  ◌++◌, Bytes, codes, ◌==◌, if◌then◌else◌,
}
use ua_rate_throttling.Common.Cstdlib.Signed.{print_long, print_int}

mutual
  -- What `json_typeof` and the accessors of jansson tell of a value. A `json_int_t` is its 64-bit
  -- pattern, and so is a `double`; a string is the C string that jansson gives for it. The members
  -- of an object stand in the order in which `json_object_foreach` takes them.
  pub data JsonValue : Type 0 where
    json_object : JsonMembers → JsonValue
    json_array : JsonElements → JsonValue
    json_string : Bytes → JsonValue
    json_integer : ℕ → JsonValue
    json_real : ℕ → JsonValue
    json_true : JsonValue
    json_false : JsonValue
    json_null : JsonValue

  pub data JsonElements : Type 0 where
    no_element : JsonElements
    element : JsonValue → JsonElements → JsonElements

  pub data JsonMembers : Type 0 where
    no_member : JsonMembers
    member : Bytes → JsonValue → JsonMembers → JsonMembers

unfoldable pub json_array_size : JsonElements → ℕ
json_array_size no_element = 0
json_array_size (element e es) = suc (json_array_size es)

unfoldable pub json_object_size : JsonMembers → ℕ
json_object_size no_member = 0
json_object_size (member k v ms) = suc (json_object_size ms)

unfoldable pub print_json_indent : ℕ → Bytes
print_json_indent zero = []
print_json_indent (suc indent) = b' ' ∷ print_json_indent indent

-- The plural of a count, which is passed as an `int`.
unfoldable pub json_plural : ℕ → Bytes
json_plural size = if size % 2 ^ 32 == 1 then [] else codes "s"

abbrev pub print_json_string : Bytes → ℕ → Bytes
print_json_string s indent =
    print_json_indent indent ++ (codes "JSON String: \"" ++ s ++ codes "\"\n")

abbrev pub print_json_integer : ℕ → ℕ → Bytes
print_json_integer n indent =
    print_json_indent indent ++ (codes "JSON Integer: \"" ++ print_long n ++ codes "\"\n")

abbrev pub print_json_true : ℕ → Bytes
print_json_true indent = print_json_indent indent ++ codes "JSON True\n"

abbrev pub print_json_false : ℕ → Bytes
print_json_false indent = print_json_indent indent ++ codes "JSON False\n"

abbrev pub print_json_null : ℕ → Bytes
print_json_null indent = print_json_indent indent ++ codes "JSON Null\n"

-- What `printf` writes for `%f` is a parameter.
module _ (format_real : ℕ → Bytes) where
  abbrev pub print_json_real : ℕ → ℕ → Bytes
  print_json_real x indent =
      print_json_indent indent ++ (codes "JSON Real: " ++ format_real x ++ codes "\n")

  unfoldable mutual
    pub print_json_aux : JsonValue → ℕ → Bytes
    print_json_aux (json_object ms) indent =
        print_json_indent indent
        ++ (codes "JSON Object of "
            ++ print_long (json_object_size ms % 2 ^ 64)
            ++ codes " pair"
            ++ json_plural (json_object_size ms)
            ++ codes ":\n")
        ++ print_json_object ms indent
    print_json_aux (json_array es) indent =
        print_json_indent indent
        ++ (codes "JSON Array of "
            ++ print_long (json_array_size es % 2 ^ 64)
            ++ codes " element"
            ++ json_plural (json_array_size es)
            ++ codes ":\n")
        ++ print_json_array es indent
    print_json_aux (json_string s) indent = print_json_string s indent
    print_json_aux (json_integer n) indent = print_json_integer n indent
    print_json_aux (json_real x) indent = print_json_real x indent
    print_json_aux json_true indent = print_json_true indent
    print_json_aux json_false indent = print_json_false indent
    print_json_aux json_null indent = print_json_null indent

    -- Behind the line with the size.
    pub print_json_object : JsonMembers → ℕ → Bytes
    print_json_object no_member indent = []
    print_json_object (member key value ms) indent =
        print_json_indent (indent + 2)
        ++ (codes "JSON Key: \"" ++ key ++ codes "\"\n")
        ++ print_json_aux value (indent + 2)
        ++ print_json_object ms indent

    pub print_json_array : JsonElements → ℕ → Bytes
    print_json_array no_element indent = []
    print_json_array (element value es) indent =
        print_json_aux value (indent + 2) ++ print_json_array es indent

  unfoldable pub print_json : JsonValue → Bytes
  print_json root = print_json_aux root 0

-- `load_json`: the value, and what is printed on stderr.
unfoldable pub load_json : (Bytes → (ℕ × Bytes) ⊎ JsonValue) → Bytes → Option JsonValue × Bytes
load_json json_loads text = elim (json_loads text) [
  | inl (line, message) ↦
      (none, codes "json error on line " ++ print_int line ++ codes ": " ++ message ++ codes "\n")
  | inr root ↦ (some root, [])
]

-- `read_line`: the prompt on stdout, and the line that `fgets` reads, if any.
unfoldable pub read_line :
    {World : Type 0}
    → (ℕ → World → Option Bytes × World)
    → ℕ
    → World
    → Bytes × (Option Bytes × World)
read_line fgets max_chars world = (codes "Type some JSON > ", fgets max_chars world)
