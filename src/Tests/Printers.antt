-- ===== src/Tests/Printers.antt =====
-- The printer on the value of its synopsis.
use ua_rate_throttling.Common.{
  ◌⊎◌, ℕ, ◌^◌, ◌≡◌, refl, [], ◌++◌, Bytes, codes, ◌==◌, if◌then◌else◌, inl, inr, Bool-cases, arith,
}
use ua_rate_throttling.Printer.{
  JsonValue, json_object, json_array, json_string, json_integer, json_real, json_true, json_false,
  json_null, no_element, element, no_member, member, print_json, print_json_aux, print_json_indent,
  json_plural, json_array_size, json_object_size,
}
use ua_rate_throttling.Common.Cstdlib.{print_ulong, decimal_width, decimal_digits, radix_digits}
use ua_rate_throttling.Common.Cstdlib.Signed.{print_long}
use ua_rate_throttling.Printer.Exact.{IsLine, IsExact}
use ua_rate_throttling.Printer.Unambiguous.{print_json_injective}

-- `%f` of the two zeros.
abbrev format_zero : ℕ → Bytes
format_zero x = if x == 0 then codes "0.000000" else codes "-0.000000"

abbrev IsZero : ℕ → Type 0
IsZero x = (x ≡ 0) ⊎ (x ≡ 2 ^ 63)

format_zero-IsLine : (x : ℕ) → IsZero x → IsLine (format_zero x)
format_zero-IsLine x h = elim (Bool-cases (x == 0)) [
  | inl plus ↦ rw plus (omega arith)
  | inr minus ↦ rw minus (omega arith)
]

format_zero_injective : (x y : ℕ) → IsZero x → IsZero y → format_zero x ≡ format_zero y → x ≡ y
format_zero_injective x y hx hy e = ground (arith, hx, hy, e)

-- [true, false, null, 1, 0.0, -0.0, "", {"name": "barney"}]
abbrev synopsis : JsonValue
synopsis = json_array (
    element json_true (
      element json_false (
        element json_null (
          element (json_integer 1) (
            element (json_real 0) (
              element (json_real (2 ^ 63)) (
                element (json_string []) (
                  element
                    (json_object (member (codes "name") (json_string (codes "barney")) no_member))
                    no_element))))))))

print_synopsis :
    print_json format_zero synopsis
    ≡ codes "JSON Array of 8 elements:\n  JSON True\n  JSON False\n  JSON Null\n"
      ++ codes "  JSON Integer: \"1\"\n  JSON Real: 0.000000\n  JSON Real: -0.000000\n"
      ++ codes "  JSON String: \"\"\n  JSON Object of 1 pair:\n    JSON Key: \"name\"\n"
      ++ codes "    JSON String: \"barney\"\n"
unfolding print_json print_json_aux print_json_indent json_plural json_array_size json_object_size
    print_long print_ulong decimal_width decimal_digits radix_digits
print_synopsis = refl

synopsis-IsExact : IsExact IsZero synopsis
unfolding IsExact json_array_size json_object_size
synopsis-IsExact = omega arith

print_json_injective_example : synopsis ≡ synopsis
print_json_injective_example =
    print_json_injective format_zero IsZero format_zero-IsLine format_zero_injective synopsis
      synopsis synopsis-IsExact synopsis-IsExact refl
