-- ===== src/Tests/Json.antt =====
-- JSON documents that keep what is documented of jansson: the members of an object and their values
-- stand behind each other, with a code that is no character behind each.
use ua_rate_throttling.Common.{
  ℕ, ◌+◌, ◌-◌, ◌≤◌, ◌≡◌, refl, sym, ◌∙◌, ap, true, length, length-append, Bool-cases, inl, inr,
  false, Option, none, some, List, [], ◌∷◌, ◌++◌, Bytes, All, ltb, ◌==◌, if◌then◌else◌, arith, true,
}
use ua_rate_throttling.Queue.Documented.{same}
use ua_rate_throttling.Chunk.Documented.{IsText, find}

pub data Value : Type 0 where
  number : ℕ → Value
  text : Bytes → Value

pub data Json : Type 0 where
  value : Value → Json
  object : List (Bytes × Value) → Json

abbrev pub value_of : Json → Value
value_of (value v) = v
value_of (object ms) = number 0

abbrev pub values : List (Bytes × Json) → List (Bytes × Value)
values [] = []
values ((k, j) ∷ ms) = (k, value_of j) ∷ values ms

abbrev pub get : Json → Bytes → Option Json
get (value v) key = none
get (object []) key = none
get (object ((k, v) ∷ ms)) key = if same k key then some (value v) else get (object ms) key

abbrev pub IsValue : Json → Type 0
IsValue (value (number n)) = Unit
IsValue (value (text s)) = All IsText s
IsValue (object ms) = ⊥

abbrev separator : ℕ
separator = 1000

abbrev offset : ℕ
offset = 2000

abbrev value_bytes : Value → Bytes
value_bytes (number n) = (n + offset) ∷ []
value_bytes (text s) = s

abbrev member_bytes : List (Bytes × Value) → Bytes
member_bytes [] = []
member_bytes ((k, v) ∷ ms) = k ++ separator ∷ (value_bytes v ++ separator ∷ member_bytes ms)

abbrev pub dumps : Json → Bytes
dumps (value v) = value_bytes v
dumps (object ms) = separator ∷ member_bytes ms

-- The pieces that end with a separator.
abbrev put : ℕ → List Bytes → List Bytes
put c [] = (c ∷ []) ∷ []
put c (s ∷ pieces) = (c ∷ s) ∷ pieces

abbrev split : Bytes → List Bytes
split [] = []
split (c ∷ t) = if c == separator then [] ∷ split t else put c (split t)

abbrev read_value : Bytes → Value
read_value [] = text []
read_value (c ∷ t) = if ltb c offset then text (c ∷ t) else number (c - offset)

abbrev pair_up : List Bytes → List (Bytes × Value)
pair_up (k ∷ v ∷ pieces) = (k, read_value v) ∷ pair_up pieces
pair_up _ = []

abbrev pub loads : Bytes → Option Json
loads [] = none
loads (c ∷ t) = some (object (pair_up (split t)))

split-piece :
    (s t : Bytes) → All (λ c. (c == separator) ≡ false) s → split (s ++ separator ∷ t) ≡ s ∷ split t
split-piece [] t h = refl
split-piece (c ∷ s) t h = rw (h.0, split-piece s t h.1) refl

text-has_no_separator : (s : Bytes) → All IsText s → All (λ c. (c == separator) ≡ false) s
text-has_no_separator [] h = tt
text-has_no_separator (c ∷ s) h = (ground (arith, h.0), text-has_no_separator s h.1)

value-has_no_separator :
    (j : Json) → IsValue j → All (λ c. (c == separator) ≡ false) (value_bytes (value_of j))
value-has_no_separator (value (number n)) h = (ground arith, tt)
value-has_no_separator (value (text s)) h = text-has_no_separator s h
value-has_no_separator (object ms) h = absurd h

read_value-value_bytes : (j : Json) → IsValue j → read_value (value_bytes (value_of j)) ≡ value_of j
read_value-value_bytes (value (number n)) h =
    let large : ltb (n + offset) offset ≡ false = ground arith in rw large (ap number (omega arith))
read_value-value_bytes (value (text [])) h = refl
read_value-value_bytes (value (text (c ∷ s))) h =
    let small : ltb c offset ≡ true = ground (arith, h.0) in rw small refl
read_value-value_bytes (object ms) h = absurd h

pair_up-member_bytes :
    (ms : List (Bytes × Json))
    → All (λ m. All IsText m.0 × IsValue m.1) ms
    → pair_up (split (member_bytes (values ms))) ≡ values ms
pair_up-member_bytes [] h = refl
pair_up-member_bytes ((k, j) ∷ ms) (h, hs) =
    rw
      (
        split-piece k _ (text-has_no_separator k h.0),
        split-piece (value_bytes (value_of j)) (member_bytes (values ms))
            (value-has_no_separator j h.1),
        read_value-value_bytes j h.1,
        pair_up-member_bytes ms hs,
      )
      refl

pub loads-dumps :
    (ms : List (Bytes × Json))
    → All (λ m. All IsText m.0 × IsValue m.1) ms
    → loads (dumps (object (values ms))) ≡ some (object (values ms))
loads-dumps ms h = ap (λ vs. some (object vs)) (pair_up-member_bytes ms h)

pub get-find :
    (ms : List (Bytes × Json)) (key : Bytes)
    → All (λ m. All IsText m.0 × IsValue m.1) ms
    → get (object (values ms)) key ≡ find key ms
get-find [] key h = refl
get-find ((k, value v) ∷ ms) key h = rw (get-find ms key h.1) refl
get-find ((k, object vs) ∷ ms) key h = absurd h.0.1

length-member_bytes :
    (ms : List (Bytes × Json)) (key s : Bytes)
    → find key ms ≡ some (value (text s))
    → length s ≤ length (member_bytes (values ms))
length-member_bytes [] key s h = cc
length-member_bytes ((k, j) ∷ ms) key s h =
    let rest =
      length-append k
        (separator ∷ (value_bytes (value_of j) ++ separator ∷ member_bytes (values ms))) in
    let behind = length-append (value_bytes (value_of j)) (separator ∷ member_bytes (values ms)) in
    elim (Bool-cases (same k key)) [
      | inl hit ↦
          let e : j ≡ value (text s) = cc (h, hit) in
          let own : length (value_bytes (value_of j)) ≡ length s =
            ap (λ i. length (value_bytes (value_of i))) e in
          omega (arith, rest, behind, own)
      | inr miss ↦ omega (
        arith,
        rest,
        behind,
        length-member_bytes ms key s (sym (ap (λ b. if b then some j else find key ms) miss) ∙ h),
      )
    ]

pub length-dumps :
    (ms : List (Bytes × Json)) (key s : Bytes)
    → find key ms ≡ some (value (text s))
    → length s ≤ length (dumps (object (values ms)))
length-dumps ms key s h = omega (arith, length-member_bytes ms key s h)
