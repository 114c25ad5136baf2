-- ===== src/Std/Utf8.antt =====
-- `String::from_utf8`, and the bytes of a text. The decoder reads one byte at a time; a state holds
-- the bits read of a character that is not complete.
pub mod RoundTrip
use Prim.Native.Nat.{compare, Ordering}
use Prim.Native.Char.{Char, char, code, IsScalar, IsLt}
use Prim.Native.String
use mathlib.Core.Option
use nu_plugin_dns.Prelude.{
  ℕ, ◌+◌, ◌-◌, ◌*◌, ◌/◌, ◌%◌, Bool, true, false, ◌&&◌, String, List, [], ◌∷◌,
}
use nu_plugin_dns.Prelude.{◌++◌, Option, none, some, ltb, leb, if◌then◌else◌}

-- The three comparisons of `IsScalar`.
abbrev BothLt : Ordering → Ordering → Type 0
BothLt Ordering.lt o = IsLt o
BothLt Ordering.eq _ = ⊥
BothLt Ordering.gt _ = ⊥

abbrev Scalar : Ordering → Ordering → Ordering → Type 0
Scalar Ordering.lt _ _ = Unit
Scalar Ordering.eq o p = BothLt o p
Scalar Ordering.gt o p = BothLt o p

dec_both : (o p : Ordering) → Option (BothLt o p)
dec_both Ordering.lt Ordering.lt = some tt
dec_both Ordering.lt _ = none
dec_both Ordering.eq _ = none
dec_both Ordering.gt _ = none

dec_scalar : (o p q : Ordering) → Option (Scalar o p q)
unfolding dec_both
dec_scalar Ordering.lt _ _ = some tt
dec_scalar Ordering.eq p q = dec_both p q
dec_scalar Ordering.gt p q = dec_both p q

-- `char::from_u32`
to_char : ℕ → Option Char
unfolding dec_scalar
to_char n = Option.map (char n) (dec_scalar (compare n 55296) (compare 57343 n) (compare n 1114112))

-- How many bytes are still to come, of how many, and the bits so far.
pub data Utf8State : Type 0 where
  start : Utf8State
  two_1 three_2 three_1 four_3 four_2 four_1 : ℕ → Utf8State

is_continuation : ℕ → Bool
is_continuation b = leb 0x80 b && ltb b 0xc0

-- The bits so far with those of a continuation byte.
abbrev shift : ℕ → ℕ → ℕ
shift bits b = bits * 64 + (b - 0x80)

-- A finished character; below `least` its encoding would be too long.
emit : ℕ → ℕ → Option (Option Char × Utf8State)
unfolding to_char
emit least n = if leb least n then Option.map (λ c. (some c, start)) (to_char n) else none

-- A byte that goes on with a character.
continue : ℕ → Option (Option Char × Utf8State) → Option (Option Char × Utf8State)
unfolding is_continuation
continue b next = if is_continuation b then next else none

step : Utf8State → ℕ → Option (Option Char × Utf8State)
unfolding continue
step start b =
    if ltb b 0x80
    then emit 0 b
    else if ltb b 0xc2
    then none
    else if ltb b 0xe0
    then some (none, two_1 (b - 0xc0))
    else if ltb b 0xf0
    then some (none, three_2 (b - 0xe0))
    else if ltb b 0xf5
    then some (none, four_3 (b - 0xf0))
    else none
step (two_1 bits) b = continue b (emit 0x80 (shift bits b))
step (three_2 bits) b = continue b (some (none, three_1 (shift bits b)))
step (three_1 bits) b = continue b (emit 0x800 (shift bits b))
step (four_3 bits) b = continue b (some (none, four_2 (shift bits b)))
step (four_2 bits) b = continue b (some (none, four_1 (shift bits b)))
step (four_1 bits) b = continue b (emit 0x10000 (shift bits b))

abbrev push : Option Char → String → String
push none s = s
push (some c) s = String.◌∷◌ c s

-- A text may not end inside a character.
finish : Utf8State → Option String
finish start = some ""
finish _ = none

decode : Utf8State → List ℕ → Option String
decode s [] = finish s
decode s (b ∷ bs) = elim (step s b) [
  | none ↦ none
  | some (c, s') ↦ Option.map (push c) (decode s' bs)
]

-- `String::from_utf8(bytes).ok()`
unfoldable pub from_utf8 : List ℕ → Option String
unfolding decode finish step emit
from_utf8 bs = decode start bs

unfoldable pub encode_char : ℕ → List ℕ
encode_char n =
    if ltb n 0x80
    then n ∷ []
    else if ltb n 0x800
    then (0xc0 + n / 64) ∷ (0x80 + n % 64) ∷ []
    else if ltb n 0x10000
    then (0xe0 + n / 4096) ∷ (0x80 + n / 64 % 64) ∷ (0x80 + n % 64) ∷ []
    else (0xf0 + n / 262144) ∷ (0x80 + n / 4096 % 64) ∷ (0x80 + n / 64 % 64) ∷ (0x80 + n % 64) ∷ []

-- `String::into_bytes`
unfoldable pub encode : String → List ℕ
unfolding encode_char
encode String.[] = []
encode (String.◌∷◌ c s) = encode_char (code c) ++ encode s
