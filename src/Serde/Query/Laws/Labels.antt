-- ===== src/Serde/Query/Laws/Labels.antt =====
-- The label that `Query::try_from_value` of src/dns/serde.rs makes of an integer, which depends on
-- the byte order of the machine.
use mathlib.Core.Path.{subst}
use native.Mathlib.Nat.{pow-suc}
use mathlib.Core.List.{reverse, reverse-cons}
use nu_plugin_dns.Prelude.{
  ℕ, zero, suc, ◌+◌, ◌*◌, ◌/◌, ◌%◌, ◌^◌, ◌<◌, ◌≡◌, ◌≢◌, inl, inr, refl, sym, ap, ◌∙◌,
}
use nu_plugin_dns.Prelude.{
  All, ℤ, negsuc, to_bits, pos, List, [], ◌∷◌, ◌++◌, length, ok, arith, ◌==◌, Bool-cases,
}
use nu_plugin_dns.Nu.{Value, Span}
use nu_plugin_dns.Std.Bytes.{little, big, le_bytes, to_ne_bytes}
use nu_plugin_dns.Serde.Query.{skip_zeros, label}

-- The number that bytes stand for, the highest byte first.
abbrev be_value : ℕ → List ℕ → ℕ
be_value acc [] = acc
be_value acc (b ∷ bs) = be_value (acc * 256 + b) bs

be_value-concat :
    (acc : ℕ) (bs : List ℕ) (b : ℕ) → be_value acc (bs ++ b ∷ []) ≡ be_value acc bs * 256 + b
be_value-concat acc [] b = refl
be_value-concat acc (c ∷ bs) b = be_value-concat (acc * 256 + c) bs b

be_value-le_bytes : (k n : ℕ) → n < 256 ^ k → be_value 0 (reverse (le_bytes k n)) ≡ n
unfolding le_bytes
be_value-le_bytes zero n h = omega arith
be_value-le_bytes (suc k) n h =
    let rest : n / 256 < 256 ^ k = omega (arith, pow-suc 256 k) in
    ap (be_value 0) (reverse-cons (n % 256) (le_bytes k (n / 256)))
    ∙ be_value-concat 0 (reverse (le_bytes k (n / 256))) (n % 256)
    ∙ omega (arith, be_value-le_bytes k (n / 256) rest)

be_value-skip_zeros : (bs : List ℕ) → be_value 0 (skip_zeros bs) ≡ be_value 0 bs
unfolding skip_zeros
be_value-skip_zeros [] = refl
be_value-skip_zeros (b ∷ []) = refl
be_value-skip_zeros (b ∷ c ∷ bs) = elim (Bool-cases (b == 0)) [
  | inl zero_byte ↦ rw zero_byte (ground (arith, be_value-skip_zeros (c ∷ bs)))
  | inr more ↦ rw more
]

-- No byte zero stands in front, but for the one byte of zero.
abbrev IsShort : List ℕ → Type 0
IsShort [] = ⊥
IsShort (b ∷ []) = Unit
IsShort (b ∷ _ ∷ _) = b ≢ 0

skip_zeros-IsShort : (b : ℕ) (bs : List ℕ) → IsShort (skip_zeros (b ∷ bs))
unfolding skip_zeros
skip_zeros-IsShort b [] = tt
skip_zeros-IsShort b (c ∷ bs) = ground (arith, skip_zeros-IsShort c bs)

IsShort-concat : (bs : List ℕ) (b : ℕ) → IsShort (skip_zeros (bs ++ b ∷ []))
IsShort-concat [] b = skip_zeros-IsShort b []
IsShort-concat (c ∷ bs) b = skip_zeros-IsShort c (bs ++ b ∷ [])

length-le_bytes : (k n : ℕ) → length (le_bytes k n) ≡ k
unfolding le_bytes
length-le_bytes zero n = refl
length-le_bytes (suc k) n = ap suc (length-le_bytes k (n / 256))

skip_zeros_of_ne : (b : ℕ) (bs : List ℕ) → b ≢ 0 → skip_zeros (b ∷ bs) ≡ b ∷ bs
unfolding skip_zeros
skip_zeros_of_ne b [] h = refl
skip_zeros_of_ne b (c ∷ bs) h = ground arith

-- On a big-endian machine the label of a non-negative i64 is its shortest form, the highest byte
-- first.
label-big :
    (n : ℕ) (span : Span)
    → n < 2 ^ 63
    → (bytes : List ℕ) × (label big (Value.int (pos n) span) ≡ ok bytes)
      × (be_value 0 bytes ≡ n)
      × IsShort bytes
unfolding label to_ne_bytes le_bytes
label-big n span h = (
  skip_zeros (reverse (le_bytes 8 n)),
  refl,
  be_value-skip_zeros (reverse (le_bytes 8 n)) ∙ be_value-le_bytes 8 n (omega arith),
  subst (λ l. IsShort (skip_zeros l)) (sym (reverse-cons (n % 256) (le_bytes 7 (n / 256))))
      (IsShort-concat (reverse (le_bytes 7 (n / 256))) (n % 256)),
)

-- The number that bytes stand for, the lowest byte first.
abbrev pub le_value : List ℕ → ℕ
le_value [] = 0
le_value (b ∷ bs) = b + 256 * le_value bs

le_value-le_bytes : (k n : ℕ) → n < 256 ^ k → le_value (le_bytes k n) ≡ n
unfolding le_bytes
le_value-le_bytes zero n h = omega arith
le_value-le_bytes (suc k) n h =
    let rest : n / 256 < 256 ^ k = omega (arith, pow-suc 256 k) in
    omega (arith, le_value-le_bytes k (n / 256) rest)

le_bytes-AreBytes : (k n : ℕ) → All (λ b. b < 256) (le_bytes k n)
unfolding le_bytes
le_bytes-AreBytes zero n = tt
le_bytes-AreBytes (suc k) n = (omega arith, le_bytes-AreBytes k (n / 256))

abbrev pub IsI64 : ℤ → Type 0
IsI64 (pos n) = n < 2 ^ 63
IsI64 (negsuc n) = n < 2 ^ 63

to_bits-lt : (i : ℤ) → IsI64 i → to_bits i < 256 ^ 8
to_bits-lt (pos n) h = omega arith
to_bits-lt (negsuc n) h = omega arith

-- On a little-endian machine the label of an i64 whose low byte is not 0 is all eight bytes of its
-- two's complement, the lowest first: a number's zeros stand behind and are kept.
pub label-little :
    (i : ℤ) (span : Span)
    → IsI64 i
    → to_bits i % 256 ≢ 0
    → (bytes : List ℕ) × (label little (Value.int i span) ≡ ok bytes)
      × (length bytes ≡ 8)
      × All (λ b. b < 256) bytes
      × (le_value bytes ≡ to_bits i)
unfolding label to_ne_bytes le_bytes
label-little i span h nz = (
  le_bytes 8 (to_bits i),
  ap (λ l. ok l) (skip_zeros_of_ne (to_bits i % 256) _ nz),
  length-le_bytes 8 (to_bits i),
  le_bytes-AreBytes 8 (to_bits i),
  le_value-le_bytes 8 (to_bits i) (to_bits-lt i h),
)
