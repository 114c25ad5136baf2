-- ===== src/Std/Utf8/RoundTrip.antt =====
-- Decoding loses nothing: the bytes of a decoded text are the bytes that were read.
use Prim.Native.Char.{Char, char, code}
use mathlib.Core.Option
use mathlib.Core.Path.{◌≡⟨◌⟩◌, ◌∎}
use mathlib.Core.List.{append_assoc}
use nu_plugin_dns.Prelude.{
  ℕ, ◌+◌, ◌/◌, ◌%◌, ◌<◌, ◌≤◌, ◌≡◌, refl, ap, ◌∙◌, String, List, [], ◌∷◌, ◌++◌,
}
use nu_plugin_dns.Prelude.{Option, none, some, arith, Option-cases, inl, inr, sym}
use nu_plugin_dns.Std.Utf8.{Utf8State, start, two_1, three_2, three_1, four_3, four_2, four_1}
use nu_plugin_dns.Std.Utf8.{
  shift, emit, to_char, step, finish, push, decode, from_utf8, encode_char, encode,
}

-- The bytes that a state stands for.
abbrev pending : Utf8State → List ℕ
pending start = []
pending (two_1 n) = (0xc0 + n) ∷ []
pending (three_2 n) = (0xe0 + n) ∷ []
pending (three_1 n) = (0xe0 + n / 64) ∷ (0x80 + n % 64) ∷ []
pending (four_3 n) = (0xf0 + n) ∷ []
pending (four_2 n) = (0xf0 + n / 64) ∷ (0x80 + n % 64) ∷ []
pending (four_1 n) = (0xf0 + n / 4096) ∷ (0x80 + n / 64 % 64) ∷ (0x80 + n % 64) ∷ []

abbrev IsReached : Utf8State → Type 0
IsReached start = Unit
IsReached (two_1 n) = (2 ≤ n) × (n < 32)
IsReached (three_2 n) = n < 16
IsReached (three_1 n) = n < 1024
IsReached (four_3 n) = n < 5
IsReached (four_2 n) = n < 320
IsReached (four_1 n) = n < 20480

abbrev emitted : Option Char → List ℕ
emitted none = []
emitted (some c) = encode_char (code c)

abbrev StepOk : Utf8State → ℕ → Option Char → Utf8State → Type 0
StepOk s b c s' = IsReached s' × (pending s ++ b ∷ [] ≡ emitted c ++ pending s')

code-to_char : (n : ℕ) {c : Char} → to_char n ≡ some c → code c ≡ n
unfolding to_char
code-to_char n {c} e =
    let (p, made, same) = (Option.map-eq-some_iff (char n) _).0 e in ap code (sym same)

emit_lem :
    (least n : ℕ) {o : Option Char} {s' : Utf8State}
    → emit least n ≡ some (o, s')
    → (c : Char) × (o ≡ some c) × (s' ≡ start) × (code c ≡ n) × (least ≤ n)
unfolding emit
emit_lem least n e = elim (Option-cases (to_char n)) [
  | inl bad ↦ absurd (ground arith)
  | inr (c, made) ↦ (c, ground arith, ground arith, code-to_char n made, ground arith)
]

module _ (b : ℕ) {o : Option Char} {s' : Utf8State} where
  start_lem : step start b ≡ some (o, s') → StepOk start b o s'
  unfolding step encode_char
  start_lem e = ground (arith, emit_lem 0 b {o = o} {s' = s'})

  two_1_lem :
      (n : ℕ) → IsReached (two_1 n) → step (two_1 n) b ≡ some (o, s') → StepOk (two_1 n) b o s'
  unfolding step encode_char
  two_1_lem n r e = ground (arith, emit_lem 0x80 (shift n b) {o = o} {s' = s'})

  three_2_lem :
      (n : ℕ)
      → IsReached (three_2 n)
      → step (three_2 n) b ≡ some (o, s')
      → StepOk (three_2 n) b o s'
  unfolding step
  three_2_lem n r e = ground arith

  three_1_lem :
      (n : ℕ)
      → IsReached (three_1 n)
      → step (three_1 n) b ≡ some (o, s')
      → StepOk (three_1 n) b o s'
  unfolding step encode_char
  three_1_lem n r e = ground (arith, emit_lem 0x800 (shift n b) {o = o} {s' = s'})

  four_3_lem :
      (n : ℕ) → IsReached (four_3 n) → step (four_3 n) b ≡ some (o, s') → StepOk (four_3 n) b o s'
  unfolding step
  four_3_lem n r e = ground arith

  four_2_lem :
      (n : ℕ) → IsReached (four_2 n) → step (four_2 n) b ≡ some (o, s') → StepOk (four_2 n) b o s'
  unfolding step
  four_2_lem n r e = ground arith

  four_1_lem :
      (n : ℕ) → IsReached (four_1 n) → step (four_1 n) b ≡ some (o, s') → StepOk (four_1 n) b o s'
  unfolding step encode_char
  four_1_lem n r e = ground (arith, emit_lem 0x10000 (shift n b) {o = o} {s' = s'})

step_lem :
    (s : Utf8State) (b : ℕ) {o : Option Char} {s' : Utf8State}
    → IsReached s
    → step s b ≡ some (o, s')
    → StepOk s b o s'
step_lem start b r e = start_lem b e
step_lem (two_1 n) b r e = two_1_lem b n r e
step_lem (three_2 n) b r e = three_2_lem b n r e
step_lem (three_1 n) b r e = three_1_lem b n r e
step_lem (four_3 n) b r e = four_3_lem b n r e
step_lem (four_2 n) b r e = four_2_lem b n r e
step_lem (four_1 n) b r e = four_1_lem b n r e

encode-push : (o : Option Char) (t : String) → encode (push o t) ≡ emitted o ++ encode t
unfolding encode
encode-push none t = refl
encode-push (some c) t = refl

-- One round of the decoder.
decode_cons :
    (s : Utf8State) (b : ℕ) (bs : List ℕ) {t : String}
    → decode s (b ∷ bs) ≡ some t
    → (o : Option Char) × (s' : Utf8State) × (t' : String) × (step s b ≡ some (o, s'))
      × (decode s' bs ≡ some t')
      × (push o t' ≡ t)
unfolding decode
decode_cons s b bs e = elim (Option-cases (step s b)) [
  | inl stuck ↦ absurd (ground arith)
  | inr ((o, s'), next) ↦
      let (t', rest, same) =
        (Option.map-eq-some_iff (push o) (decode s' bs)).0 (rw (← e) (rw (next, decode))) in
      (o, s', t', next, rest, same)
]

finish_lem : (s : Utf8State) {t : String} → finish s ≡ some t → (pending s ≡ []) × (t ≡ "")
unfolding finish
finish_lem start e = ground arith
finish_lem _ e = absurd (ground arith)

encode-decode :
    (s : Utf8State) (bs : List ℕ) {t : String}
    → IsReached s
    → decode s bs ≡ some t
    → encode t ≡ pending s ++ bs
unfolding decode encode
encode-decode s [] r e = let (none_left, empty) = finish_lem s e in rw (none_left, empty)
encode-decode s (b ∷ bs) {t} r e =
    let (o, s', t', next, rest, same) = decode_cons s b bs e in
    let (r', bytes) = step_lem s b r next in
    encode t
    ≡⟨ ap encode (sym same) ∙ encode-push o t' ⟩ emitted o ++ encode t'
    ≡⟨ ap (λ l. emitted o ++ l) (encode-decode s' bs r' rest) ⟩ emitted o ++ (pending s' ++ bs)
    ≡⟨ sym (append_assoc (emitted o) (pending s') bs) ⟩ (emitted o ++ pending s') ++ bs
    ≡⟨ ap (λ l. l ++ bs) (sym bytes) ⟩ (pending s ++ b ∷ []) ++ bs
    ≡⟨ append_assoc (pending s) (b ∷ []) bs ⟩ pending s ++ b ∷ bs ∎

-- A text that decodes is encoded as the bytes that were read.
pub encode-from_utf8 : (bs : List ℕ) {t : String} → from_utf8 bs ≡ some t → encode t ≡ bs
unfolding from_utf8
encode-from_utf8 bs e = encode-decode start bs tt e
