-- ===== src/Wire/Utf8.antt =====
-- Python's strict UTF-8 codec, `str.encode` and `bytes.decode`, over code points. A text of
-- Python may hold surrogates (0xD800 to 0xDFFF), which the strict codec refuses.
pub mod Cut
use fluid_gateway.Common.{
  ℕ, zero, suc, ◌+◌, ◌-◌, ◌*◌, ◌/◌, ◌%◌, ◌≤◌, ◌<◌, ◌≡◌, refl, ◌∙◌, inl, inr, Bool, false, ◌&&◌,
  Option, none, some, [], ◌∷◌, ◌++◌, length, length-append, ltb, leb, subst, if◌then◌else◌,
  Option-cases, Bool-cases, arith,
}
use fluid_gateway.Wire.Errors.{Text, Bytes}

-- The bytes of one code point; none for a surrogate or what is no code point.
encode_char : ℕ → Option Bytes
encode_char c =
    if ltb c 0x80
    then some (c ∷ [])
    else if ltb c 0x800
    then some ((0xC0 + c / 64) ∷ (0x80 + c % 64) ∷ [])
    else if leb 0xD800 c && leb c 0xDFFF
    then none
    else if ltb c 0x10000
    then some ((0xE0 + c / 4096) ∷ (0x80 + c / 64 % 64) ∷ (0x80 + c % 64) ∷ [])
    else if ltb c 0x110000
    then some
        ((0xF0 + c / 262144) ∷ (0x80 + c / 4096 % 64) ∷ (0x80 + c / 64 % 64) ∷ (0x80 + c % 64) ∷ [])
    else none

abbrev is_cont : ℕ → Bool
is_cont b = leb 0x80 b && ltb b 0xC0

two_bytes : ℕ → Bytes → Option (ℕ × Bytes)
two_bytes a (b ∷ rest) =
    let c = (a - 0xC0) * 64 + (b - 0x80) in if is_cont b && leb 0x80 c then some (c, rest) else none
two_bytes a [] = none

three_bytes : ℕ → Bytes → Option (ℕ × Bytes)
three_bytes a (b ∷ d ∷ rest) =
    let c = (a - 0xE0) * 4096 + (b - 0x80) * 64 + (d - 0x80) in
    if leb 0xD800 c && leb c 0xDFFF
    then none
    else if is_cont b && (is_cont d && leb 0x800 c)
    then some (c, rest)
    else none
three_bytes a _ = none

four_bytes : ℕ → Bytes → Option (ℕ × Bytes)
four_bytes a (b ∷ d ∷ e ∷ rest) =
    let c = (a - 0xF0) * 262144 + (b - 0x80) * 4096 + (d - 0x80) * 64 + (e - 0x80) in
    if is_cont b && (is_cont d && (is_cont e && (leb 0x10000 c && ltb c 0x110000)))
    then some (c, rest)
    else none
four_bytes a _ = none

-- The code point that a byte string begins with, and what follows it.
decode_char : Bytes → Option (ℕ × Bytes)
decode_char [] = none
decode_char (a ∷ rest) =
    if ltb a 0x80
    then some (a, rest)
    else if leb 0xC0 a && ltb a 0xE0
    then two_bytes a rest
    else if leb 0xE0 a && ltb a 0xF0
    then three_bytes a rest
    else if leb 0xF0 a && ltb a 0xF8
    then four_bytes a rest
    else none

-- `text.encode("utf-8", errors="strict")`; none is a `UnicodeEncodeError`.
unfoldable pub utf8_encode : Text → Option Bytes
unfolding encode_char
utf8_encode [] = some []
utf8_encode (c ∷ cs) = elim (encode_char c) [
  | none ↦ none
  | some bs ↦ elim (utf8_encode cs) [ none ↦ none | some rest ↦ some (bs ++ rest) ]
]

-- Every code point takes a byte at least, so the length of the bytes is fuel enough.
decode_from : ℕ → Bytes → Option Text
decode_from fuel [] = some []
decode_from zero (b ∷ bs) = none
decode_from (suc fuel) (b ∷ bs) = elim (decode_char (b ∷ bs)) [
  | none ↦ none
  | some (c, rest) ↦ elim (decode_from fuel rest) [ none ↦ none | some cs ↦ some (c ∷ cs) ]
]

-- `data.decode("utf-8", errors="strict")`; none is a `UnicodeDecodeError`.
unfoldable pub utf8_decode : Bytes → Option Text
unfolding decode_from decode_char two_bytes three_bytes four_bytes
utf8_decode bs = decode_from (length bs) bs

abbrev keep_encodable : ℕ → Option Bytes → ℕ
keep_encodable c none = b'?'
keep_encodable c (some bs) = c

-- `text.encode("utf-8", errors="replace")` encodes this text: `?` for what cannot be encoded.
unfoldable pub replace_surrogates : Text → Text
unfolding encode_char
replace_surrogates [] = []
replace_surrogates (c ∷ cs) = keep_encodable c (encode_char c) ∷ replace_surrogates cs

-- A byte that begins no code point is passed over.
ignore_from : ℕ → Bytes → Text
ignore_from zero bs = []
ignore_from (suc fuel) [] = []
ignore_from (suc fuel) (b ∷ bs) = elim (decode_char (b ∷ bs)) [
  | none ↦ ignore_from fuel bs
  | some (c, rest) ↦ c ∷ ignore_from fuel rest
]

-- `data.decode("utf-8", errors="ignore")`
unfoldable pub decode_ignore : Bytes → Text
unfolding ignore_from decode_char two_bytes three_bytes four_bytes
decode_ignore bs = ignore_from (length bs) bs

two_bytes_lem :
    (a b c : ℕ) (rest : Bytes)
    → (a - 0xC0) * 64 + (b - 0x80) ≡ c
    → 0x80 ≤ b
    → b < 0xC0
    → 0x80 ≤ c
    → two_bytes a (b ∷ rest) ≡ some (c, rest)
unfolding two_bytes
two_bytes_lem a b c rest e hb hb' hc = rw e (ground arith)

three_bytes_lem :
    (a b d c : ℕ) (rest : Bytes)
    → (a - 0xE0) * 4096 + (b - 0x80) * 64 + (d - 0x80) ≡ c
    → 0x80 ≤ b
    → b < 0xC0
    → 0x80 ≤ d
    → d < 0xC0
    → 0x800 ≤ c
    → (leb 0xD800 c && leb c 0xDFFF) ≡ false
    → three_bytes a (b ∷ d ∷ rest) ≡ some (c, rest)
unfolding three_bytes
three_bytes_lem a b d c rest e hb hb' hd hd' hc hs = rw e (ground arith)

four_bytes_lem :
    (a b d f c : ℕ) (rest : Bytes)
    → (a - 0xF0) * 262144 + (b - 0x80) * 4096 + (d - 0x80) * 64 + (f - 0x80) ≡ c
    → (0x80 ≤ b) × (b < 0xC0)
    → (0x80 ≤ d) × (d < 0xC0)
    → (0x80 ≤ f) × (f < 0xC0)
    → 0x10000 ≤ c
    → c < 0x110000
    → four_bytes a (b ∷ d ∷ f ∷ rest) ≡ some (c, rest)
unfolding four_bytes
four_bytes_lem a b d f c rest e hb hd hf hc hc' = rw e (ground arith)

decode_char_one : (a : ℕ) (rest : Bytes) → a < 0x80 → decode_char (a ∷ rest) ≡ some (a, rest)
unfolding decode_char
decode_char_one a rest h = ground arith

decode_char_two :
    (a : ℕ) (rest : Bytes) → 0xC0 ≤ a → a < 0xE0 → decode_char (a ∷ rest) ≡ two_bytes a rest
unfolding decode_char
decode_char_two a rest h h' = ground arith

decode_char_three :
    (a : ℕ) (rest : Bytes) → 0xE0 ≤ a → a < 0xF0 → decode_char (a ∷ rest) ≡ three_bytes a rest
unfolding decode_char
decode_char_three a rest h h' = ground arith

decode_char_four :
    (a : ℕ) (rest : Bytes) → 0xF0 ≤ a → a < 0xF8 → decode_char (a ∷ rest) ≡ four_bytes a rest
unfolding decode_char
decode_char_four a rest h h' = ground arith

-- The four forms that the bytes of one code point take.
data Form (c : ℕ) (bs : Bytes) : Type 0 where
  one : c < 0x80 → bs ≡ c ∷ [] → Form c bs
  two : 0x80 ≤ c → c < 0x800 → bs ≡ (0xC0 + c / 64) ∷ (0x80 + c % 64) ∷ [] → Form c bs
  three :
      0x800 ≤ c
      → c < 0x10000
      → (leb 0xD800 c && leb c 0xDFFF) ≡ false
      → bs ≡ (0xE0 + c / 4096) ∷ (0x80 + c / 64 % 64) ∷ (0x80 + c % 64) ∷ []
      → Form c bs
  four :
      0x10000 ≤ c
      → c < 0x110000
      → bs
        ≡ (0xF0 + c / 262144) ∷ (0x80 + c / 4096 % 64) ∷ (0x80 + c / 64 % 64) ∷ (0x80 + c % 64) ∷ []
      → Form c bs

encode_char-Form : (c : ℕ) (bs : Bytes) → encode_char c ≡ some bs → Form c bs
unfolding encode_char
encode_char-Form c bs h = elim (Bool-cases (ltb c 0x80)) [
  | inl p ↦ one (ground arith) (ground arith)
  | inr p ↦ elim (Bool-cases (ltb c 0x800)) [
    | inl q ↦ two (ground arith) (ground arith) (ground arith)
    | inr q ↦ elim (Bool-cases (ltb c 0x10000)) [
      | inl r ↦ three (ground arith) (ground arith) (ground arith) (ground arith)
      | inr r ↦ four (ground arith) (ground arith) (ground arith)
    ]
  ]
]

decode_char-Form : (c : ℕ) (bs rest : Bytes) → Form c bs → decode_char (bs ++ rest) ≡ some (c, rest)
decode_char-Form c bs rest (one h e) = rw e (decode_char_one c rest h)
decode_char-Form c bs rest (two h h' e) = rw e (
    decode_char_two _ _ (omega arith) (omega arith)
    ∙ two_bytes_lem _ _ c rest (omega arith) (omega arith) (omega arith) h)
decode_char-Form c bs rest (three h h' s e) = rw e (
    decode_char_three _ _ (omega arith) (omega arith)
    ∙ three_bytes_lem _ _ _ c rest (omega arith) (omega arith) (omega arith) (omega arith)
        (omega arith) h s)
decode_char-Form c bs rest (four h h' e) = rw e (
    decode_char_four _ _ (omega arith) (omega arith)
    ∙ four_bytes_lem _ _ _ _ c rest (omega arith) (omega arith) (omega arith) (omega arith) h h')

-- Decoding one code point undoes its encoding, whatever bytes follow.
decode_char-encode_char :
    (c : ℕ) (bs rest : Bytes) → encode_char c ≡ some bs → decode_char (bs ++ rest) ≡ some (c, rest)
decode_char-encode_char c bs rest h = decode_char-Form c bs rest (encode_char-Form c bs h)

encode_char-pos : (c : ℕ) (bs : Bytes) → encode_char c ≡ some bs → 0 < length bs
unfolding encode_char
encode_char-pos c bs h = ground arith

decode_char_nil : decode_char [] ≡ none
unfolding decode_char
decode_char_nil = refl

decode_from_nil : (fuel : ℕ) → decode_from fuel [] ≡ some []
unfolding decode_from
decode_from_nil zero = refl
decode_from_nil (suc fuel) = refl

decode_from_step :
    (fuel c : ℕ) (bs rest : Bytes) (cs : Text)
    → decode_char bs ≡ some (c, rest)
    → decode_from fuel rest ≡ some cs
    → decode_from (suc fuel) bs ≡ some (c ∷ cs)
unfolding decode_from
decode_from_step fuel c [] rest cs h k = cc decode_char_nil
decode_from_step fuel c (b ∷ bs) rest cs h k = ground arith

decode_from-utf8_encode :
    (t : Text) (bs : Bytes) (fuel : ℕ)
    → utf8_encode t ≡ some bs
    → length bs ≤ fuel
    → decode_from fuel bs ≡ some t
unfolding utf8_encode
decode_from-utf8_encode [] bs fuel h le =
    let e : ◌≡◌ {A = Bytes} [] bs = cc in
    subst (λ x. decode_from fuel x ≡ some []) e (decode_from_nil fuel)
decode_from-utf8_encode (c ∷ cs) bs fuel h le = elim (Option-cases (encode_char c)) [
  | inl e ↦ absurd (ground arith)
  | inr (b, e) ↦ elim (Option-cases (utf8_encode cs)) [
    | inl e' ↦ absurd (ground arith)
    | inr (r, e') ↦
        let split : bs ≡ b ++ r = ground arith in
        let long : length b + length r ≤ fuel = rw (← length-append b r, ← split) le in
        decode_char_then c cs b r bs fuel e split (omega (arith, encode_char-pos c b e))
          (decode_from-utf8_encode cs r (fuel - 1) e' (omega (arith, encode_char-pos c b e)))
  ]
]
  where
    decode_char_then :
        (c : ℕ) (cs : Text) (b r bs : Bytes) (fuel : ℕ)
        → encode_char c ≡ some b
        → bs ≡ b ++ r
        → 0 < fuel
        → decode_from (fuel - 1) r ≡ some cs
        → decode_from fuel bs ≡ some (c ∷ cs)
    decode_char_then c cs b r bs zero e split pos h = absurd (omega arith)
    decode_char_then c cs b r bs (suc fuel) e split pos h = rw split (
        decode_from_step fuel c (b ++ r) r cs (decode_char-encode_char c b r e)
          (let p : suc fuel - 1 ≡ fuel = omega arith in rw p at h))

-- Strict decoding undoes strict encoding.
pub utf8_decode-utf8_encode :
    (t : Text) (bs : Bytes) → utf8_encode t ≡ some bs → utf8_decode bs ≡ some t
unfolding utf8_decode
utf8_decode-utf8_encode t bs h = decode_from-utf8_encode t bs (length bs) h (omega arith)

-- A text with a code point takes a byte at least.
pub utf8_encode-pos :
    (c : ℕ) (cs : Text) (bs : Bytes) → utf8_encode (c ∷ cs) ≡ some bs → 0 < length bs
unfolding utf8_encode
utf8_encode-pos c cs bs h = elim (Option-cases (encode_char c)) [
  | inl e ↦ absurd (ground arith)
  | inr (b, e) ↦ elim (Option-cases (utf8_encode cs)) [
    | inl e' ↦ absurd (ground arith)
    | inr (r, e') ↦
        let split : bs ≡ b ++ r = ground arith in
        rw split (omega (arith, length-append b r, encode_char-pos c b e))
  ]
]
