-- ===== src/Wire/Utf8/Cut.antt =====
-- What decoding with errors="ignore" leaves of the first bytes of an encoded text: the longest text
-- that fits.
use fluid_gateway.Common.{
  ℕ, zero, suc, ◌+◌, ◌-◌, ◌≤◌, ◌<◌, ◌≡◌, refl, ap, ap₂, ◌∙◌, inl, inr, true, none, some, [], ◌∷◌,
  ◌++◌, length, length-append, take, all, ltb, Option-cases, Bool-cases, sym, arith,
}
use fluid_gateway.Wire.Errors.{Text, Bytes}
use fluid_gateway.Wire.Utf8.{
  encode_char, decode_char, two_bytes, three_bytes, four_bytes, is_cont, ignore_from,
  keep_encodable, replace_surrogates, utf8_encode, decode_ignore, Form, one, two, three, four,
  encode_char-Form, decode_char-encode_char, encode_char-pos, decode_char_two, decode_char_three,
  decode_char_four, decode_char_nil,
}

-- The longest beginning of a text whose encoding has at most so many bytes.
pub record IsCut (n : ℕ) (t cut : Text) : Type 0 where
  pub rest : Text
  pub split : t ≡ cut ++ rest
  pub kept : Bytes
  pub encoded : utf8_encode cut ≡ some kept
  pub fits : length kept ≤ n
  pub longest :
      (c : ℕ) (cs : Text) (more : Bytes)
      → rest ≡ c ∷ cs
      → utf8_encode (cut ++ c ∷ []) ≡ some more
      → n < length more

decode_char_cont : (b : ℕ) (bs : Bytes) → is_cont b ≡ true → decode_char (b ∷ bs) ≡ none
unfolding decode_char
decode_char_cont b bs h = ground arith

ignore_from_nil : (fuel : ℕ) → ignore_from fuel [] ≡ []
unfolding ignore_from
ignore_from_nil zero = refl
ignore_from_nil (suc fuel) = refl

ignore_from_cont : (fuel : ℕ) (bs : Bytes) → all is_cont bs ≡ true → ignore_from fuel bs ≡ []
unfolding ignore_from
ignore_from_cont zero bs h = refl
ignore_from_cont (suc fuel) [] h = refl
ignore_from_cont (suc fuel) (b ∷ bs) h =
    rw (ignore_from, decode_char_cont b bs (ground arith)) (ignore_from_cont fuel bs (ground arith))

ignore_from_short :
    (fuel a : ℕ) (bs : Bytes)
    → decode_char (a ∷ bs) ≡ none
    → all is_cont bs ≡ true
    → ignore_from fuel (a ∷ bs) ≡ []
unfolding ignore_from
ignore_from_short zero a bs e h = refl
ignore_from_short (suc fuel) a bs e h = rw (ignore_from, e) (ignore_from_cont fuel bs h)

ignore_from_step :
    (fuel c : ℕ) (bs rest : Bytes)
    → decode_char bs ≡ some (c, rest)
    → ignore_from (suc fuel) bs ≡ c ∷ ignore_from fuel rest
unfolding ignore_from
ignore_from_step fuel c [] rest e = cc decode_char_nil
ignore_from_step fuel c (b ∷ bs) rest e = rw (ignore_from, e) refl

-- The first bytes of a code point alone are passed over.
ignore_from-take :
    (fuel n c : ℕ) (bs : Bytes) → Form c bs → n < length bs → ignore_from fuel (take n bs) ≡ []
unfolding two_bytes three_bytes four_bytes
ignore_from-take fuel zero c bs form h = ignore_from_nil fuel
ignore_from-take fuel (suc n) c bs (one l e) h = absurd (ground arith)
ignore_from-take fuel (suc zero) c bs (two l u e) h =
    rw e (ignore_from_short fuel _ [] (decode_char_two _ _ (omega arith) (omega arith)) refl)
ignore_from-take fuel (suc (suc n)) c bs (two l u e) h = absurd (ground arith)
ignore_from-take fuel (suc zero) c bs (three l u s e) h =
    rw e (ignore_from_short fuel _ [] (decode_char_three _ _ (omega arith) (omega arith)) refl)
ignore_from-take fuel (suc (suc zero)) c bs (three l u s e) h =
    rw e (
      ignore_from_short fuel _ _ (decode_char_three _ _ (omega arith) (omega arith)) (ground arith))
ignore_from-take fuel (suc (suc (suc n))) c bs (three l u s e) h = absurd (ground arith)
ignore_from-take fuel (suc zero) c bs (four l u e) h =
    rw e (ignore_from_short fuel _ [] (decode_char_four _ _ (omega arith) (omega arith)) refl)
ignore_from-take fuel (suc (suc zero)) c bs (four l u e) h =
    rw e
      (ignore_from_short fuel _ _ (decode_char_four _ _ (omega arith) (omega arith)) (ground arith))
ignore_from-take fuel (suc (suc (suc zero))) c bs (four l u e) h =
    rw e
      (ignore_from_short fuel _ _ (decode_char_four _ _ (omega arith) (omega arith)) (ground arith))
ignore_from-take fuel (suc (suc (suc (suc n)))) c bs (four l u e) h = absurd (ground arith)

take_more : (n : ℕ) (b r : Bytes) → length b ≤ n → take n (b ++ r) ≡ b ++ take (n - length b) r
take_more n [] r h = ap (λ x. take x r) (omega arith)
take_more zero (x ∷ b) r h = absurd (ground arith)
take_more (suc n) (x ∷ b) r h =
    let same : suc n - suc (length b) ≡ n - length b = omega arith in
    rw same (ap (λ t. x ∷ t) (take_more n b r (ground arith)))

take_less : (n : ℕ) (b r : Bytes) → n < length b → take n (b ++ r) ≡ take n b
take_less zero b r h = refl
take_less (suc n) [] r h = absurd (ground arith)
take_less (suc n) (x ∷ b) r h = ap (λ t. x ∷ t) (take_less n b r (ground arith))

take_nil : (n : ℕ) → take {A = ℕ} n [] ≡ []
take_nil zero = refl
take_nil (suc n) = refl

predecessor : (n : ℕ) → 0 < n → (m : ℕ) × (n ≡ suc m)
predecessor zero h = absurd (omega arith)
predecessor (suc n) h = (n, refl)

utf8_encode-cons :
    (c : ℕ) (cs : Text) (b r : Bytes)
    → encode_char c ≡ some b
    → utf8_encode cs ≡ some r
    → utf8_encode (c ∷ cs) ≡ some (b ++ r)
unfolding utf8_encode
utf8_encode-cons c cs b r e e' = rw (utf8_encode, e, e') refl

utf8_encode-split :
    (c : ℕ) (cs : Text) (bs : Bytes)
    → utf8_encode (c ∷ cs) ≡ some bs
    → (b : Bytes) × (r : Bytes) × (encode_char c ≡ some b)
      × (utf8_encode cs ≡ some r)
      × (bs ≡ b ++ r)
unfolding utf8_encode
utf8_encode-split c cs bs h = elim (Option-cases (encode_char c)) [
  | inl e ↦ absurd (ground arith)
  | inr (b, e) ↦ elim (Option-cases (utf8_encode cs)) [
    | inl e' ↦ absurd (ground arith)
    | inr (r, e') ↦ (b, r, e, e', ground arith)
  ]
]

same_code : (c d : ℕ) (cs ds : Text) → ◌≡◌ {A = Text} (c ∷ cs) (d ∷ ds) → c ≡ d
same_code c d cs ds e = cc

same_bytes : (a b : Bytes) → some a ≡ some b → a ≡ b
same_bytes a b e = cc

nothing-IsCut :
    (n c : ℕ) (cs : Text) (b : Bytes) → encode_char c ≡ some b → n < length b → IsCut n (c ∷ cs) []
unfolding utf8_encode
nothing-IsCut n c cs b e short = record {
  rest = c ∷ cs;
  split = refl;
  kept = [];
  encoded = refl;
  fits = omega arith;
  longest = λ d ds more same h.
      let (m, r, em, er, split) = utf8_encode-split d [] more h in
      let agree : some m ≡ some b = sym em ∙ ap encode_char (sym (same_code c d cs ds same)) ∙ e in
      omega (arith, ap length split, length-append m r, ap length (same_bytes m b agree));
}

cons-IsCut :
    (n c : ℕ) (cs cut : Text) (b : Bytes)
    → encode_char c ≡ some b
    → length b ≤ n
    → IsCut (n - length b) cs cut
    → IsCut n (c ∷ cs) (c ∷ cut)
cons-IsCut n c cs cut b e fits k = record {
  rest = k.rest;
  split = ap (λ t. c ∷ t) k.split;
  kept = b ++ k.kept;
  encoded = utf8_encode-cons c cut b k.kept e k.encoded;
  fits = omega (arith, length-append b k.kept, k.fits);
  longest = λ d ds more same h.
      let (m, r, em, er, split) = utf8_encode-split c (cut ++ d ∷ []) more h in
      let agree : some m ≡ some b = sym em ∙ e in
      omega (
        arith,
        ap length split,
        length-append m r,
        ap length (same_bytes m b agree),
        k.longest d ds r same er,
      );
}

ignore_from-IsCut :
    (t : Text) (bs : Bytes) (n fuel : ℕ)
    → utf8_encode t ≡ some bs
    → length (take n bs) ≤ fuel
    → IsCut n t (ignore_from fuel (take n bs))
unfolding utf8_encode
ignore_from-IsCut [] bs n fuel h le =
    let same : ◌≡◌ {A = Bytes} [] bs = same_bytes [] bs h in
    rw (← same, take_nil n, ignore_from_nil fuel)
      (record {
        rest = [];
        split = refl;
        kept = [];
        encoded = refl;
        fits = omega arith;
        longest = λ d ds more e h. cc;
      })
ignore_from-IsCut (c ∷ cs) bs n fuel h le =
    let (b, r, e, e', split) = utf8_encode-split c cs bs h in
    elim (Bool-cases (ltb n (length b))) [
      | inl less ↦
          let short : n < length b = ground arith in
          rw
            (
              split,
              take_less n b r short,
              ignore_from-take fuel n c b (encode_char-Form c b e) short,
            )
            (nothing-IsCut n c cs b e short)
      | inr enough ↦
          let fits : length b ≤ n = ground arith in
          let some_byte = encode_char-pos c b e in
          let taken = take_more n b r fits in
          let room : length b + length (take (n - length b) r) ≤ fuel =
            rw (split, taken, length-append b (take (n - length b) r)) at le in
          let (left, next) = predecessor fuel (omega arith) in
          rw
            (
              split,
              taken,
              next,
              ignore_from_step left c (b ++ take (n - length b) r) (take (n - length b) r)
                  (decode_char-encode_char c b (take (n - length b) r) e),
            )
            (cons-IsCut n c cs _ b e fits
              (ignore_from-IsCut cs r (n - length b) left e' (omega arith)))
    ]

pub decode_ignore-IsCut :
    (t : Text) (bs : Bytes) (n : ℕ)
    → utf8_encode t ≡ some bs
    → IsCut n t (decode_ignore (take n bs))
unfolding decode_ignore
decode_ignore-IsCut t bs n h = ignore_from-IsCut t bs n (length (take n bs)) h (omega arith)

kept_as_is : (c : ℕ) (b : Bytes) → encode_char c ≡ some b → keep_encodable c (encode_char c) ≡ c
kept_as_is c b e = rw e refl

four_bytes_most : (c : ℕ) (b : Bytes) → Form c b → length b ≤ 4
four_bytes_most c b (one l e) = rw e (omega arith)
four_bytes_most c b (two l u e) = rw e (omega arith)
four_bytes_most c b (three l u s e) = rw e (omega arith)
four_bytes_most c b (four l u e) = rw e (omega arith)

-- What `errors="replace"` encodes is the text itself where the text can be encoded.
pub replace_surrogates-id :
    (t : Text) (bs : Bytes) → utf8_encode t ≡ some bs → replace_surrogates t ≡ t
unfolding replace_surrogates
replace_surrogates-id [] bs h = refl
replace_surrogates-id (c ∷ cs) bs h =
    let (b, r, e, e', split) = utf8_encode-split c cs bs h in
    ap₂ ◌∷◌ (kept_as_is c b e) (replace_surrogates-id cs r e')

-- A code point takes at most four bytes.
pub utf8_encode-le-four : (c : ℕ) (bs : Bytes) → utf8_encode (c ∷ []) ≡ some bs → length bs ≤ 4
unfolding utf8_encode
utf8_encode-le-four c bs h =
    let (b, r, e, e', split) = utf8_encode-split c [] bs h in
    omega (
      arith,
      ap length split,
      length-append b r,
      four_bytes_most c b (encode_char-Form c b e),
      ap length (same_bytes [] r e'),
    )

-- The text without its first code point, and the text without the code points after the first.
pub utf8_encode-tail :
    (c : ℕ) (cs : Text) (bs : Bytes)
    → utf8_encode (c ∷ cs) ≡ some bs
    → (r : Bytes) × (utf8_encode cs ≡ some r)
utf8_encode-tail c cs bs h = let (b, r, e, e', split) = utf8_encode-split c cs bs h in (r, e')

pub utf8_encode-again :
    (c : ℕ) (cs ds : Text) (bs r : Bytes)
    → utf8_encode (c ∷ cs) ≡ some bs
    → utf8_encode ds ≡ some r
    → (all : Bytes) × (utf8_encode (c ∷ ds) ≡ some all)
utf8_encode-again c cs ds bs r h h' =
    let (b, s, e, e', split) = utf8_encode-split c cs bs h in
    (b ++ r, utf8_encode-cons c ds b r e h')
