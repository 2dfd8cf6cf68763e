-- ===== src/Wire/Codec.antt =====
-- Writer calls against the reader calls that undo them: one rule for each call, one for each way
-- to join two. The payload codecs of fluidgateway/fluidlink_v2.py are built from these.
use fluid_gateway.Common.{
  ℕ, ◌≤◌, ◌<◌, ◌^◌, ◌≡◌, refl, ap, ◌∙◌, Bool, true, false, not, ◌&&◌, ◌||◌, some, inl, inr, ◌⊎◌, [],
  ◌∷◌, ◌++◌, append_assoc, append-nil, length, length-append, take-append, drop-append, ltb, ◌==◌,
  Option-cases, arith,
}
use fluid_gateway.Wire.Errors.{Text, Bytes, ProtocolError, Result, ok, err, >>=-eq-ok}
use fluid_gateway.Wire.Words.{pack_le, unpack_le, length-pack_le, unpack_le-pack_le}
use fluid_gateway.Wire.Utf8.{utf8_encode, utf8_decode-utf8_encode, utf8_encode-pos}
use fluid_gateway.Wire.Texts.{is_blank, encode_bounded_text}
use fluid_gateway.Wire.Writer
use fluid_gateway.Wire.Writer.{◌⊕◌}
use fluid_gateway.Wire.Reader
use fluid_gateway.Wire.Reader.{Reader, pure, ◌>>=◌}

pub Result-cases :
    {A : Type 0} (r : Result A) → ((a : A) × (r ≡ ok a)) ⊎ ((e : ProtocolError) × (r ≡ err e))
Result-cases (ok a) = inl (a, refl)
Result-cases (err e) = inr (e, refl)

-- Where the writer's call returns, the reader's call takes exactly its bytes and returns `v`.
pub record Encodes {A : Type 0} (w : Result Bytes) (r : Reader A) (v : A) : Type 0 where
  pub at : (bs rest : Bytes) → w ≡ ok bs → r (bs ++ rest) ≡ ok (v, rest)

pub ⊕-eq-ok :
    (w w' : Result Bytes) {bs : Bytes}
    → (w ⊕ w') ≡ ok bs
    → (x : Bytes) × (y : Bytes) × (w ≡ ok x) × (w' ≡ ok y) × (bs ≡ x ++ y)
unfolding ◌⊕◌
⊕-eq-ok (ok x) (ok y) h = (x, y, refl, refl, cc)
⊕-eq-ok (ok x) (err e) h = cc
⊕-eq-ok (err e) w' h = cc

module _ {A B : Type 0} where
  pub bind-ok :
      (r : Reader A) (f : A → Reader B) {bs rest : Bytes} {a : A}
      → r bs ≡ ok (a, rest)
      → (r >>= f) bs ≡ f a rest
  bind-ok r f h = rw (h, ◌>>=◌)

  pub Encodes-then :
      {w w' : Result Bytes} {r : Reader A} (f : A → Reader B) {a : A} {b : B}
      → Encodes w r a
      → Encodes w' (f a) b
      → Encodes (w ⊕ w') (r >>= f) b
  Encodes-then {w} {w'} {r} f {a} {b} e e' = record {
    at = λ bs rest h.
        let (x, y, p, q, split) = ⊕-eq-ok w w' h in
        rw (split, append_assoc) (bind-ok r f (e.at x (y ++ rest) p) ∙ e'.at y rest q);
  }

  -- The last call of a writer, under whatever the decoder makes of its value.
  pub Encodes-map :
      {w : Result Bytes} {r : Reader A} (f : A → Reader B) {a : A} {b : B}
      → Encodes w r a
      → ((bs : Bytes) → f a bs ≡ ok (b, bs))
      → Encodes w (r >>= f) b
  Encodes-map {r} f e h = record { at = λ bs rest p. bind-ok r f (e.at bs rest p) ∙ h rest }

-- A decoder reads back the whole of a finished payload.
pub Encodes-finish :
    {A : Type 0} {w : Result Bytes} {r : Reader A} {v : A} (bs : Bytes)
    → Encodes w r v
    → Writer.finish w ≡ ok bs
    → Reader.finish r bs ≡ ok v
unfolding Writer.finish Reader.finish
Encodes-finish {w} {r} {v} bs e h = elim (Result-cases w) [
  | inl (payload, p) ↦
      let same : payload ≡ bs = ground arith in
      let whole : r bs ≡ ok (v, []) = rw (← append-nil bs) (e.at bs [] (p ∙ ap ok same)) in
      rw (whole, Reader.finish)
  | inr (x, p) ↦ absurd (ground arith)
]

bytes-append :
    (bs rest : Bytes) (n : ℕ) → length bs ≡ n → Reader.bytes n (bs ++ rest) ≡ ok (bs, rest)
unfolding Reader.bytes
bytes-append bs rest n h =
    let fits : ltb (length (bs ++ rest)) n ≡ false = rw length-append (ground arith) in
    rw (fits, take-append bs rest n h, drop-append bs rest n h)

-- A word of `n` bytes, from a writer that checks its range.
word_at :
    (n v : ℕ) (bs rest : Bytes)
    → v < 256 ^ n
    → bs ≡ pack_le n v
    → (Reader.bytes n >>= λ b. pure (unpack_le b)) (bs ++ rest) ≡ ok (v, rest)
word_at n v bs rest lt e = rw e (
    bind-ok (Reader.bytes n) (λ b. pure (unpack_le b))
      (bytes-append (pack_le n v) rest n (length-pack_le n v))
    ∙ ap (λ t. ok (t, rest)) (unpack_le-pack_le n v lt))

pub Encodes-u8 : (v : ℕ) → Encodes (Writer.u8 v) Reader.u8 v
unfolding Writer.u8 Reader.u8
Encodes-u8 v = record { at = λ bs rest h. let e : bs ≡ v ∷ [] = ground arith in rw e refl }

pub Encodes-u16 : (v : ℕ) → Encodes (Writer.u16 v) Reader.u16 v
unfolding Writer.u16 Reader.u16
Encodes-u16 v = record { at = λ bs rest h. word_at 2 v bs rest (ground arith) (ground arith) }

pub Encodes-u32 : (v : ℕ) → Encodes (Writer.u32 v) Reader.u32 v
unfolding Writer.u32 Reader.u32
Encodes-u32 v = record { at = λ bs rest h. word_at 4 v bs rest (ground arith) (ground arith) }

pub Encodes-u64 : (v : ℕ) → Encodes (Writer.u64 v) Reader.u64 v
unfolding Writer.u64 Reader.u64
Encodes-u64 v = record { at = λ bs rest h. word_at 8 v bs rest (ground arith) (ground arith) }

pub Encodes-raw : (v : Bytes) (n : ℕ) → Encodes (Writer.raw v n) (Reader.bytes n) v
unfolding Writer.raw
Encodes-raw v n = record {
  at = λ bs rest h. let e : bs ≡ v = ground arith in rw e (bytes-append v rest n (ground arith));
}

-- What an accepted text satisfies.
bounded_text :
    (t : Text) (max : ℕ) (allow_empty : Bool) (e : Bytes)
    → encode_bounded_text t max allow_empty ≡ ok e
    → (utf8_encode t ≡ some e) × (length e ≤ max) × ((not allow_empty && is_blank t) ≡ false)
unfolding encode_bounded_text
bounded_text t max allow_empty e h = elim (Option-cases (utf8_encode t)) [
  | inl p ↦ absurd (ground arith)
  | inr (b, p) ↦ (ground arith, ground arith, ground arith)
]

length-pos_of_not_blank :
    (t : Text) (e : Bytes) → utf8_encode t ≡ some e → is_blank t ≡ false → 0 < length e
unfolding is_blank
length-pos_of_not_blank [] e h b = cc
length-pos_of_not_blank (c ∷ cs) e h b = utf8_encode-pos c cs e h

text_at :
    (t : Text) (max : ℕ) (allow_empty : Bool) (e rest : Bytes)
    → encode_bounded_text t max allow_empty ≡ ok e
    → Reader.text (length e) max allow_empty (e ++ rest) ≡ ok (t, rest)
unfolding Reader.text
text_at t max allow_empty e rest h =
    let (enc, fits, shown) = bounded_text t max allow_empty e h in
    let sized : (ltb max (length e) || (length e == 0 && not allow_empty)) ≡ false =
      sized_lem allow_empty (length-pos_of_not_blank t e enc) fits shown in
    let read = bytes-append e rest (length e) refl in
    let decoded = utf8_decode-utf8_encode t e enc in rw sized (ground arith)
  where
    sized_lem :
        (allow_empty : Bool)
        → (is_blank t ≡ false → 0 < length e)
        → length e ≤ max
        → (not allow_empty && is_blank t) ≡ false
        → (ltb max (length e) || (length e == 0 && not allow_empty)) ≡ false
    sized_lem true pos fits shown = ground arith
    sized_lem false pos fits shown = ground (arith, pos shown)

pub Encodes-text16 :
    (t : Text) (max : ℕ) (allow_empty : Bool)
    → Encodes (Writer.text16 t max allow_empty) (Reader.text16 max allow_empty) t
unfolding Writer.text16 Reader.text16
Encodes-text16 t max allow_empty = record {
  at = λ bs rest h.
      let (e, p, q) = >>=-eq-ok (encode_bounded_text t max allow_empty) _ h in
      (Encodes-then (λ size. Reader.text size max allow_empty) (Encodes-u16 (length e))
          (record {
            at = λ x r k.
                let same : x ≡ e = ground arith in rw same (text_at t max allow_empty e r p);
          })).at
        bs rest q;
}

pub Encodes-text8 : (t : Text) (max : ℕ) → Encodes (Writer.text8 t max) (Reader.text8 max) t
unfolding Writer.text8 Reader.text8
Encodes-text8 t max = record {
  at = λ bs rest h.
      let (e, p, q) = >>=-eq-ok (encode_bounded_text t max false) _ h in
      let written : (Writer.u8 (length e) ⊕ ok e) ≡ ok bs = ground arith in
      (Encodes-then (λ size. Reader.text size max false) (Encodes-u8 (length e))
          (record {
            at = λ x r k. let same : x ≡ e = ground arith in rw same (text_at t max false e r p);
          })).at
        bs rest written;
}

pub Encodes-empty : {A : Type 0} (v : A) → Encodes (ok []) (pure v) v
Encodes-empty v = record { at = λ bs rest h. let e : ◌≡◌ {A = Bytes} [] bs = cc in rw (← e) refl }
