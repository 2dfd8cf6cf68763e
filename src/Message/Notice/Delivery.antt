-- ===== src/Message/Notice/Delivery.antt =====
-- That an error payload of fluidgateway/fluidlink_v2.py reaches the peer, however long its message is.
use fluid_gateway.Common.{
  ℕ, ◌+◌, ◌≡◌, ◌≤◌, refl, sym, ◌∙◌, ap, inl, inr, true, false, Bool-cases, some, [], ◌∷◌, ◌++◌,
  length, append-nil, leb, ltb, arith,
}
use fluid_gateway.Wire.Errors.{Text, Bytes, ok, say}
use fluid_gateway.Wire.Utf8.{utf8_encode}
use fluid_gateway.Wire.Utf8.Cut.{
  IsCut, decode_ignore-IsCut, replace_surrogates-id, utf8_encode-again, utf8_encode-le-four,
}
use fluid_gateway.Wire.Texts.{strip, is_space, is_blank, encode_bounded_text}
use fluid_gateway.Wire.Texts.Stripped.{IsTrimmed, strip-IsTrimmed}
use fluid_gateway.Wire.Words.{pack_le}
use fluid_gateway.Wire.Writer
use fluid_gateway.Message.Notice.{
  ErrorCode, error_number, error_name, or_default, truncate_utf8, encode_error, decode_error,
  decode_error-encode_error, session_closed,
}

-- What an error says: its message without the space around it, or that the request failed.
abbrev pub given : Text → Text
given message = or_default (strip message) (say "FluidLink v2 request failed.")

-- The payload of an error, and what the peer reads of it: the name of the error, and as much of what
-- it says as fits 512 bytes.
pub record IsDelivered (code : ErrorCode) (message : Text) : Type 0 where
  pub bytes : Bytes
  pub text : Text
  pub encoded : encode_error code message ≡ ok bytes
  pub decoded : decode_error bytes ≡ ok (error_name code, text)
  pub cut : IsCut 512 (given message) text

-- A text that can be encoded, with a first code point that is no space.
record IsStated (t : Text) : Type 0 where
  first : ℕ
  others : Text
  split : t ≡ first ∷ others
  bare : is_space first ≡ false
  bytes : Bytes
  encoded : utf8_encode t ≡ some bytes

or_default-IsStated :
    (t : Text) → IsTrimmed t → IsStated (or_default t (say "FluidLink v2 request failed."))
unfolding say utf8_encode is_space
or_default-IsStated [] k = record {
  first = _;
  others = _;
  split = refl;
  bare = refl;
  bytes = _;
  encoded = refl;
}
or_default-IsStated (c ∷ cs) k = record {
  first = c;
  others = cs;
  split = refl;
  bare = k.bare c cs refl;
  bytes = k.bytes;
  encoded = k.encoded;
}

whole-IsCut :
    (n : ℕ) (t : Text) (bs : Bytes) → utf8_encode t ≡ some bs → length bs ≤ n → IsCut n t t
whole-IsCut n t bs h fits = record {
  rest = [];
  split = sym (append-nil t);
  kept = bs;
  encoded = h;
  fits = fits;
  longest = λ c cs more e h'. cc;
}

-- What is cut to four bytes or more keeps the first code point.
cut_first :
    (n : ℕ) (t cut : Text) (s : IsStated t)
    → 4 ≤ n
    → IsCut n t cut
    → (ds : Text) × (cut ≡ s.first ∷ ds)
unfolding utf8_encode
cut_first n t [] s enough k =
    let (more, e) =
      utf8_encode-again s.first s.others [] s.bytes [] (rw (← s.split) s.encoded) refl in
    let long = k.longest s.first s.others more (sym k.split ∙ s.split) e in
    absurd (omega (arith, utf8_encode-le-four s.first more e))
cut_first n t (d ∷ ds) s enough k =
    let same : ◌≡◌ {A = Text} (s.first ∷ s.others) (d ∷ (ds ++ k.rest)) = sym s.split ∙ k.split in
    let first : d ≡ s.first = cc in (ds, ap (λ x. x ∷ ds) first)

truncate_utf8-IsCut :
    (message : Text) (n : ℕ)
    → IsStated (given message)
    → 4 ≤ n
    → IsCut n (given message) (truncate_utf8 message n)
unfolding truncate_utf8
truncate_utf8-IsCut message n s enough =
    let same = replace_surrogates-id (given message) s.bytes s.encoded in
    elim (Bool-cases (leb (length s.bytes) n)) [
      | inl fits ↦
          rw (truncate_utf8, same, s.encoded, fits)
            (whole-IsCut n (given message) s.bytes s.encoded (ground arith))
      | inr long ↦
          let k = decode_ignore-IsCut (given message) s.bytes n s.encoded in
          let (ds, e) = cut_first n (given message) _ s enough k in
          rw (truncate_utf8, same, s.encoded, long, e) (rw e at k)
    ]

error_number-le : (code : ErrorCode) → leb (error_number code) 0xFFFF ≡ true
error_number-le session_closed = refl
error_number-le _ = refl

-- Whatever can be encoded, is not blank and fits is written.
text16-kept :
    (cut : Text) (kept : Bytes)
    → utf8_encode cut ≡ some kept
    → length kept ≤ 512
    → is_blank cut ≡ false
    → Writer.text16 cut 512 false ≡ ok (pack_le 2 (length kept) ++ kept)
unfolding Writer.text16 encode_bounded_text Writer.◌⊕◌ Writer.u16
text16-kept cut kept encoded fits filled =
    let short : ltb 512 (length kept) ≡ false = ground arith in
    let word : leb (length kept) 0xFFFF ≡ true = ground arith in
    rw (encode_bounded_text, encoded, short, filled, word) refl

u16-error_number :
    (code : ErrorCode) → Writer.u16 (error_number code) ≡ ok (pack_le 2 (error_number code))
unfolding Writer.u16
u16-error_number code = rw (Writer.u16, error_number-le code) refl

finish-kept :
    (code : ErrorCode) (kept : Bytes)
    → length kept ≤ 512
    → Writer.finish (ok (pack_le 2 (error_number code) ++ (pack_le 2 (length kept) ++ kept)))
      ≡ ok (pack_le 2 (error_number code) ++ (pack_le 2 (length kept) ++ kept))
unfolding Writer.finish pack_le
finish-kept code kept fits =
    let room : ltb 65535 (4 + length kept) ≡ false = ground arith in ground arith

-- Whatever the error code and however long the message, where the message can be encoded in UTF-8
-- the error payload is encoded, and it is decoded as the name of the error and the longest
-- beginning that fits 512 bytes of the message without the space around it, or of the text that
-- stands for a message of space alone.
pub encode_error-IsDelivered :
    (code : ErrorCode) (message : Text) (bs : Bytes)
    → utf8_encode message ≡ some bs
    → IsDelivered code message
unfolding is_blank encode_error Writer.◌⊕◌
encode_error-IsDelivered code message bs h =
    let s = or_default-IsStated (strip message) (strip-IsTrimmed message bs h) in
    let k = truncate_utf8-IsCut message 512 s (omega arith) in
    let (ds, e) = cut_first 512 (given message) (truncate_utf8 message 512) s (omega arith) k in
    let filled : is_blank (truncate_utf8 message 512) ≡ false = rw (e, s.bare) refl in
    let written : encode_error code message
        ≡ ok (pack_le 2 (error_number code) ++ (pack_le 2 (length k.kept) ++ k.kept)) =
      rw
        (
          encode_error,
          u16-error_number code,
          text16-kept (truncate_utf8 message 512) k.kept k.encoded k.fits filled,
        )
        (finish-kept code k.kept k.fits) in
    record {
      bytes = _;
      text = truncate_utf8 message 512;
      encoded = written;
      decoded = decode_error-encode_error code message _ written;
      cut = k;
    }
