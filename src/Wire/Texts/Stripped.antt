-- ===== src/Wire/Texts/Stripped.antt =====
-- What `str.strip` leaves of a text: nothing, or a text that does not begin with a space.
use fluid_gateway.Common.{ℕ, ◌&&◌, ◌≡◌, refl, inl, inr, false, Bool-cases, some, [], ◌∷◌, arith}
use fluid_gateway.Wire.Errors.{Text, Bytes}
use fluid_gateway.Wire.Utf8.{utf8_encode}
use fluid_gateway.Wire.Utf8.Cut.{utf8_encode-tail, utf8_encode-again}
use fluid_gateway.Wire.Texts.{is_space, is_blank, lstrip, rstrip, strip}

-- A text that can be encoded, and that does not begin with a space.
pub record IsTrimmed (t : Text) : Type 0 where
  pub bytes : Bytes
  pub encoded : utf8_encode t ≡ some bytes
  pub bare : (c : ℕ) (cs : Text) → t ≡ c ∷ cs → is_space c ≡ false

lstrip-IsTrimmed : (t : Text) (bs : Bytes) → utf8_encode t ≡ some bs → IsTrimmed (lstrip t)
unfolding lstrip
lstrip-IsTrimmed [] bs h = record { bytes = bs; encoded = h; bare = λ c cs e. cc }
lstrip-IsTrimmed (c ∷ cs) bs h =
    let (r, e) = utf8_encode-tail c cs bs h in
    let ih = lstrip-IsTrimmed cs r e in
    elim (Bool-cases (is_space c)) [
      | inl space ↦ rw (lstrip, space) ih
      | inr bare ↦
          rw (lstrip, bare)
            (record {
              bytes = bs;
              encoded = h;
              bare = λ d ds same. let first : c ≡ d = cc in rw (← first) bare;
            })
    ]

rstrip-encoded :
    (t : Text) (bs : Bytes)
    → utf8_encode t ≡ some bs
    → (r : Bytes) × (utf8_encode (rstrip t) ≡ some r)
unfolding rstrip utf8_encode
rstrip-encoded [] bs h = ([], refl)
rstrip-encoded (c ∷ cs) bs h =
    let (r, e) = utf8_encode-tail c cs bs h in
    let (r', e') = rstrip-encoded cs r e in
    elim (Bool-cases (is_space c && is_blank cs)) [
      | inl blank ↦ rw (rstrip, blank) ([], refl)
      | inr filled ↦ rw (rstrip, filled) (utf8_encode-again c cs (rstrip cs) bs r' h e')
    ]

rstrip-IsTrimmed : (t : Text) → IsTrimmed t → IsTrimmed (rstrip t)
unfolding rstrip
rstrip-IsTrimmed [] k = k
rstrip-IsTrimmed (c ∷ cs) k =
    let bare = k.bare c cs refl in
    let (r, e) = rstrip-encoded (c ∷ cs) k.bytes k.encoded in
    record {
      bytes = r;
      encoded = e;
      bare = λ d ds same. let first : c ≡ d = ground arith in rw (← first) bare;
    }

pub strip-IsTrimmed : (t : Text) (bs : Bytes) → utf8_encode t ≡ some bs → IsTrimmed (strip t)
unfolding strip
strip-IsTrimmed t bs h = rstrip-IsTrimmed (lstrip t) (lstrip-IsTrimmed t bs h)
