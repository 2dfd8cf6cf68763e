-- ===== src/Frame/Stream/Cutting.antt =====
-- The bytes of a header and a payload, cut as a reader takes them (`read_fluidlink_v2_frame` of
-- fluidgateway/fluidlink_v2.py and `read_fluidlink_frame` of fluidgateway/fluidlink.py).
use fluid_gateway.Common.{
  ℕ, zero, suc, ◌+◌, ◌-◌, ◌≤◌, ◌≡◌, refl, ap, sym, ◌∙◌, Option, some, [], ◌∷◌, ◌++◌, append_assoc,
  length, take, drop, length-append, take-append, arith,
}
use fluid_gateway.Wire.Errors.{Bytes, Result, ok}
use fluid_gateway.Wire.Words.{unpack_le}
use fluid_gateway.Frame.Struct.{Header, magic, pack_header, unpack_header, split}
use fluid_gateway.Frame.Layout.{IsSized, unpack_header-pack_header}
use fluid_gateway.Frame.RoundTrip.{length-pack_header}
use fluid_gateway.Frame.Stream.{Stream}
use fluid_gateway.Frame.Stream.Reading.{flatten, IsLive, append_split}

drop_nil : (n : ℕ) → ◌≡◌ {A = Bytes} (drop n []) []
drop_nil zero = refl
drop_nil (suc n) = refl

drop-drop : (k n : ℕ) (xs : Bytes) → drop n (drop k xs) ≡ drop (k + n) xs
drop-drop zero n xs = ap (λ t. drop t xs) (omega arith)
drop-drop (suc k) n [] = let e : suc k + n ≡ suc (k + n) = omega arith in rw e (drop_nil n)
drop-drop (suc k) n (x ∷ xs) =
    let e : suc k + n ≡ suc (k + n) = omega arith in rw e (drop-drop k n xs)

size_field : (d : Bytes) → (unpack_header d).payload_size ≡ unpack_le (take 4 (drop 52 d))
unfolding unpack_header split
size_field d = simp drop-drop

take-append_le : (n : ℕ) (xs ys : Bytes) → n ≤ length xs → take n (xs ++ ys) ≡ take n xs
take-append_le zero xs ys h = refl
take-append_le (suc n) [] ys h = absurd (omega arith)
take-append_le (suc n) (x ∷ xs) ys h = ap (λ t. x ∷ t) (take-append_le n xs ys (omega arith))

first_four : (h : Header) → length h.magic ≡ 4 → take 4 (pack_header h) ≡ h.magic
unfolding pack_header
first_four h e = take-append h.magic _ 4 e

-- A header that is cut in two: the prefix that was read before, and the bytes still to come.
pub record Cut (h : Header) (prefix rest_of_header : Bytes) : Type 0 where
  pub sized : IsSized h
  pub signed : h.magic ≡ magic
  pub whole : pack_header h ≡ prefix ++ rest_of_header
  pub long : 4 ≤ length prefix
  pub short : length prefix ≤ 56

pub Cut-size : (h : Header) (prefix q : Bytes) → Cut h prefix q → length q ≡ 56 - length prefix
Cut-size h prefix q c =
    omega (arith, ap length c.whole, length-append prefix q, length-pack_header h c.sized)

pub Cut-magic : (h : Header) (prefix q : Bytes) → Cut h prefix q → take 4 prefix ≡ magic
Cut-magic h prefix q c =
    sym (take-append_le 4 prefix q c.long)
    ∙ (ap (take 4) (sym c.whole) ∙ (first_four h c.sized.magic ∙ c.signed))

pub Cut-payload_size :
    (h : Header) (prefix q : Bytes)
    → Cut h prefix q
    → unpack_le (take 4 (drop 52 (prefix ++ q))) ≡ h.payload_size
Cut-payload_size h prefix q c =
    ap (λ t. unpack_le (take 4 (drop 52 t))) (sym c.whole)
    ∙ (sym (size_field (pack_header h))
        ∙ ap (λ (h : Header). h.payload_size) (unpack_header-pack_header h c.sized))

-- Where a reader that returns a frame stops.
pub record Finds {A : Type 0} (result : Result (Option A × Stream)) (f : A) (rest : Bytes)
    : Type 0 where
  pub left : Stream
  pub returned : result ≡ ok (some f, left)
  pub remaining : flatten left ≡ rest
  pub live : IsLive left

-- A wire that is a header and a payload, read with a prefix: where the header is cut.
pub Cut-prefix :
    (h : Header) (payload prefix wire rest : Bytes) (stream : Stream)
    → IsSized h
    → h.magic ≡ magic
    → wire ≡ pack_header h ++ payload
    → prefix ++ flatten stream ≡ wire ++ rest
    → 4 ≤ length prefix
    → length prefix ≤ 56
    → (q : Bytes) × Cut h prefix q × (flatten stream ≡ q ++ (payload ++ rest))
Cut-prefix h payload prefix wire rest stream sized signed cut e long short =
    let size = length-pack_header h sized in
    let joined : pack_header h ++ (payload ++ rest) ≡ prefix ++ flatten stream =
      sym (append_assoc (pack_header h) payload rest) ∙ (ap (λ t. t ++ rest) (sym cut) ∙ sym e) in
    let (whole, back) =
      append_split prefix (flatten stream) (pack_header h) (payload ++ rest) joined
        (omega (arith, size)) in
    (
      drop (length prefix) (pack_header h),
      record { sized = sized; signed = signed; whole = whole; long = long; short = short },
      back,
    )
