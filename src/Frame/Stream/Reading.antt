-- ===== src/Frame/Stream/Reading.antt =====
-- However a stream is cut into pieces, reading it finds the same frames.
use fluid_gateway.Common.{
  ℕ, zero, suc, ◌+◌, ◌-◌, ◌≤◌, ◌<◌, ◌≡◌, refl, ap, ap₂, subst, sym, ◌∙◌, Bool, false, Option, some,
  [], ◌∷◌, ◌++◌, append_assoc, append-nil, length, take, drop, length-append, length-take,
  length-drop, take-append-drop, All, leb, ◌==◌, Bool-cases, inl, inr, arith,
}
use fluid_gateway.Wire.Errors.{Bytes, Result, ok}
use fluid_gateway.Frame.Stream.{Stream, read, read_loop, read_exact}

-- The bytes of a stream.
abbrev pub flatten : Stream → Bytes
flatten [] = []
flatten (piece ∷ pieces) = piece ++ flatten pieces

-- No piece is empty: an empty read is the end of the stream.
abbrev pub IsLive : Stream → Type 0
IsLive = All (λ piece. 0 < length piece)

-- One read takes some bytes off the front.
record Read (size : ℕ) (stream : Stream) (chunk : Bytes) (rest : Stream) : Type 0 where
  joined : flatten stream ≡ chunk ++ flatten rest
  live : IsLive rest
  bounded : length chunk ≤ size
  some_bytes : 0 < length (flatten stream) → 0 < size → 0 < length chunk

read-Read :
    (size : ℕ) (stream : Stream)
    → IsLive stream
    → Read size stream (read size stream).0 (read size stream).1
unfolding read
read-Read size [] h = record {
  joined = refl;
  live = tt;
  bounded = omega arith;
  some_bytes = λ p q. absurd (omega arith);
}
read-Read size (piece ∷ pieces) h = elim (Bool-cases (leb (length piece) size)) [
  | inl small ↦
      rw small
        (record { joined = refl; live = h.1; bounded = ground arith; some_bytes = λ p q. h.0 })
  | inr large ↦ rw large (record {
    joined =
        ap (λ t. t ++ flatten pieces) (sym (take-append-drop size piece))
        ∙ append_assoc (take size piece) (drop size piece) (flatten pieces);
    live = (rw (length-drop size piece) (ground arith), h.1);
    bounded = rw (length-take size piece (ground arith)) (omega arith);
    some_bytes = λ p q. rw (length-take size piece (ground arith)) q;
  })
]

pub append_split :
    (zs ws xs ys : Bytes)
    → xs ++ ys ≡ zs ++ ws
    → length zs ≤ length xs
    → (xs ≡ zs ++ drop (length zs) xs) × (ws ≡ drop (length zs) xs ++ ys)
append_split [] ws xs ys e le = (refl, sym e)
append_split (z ∷ zs) ws [] ys e le = absurd (omega arith)
append_split (z ∷ zs) ws (x ∷ xs) ys e le =
    let head : x ≡ z = cc in
    let (a, b) = append_split zs ws xs ys (cc) (omega arith) in (ap₂ ◌∷◌ head a, b)

length-zero : (xs : Bytes) → length xs ≡ 0 → xs ≡ []
length-zero [] e = refl
length-zero (x ∷ xs) e = absurd (omega arith)

-- What a read of `bs` leaves, and what it returned.
pub record Reads (result : Result (Option Bytes × Stream)) (bs rest : Bytes) : Type 0 where
  pub left : Stream
  pub returned : result ≡ ok (some bs, left)
  pub remaining : flatten left ≡ rest
  pub live : IsLive left

read_loop-Reads :
    (fuel size : ℕ) (allow_eof : Bool) (remaining : ℕ) (chunks bs rest : Bytes) (stream : Stream)
    → remaining < fuel
    → IsLive stream
    → flatten stream ≡ bs ++ rest
    → length bs ≡ remaining
    → Reads (read_loop fuel size allow_eof remaining chunks stream) (chunks ++ bs) rest
unfolding read_loop
read_loop-Reads zero size allow_eof remaining chunks bs rest stream lt live e long =
    absurd (omega arith)
read_loop-Reads (suc fuel) size allow_eof remaining chunks bs rest stream lt live e long =
    elim (Bool-cases (remaining == 0)) [
      | inl done ↦
          let none_left : bs ≡ [] = length-zero bs (ground arith) in
          rw (done, none_left, append-nil)
            (record {
              left = stream;
              returned = refl;
              remaining = e ∙ ap (λ t. t ++ rest) none_left;
              live = live;
            })
      | inr more ↦
          let r = read-Read remaining stream live in
          let chunk = (read remaining stream).0 in
          let stream' = (read remaining stream).1 in
          let total : length (flatten stream) ≡ length bs + length rest =
            rw e (length-append bs rest) in
          let pos : 0 < length chunk = r.some_bytes (ground arith) (ground arith) in
          let (front, back) =
            append_split chunk (flatten stream') bs rest (sym e ∙ r.joined)
              (omega (arith, r.bounded)) in
          let ih =
            read_loop-Reads fuel size allow_eof (remaining - length chunk) (chunks ++ chunk)
              (drop (length chunk) bs) rest stream' (omega arith) r.live back
              (length-drop (length chunk) bs ∙ ap (λ t. t - length chunk) long) in
          let nonempty : (length chunk == 0) ≡ false = ground arith in
          let whole : (chunks ++ chunk) ++ drop (length chunk) bs ≡ chunks ++ bs =
            append_assoc chunks chunk (drop (length chunk) bs)
            ∙ ap (λ t. chunks ++ t) (sym front) in
          rw (more, nonempty)
            (subst
              (λ t.
                Reads
                  (read_loop fuel size allow_eof (remaining - length chunk) (chunks ++ chunk)
                    stream')
                  t rest)
              whole ih)
    ]

-- Where a stream of pieces that are not empty has the bytes asked for at its front, read_exact
-- returns them, however they are cut, and takes no more.
pub read_exact-Reads :
    (size : ℕ) (allow_eof : Bool) (bs rest : Bytes) (stream : Stream)
    → IsLive stream
    → flatten stream ≡ bs ++ rest
    → length bs ≡ size
    → Reads (read_exact size allow_eof stream) bs rest
unfolding read_exact
read_exact-Reads size allow_eof bs rest stream live e long =
    read_loop-Reads (size + 1) size allow_eof size [] bs rest stream (omega arith) live e long
