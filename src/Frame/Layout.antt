-- ===== src/Frame/Layout.antt =====
-- Packing and unpacking the frame header undo one another.
use fluid_gateway.Common.{
  ℕ, ◌-◌, ◌^◌, ◌≤◌, ◌<◌, ◌≡◌, refl, ap, subst, sym, ◌∙◌, [], ◌∷◌, ◌++◌, length, take, drop,
  take-append, drop-append, take-append-drop, length-take, length-drop, All-take, All-drop,
  append-nil, arith,
}
use fluid_gateway.Wire.Errors.{Bytes}
use fluid_gateway.Wire.Words.{
  IsByte, IsBytes, pack_le, unpack_le, length-pack_le, unpack_le-pack_le, pack_le-unpack_le,
}
use fluid_gateway.Frame.Struct.{Header, pack_header, unpack_header, split}

-- Every field of a header has its size on the wire.
pub record IsSized (h : Header) : Type 0 where
  pub magic : length h.magic ≡ 4
  pub wire_version : h.wire_version < 256 ^ 1
  pub kind : h.kind < 256 ^ 1
  pub opcode : h.opcode < 256 ^ 1
  pub subject_opcode : h.subject_opcode < 256 ^ 1
  pub decision_opcode : h.decision_opcode < 256 ^ 1
  pub flags : h.flags < 256 ^ 1
  pub reserved : h.reserved < 256 ^ 2
  pub sequence : h.sequence < 256 ^ 8
  pub message_id : length h.message_id ≡ 16
  pub session_id : length h.session_id ≡ 16
  pub payload_size : h.payload_size < 256 ^ 4

split-append : (n : ℕ) (x r : Bytes) → length x ≡ n → split n (x ++ r) ≡ (x, r)
unfolding split
split-append n x r h = rw (take-append x r n h, drop-append x r n h)

split_word : (n v : ℕ) (r : Bytes) → split n (pack_le n v ++ r) ≡ (pack_le n v, r)
split_word n v r = split-append n (pack_le n v) r (length-pack_le n v)

split_last : (n v : ℕ) → split n (pack_le n v) ≡ (pack_le n v, [])
split_last n v = ap (split n) (sym (append-nil (pack_le n v))) ∙ split_word n v []

-- Unpacking undoes packing.
pub unpack_header-pack_header : (h : Header) → IsSized h → unpack_header (pack_header h) ≡ h
unfolding unpack_header pack_header
unpack_header-pack_header h s = rw (
  split-append 4 h.magic _ s.magic,
  split_word 1 h.wire_version _,
  split_word 1 h.kind _,
  split_word 1 h.opcode _,
  split_word 1 h.subject_opcode _,
  split_word 1 h.decision_opcode _,
  split_word 1 h.flags _,
  split_word 2 h.reserved _,
  split_word 8 h.sequence _,
  split-append 16 h.message_id _ s.message_id,
  split-append 16 h.session_id _ s.session_id,
  split_last 4 h.payload_size,
  unpack_le-pack_le 1 h.wire_version s.wire_version,
  unpack_le-pack_le 1 h.kind s.kind,
  unpack_le-pack_le 1 h.opcode s.opcode,
  unpack_le-pack_le 1 h.subject_opcode s.subject_opcode,
  unpack_le-pack_le 1 h.decision_opcode s.decision_opcode,
  unpack_le-pack_le 1 h.flags s.flags,
  unpack_le-pack_le 2 h.reserved s.reserved,
  unpack_le-pack_le 8 h.sequence s.sequence,
  unpack_le-pack_le 4 h.payload_size s.payload_size,
)

-- `k` bytes that are left to unpack.
abbrev Left : ℕ → Bytes → Type 0
Left k d = IsBytes d × (length d ≡ k)

Left-drop : (n k : ℕ) (d : Bytes) → Left k d → Left (k - n) (drop n d)
Left-drop n k d (b, e) = (All-drop IsByte n d b, length-drop n d ∙ ap (λ t. t - n) e)

peel_word :
    (n k : ℕ) (d tail : Bytes)
    → Left k d
    → n ≤ k
    → tail ≡ drop n d
    → pack_le n (unpack_le (take n d)) ++ tail ≡ d
peel_word n k d tail (b, e) le h =
    let size : length (take n d) ≡ n = length-take n d (rw e le) in
    let back : pack_le n (unpack_le (take n d)) ≡ take n d =
      subst (λ m. pack_le m (unpack_le (take n d)) ≡ take n d) size
        (pack_le-unpack_le (take n d) (All-take IsByte n d b)) in
    rw (back, h) (take-append-drop n d)

peel_last : (n : ℕ) (d : Bytes) → Left n d → pack_le n (unpack_le (take n d)) ≡ d
peel_last n d h =
    sym (append-nil _)
    ∙ peel_word n n d [] h (omega arith)
        (sym (length-zero (drop n d) (rw (length-drop n d, h.1) (omega arith))))
  where
    length-zero : (xs : Bytes) → length xs ≡ 0 → xs ≡ []
    length-zero [] e = refl
    length-zero (x ∷ xs) e = absurd (omega arith)

peel : (n : ℕ) (d tail : Bytes) → tail ≡ drop n d → take n d ++ tail ≡ d
peel n d tail h = rw h (take-append-drop n d)

-- Packing undoes unpacking.
pub pack_header-unpack_header :
    (d : Bytes) → IsBytes d → length d ≡ 56 → pack_header (unpack_header d) ≡ d
unfolding unpack_header pack_header split
pack_header-unpack_header d b e =
    let l₁ = Left-drop 4 56 d (b, e) in
    let l₂ = Left-drop 1 52 _ l₁ in
    let l₃ = Left-drop 1 51 _ l₂ in
    let l₄ = Left-drop 1 50 _ l₃ in
    let l₅ = Left-drop 1 49 _ l₄ in
    let l₆ = Left-drop 1 48 _ l₅ in
    let l₇ = Left-drop 1 47 _ l₆ in
    let l₈ = Left-drop 2 46 _ l₇ in
    let l₉ = Left-drop 8 44 _ l₈ in
    let l₁₀ = Left-drop 16 36 _ l₉ in
    let l₁₁ = Left-drop 16 20 _ l₁₀ in
    peel 4 d _ (
      peel_word 1 52 _ _ l₁ (omega arith) (
        peel_word 1 51 _ _ l₂ (omega arith) (
          peel_word 1 50 _ _ l₃ (omega arith) (
            peel_word 1 49 _ _ l₄ (omega arith) (
              peel_word 1 48 _ _ l₅ (omega arith) (
                peel_word 1 47 _ _ l₆ (omega arith) (
                  peel_word 2 46 _ _ l₇ (omega arith) (
                    peel_word 8 44 _ _ l₈ (omega arith)
                      (peel 16 _ _ (peel 16 _ _ (peel_last 4 _ l₁₁)))))))))))
