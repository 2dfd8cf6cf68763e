-- ===== src/Message/Event/RoundTrip.antt =====
-- The server reads back the event that the client encodes.
use fluid_gateway.Common.{
  ℕ, ◌/◌, ◌≡◌, refl, Bool, true, false, not, ◌&&◌, ◌||◌, Option, none, some, List, ◌==◌, arith,
}
use fluid_gateway.Wire.Errors.{Text, Bytes, Result, ok, >>=-eq-ok, require-eq-ok}
use fluid_gateway.Wire.Reader
use fluid_gateway.Wire.Reader.{Reader, pure, ◌>>=◌}
use fluid_gateway.Wire.Codec.{
  Encodes, Encodes-then, Encodes-map, Encodes-finish, Encodes-u8, Encodes-text16, Encodes-empty,
}
use fluid_gateway.Message.Amount.{
  Amount, Measured, quotient, mebibytes, unsigned, time_value, memory_value,
}
use fluid_gateway.Message.Decision.{bit, has_bit}
use fluid_gateway.Message.Enum.{
  register, release, Encodes-enum, lifecycle_actions, resource_actions, resource_kinds,
  memory_layers, lifetimes, lifecycle-IsComplete, resource_actions-IsComplete,
  resource_kinds-IsComplete, memory_layers-IsComplete, lifetimes-IsComplete,
}
use fluid_gateway.Message.Listing.{
  write_optional, read_optional, is_present, text_list, text_list-eq-ok, write_texts, read_texts,
  Encodes-texts, max_identifier_bytes,
}
use fluid_gateway.Message.Operation.{
  write_time, write_memory, Encodes-time, Encodes-memory, Encodes-frame,
}
use fluid_gateway.Message.Event.{
  SessionEvent, FrameEvent, Registration, ResourceEvent, registered, released, Event, is_end,
  session_presence, session_mask, no_budget_at_end, no_target_at_end, write_aliases, max_aliases,
  encode_session, session_memory, read_session, encode_frame, read_frame, encode_resource,
  read_resource, map_reader, read_time, read_memory,
}

-- An optional amount against what is decoded of it.
abbrev pub Agrees : (Amount → Measured → Type 0) → Option Amount → Option Measured → Type 0
Agrees P none none = Unit
Agrees P (some a) (some n) = P a n
Agrees P _ _ = ⊥

-- The amount in wire units, over the units that make a millisecond or a mebibyte.
abbrev pub Time : Amount → Measured → Type 0
Time a m = (n : ℕ) × (time_value a 0xFFFFFFFF "microseconds" ≡ ok n) × (m ≡ quotient n 1000)

abbrev pub Memory : Amount → Measured → Type 0
Memory a m = (n : ℕ) × (memory_value a "bytes" "megabytes" ≡ ok n) × (m ≡ quotient n 1048576)

Encodes-agreed :
    (P : Amount → Measured → Type 0) (w : Amount → Result Bytes) (r : Reader Measured)
    (o : Option Amount) (o' : Option Measured)
    → Agrees P o o'
    → ((a : Amount) (n : Measured) → P a n → Encodes (w a) r n)
    → Encodes (write_optional w o) (read_optional (is_present o) r) o'
unfolding write_optional read_optional
Encodes-agreed P w r none none h k = Encodes-empty none
Encodes-agreed P w r none (some n) h k = absurd h
Encodes-agreed P w r (some a) none h k = absurd h
Encodes-agreed P w r (some a) (some n) h k = Encodes-map _ (k a n h) (λ bs. refl)

-- The event `e'` is `e` with its times and sizes as they are decoded.
pub record SameSession (s : SessionEvent Amount) (s' : SessionEvent Measured) : Type 0 where
  pub action : s'.action ≡ s.action
  pub id : s'.id ≡ s.id
  pub target : Agrees Time s.target s'.target
  pub ram : Agrees Memory s.ram s'.ram
  pub vram : Agrees Memory s.vram s'.vram
  pub shared : Agrees Memory s.shared s'.shared
  pub staging : Agrees Memory s.staging s'.staging
  pub swapchain : Agrees Memory s.swapchain s'.swapchain

session_bits :
    (t r v h g w : Bool)
    → let m = session_presence t r v h g w in
      (has_bit m 1 ≡ t)
      × (has_bit m 2 ≡ r)
      × (has_bit m 4 ≡ v)
      × (has_bit m 8 ≡ h)
      × (has_bit m 16 ≡ g)
      × (has_bit m 32 ≡ w)
      × ((m / 64 == 0) ≡ true)
unfolding session_presence
session_bits t r v h g w = (
  ground arith,
  ground arith,
  ground arith,
  ground arith,
  ground arith,
  ground arith,
  ground arith,
)

Encodes-target :
    (o : Option Amount) (o' : Option Measured)
    → Agrees Time o o'
    → Encodes
        (write_optional (write_time "microseconds") o)
        (read_optional (is_present o) read_time)
        o'
Encodes-target o o' h =
    Encodes-agreed Time _ read_time o o' h
      (λ a m (n, e, same). rw same (Encodes-map _ (Encodes-time "microseconds" a n e) (λ bs. refl)))

Encodes-budget :
    (o : Option Amount) (o' : Option Measured)
    → Agrees Memory o o'
    → Encodes
        (write_optional (write_memory "bytes" "megabytes") o)
        (read_optional (is_present o) read_memory)
        o'
Encodes-budget o o' h = Encodes-agreed Memory _ read_memory o o' h (λ a m (n, e, same).
    rw same (Encodes-map _ (Encodes-memory "bytes" "megabytes" a n e) (λ bs. refl)))

pub map_finish :
    {A : Type 0} (g : A → Event Measured) (r : Reader A) (bs : Bytes) {a : A}
    → Reader.finish r bs ≡ ok a
    → Reader.finish (map_reader g r) bs ≡ ok (g a)
unfolding Reader.finish
map_finish g r bs h = ground arith

pub read_session-encode_session :
    (s : SessionEvent Amount) (s' : SessionEvent Measured) (bs : Bytes)
    → SameSession s s'
    → encode_session s ≡ ok bs
    → Reader.finish read_session bs ≡ ok s'
unfolding encode_session session_memory read_session
read_session-encode_session s s' bs same e =
    let (_, _, checked) = >>=-eq-ok (session_memory s) _ e in
    let (_, n, written) = >>=-eq-ok (no_budget_at_end s.action (session_mask s)) _ checked in
    let allowed = require-eq-ok (not (is_end s.action) || session_mask s == 0) _ _ n in
    let (t, r, v, h, g, w, known) =
      session_bits (is_present s.target) (is_present s.ram) (is_present s.vram)
        (is_present s.shared) (is_present s.staging) (is_present s.swapchain) in
    Encodes-finish bs
      (Encodes-then _
        (Encodes-enum (lifecycle_actions "session action") s.action
          (lifecycle-IsComplete "session action"))
        (Encodes-then _ (Encodes-u8 (session_mask s)) (
          rw (known, allowed, t, r, v, h, g, w)
            (Encodes-then _ (Encodes-text16 s.id max_identifier_bytes (is_end s.action)) (
              Encodes-then _ (Encodes-target s.target s'.target same.target) (
                Encodes-then _ (Encodes-budget s.ram s'.ram same.ram) (
                  Encodes-then _ (Encodes-budget s.vram s'.vram same.vram) (
                    Encodes-then _ (Encodes-budget s.shared s'.shared same.shared) (
                      Encodes-then _ (Encodes-budget s.staging s'.staging same.staging) (
                        Encodes-map _ (Encodes-budget s.swapchain s'.swapchain same.swapchain)
                          (λ rest. rw (← same.action, ← same.id) refl)))))))))))
      written

pub read_frame-encode_frame :
    (f : FrameEvent Amount) (target : Option Measured) (bs : Bytes)
    → Agrees Time f.target target
    → encode_frame f ≡ ok bs
    → Reader.finish read_frame bs
      ≡ ok (record { action = f.action; frame = f.frame; target = target })
unfolding encode_frame read_frame
read_frame-encode_frame f target bs same e =
    let (_, _, checked) = >>=-eq-ok (unsigned f.frame _ "frame") _ e in
    let (_, n, written) = >>=-eq-ok (no_target_at_end f.action (is_present f.target)) _ checked in
    let allowed = require-eq-ok (not (is_end f.action && is_present f.target)) _ _ n in
    let (known, flag, shown) = target_bits (is_present f.target) in
    Encodes-finish bs
      (Encodes-then _
        (Encodes-enum (lifecycle_actions "frame action") f.action
          (lifecycle-IsComplete "frame action"))
        (Encodes-then _ (Encodes-u8 (bit (is_present f.target) 1)) (
          rw (known, flag, shown, allowed)
            (Encodes-then _ (Encodes-frame f.frame)
              (Encodes-map _ (Encodes-target f.target target same) (λ rest. refl))))))
      written
  where
    target_bits :
        (b : Bool)
        → ((bit b 1 / 2 == 0) ≡ true) × (not (bit b 1 == 0) ≡ b) × (has_bit (bit b 1) 1 ≡ b)
    target_bits true = (refl, refl, refl)
    target_bits false = (refl, refl, refl)

Encodes-aliases :
    (texts : List Text) → Encodes (write_aliases texts) (read_texts max_aliases "alias") texts
unfolding write_aliases
Encodes-aliases texts = record {
  at = λ bs rest h.
      let (checked, l, written) = >>=-eq-ok (text_list texts max_aliases _) write_texts h in
      let (fits, same) = text_list-eq-ok texts max_aliases _ l in
      (Encodes-texts texts max_aliases _ fits).at bs rest (rw same at written);
}

abbrev pub with_size : Registration Amount → Measured → Registration Measured
with_size r size = record {
  kind = r.kind;
  memory = r.memory;
  lifetime = r.lifetime;
  size = size;
  aliases = r.aliases;
}

abbrev pub SameResource : ResourceEvent Amount → ResourceEvent Measured → Type 0
SameResource (registered id r) (registered id' r') =
    (n : ℕ) × (id' ≡ id)
    × (memory_value r.size "size_bytes" "size_mb" ≡ ok n)
    × (r' ≡ with_size r (mebibytes n))
SameResource (released id) (released id') = id' ≡ id
SameResource _ _ = ⊥

read_registered :
    (id : Text) (r : Registration Amount) (size : ℕ) (bs : Bytes)
    → memory_value r.size "size_bytes" "size_mb" ≡ ok size
    → encode_resource (registered id r) ≡ ok bs
    → Reader.finish read_resource bs ≡ ok (registered id (with_size r (mebibytes size)))
unfolding encode_resource read_resource
read_registered id r size bs m e =
    Encodes-finish bs
      (Encodes-then _ (Encodes-enum resource_actions register resource_actions-IsComplete) (
        Encodes-then _ (Encodes-text16 id max_identifier_bytes false) (
          Encodes-then _ (Encodes-enum resource_kinds r.kind resource_kinds-IsComplete) (
            Encodes-then _ (Encodes-enum memory_layers r.memory memory_layers-IsComplete) (
              Encodes-then _ (Encodes-enum lifetimes r.lifetime lifetimes-IsComplete) (
                Encodes-then _ (Encodes-memory _ _ r.size size m)
                  (Encodes-map _ (Encodes-aliases r.aliases) (λ rest. refl))))))))
      e

read_released :
    (id : Text) (bs : Bytes)
    → encode_resource (released id) ≡ ok bs
    → Reader.finish read_resource bs ≡ ok (released id)
unfolding encode_resource read_resource
read_released id bs e =
    Encodes-finish bs
      (Encodes-then _ (Encodes-enum resource_actions release resource_actions-IsComplete)
        (Encodes-map _ (Encodes-text16 id max_identifier_bytes false) (λ rest. refl)))
      e

pub read_resource-encode_resource :
    (r : ResourceEvent Amount) (r' : ResourceEvent Measured) (bs : Bytes)
    → SameResource r r'
    → encode_resource r ≡ ok bs
    → Reader.finish read_resource bs ≡ ok r'
read_resource-encode_resource (registered id r) (registered id' r') bs (n, e, m, same) h =
    rw (e, same) (read_registered id r n bs m h)
read_resource-encode_resource (registered id r) (released id') bs e h = absurd e
read_resource-encode_resource (released id) (registered id' r') bs e h = absurd e
read_resource-encode_resource (released id) (released id') bs e h = rw e (read_released id bs h)
