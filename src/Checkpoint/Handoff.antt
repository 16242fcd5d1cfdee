-- ===== src/Checkpoint/Handoff.antt =====
-- Typed state across a handoff on the in-memory backend.
use worklease.Base.{
  ◌+◌, ◌<◌, ◌^◌, ◌≡◌, refl, ap, ◌∙◌, List, [], ◌∷◌, String, Option, none, some, arith, length,
}
use worklease.Base.Dict.{lookup}
use worklease.Errors.{Result, GoError, ok, err}
use worklease.Backend.{Time, Duration, Bytes, Checkpoint, LeaseRecord}
use worklease.Memory.{Row, MemoryBackend, Readings, acquire, checkpoint, normalize, read_checkpoint}
use worklease.Memory.Calls.{Call, run}
use worklease.Memory.Invariant.{IsValid}
use worklease.Memory.History.{AreTimely}
use worklease.Memory.Handoff.{AreForeign, crash_handoff}
use worklease.Checkpoint.{Codec, encode, decode}

-- `checkpoint.Decode(codec, cp.State)` on what ReadCheckpoint returned, if it returned one.
abbrev pub decode_read :
    {T : Type 0} → Codec T → T → Result Checkpoint → Option (T × Option GoError)
decode_read codec zero_t (err e) = none
decode_read codec zero_t (ok cp) = some (decode codec zero_t cp.state)

abbrev pub or_zero : {T : Type 0} → T → T → Bytes → T
or_zero v zero_t [] = zero_t
or_zero v zero_t (b ∷ bs) = v

decode-normalize :
    {T : Type 0} (codec : Codec T) (zero_t v : T) (bytes : Bytes)
    → codec.unmarshal bytes ≡ ok v
    → decode codec zero_t (normalize (some bytes)) ≡ (or_zero v zero_t bytes, none)
unfolding decode
decode-normalize codec zero_t v [] back = refl
decode-normalize codec zero_t v (b ∷ bs) back = rw (back, decode)

encode-marshal :
    {T : Type 0} (codec : Codec T) (v : T) (bytes : Bytes)
    → encode codec v ≡ ok (some bytes)
    → codec.marshal v ≡ ok (some bytes)
unfolding encode
encode-marshal codec v bytes e = ground arith

-- The value that a holder encoded and checkpointed before it crashed is the value that its
-- successor decodes, where the codec decodes what it encodes, and where only calls come between the two that
-- have no right to change the row (under a context that is done, with a record of another work ID,
-- holder or token, an Acquire of another work ID or before the expiry, a Sweep that the row is not
-- one to delete for), in a valid state, with clock readings that do not go back and with room in
-- the token counter. If the codec gave no bytes at
-- all for it, the successor gets the zero value: an empty state is stored as none.
pub typed_crash_handoff :
    {T : Type 0} (codec : Codec T) (zero_t v : T) (bytes : Bytes) (t : Time) (n₁ n₃ : Readings)
    (rec next : LeaseRecord) (ttl ttl' : Duration) (holder_id : String) (m z₁ z₃ : MemoryBackend)
    (cs : List Call) (r : Row)
    → encode codec v ≡ ok (some bytes)
    → ((u : T) (bs : Bytes) → codec.marshal u ≡ ok (some bs) → codec.unmarshal bs ≡ ok u)
    → checkpoint none n₁ rec (some bytes) ttl m ≡ (none, z₁)
    → lookup rec.work_id z₁.records ≡ some r
    → IsValid t z₁
    → AreTimely t cs
    → z₁.seq + length cs < 2 ^ 64
    → AreForeign rec.work_id r cs
    → acquire none n₃ rec.work_id holder_id ttl' (run z₁ cs) ≡ (ok next, z₃)
    → decode_read codec zero_t (read_checkpoint none next z₃) ≡ some (or_zero v zero_t bytes, none)
typed_crash_handoff codec zero_t v bytes t n₁ n₃ rec next ttl ttl' holder_id m z₁ z₃ cs r encoded
      back e₁ k valid os room fs e₃ =
    let read =
      crash_handoff t n₁ n₃ rec next (some bytes) ttl ttl' holder_id m z₁ z₃ cs r e₁ k valid os room
        fs e₃ in
    ap (decode_read codec zero_t) read
    ∙ ap some (
        decode-normalize codec zero_t v bytes (back v bytes (encode-marshal codec v bytes encoded)))
