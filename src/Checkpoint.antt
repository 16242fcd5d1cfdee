-- ===== src/Checkpoint.antt =====
-- checkpoint/codec.go: Encode and Decode. The codec is a parameter.
pub mod Handoff
mod Tests
use worklease.Base.{Option, none, some, String}
use worklease.Errors.{GoError, Result, ok, err, wrap}
use worklease.Backend.{Bytes}

-- The interface Codec at the type T. Unmarshal gets a pointer to a zero T, and what it leaves there
-- is the value where it returns nil; what it leaves there with an error is discarded.
pub record Codec (T : Type 0) : Type 0 where
  pub marshal : T → Result (Option Bytes)
  pub unmarshal : Bytes → Result T

unfoldable pub encode : {T : Type 0} → Codec T → T → Result (Option Bytes)
encode codec v = elim (codec.marshal v) [
  | err e ↦ err (wrap "checkpoint: Encode: " e)
  | ok bytes ↦ ok bytes
]

-- The value and the error that Decode returns; `zero_t` is the zero value of T.
unfoldable pub decode : {T : Type 0} → Codec T → T → Option Bytes → T × Option GoError
decode codec zero_t none = (zero_t, none)
decode codec zero_t (some bytes) = elim (codec.unmarshal bytes) [
  | err e ↦ (zero_t, some (wrap "checkpoint: Decode: " e))
  | ok v ↦ (v, none)
]
