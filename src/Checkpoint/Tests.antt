-- ===== src/Checkpoint/Tests.antt =====
-- The theorem on typed state, with numbers that are encoded as one byte.
use worklease.Base.{ℕ, ◌≡◌, refl, none, some, [], ◌∷◌, arith, inl, inr}
use worklease.Base.Int.{pos, ◌+ℤ◌}
use worklease.Base.Dict.{lookup, insert}
use worklease.Errors.{Result, ok, err, plain}
use worklease.Backend.{Bytes}
use worklease.Memory.{acquire, checkpoint, held_by, read_checkpoint}
use worklease.Memory.{sweep, is_kept}
use worklease.Base.Int.{◌-ℤ◌}
use worklease.Memory.Calls.{run, step}
use worklease.Memory.Samples.{
  at, lease_a, granted_b, only, row_a, saved_a, others, taken_over, saved-IsValid,
}
use worklease.Checkpoint.{Codec, encode}
use worklease.Checkpoint.Handoff.{decode_read, typed_crash_handoff}

abbrev read_byte : Bytes → Result ℕ
read_byte [] = err (plain "no byte")
read_byte (b ∷ bs) = ok b

abbrev byte_codec : Codec ℕ
byte_codec = record { marshal = λ n. ok (some (n ∷ [])); unmarshal = read_byte }

typed_crash_handoff_example :
    decode_read byte_codec 0 (read_checkpoint none granted_b (taken_over (only saved_a 1)))
    ≡ some (7, none)
unfolding acquire checkpoint held_by lookup insert run step ◌+ℤ◌ encode sweep is_kept ◌-ℤ◌
typed_crash_handoff_example =
    typed_crash_handoff byte_codec 0 7 (7 ∷ []) (pos 2) (at 2) (at 20) lease_a granted_b (pos 10)
      (pos 10) "b" (only row_a 1) (only saved_a 1) (taken_over (only saved_a 1)) others saved_a refl
      (λ u bytes e. ground arith) refl refl saved-IsValid (ground arith) (omega arith)
      (inr (inl (λ e. cc e)), (inr (λ old. ground arith), tt)) refl
