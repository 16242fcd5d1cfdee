-- ===== src/Conformance/Acquire.antt =====
-- backend/conformance/conformance.go: the specs under "Acquire".
use worklease.Base.{Bool, true, ◌&&◌, none, some, [], ◌∷◌, ltb, ◌==◌, str_eq}
use worklease.Base.Int.{pos}
use worklease.Errors.{lease_held}
use worklease.Backend.{exit_abandoned}
use worklease.Client.Types.{Backend}
use worklease.Conformance.Expect.{
  normal_ttl, expired_ttl, and_grants, and_refuses, and_succeeds, and_reads, state_is,
}

module _ {S : Type 0} (b : Backend S) where
  unfoldable pub fresh_acquires : S → Bool
  fresh_acquires s =
      and_grants (b.acquire none "w1" "h" normal_ttl s) (λ rec s. ltb 0 rec.fencing_token)

  unfoldable pub held_refuses : S → Bool
  held_refuses s =
      and_grants (b.acquire none "w1" "h" normal_ttl s)
        (λ rec s. and_refuses lease_held (b.acquire none "w1" "h2" normal_ttl s) (λ s. true))

  unfoldable pub expired_acquires : S → Bool
  expired_acquires s = and_grants (b.acquire none "w1" "h" expired_ttl s) (λ rec1 s.
      and_grants (b.acquire none "w1" "h2" normal_ttl s)
        (λ rec2 s. ltb rec1.fencing_token rec2.fencing_token))

  unfoldable pub tokens_increase : S → Bool
  tokens_increase s =
      and_grants (b.acquire none "work-a" "holder-1" (pos 60_000_000_000) s) (λ rec1 s.
        and_grants (b.acquire none "work-b" "holder-1" (pos 60_000_000_000) s)
          (λ rec2 s. ltb rec1.fencing_token rec2.fencing_token))

  unfoldable pub expired_keeps_state : S → Bool
  expired_keeps_state s = and_grants (b.acquire none "w1" "h" expired_ttl s) (λ rec1 s.
      and_succeeds (b.checkpoint none rec1 (some (100 ∷ 97 ∷ 116 ∷ 97 ∷ [])) expired_ttl s) (λ s.
        and_grants (b.acquire none "w1" "h2" normal_ttl s) (λ rec2 s.
          and_reads (b.read_checkpoint none rec2 s)
            (λ cp s. state_is cp.state (some (100 ∷ 97 ∷ 116 ∷ 97 ∷ []))))))

  unfoldable pub captures_exit : S → Bool
  captures_exit s = and_grants (b.acquire none "acq-prev-1" "holder-a" normal_ttl s) (λ rec1 s.
      and_succeeds (b.release none rec1 exit_abandoned s) (λ s.
        and_grants (b.acquire none "acq-prev-1" "holder-b" normal_ttl s) (λ rec2 s.
          and_reads (b.read_checkpoint none rec2 s)
            (λ cp s. (cp.prev_exit == exit_abandoned) && (str_eq cp.prev_holder_id "holder-a")))))

  unfoldable pub acquire_specs : S → Bool
  unfolding fresh_acquires held_refuses expired_acquires tokens_increase expired_keeps_state
      captures_exit
  acquire_specs s =
      fresh_acquires s
      && (held_refuses s
          && (expired_acquires s
              && (tokens_increase s && (expired_keeps_state s && (captures_exit s)))))
