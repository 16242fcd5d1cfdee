-- ===== src/Conformance/Read.antt =====
-- backend/conformance/conformance.go: the specs under "ReadCheckpoint".
use worklease.Base.{Bool, true, false, ◌&&◌, none, some, [], ◌∷◌, ltb, ◌==◌, str_eq}
use worklease.Base.Int.{pos}
use worklease.Errors.{fenced}
use worklease.Backend.{exit_none, exit_retired, exit_expired}
use worklease.Client.Types.{Backend}
use worklease.Conformance.Expect.{
  normal_ttl, expired_ttl, stale, never_acquired, options, and_grants, and_refuses, and_succeeds,
  and_reads, state_is, is_nil,
}

module _ {S : Type 0} (b : Backend S) where
  unfoldable pub read_first : S → Bool
  read_first s = and_grants (b.acquire none "rc-first" "holder-a" normal_ttl s) (λ rec s.
      and_reads (b.read_checkpoint none rec s) (λ cp s.
        (is_nil cp.state) && ((cp.prev_exit == exit_none) && (str_eq cp.prev_holder_id ""))))

  unfoldable pub read_crashed : S → Bool
  read_crashed s = and_grants (b.acquire none "rc-crash" "holder-a" normal_ttl s) (λ rec1 s.
      and_succeeds
        (b.checkpoint none rec1 (some (112 ∷ 97 ∷ 114 ∷ 116 ∷ 105 ∷ 97 ∷ 108 ∷ [])) expired_ttl s)
        (λ s. and_grants (b.acquire none "rc-crash" "holder-b" normal_ttl s) (λ rec2 s.
          and_reads (b.read_checkpoint none rec2 s) (λ cp s.
            (state_is cp.state (some (112 ∷ 97 ∷ 114 ∷ 116 ∷ 105 ∷ 97 ∷ 108 ∷ [])))
            && ((cp.prev_exit == exit_expired) && (str_eq cp.prev_holder_id "holder-a"))))))

  unfoldable pub read_stable : S → Bool
  read_stable s = and_grants (b.acquire none "rc-stable" "holder-a" normal_ttl s) (λ rec1 s.
      and_succeeds (b.release none rec1 exit_retired s) (λ s.
        and_grants (b.acquire none "rc-stable" "holder-b" normal_ttl s) (λ rec2 s.
          and_reads (b.read_checkpoint none rec2 s) (λ first s.
            and_succeeds (b.renew none rec2 normal_ttl s) (λ s.
              and_reads (b.read_checkpoint none rec2 s) (λ second s.
                (second.prev_exit == first.prev_exit)
                && ((str_eq second.prev_holder_id first.prev_holder_id)
                    && (first.prev_exit == exit_retired))))))))

  unfoldable pub read_never_acquired : S → Bool
  read_never_acquired s = and_refuses fenced (b.read_checkpoint none never_acquired s) (λ s. true)

  unfoldable pub read_forgotten : S → Bool
  read_forgotten s = and_grants (b.acquire none "rc-forget" "holder-a" normal_ttl s) (λ rec s.
      and_succeeds (b.forget none rec s)
        (λ s. and_refuses fenced (b.read_checkpoint none rec s) (λ s. true)))

  unfoldable pub read_swept : S → Bool
  read_swept s = and_grants (b.acquire none "rc-sweep" "holder-a" normal_ttl s) (λ rec s.
      and_succeeds (b.release none rec exit_retired s) (λ s.
        and_reads (b.sweep none (options (pos 1) false) s)
          (λ n s. (ltb 0 n) && (and_refuses fenced (b.read_checkpoint none rec s) (λ s. true)))))

  unfoldable pub read_after_forget : S → Bool
  read_after_forget s =
      and_grants (b.acquire none "rc-forget-new" "holder-a" normal_ttl s) (λ rec s.
        and_succeeds (b.forget none rec s) (λ s.
          and_grants (b.acquire none "rc-forget-new" "holder-b" normal_ttl s) (λ rec2 s.
            and_reads (b.read_checkpoint none rec2 s)
              (λ cp s. (cp.prev_exit == exit_none) && (str_eq cp.prev_holder_id "")))))

  unfoldable pub read_empty : S → Bool
  read_empty s = and_grants (b.acquire none "rc-empty" "h" normal_ttl s) (λ rec s.
      and_succeeds
        (b.checkpoint none rec (some (112 ∷ 97 ∷ 121 ∷ 108 ∷ 111 ∷ 97 ∷ 100 ∷ [])) normal_ttl s)
        (λ s. and_succeeds (b.checkpoint none rec none normal_ttl s) (λ s.
          and_reads (b.read_checkpoint none rec s) (λ cp s.
            (is_nil cp.state)
            && (and_succeeds
                (b.checkpoint none rec (some (112 ∷ 97 ∷ 121 ∷ 108 ∷ 111 ∷ 97 ∷ 100 ∷ []))
                  normal_ttl s)
                (λ s. and_succeeds (b.checkpoint none rec (some []) normal_ttl s) (λ s.
                  and_reads (b.read_checkpoint none rec s) (λ cp s.
                    (is_nil cp.state)
                    && (and_grants (b.acquire none "rc-empty-first" "h" normal_ttl s) (λ first s.
                        and_succeeds (b.checkpoint none first (some []) normal_ttl s) (λ s.
                          and_reads (b.read_checkpoint none first s)
                            (λ cp s. is_nil cp.state))))))))))))

  unfoldable pub read_unwritten : S → Bool
  read_unwritten s =
      and_grants (b.acquire none "w1" "h" normal_ttl s)
        (λ rec s. and_reads (b.read_checkpoint none rec s) (λ cp s. is_nil cp.state))

  unfoldable pub read_stale : S → Bool
  read_stale s =
      and_grants (b.acquire none "w1" "h" normal_ttl s)
        (λ rec s. and_refuses fenced (b.read_checkpoint none (stale rec) s) (λ s. true))

  unfoldable pub read_specs : S → Bool
  unfolding read_first read_crashed read_stable read_never_acquired read_forgotten read_swept
      read_after_forget read_empty read_unwritten read_stale
  read_specs s =
      read_first s
      && (read_crashed s
          && (read_stable s
              && (read_never_acquired s
                  && (read_forgotten s
                      && (read_swept s
                          && (read_after_forget s
                              && (read_empty s && (read_unwritten s && (read_stale s)))))))))
