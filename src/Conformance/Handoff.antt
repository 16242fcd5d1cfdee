-- ===== src/Conformance/Handoff.antt =====
-- backend/conformance/conformance.go: the specs under "handoff across three holders".
use worklease.Base.{Bool, true, false, ◌&&◌, none, some, [], ◌∷◌, ltb, ◌==◌, str_eq}
use worklease.Base.Int.{pos}
use worklease.Backend.{exit_finished, exit_abandoned, exit_retired, exit_expired}
use worklease.Client.Types.{Backend}
use worklease.Conformance.Expect.{
  normal_ttl, expired_ttl, options, and_grants, and_succeeds, and_reads, state_is,
}

module _ {S : Type 0} (b : Backend S) where
  unfoldable pub release_then_crash : S → Bool
  release_then_crash s = and_grants (b.acquire none "seq-1" "holder-a" normal_ttl s) (λ rec_a s.
      and_succeeds
        (b.checkpoint none rec_a (some (97 ∷ 45 ∷ 115 ∷ 116 ∷ 97 ∷ 116 ∷ 101 ∷ [])) normal_ttl s)
        (λ s. and_succeeds (b.release none rec_a exit_finished s) (λ s.
          and_grants (b.acquire none "seq-1" "holder-b" expired_ttl s) (λ rec_b s.
            and_reads (b.sweep none (options (pos 1) false) s) (λ n s.
              (n == 0)
              && (and_grants (b.acquire none "seq-1" "holder-c" normal_ttl s) (λ rec_c s.
                  and_reads (b.read_checkpoint none rec_c s) (λ cp s.
                    (cp.prev_exit == exit_expired)
                    && ((str_eq cp.prev_holder_id "holder-b")
                        && (state_is cp.state
                            (some (97 ∷ 45 ∷ 115 ∷ 116 ∷ 97 ∷ 116 ∷ 101 ∷ []))))))))))))

  unfoldable pub reproduction_74 : S → Bool
  reproduction_74 s = and_grants (b.acquire none "seq-74" "holder-a" normal_ttl s) (λ rec_a s.
      and_succeeds
        (b.checkpoint none rec_a (some (97 ∷ 45 ∷ 115 ∷ 116 ∷ 97 ∷ 116 ∷ 101 ∷ [])) normal_ttl s)
        (λ s. and_succeeds (b.release none rec_a exit_finished s) (λ s.
          and_grants (b.acquire none "seq-74" "holder-b" expired_ttl s) (λ rec_b s.
            and_reads (b.sweep none (options (pos 1) false) s) (λ n s.
              (n == 0) && (and_reads (b.sweep none (options (pos 1) true) s) (λ m s. ltb 0 m)))))))

  unfoldable pub crash_then_release : S → Bool
  crash_then_release s = and_grants (b.acquire none "seq-2" "holder-a" expired_ttl s) (λ rec_a s.
      and_grants (b.acquire none "seq-2" "holder-b" normal_ttl s) (λ rec_b s.
        and_reads (b.read_checkpoint none rec_b s) (λ cp_b s.
          (cp_b.prev_exit == exit_expired)
          && ((str_eq cp_b.prev_holder_id "holder-a")
              && (and_succeeds (b.release none rec_b exit_abandoned s) (λ s.
                  and_reads (b.sweep none (options (pos 1) true) s) (λ n s.
                    (n == 0)
                    && (and_grants (b.acquire none "seq-2" "holder-c" normal_ttl s) (λ rec_c s.
                        and_reads (b.read_checkpoint none rec_c s) (λ cp s.
                          (cp.prev_exit == exit_abandoned)
                          && (str_eq cp.prev_holder_id "holder-b")))))))))))

  unfoldable pub release_then_release : S → Bool
  release_then_release s = and_grants (b.acquire none "seq-3" "holder-a" normal_ttl s) (λ rec_a s.
      and_succeeds (b.release none rec_a exit_retired s) (λ s.
        and_grants (b.acquire none "seq-3" "holder-b" normal_ttl s) (λ rec_b s.
          and_reads (b.read_checkpoint none rec_b s) (λ cp_b s.
            (cp_b.prev_exit == exit_retired)
            && ((str_eq cp_b.prev_holder_id "holder-a")
                && (and_succeeds (b.release none rec_b exit_finished s) (λ s.
                    and_reads (b.sweep none (options (pos 1) false) s) (λ n s.
                      (n == 0)
                      && (and_grants (b.acquire none "seq-3" "holder-c" normal_ttl s) (λ rec_c s.
                          and_reads (b.read_checkpoint none rec_c s) (λ cp s.
                            (cp.prev_exit == exit_finished)
                            && (str_eq cp.prev_holder_id "holder-b"))))))))))))

  unfoldable pub handoff_specs : S → Bool
  unfolding release_then_crash reproduction_74 crash_then_release release_then_release
  handoff_specs s =
      release_then_crash s
      && (reproduction_74 s && (crash_then_release s && (release_then_release s)))
