-- ===== src/Conformance/Sweep.antt =====
-- backend/conformance/conformance.go: the specs under "Vacuum.Sweep (via Backend.Sweep)".
use worklease.Base.{Bool, true, false, ◌&&◌, none, ltb, ◌==◌, str_eq}
use worklease.Base.Int.{pos}
use worklease.Backend.{exit_none, exit_finished, exit_abandoned, exit_retired}
use worklease.Client.Types.{Backend}
use worklease.Conformance.Expect.{
  normal_ttl, expired_ttl, options, and_grants, and_succeeds, and_reads,
}

module _ {S : Type 0} (b : Backend S) where
  unfoldable pub sweep_retired : S → Bool
  sweep_retired s = and_grants (b.acquire none "sweep-retired" "holder-a" normal_ttl s) (λ rec s.
      and_succeeds (b.release none rec exit_retired s) (λ s.
        and_reads (b.sweep none (options (pos 1) false) s) (λ n s.
          (ltb 0 n)
          && (and_grants (b.acquire none "sweep-retired" "holder-b" normal_ttl s) (λ rec2 s.
              (ltb rec.fencing_token rec2.fencing_token)
              && (and_reads (b.read_checkpoint none rec2 s)
                  (λ cp s. cp.prev_exit == exit_none)))))))

  unfoldable pub sweep_keeps_finished : S → Bool
  sweep_keeps_finished s =
      and_grants (b.acquire none "sweep-finished" "holder-a" normal_ttl s) (λ rec_f s.
        and_succeeds (b.release none rec_f exit_finished s) (λ s.
          and_grants (b.acquire none "sweep-abandoned" "holder-a" normal_ttl s) (λ rec_a s.
            and_succeeds (b.release none rec_a exit_abandoned s)
              (λ s. and_reads (b.sweep none (options (pos 1) true) s) (λ n s. n == 0)))))

  unfoldable pub sweep_expired : S → Bool
  sweep_expired s = and_grants (b.acquire none "sweep-expired" "holder-a" expired_ttl s) (λ rec s.
      and_reads (b.sweep none (options (pos 1) false) s)
        (λ n s. (n == 0) && (and_reads (b.sweep none (options (pos 1) true) s) (λ m s. ltb 0 m))))

  unfoldable pub sweep_keeps_young : S → Bool
  sweep_keeps_young s = and_grants (b.acquire none "sweep-window" "holder-a" normal_ttl s) (λ rec s.
      and_succeeds (b.release none rec exit_retired s) (λ s.
        and_reads (b.sweep none (options (pos 3_600_000_000_000) false) s) (λ n s.
          (n == 0)
          && (and_grants (b.acquire none "sweep-window" "holder-b" normal_ttl s) (λ rec2 s.
              and_reads (b.read_checkpoint none rec2 s) (λ cp s.
                (cp.prev_exit == exit_retired) && (str_eq cp.prev_holder_id "holder-a")))))))

  unfoldable pub sweep_keeps_held : S → Bool
  sweep_keeps_held s =
      and_grants (b.acquire none "sweep-held" "holder-a" normal_ttl s)
        (λ rec s. and_reads (b.sweep none (options (pos 1) true) s) (λ n s. n == 0))

  unfoldable pub sweep_specs : S → Bool
  unfolding sweep_retired sweep_keeps_finished sweep_expired sweep_keeps_young sweep_keeps_held
  sweep_specs s =
      sweep_retired s
      && (sweep_keeps_finished s
          && (sweep_expired s && (sweep_keeps_young s && (sweep_keeps_held s))))
