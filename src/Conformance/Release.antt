-- ===== src/Conformance/Release.antt =====
-- backend/conformance/conformance.go: the specs under "Release".
use worklease.Base.{Bool, true, ◌&&◌, none, ◌==◌, str_eq}
use worklease.Errors.{fenced, lease_held, lease_expired, invalid_exit_mode}
use worklease.Backend.{exit_none, exit_finished, exit_abandoned, exit_retired, exit_expired}
use worklease.Client.Types.{Backend}
use worklease.Conformance.Expect.{
  normal_ttl, expired_ttl, stale, and_grants, and_refuses, and_succeeds, and_fails, and_reads,
}

module _ {S : Type 0} (b : Backend S) where
  unfoldable pub release_records : S → Bool
  release_records s = and_grants (b.acquire none "rel-1" "holder-a" normal_ttl s) (λ rec s.
      and_succeeds (b.release none rec exit_finished s) (λ s.
        and_grants (b.acquire none "rel-1" "holder-b" normal_ttl s) (λ rec2 s.
          and_reads (b.read_checkpoint none rec2 s)
            (λ cp s. (cp.prev_exit == exit_finished) && (str_eq cp.prev_holder_id "holder-a")))))

  unfoldable pub release_frees_at_once : S → Bool
  release_frees_at_once s = and_grants (b.acquire none "w1" "h" normal_ttl s) (λ rec s.
      and_succeeds (b.release none rec exit_finished s)
        (λ s. and_grants (b.acquire none "w1" "h2" normal_ttl s) (λ rec2 s. true)))

  unfoldable pub release_stale : S → Bool
  release_stale s =
      and_grants (b.acquire none "w1" "h" normal_ttl s)
        (λ rec s. and_fails fenced (b.release none (stale rec) exit_finished s) (λ s. true))

  unfoldable pub release_expired_finished : S → Bool
  release_expired_finished s =
      and_grants (b.acquire none "rel-exp-finished" "holder-a" expired_ttl s) (λ rec s.
        and_fails lease_expired (b.release none rec exit_finished s) (λ s.
          and_grants (b.acquire none "rel-exp-finished" "holder-b" normal_ttl s) (λ rec2 s.
            and_reads (b.read_checkpoint none rec2 s)
              (λ cp s. (cp.prev_exit == exit_expired) && (str_eq cp.prev_holder_id "holder-a")))))

  unfoldable pub release_expired_abandoned : S → Bool
  release_expired_abandoned s =
      and_grants (b.acquire none "rel-exp-abandoned" "holder-a" expired_ttl s) (λ rec s.
        and_fails lease_expired (b.release none rec exit_abandoned s) (λ s.
          and_grants (b.acquire none "rel-exp-abandoned" "holder-b" normal_ttl s) (λ rec2 s.
            and_reads (b.read_checkpoint none rec2 s)
              (λ cp s. (cp.prev_exit == exit_expired) && (str_eq cp.prev_holder_id "holder-a")))))

  unfoldable pub release_expired_retired : S → Bool
  release_expired_retired s =
      and_grants (b.acquire none "rel-exp-retired" "holder-a" expired_ttl s) (λ rec s.
        and_fails lease_expired (b.release none rec exit_retired s) (λ s.
          and_grants (b.acquire none "rel-exp-retired" "holder-b" normal_ttl s) (λ rec2 s.
            and_reads (b.read_checkpoint none rec2 s)
              (λ cp s. (cp.prev_exit == exit_expired) && (str_eq cp.prev_holder_id "holder-a")))))

  unfoldable pub release_superseded : S → Bool
  release_superseded s = and_grants (b.acquire none "rel-order" "holder-a" expired_ttl s) (λ rec s.
      and_grants (b.acquire none "rel-order" "holder-b" normal_ttl s)
        (λ rec2 s. and_fails fenced (b.release none rec exit_finished s) (λ s. true)))

  unfoldable pub release_invalid : S → Bool
  release_invalid s = and_grants (b.acquire none "rel-invalid" "holder-a" normal_ttl s) (λ rec s.
      and_fails invalid_exit_mode (b.release none rec exit_none s) (λ s.
        and_fails invalid_exit_mode (b.release none rec exit_expired s) (λ s.
          and_fails invalid_exit_mode (b.release none rec 99 s) (λ s.
            and_refuses lease_held (b.acquire none "rel-invalid" "holder-b" normal_ttl s)
              (λ s. true)))))

  unfoldable pub release_twice : S → Bool
  release_twice s = and_grants (b.acquire none "rel-twice" "holder-a" normal_ttl s) (λ rec s.
      and_succeeds (b.release none rec exit_retired s) (λ s.
        and_fails lease_expired (b.release none rec exit_abandoned s) (λ s.
          and_grants (b.acquire none "rel-twice" "holder-b" normal_ttl s) (λ rec2 s.
            and_reads (b.read_checkpoint none rec2 s) (λ cp s. cp.prev_exit == exit_retired)))))

  unfoldable pub release_specs : S → Bool
  unfolding release_records release_frees_at_once release_stale release_expired_finished
      release_expired_abandoned release_expired_retired release_superseded release_invalid
      release_twice
  release_specs s =
      release_records s
      && (release_frees_at_once s
          && (release_stale s
              && (release_expired_finished s
                  && (release_expired_abandoned s
                      && (release_expired_retired s
                          && (release_superseded s && (release_invalid s && (release_twice s))))))))
