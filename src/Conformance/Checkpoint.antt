-- ===== src/Conformance/Checkpoint.antt =====
-- backend/conformance/conformance.go: the specs under "Checkpoint".
use worklease.Base.{Bool, true, ◌&&◌, none, some, [], ◌∷◌, ◌==◌, str_eq}
use worklease.Errors.{fenced, lease_held, lease_expired}
use worklease.Backend.{exit_finished}
use worklease.Client.Types.{Backend}
use worklease.Conformance.Expect.{
  normal_ttl, expired_ttl, stale, never_acquired, and_grants, and_refuses, and_succeeds, and_fails,
  and_reads, state_is,
}

module _ {S : Type 0} (b : Backend S) where
  unfoldable pub checkpoint_persists : S → Bool
  checkpoint_persists s = and_grants (b.acquire none "w1" "h" normal_ttl s) (λ rec s.
      and_succeeds
        (b.checkpoint none rec (some (112 ∷ 97 ∷ 121 ∷ 108 ∷ 111 ∷ 97 ∷ 100 ∷ [])) normal_ttl s)
        (λ s.
          and_reads (b.read_checkpoint none rec s)
            (λ cp s. state_is cp.state (some (112 ∷ 97 ∷ 121 ∷ 108 ∷ 111 ∷ 97 ∷ 100 ∷ [])))))

  unfoldable pub checkpoint_stale : S → Bool
  checkpoint_stale s = and_grants (b.acquire none "w1" "h" normal_ttl s) (λ rec s.
      and_fails fenced (b.checkpoint none (stale rec) (some (120 ∷ [])) normal_ttl s) (λ s. true))

  unfoldable pub checkpoint_never_acquired : S → Bool
  checkpoint_never_acquired s =
      and_fails fenced (b.checkpoint none never_acquired (some (120 ∷ [])) normal_ttl s) (λ s. true)

  unfoldable pub checkpoint_keeps_exit : S → Bool
  checkpoint_keeps_exit s =
      and_grants (b.acquire none "cp-prev-1" "holder-a" normal_ttl s) (λ rec1 s.
        and_succeeds (b.release none rec1 exit_finished s) (λ s.
          and_grants (b.acquire none "cp-prev-1" "holder-b" normal_ttl s) (λ rec2 s.
            and_succeeds (b.checkpoint none rec2 (some (120 ∷ [])) normal_ttl s) (λ s.
              and_reads (b.read_checkpoint none rec2 s) (λ cp s.
                (state_is cp.state (some (120 ∷ [])))
                && ((cp.prev_exit == exit_finished) && (str_eq cp.prev_holder_id "holder-a")))))))

  unfoldable pub checkpoint_after_release : S → Bool
  checkpoint_after_release s =
      and_grants (b.acquire none "cp-after-release" "holder-a" normal_ttl s) (λ rec s.
        and_succeeds (b.checkpoint none rec (some (102 ∷ 105 ∷ 110 ∷ 97 ∷ 108 ∷ [])) normal_ttl s)
          (λ s. and_succeeds (b.release none rec exit_finished s) (λ s.
            and_fails lease_expired
              (b.checkpoint none rec (some (108 ∷ 97 ∷ 116 ∷ 101 ∷ [])) normal_ttl s)
              (λ s.
                and_grants (b.acquire none "cp-after-release" "holder-b" normal_ttl s) (λ rec2 s.
                  and_reads (b.read_checkpoint none rec2 s) (λ cp s.
                    (state_is cp.state (some (102 ∷ 105 ∷ 110 ∷ 97 ∷ 108 ∷ [])))
                    && ((cp.prev_exit == exit_finished)
                        && (str_eq cp.prev_holder_id "holder-a"))))))))

  unfoldable pub checkpoint_revives : S → Bool
  checkpoint_revives s = and_grants (b.acquire none "cp-revive" "holder-a" expired_ttl s) (λ rec s.
      and_succeeds
        (b.checkpoint none rec (some (114 ∷ 101 ∷ 118 ∷ 105 ∷ 118 ∷ 101 ∷ 100 ∷ [])) normal_ttl s)
        (λ s.
          and_refuses lease_held (b.acquire none "cp-revive" "holder-b" normal_ttl s) (λ s. true)))

  unfoldable pub checkpoint_specs : S → Bool
  unfolding checkpoint_persists checkpoint_stale checkpoint_never_acquired checkpoint_keeps_exit
      checkpoint_after_release checkpoint_revives
  checkpoint_specs s =
      checkpoint_persists s
      && (checkpoint_stale s
          && (checkpoint_never_acquired s
              && (checkpoint_keeps_exit s
                  && (checkpoint_after_release s && (checkpoint_revives s)))))
