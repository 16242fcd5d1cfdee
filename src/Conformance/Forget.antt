-- ===== src/Conformance/Forget.antt =====
-- backend/conformance/conformance.go: the specs under "Forget".
use worklease.Base.{Bool, true, ◌&&◌, none, some, [], ◌∷◌, ltb, ◌==◌}
use worklease.Errors.{fenced}
use worklease.Backend.{exit_none, exit_retired}
use worklease.Client.Types.{Backend}
use worklease.Conformance.Expect.{
  normal_ttl, stale, never_acquired, and_grants, and_succeeds, and_fails, and_reads,
}

module _ {S : Type 0} (b : Backend S) where
  unfoldable pub forget_renumbers : S → Bool
  forget_renumbers s = and_grants (b.acquire none "forget-1" "h" normal_ttl s) (λ rec s.
      and_succeeds (b.forget none rec s) (λ s.
        and_grants (b.acquire none "forget-1" "h" normal_ttl s)
          (λ rec2 s. ltb rec.fencing_token rec2.fencing_token)))

  unfoldable pub forget_stale : S → Bool
  forget_stale s = and_grants (b.acquire none "forget-2" "h" normal_ttl s) (λ rec s.
      and_fails fenced (b.forget none (stale rec) s) (λ s.
        and_succeeds
          (b.checkpoint none rec
            (some (115 ∷ 116 ∷ 105 ∷ 108 ∷ 108 ∷ 32 ∷ 104 ∷ 101 ∷ 114 ∷ 101 ∷ [])) normal_ttl s)
          (λ s. true)))

  unfoldable pub forget_never_acquired : S → Bool
  forget_never_acquired s = and_fails fenced (b.forget none never_acquired s) (λ s. true)

  unfoldable pub forget_after_release : S → Bool
  forget_after_release s =
      and_grants (b.acquire none "forget-after-release" "holder-a" normal_ttl s) (λ rec s.
        and_succeeds (b.release none rec exit_retired s) (λ s.
          and_succeeds (b.forget none rec s) (λ s.
            and_grants (b.acquire none "forget-after-release" "holder-b" normal_ttl s) (λ rec2 s.
              and_reads (b.read_checkpoint none rec2 s) (λ cp s. cp.prev_exit == exit_none)))))

  unfoldable pub forget_specs : S → Bool
  unfolding forget_renumbers forget_stale forget_never_acquired forget_after_release
  forget_specs s =
      forget_renumbers s
      && (forget_stale s && (forget_never_acquired s && (forget_after_release s)))
