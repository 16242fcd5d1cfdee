-- ===== src/Conformance/Renew.antt =====
-- backend/conformance/conformance.go: the specs under "Renew".
use worklease.Base.{Bool, true, ◌&&◌, none}
use worklease.Errors.{fenced, lease_expired}
use worklease.Backend.{exit_finished}
use worklease.Client.Types.{Backend}
use worklease.Conformance.Expect.{
  normal_ttl, expired_ttl, stale, never_acquired, and_grants, and_succeeds, and_fails,
}

module _ {S : Type 0} (b : Backend S) where
  unfoldable pub renew_succeeds : S → Bool
  renew_succeeds s =
      and_grants (b.acquire none "w1" "h" normal_ttl s)
        (λ rec s. and_succeeds (b.renew none rec normal_ttl s) (λ s. true))

  unfoldable pub renew_stale : S → Bool
  renew_stale s =
      and_grants (b.acquire none "w1" "h" normal_ttl s)
        (λ rec s. and_fails fenced (b.renew none (stale rec) normal_ttl s) (λ s. true))

  unfoldable pub renew_never_acquired : S → Bool
  renew_never_acquired s = and_fails fenced (b.renew none never_acquired normal_ttl s) (λ s. true)

  unfoldable pub renew_expired : S → Bool
  renew_expired s =
      and_grants (b.acquire none "w1" "h" expired_ttl s)
        (λ rec s. and_fails lease_expired (b.renew none rec normal_ttl s) (λ s. true))

  unfoldable pub renew_after_release : S → Bool
  renew_after_release s = and_grants (b.acquire none "w1" "h" normal_ttl s) (λ rec s.
      and_succeeds (b.release none rec exit_finished s) (λ s.
        and_fails lease_expired (b.renew none rec normal_ttl s)
          (λ s. and_grants (b.acquire none "w1" "h2" normal_ttl s) (λ rec2 s. true))))

  unfoldable pub renew_specs : S → Bool
  unfolding renew_succeeds renew_stale renew_never_acquired renew_expired renew_after_release
  renew_specs s =
      renew_succeeds s
      && (renew_stale s && (renew_never_acquired s && (renew_expired s && (renew_after_release s))))
