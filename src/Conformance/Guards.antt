-- ===== src/Conformance/Guards.antt =====
-- backend/conformance/conformance.go: the specs under "cancelled context" and "holder mismatch".
use worklease.Base.{Bool, true, ◌&&◌, none, some, [], ◌∷◌, ◌==◌}
use worklease.Base.Int.{pos}
use worklease.Errors.{sentinel, fenced, lease_held, canceled}
use worklease.Backend.{exit_none, exit_finished}
use worklease.Client.Types.{Backend}
use worklease.Conformance.Expect.{
  normal_ttl, by_other, options, and_grants, and_refuses, and_succeeds, and_fails, and_reads,
  state_is,
}

module _ {S : Type 0} (b : Backend S) where
  unfoldable pub cancelled_refuses : S → Bool
  cancelled_refuses s = and_grants (b.acquire none "w1" "h" normal_ttl s) (λ rec s.
      and_succeeds
        (b.checkpoint none rec (some (98 ∷ 101 ∷ 102 ∷ 111 ∷ 114 ∷ 101 ∷ [])) normal_ttl s)
        (λ s.
          and_refuses canceled (b.acquire (some (sentinel canceled)) "w-new" "h" normal_ttl s) (λ s.
            and_fails canceled
              (b.checkpoint (some (sentinel canceled)) rec (some (97 ∷ 102 ∷ 116 ∷ 101 ∷ 114 ∷ []))
                normal_ttl s)
              (λ s. and_fails canceled (b.renew (some (sentinel canceled)) rec normal_ttl s) (λ s.
                and_fails canceled (b.release (some (sentinel canceled)) rec exit_finished s) (λ s.
                  and_refuses canceled (b.read_checkpoint (some (sentinel canceled)) rec s) (λ s.
                    and_fails canceled (b.forget (some (sentinel canceled)) rec s) (λ s.
                      and_refuses canceled
                        (b.sweep (some (sentinel canceled)) (options (pos 1) true) s)
                        (λ s. and_grants (b.acquire none "w-new" "h2" normal_ttl s) (λ rec2 s.
                          and_reads (b.read_checkpoint none rec s) (λ cp s.
                            (state_is cp.state (some (98 ∷ 101 ∷ 102 ∷ 111 ∷ 114 ∷ 101 ∷ [])))
                            && ((cp.prev_exit == exit_none)
                                && (and_refuses lease_held
                                    (b.acquire none rec.work_id "other-holder" normal_ttl s)
                                    (λ s. true))))))))))))))

  unfoldable pub other_holder_fenced : S → Bool
  other_holder_fenced s = and_grants (b.acquire none "w1" "h" normal_ttl s) (λ rec s.
      and_fails fenced (b.checkpoint none (by_other rec) (some (120 ∷ [])) normal_ttl s) (λ s.
        and_fails fenced (b.renew none (by_other rec) normal_ttl s) (λ s.
          and_fails fenced (b.release none (by_other rec) exit_finished s) (λ s.
            and_fails fenced (b.forget none (by_other rec) s) (λ s.
              and_reads (b.read_checkpoint none rec s) (λ cp s.
                (cp.prev_exit == exit_none)
                && (and_refuses lease_held (b.acquire none rec.work_id "third-holder" normal_ttl s)
                    (λ s. and_succeeds (b.renew none rec normal_ttl s) (λ s. true)))))))))

  unfoldable pub guard_specs : S → Bool
  unfolding cancelled_refuses other_holder_fenced
  guard_specs s = cancelled_refuses s && (other_holder_fenced s)
