-- ===== src/Postgres/ExitText.antt =====
-- backend/postgres/postgres.go: the exits as the table stores them, read back.
use worklease.Base.{◌≡◌, refl, arith, ◌≤◌, ◌⊎◌, inl, inr, ℕ, String, str_eq, if◌then◌else◌}
use worklease.Backend.{
  ExitMode, exit_none, exit_finished, exit_abandoned, exit_retired, exit_expired, exit_text,
}

-- A stored exit; text that is none of the five is read as "expired".
unfoldable pub exit_mode_from_sql : String → ExitMode
unfolding exit_text
exit_mode_from_sql s =
    if str_eq s (exit_text exit_none)
    then exit_none
    else if str_eq s (exit_text exit_finished)
    then exit_finished
    else if str_eq s (exit_text exit_abandoned)
    then exit_abandoned
    else if str_eq s (exit_text exit_retired)
    then exit_retired
    else exit_expired

cases_below_5 : (m : ℕ) → m ≤ 4 → (m ≡ 0) ⊎ ((m ≡ 1) ⊎ ((m ≡ 2) ⊎ ((m ≡ 3) ⊎ (m ≡ 4))))
cases_below_5 m le = ground arith

-- Each of the five exits is read back as itself from the text that stores it.
pub exit_text_roundtrip : (m : ExitMode) → m ≤ exit_expired → exit_mode_from_sql (exit_text m) ≡ m
unfolding exit_mode_from_sql exit_text
exit_text_roundtrip m le = elim (cases_below_5 m le) [
  | inl e ↦ rw e refl
  | inr (inl e) ↦ rw e refl
  | inr (inr (inl e)) ↦ rw e refl
  | inr (inr (inr (inl e))) ↦ rw e refl
  | inr (inr (inr (inr e))) ↦ rw e refl
]
