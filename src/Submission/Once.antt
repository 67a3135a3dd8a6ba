-- ===== src/Submission/Once.antt =====
-- The states of a submission in repository/tasks/submission.py and repository/models/submission.py.
use thunderstore.Prelude.{
  ℕ, ◌+◌, ◌≤◌, ◌≡◌, refl, sym, ap, ◌∙◌, subst, inl, inr, Bool, true, false, none, some, List, [],
  ◌∷◌, arith, ◌==ℕ◌, Option-cases, first, update_where, first-eq-some,
}
use thunderstore.Submission.{
  PackageSubmission, task_ttl, has_expired, schedule_if_appropriate, Outcome, finish, is_free,
  process_submission_idempotent, finished,
}

finish-status :
    (now : ℕ) (o : Outcome) (s : PackageSubmission)
    → ((finish now o s).status ≡ finished) × ((finish now o s).pk ≡ s.pk)
unfolding finish
finish-status now o s = ground arith

-- A row that was replaced by a finished one is not picked again, whatever is locked.
replaced-none :
    (is_locked : ℕ → Bool) (pk : ℕ) (s : PackageSubmission) (rows : List PackageSubmission)
    → s.status ≡ finished
    → s.pk ≡ pk
    → first
        (is_free is_locked pk)
        (update_where (λ (r : PackageSubmission). r.pk ==ℕ pk) (λ _. s) rows)
      ≡ none
replaced-none is_locked pk s [] f e = refl
replaced-none is_locked pk s (r ∷ rows) f e = ground (arith, replaced-none is_locked pk s rows f e)

module _ (process : PackageSubmission → Outcome) where
  process_found :
      (is_locked : ℕ → Bool) (now pk : ℕ) (rows : List PackageSubmission) (s : PackageSubmission)
      → first (is_free is_locked pk) rows ≡ some s
      → process_submission_idempotent process is_locked now pk rows ≡ (
        update_where (λ (r : PackageSubmission). r.pk ==ℕ pk) (λ _. finish now (process s) s) rows,
        true,
      )
  unfolding process_submission_idempotent
  process_found is_locked now pk rows s e = rw (e, process_submission_idempotent) refl

  process_missing :
      (is_locked : ℕ → Bool) (now pk : ℕ) (rows : List PackageSubmission)
      → first (is_free is_locked pk) rows ≡ none
      → process_submission_idempotent process is_locked now pk rows ≡ (rows, false)
  unfolding process_submission_idempotent
  process_missing is_locked now pk rows e = rw (e, process_submission_idempotent) refl

  -- A submission is processed at most once: an attempt after one that processed it finds nothing to
  -- do and changes nothing, whatever is locked at either time.
  pub process_submission_idempotent-again :
      (is_locked is_locked_later : ℕ → Bool) (now later pk : ℕ) (rows : List PackageSubmission)
      → (process_submission_idempotent process is_locked now pk rows).1 ≡ true
      → process_submission_idempotent process is_locked_later later pk
          (process_submission_idempotent process is_locked now pk rows).0
        ≡ ((process_submission_idempotent process is_locked now pk rows).0, false)
  process_submission_idempotent-again is_locked is_locked_later now later pk rows h =
      elim (Option-cases (first (is_free is_locked pk) rows)) [
        | inl e ↦ cc (ap (λ x. x.1) (process_missing is_locked now pk rows e), h)
        | inr (s, e) ↦
            let (free, _) = first-eq-some (is_free is_locked pk) rows e in
            let (done, kept) = finish-status now (process s) s in
            let its_key : s.pk ≡ pk = ground arith in
            let first_time = process_found is_locked now pk rows s e in
            let gone =
              replaced-none is_locked_later pk (finish now (process s) s) rows done
                (kept ∙ its_key) in
            subst
              (λ x.
                process_submission_idempotent process is_locked_later later pk x.0 ≡ (x.0, false))
              (sym first_time) (process_missing is_locked_later later pk _ gone)
      ]

-- While a task that was scheduled has not expired, polling again schedules no other.
pub schedule_if_appropriate-once :
    (now later : ℕ) (s : PackageSubmission)
    → later ≤ now + task_ttl
    → (schedule_if_appropriate now s).1 ≡ true
    → (schedule_if_appropriate later (schedule_if_appropriate now s).0).1 ≡ false
unfolding schedule_if_appropriate has_expired
schedule_if_appropriate-once now later s h e = ground arith
