-- ===== src/Submission.antt =====
-- repository/models/submission.py and repository/tasks/submission.py: packages that are processed
-- after their upload. Times are in seconds.
pub mod Once
use thunderstore.Prelude.{
  ℕ, ◌+◌, ◌*◌, Bool, true, false, not, ◌&&◌, ◌||◌, Option, none, some, List, ltb, ◌==ℕ◌,
  if◌then◌else◌, select, first, update_where, Refusal, Result, Failure, ok, err, refused, Text,
}
use thunderstore.Package.{Package}
use thunderstore.Form.{CleanedForm}
use thunderstore.Team.{Db}
use thunderstore.Upload.{UserMedia, S3Client, UploadSettings, download_file}
use thunderstore.Permissions.{User}

-- PackageSubmissionStatus
pub data SubmissionStatus : Type 0 where
  pending finished : SubmissionStatus

-- AsyncPackageSubmission; `task_error` tells whether a traceback is stored.
pub record PackageSubmission : Type 0 where
  pub pk : ℕ
  pub owner : User
  pub file : UserMedia
  pub status : SubmissionStatus
  pub datetime_scheduled : Option ℕ
  pub datetime_finished : Option ℕ
  pub datetime_polled : ℕ
  pub form_errors : Option Refusal
  pub task_error : Bool
  pub created_version : Option Text

-- TASK_TTL and CLEANUP_TTL
abbrev pub task_ttl : ℕ
task_ttl = 60 * 5

abbrev pub cleanup_ttl : ℕ
cleanup_ttl = 60 * 60 * 24

-- `has_expired` of repository/utils.py
unfoldable pub has_expired : Option ℕ → ℕ → ℕ → Bool
has_expired none now ttl_seconds = true
has_expired (some timestamp) now ttl_seconds = ltb (timestamp + ttl_seconds) now

abbrev pub is_pending : SubmissionStatus → Bool
is_pending pending = true
is_pending finished = false

-- `schedule_if_appropriate`: the stored row, and whether a task is scheduled
unfoldable pub schedule_if_appropriate : ℕ → PackageSubmission → PackageSubmission × Bool
unfolding has_expired
schedule_if_appropriate now s =
    if is_pending s.status && has_expired s.datetime_scheduled now task_ttl
    then (record s { datetime_polled = now; datetime_scheduled = some now }, true)
    else (record s { datetime_polled = now }, false)

-- What `_process_submission` leaves: a created version, the errors of the form, or an exception
pub data Outcome : Type 0 where
  version_created : Text → Outcome
  form_invalid : Refusal → Outcome
  task_failed : Outcome

-- The form's part of `_process_submission`: a form that is not valid and a `ValidationError` of `save`
-- both give the errors of the form.
unfoldable pub process_form :
    Result Failure CleanedForm → (CleanedForm → Result Failure (Package × Db)) → Outcome
process_form (err (refused r)) save = form_invalid r
process_form (err e) save = task_failed
process_form (ok form) save = elim (save form) [
  | ok stored ↦ version_created form.manifest.version_number
  | err (refused r) ↦ form_invalid r
  | err e ↦ task_failed
]

-- `_process_submission`: the file is downloaded for the owner, and the form runs on it.
unfoldable pub process_submission :
    UploadSettings
    → S3Client
    → (User → Text → Result Failure CleanedForm)
    → (User → CleanedForm → Result Failure (Package × Db))
    → PackageSubmission
    → Outcome
unfolding process_form
process_submission settings client validate save s =
    elim (download_file settings client (some s.owner.pk) s.file) [
      | err e ↦ task_failed
      | ok file ↦ process_form (validate s.owner file) (save s.owner)
    ]

unfoldable pub finish : ℕ → Outcome → PackageSubmission → PackageSubmission
finish now outcome s =
    let done : PackageSubmission = record s { status = finished; datetime_finished = some now } in
    elim outcome [
      | version_created v ↦ record done { created_version = some v }
      | form_invalid r ↦ record done { form_errors = some r }
      | task_failed ↦ record done { task_error = true }
    ]

-- `select_for_update(skip_locked=True).filter(pk=..., status=PENDING).first()`; `is_locked` tells
-- whether another transaction has the row.
abbrev pub is_free : (ℕ → Bool) → ℕ → PackageSubmission → Bool
is_free is_locked pk s = (s.pk ==ℕ pk) && (is_pending s.status && not (is_locked s.pk))

-- `process_submission_idempotent`: the rows, and whether processing was needed
unfoldable pub process_submission_idempotent :
    (PackageSubmission → Outcome)
    → (ℕ → Bool)
    → ℕ
    → ℕ
    → List PackageSubmission
    → List PackageSubmission × Bool
unfolding finish
process_submission_idempotent process is_locked now pk rows =
    elim (first (is_free is_locked pk) rows) [
      | none ↦ (rows, false)
      | some s ↦
          let processed = finish now (process s) s in
          (update_where (λ (r : PackageSubmission). r.pk ==ℕ pk) (λ _. processed) rows, true)
    ]

-- `cleanup_submissions`
abbrev pub is_outdated : ℕ → PackageSubmission → Bool
is_outdated now s =
    elim s.datetime_finished [ none ↦ false | some t ↦ ltb (t + cleanup_ttl) now ]
    || ltb (s.datetime_polled + cleanup_ttl) now

unfoldable pub cleanup_submissions : ℕ → List PackageSubmission → List PackageSubmission
cleanup_submissions now rows = select (λ s. not (is_outdated now s)) rows
