-- ===== src/Package/Downloads/Counted.antt =====
-- What the tasks make of the counters.
use thunderstore.Prelude.{
  suc, ◌+◌, ◌≡◌, refl, sym, ap, ◌∙◌, inl, inr, Bool, List, [], ◌∷◌, map, arith, Bool-cases, length,
  select,
}
use thunderstore.Package.{PackageVersion}
use thunderstore.Package.Downloads.{DownloadEvent, log_version_download, run_tasks, has_pk}

abbrev pub is_of : PackageVersion → DownloadEvent → Bool
is_of v e = has_pk e.version_id v

abbrev pub with_downloads : List DownloadEvent → PackageVersion → PackageVersion
with_downloads events v = record v { downloads = v.downloads + length (select (is_of v) events) }

no_events : (versions : List PackageVersion) → map (with_downloads []) versions ≡ versions
no_events [] = refl
no_events (v ∷ versions) =
    let ih = no_events versions in
    let n : v.downloads + 0 ≡ v.downloads = omega arith in
    rw ih (ap (λ d. record v { downloads = d } ∷ versions) n)

one_event :
    (e : DownloadEvent) (events : List DownloadEvent) (versions : List PackageVersion)
    → map (with_downloads events) (log_version_download e versions)
      ≡ map (with_downloads (e ∷ events)) versions
unfolding log_version_download
one_event e events [] = refl
one_event e events (v ∷ versions) =
    let ih = one_event e events versions in
    elim (Bool-cases (has_pk e.version_id v)) [
      | inl h ↦
          let tasks = length (select (is_of v) events) in
          let n : v.downloads + 1 + tasks ≡ v.downloads + suc tasks = omega arith in
          rw (h, log_version_download)
            (ap
                (λ d.
                  record v { downloads = d }
                  ∷ map (with_downloads events) (log_version_download e versions))
                n
              ∙ ap (λ vs. record v { downloads = v.downloads + suc tasks } ∷ vs) ih)
      | inr h ↦ rw (h, log_version_download) (ap (λ vs. with_downloads events v ∷ vs) ih)
    ]

-- When the queued tasks have run, in any order, each version has as many downloads more as there
-- were tasks for it.
pub run_tasks-downloads :
    (events : List DownloadEvent) (versions : List PackageVersion)
    → run_tasks events versions ≡ map (with_downloads events) versions
unfolding run_tasks
run_tasks-downloads [] versions = sym (no_events versions)
run_tasks-downloads (e ∷ events) versions =
    run_tasks-downloads events (log_version_download e versions) ∙ one_event e events versions
