-- ===== src/Report/Directory.antt =====
-- internal/sandbox/usagereport.go: the directory of a report stays below the output root.
use demesne.Base.{
  ◌≡◌, ◌∙◌, subst, true, ◌&&◌, ◌||◌, [], ◌∷◌, ◌++◌, if◌then◌else◌, Str, codes, str_eq, has_prefix,
  is_empty, is_abs, clean_path, join_path, elements, elements-Plain, Plain, All, Inside, within,
  is_abs-clean_path, err, ok, arith,
}
use demesne.Report.{UsageReportRequest, ReportError, resolve_usage_report_dir}

-- The directory that a request names, before it is cleaned.
abbrev pub requested : Str → UsageReportRequest → Str
requested root req =
    if is_empty req.output_dir
    then join_path (root ∷ req.job_id ∷ codes "out" ∷ [])
    else req.output_dir

-- Below an absolute output root, a directory that is accepted goes through all elements of the root and
-- has no element `..`.
pub resolved-Inside :
    (root : Str) (req : UsageReportRequest) (dir : Str)
    → is_abs root ≡ true
    → resolve_usage_report_dir root req ≡ ok dir
    → Inside root dir × All Plain (elements dir)
unfolding resolve_usage_report_dir
resolved-Inside root req dir h e =
    let raw = requested root req in
    let (accepted, same) = accepted raw e in
    let (a, i) = within root raw h accepted in
    (
      subst (Inside root) same i,
      subst (λ d. All Plain (elements d)) same
          (elements-Plain (clean_path raw) (is_abs-clean_path raw ∙ a)),
    )
  where
    accepted :
        (raw : Str)
        → (if is_empty req.output_dir && is_empty req.job_id
            then err ReportError.missing_request
            else if str_eq (clean_path raw) (clean_path root)
                || has_prefix (clean_path raw) (clean_path root ++ 47 ∷ [])
            then ok (clean_path raw)
            else err (ReportError.outside_root (clean_path raw)))
          ≡ ok dir
        → ((str_eq (clean_path raw) (clean_path root)
              || has_prefix (clean_path raw) (clean_path root ++ 47 ∷ []))
            ≡ true)
          × (clean_path raw ≡ dir)
    accepted raw k = ground (arith, k)
