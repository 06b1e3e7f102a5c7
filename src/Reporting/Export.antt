-- ===== src/Reporting/Export.antt =====
-- internal/reporting/domain/report.go, internal/reporting/app/service.go and the requests and reads
-- of internal/reporting/adapter/postgres/repo.go.
use profundiza_uq_backend.Base.{
  Bool, true, false, not, ◌&&◌, Option, none, some, List, [], ◌∷◌, ◌++◌, Uuid, Time, leb, is_some,
  Result, ok, guard, or_err, ◌>>◌,
}
use profundiza_uq_backend.Base.Table.{find, select, order_by}
use profundiza_uq_backend.Base.Text.{Text, text, text_eq, is_empty}

-- `ReportType`; `other` is any string but the eleven.
pub data ReportType : Type 0 where
  general_semester by_elective by_group by_student waitlist accepted_requests : ReportType
  rejected_requests cancelled_requests audit capacity admin_review : ReportType
  other : Text → ReportType

-- `Format`
pub data Format : Type 0 where
  xlsx pdf : Format
  unknown : Text → Format

-- `Status`
pub data Status : Type 0 where
  requested processing completed failed expired : Status

-- `refused` is a row that the database does not take.
pub data ReportError : Type 0 where
  invalid_report_type invalid_format semester_required not_found refused : ReportError

-- `ReportExport`; the filters are their JSON text.
pub record ReportExport : Type 0 where
  pub id : Uuid
  pub requested_by_admin_id : Uuid
  pub semester_id : Option Text
  pub report_type : ReportType
  pub format : Format
  pub status : Status
  pub filters : Text
  pub file_path : Option Text
  pub failure_reason : Option Text
  pub requested_at : Time
  pub started_at : Option Time
  pub completed_at : Option Time

-- `CreateRequest`; `none` is a nil map of filters.
pub record CreateRequest : Type 0 where
  pub requested_by_admin_id : Uuid
  pub semester_id : Option Text
  pub report_type : ReportType
  pub format : Format
  pub filters : Option Text

abbrev pub export_id : ReportExport → Uuid
export_id e = e.id

-- `ValidReportType`
unfoldable pub valid_report_type : ReportType → Bool
valid_report_type (other s) = false
valid_report_type _ = true

-- `ValidFormat`
unfoldable pub valid_format : Format → Bool
valid_format xlsx = true
valid_format pdf = true
valid_format (unknown s) = false

-- `semesterId` is given and not empty.
abbrev pub has_semester : Option Text → Bool
has_semester none = false
has_semester (some s) = not (is_empty s)

-- `ReportExport.Validate`
unfoldable pub validate : ReportExport → Result ReportError (Unit {0})
unfolding valid_report_type valid_format
validate e = do
  guard (valid_report_type e.report_type) invalid_report_type
  guard (valid_format e.format) invalid_format
  guard (has_semester e.semester_id) semester_required

-- `FileExtension`
unfoldable pub file_extension : ReportExport → Text
unfolding text
file_extension e = elim e.format [ pdf ↦ text "pdf" | _ ↦ text "xlsx" ]

-- `ContentType`
unfoldable pub content_type : ReportExport → Text
unfolding text
content_type e = elim e.format [
  | pdf ↦ text "application/pdf"
  | _ ↦ text "application/vnd.openxmlformats-officedocument.spreadsheetml.sheet"
]

-- `if filters == nil`
abbrev pub filters_or_empty : Option Text → Text
filters_or_empty none = text "{}"
filters_or_empty (some json) = json

-- The export that `Service.Create` builds, with the columns that the INSERT leaves to their defaults.
unfoldable pub new_export : Time → Uuid → CreateRequest → ReportExport
unfolding text
new_export now id r = record {
  id = id;
  requested_by_admin_id = r.requested_by_admin_id;
  semester_id = r.semester_id;
  report_type = r.report_type;
  format = r.format;
  status = requested;
  filters = filters_or_empty r.filters;
  file_path = none;
  failure_reason = none;
  requested_at = now;
  started_at = none;
  completed_at = none;
}

-- `Service.Create`. `accepts` is what the foreign keys and the types of the columns let in.
unfoldable pub create :
    (ReportExport → Bool)
    → Time
    → Uuid
    → CreateRequest
    → List ReportExport
    → Result ReportError (List ReportExport × ReportExport)
unfolding new_export validate
create accepts now id r rows = do
  validate (new_export now id r)
  guard (accepts (new_export now id r) && not (is_some (find export_id id rows))) refused
  ok (rows ++ new_export now id r ∷ [], new_export now id r)

-- `Repo.Get`
unfoldable pub get : Uuid → List ReportExport → Result ReportError ReportExport
get id rows = or_err (find export_id id rows) not_found

abbrev pub semester_is : Text → Option Text → Bool
semester_is s none = false
semester_is s (some t) = text_eq t s

-- `ORDER BY requested_at DESC`
unfoldable pub newer : ReportExport → ReportExport → Bool
newer x y = leb y.requested_at x.requested_at

-- `Repo.ListBySemester`
unfoldable pub list_by_semester : Text → List ReportExport → List ReportExport
unfolding newer
list_by_semester semester rows =
    order_by newer (select (λ e. semester_is semester e.semester_id) rows)
