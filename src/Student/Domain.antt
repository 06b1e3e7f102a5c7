-- ===== src/Student/Domain.antt =====
-- internal/student/domain/student.go
use profundiza_uq_backend.Base.{
  ℕ, Bool, true, false, not, ◌&&◌, ◌||◌, Option, Uuid, Time, leb, is_some, Result, guard, ◌>>◌,
}
use profundiza_uq_backend.Base.Int.{ℤ, pos, negsuc}
use profundiza_uq_backend.Base.Text.{Text, text}
use profundiza_uq_backend.Shared.Validation.{ValidationError, refusal, is_blank, has_at, if_given}
use profundiza_uq_backend.Shared.Shift.{AcademicShift, valid}

-- `Status`; `unknown` is any string but the two.
pub data Status : Type 0 where
  active inactive : Status
  unknown : Text → Status

-- `Status.Valid`
unfoldable pub valid_status : Status → Bool
valid_status active = true
valid_status inactive = true
valid_status (unknown s) = false

abbrev pub max_completed_electives : ℕ
max_completed_electives = 4

-- `Student`; the CHECK of its column keeps the count from being negative.
pub record Student : Type 0 where
  pub id : Uuid
  pub institutional_email : Text
  pub document_number : Text
  pub full_name : Text
  pub academic_shift : AcademicShift
  pub status : Status
  pub completed_count : ℕ
  pub created_at : Time
  pub updated_at : Time

-- `AcademicRecord`
pub record AcademicRecord : Type 0 where
  pub id : Uuid
  pub student_id : Uuid
  pub semester_id : Option Uuid
  pub notes : Text
  pub source : Text
  pub created_at : Time
  pub updated_at : Time

-- `NewStudent`
pub record NewStudent : Type 0 where
  pub institutional_email : Text
  pub document_number : Text
  pub full_name : Text
  pub academic_shift : AcademicShift
  pub completed_count : ℤ

-- `n < 0 || n > MaxCompletedElectives` does not hold.
unfoldable pub count_in_range : ℤ → Bool
count_in_range (pos n) = leb n max_completed_electives
count_in_range (negsuc n) = false

-- `NewStudent.Validate`
unfoldable pub validate : NewStudent → Result ValidationError (Unit {0})
unfolding text
validate n = do
  guard (not (is_blank n.institutional_email || not (has_at n.institutional_email)))
      (refusal (text "institutionalEmail") (text "a valid institutional email is required"))
  guard (not (is_blank n.document_number))
      (refusal (text "documentNumber") (text "document number is required"))
  guard (not (is_blank n.full_name)) (refusal (text "fullName") (text "full name is required"))
  guard (valid n.academic_shift)
      (refusal (text "academicShift") (text "academic shift must be DAY or NIGHT"))
  guard (count_in_range n.completed_count)
      (refusal (text "completedProfessionalElectivesCount") (text "must be between 0 and 4"))

-- `StudentPatch`
pub record StudentPatch : Type 0 where
  pub full_name : Option Text
  pub academic_shift : Option AcademicShift
  pub status : Option Status
  pub completed_count : Option ℤ

-- `StudentPatch.Validate`
unfoldable pub validate_patch : StudentPatch → Result ValidationError (Unit {0})
unfolding text
validate_patch p = do
  guard (if_given (λ s. not (is_blank s)) p.full_name)
      (refusal (text "fullName") (text "full name cannot be empty"))
  guard (if_given valid p.academic_shift)
      (refusal (text "academicShift") (text "academic shift must be DAY or NIGHT"))
  guard (if_given valid_status p.status)
      (refusal (text "status") (text "status must be ACTIVE or INACTIVE"))
  guard (if_given count_in_range p.completed_count)
      (refusal (text "completedProfessionalElectivesCount") (text "must be between 0 and 4"))

-- `IsEmpty`
unfoldable pub is_empty_patch : StudentPatch → Bool
is_empty_patch p =
    not (is_some p.full_name)
    && not (is_some p.academic_shift)
    && not (is_some p.status)
    && not (is_some p.completed_count)

-- `NewAcademicRecord`
pub record NewAcademicRecord : Type 0 where
  pub semester_id : Text
  pub notes : Text
  pub source : Text

-- `NewAcademicRecord.Validate`
unfoldable pub validate_record : NewAcademicRecord → Result ValidationError (Unit {0})
unfolding text
validate_record n = do
  guard (not (is_blank n.semester_id))
      (refusal (text "semesterId") (text "semester id is required"))
  guard (not (is_blank n.notes)) (refusal (text "notes") (text "notes are required"))
  guard (not (is_blank n.source)) (refusal (text "source") (text "source is required"))
