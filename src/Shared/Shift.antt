-- ===== src/Shared/Shift.antt =====
-- internal/shared/domain/shift.go. A shift is a string in Go; `other` is any string but the two.
use profundiza_uq_backend.Base.{◌≡◌, ◌↔◌, Bool, true, false, Option, none, some, arith}
use profundiza_uq_backend.Base.Text.{Text, text_eq, text_eq_iff}

pub data AcademicShift : Type 0 where
  day night : AcademicShift
  other : Text → AcademicShift

-- `Valid`
unfoldable pub valid : AcademicShift → Bool
valid day = true
valid night = true
valid (other s) = false

-- `Opposite`; `none` is the panic on an invalid receiver
unfoldable pub opposite : AcademicShift → Option AcademicShift
opposite day = some night
opposite night = some day
opposite (other s) = none

-- `SameAs`
unfoldable pub same_as : AcademicShift → AcademicShift → Bool
same_as day day = true
same_as night night = true
same_as (other s) (other t) = text_eq s t
same_as _ _ = false

pub same_as_iff : (s t : AcademicShift) → (same_as s t ≡ true) ↔ (s ≡ t)
unfolding same_as
same_as_iff day day = ground arith
same_as_iff day night = ground arith
same_as_iff day (other t) = ground arith
same_as_iff night day = ground arith
same_as_iff night night = ground arith
same_as_iff night (other t) = ground arith
same_as_iff (other s) day = ground arith
same_as_iff (other s) night = ground arith
same_as_iff (other s) (other t) = ground (arith, text_eq_iff s t)

-- `Opposite` is defined exactly on the valid shifts; there it answers the valid shift that differs
-- from its argument.
pub opposite_lem :
    (s t : AcademicShift)
    → (opposite s ≡ some t) ↔ ((valid s ≡ true) × (valid t ≡ true) × (same_as s t ≡ false))
unfolding opposite valid same_as
opposite_lem day day = ground arith
opposite_lem day night = ground arith
opposite_lem day (other t) = ground arith
opposite_lem night day = ground arith
opposite_lem night night = ground arith
opposite_lem night (other t) = ground arith
opposite_lem (other s) t = ground arith
