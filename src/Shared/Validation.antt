-- ===== src/Shared/Validation.antt =====
-- The checks of input that internal/student, internal/adminuser and internal/settings share: each
-- package declares its own ValidationError, and all are alike.
use profundiza_uq_backend.Base.{Bool, true, false, ◌||◌, Option, none, some, [], ◌∷◌, ◌==◌}
use profundiza_uq_backend.Base.Text.{Text, is_empty, trim_space}

-- `ValidationError`
pub record ValidationError : Type 0 where
  pub field : Text
  pub message : Text

abbrev pub refusal : Text → Text → ValidationError
refusal field message = record { field = field; message = message }

-- `strings.TrimSpace(s) == ""`
unfoldable pub is_blank : Text → Bool
is_blank s = is_empty (trim_space s)

-- `strings.Contains(s, "@")`
unfoldable pub has_at : Text → Bool
has_at [] = false
has_at (c ∷ s) = c == b'@' || has_at s

-- The test of a field that is present.
abbrev pub if_given {ℓ} : {A : Type ℓ} → (A → Bool) → Option A → Bool
if_given test none = true
if_given test (some a) = test a

-- The value of a field that a patch may leave as it is.
abbrev pub given {ℓ} : {A : Type ℓ} → A → Option A → A
given a none = a
given a (some b) = b
