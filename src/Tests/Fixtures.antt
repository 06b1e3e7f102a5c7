-- ===== src/Tests/Fixtures.antt =====
-- A semester with two groups and three students.
use profundiza_uq_backend.Base.{ℕ, none, [], ◌∷◌, Uuid, arith, ◌+◌, false}
use profundiza_uq_backend.Base.Table.{count}
use profundiza_uq_backend.Shared.Shift.{day, night}
use profundiza_uq_backend.Enrollment.Rules.{accept}
use profundiza_uq_backend.Enrollment.Database.{
  active, OfferingGroup, Student, EnrollmentWindow, Database,
}
use profundiza_uq_backend.Enrollment.Submit.{SubmitInput, Session}
use profundiza_uq_backend.Enrollment.Submit.Seats.{IsDirectSeated}
use profundiza_uq_backend.Review.Decide.{DecisionInput}
use profundiza_uq_backend.System.Invariant.{Inv}

abbrev pub day_group : OfferingGroup
day_group = record { id = 10; offering_id = 1; shift = day; capacity = 1; status = active }

abbrev pub night_group : OfferingGroup
night_group = record { id = 11; offering_id = 1; shift = night; capacity = 2; status = active }

abbrev pub ana : Student
ana = record { id = 20; institutional_email = 97 ∷ []; academic_shift = day; status = active }

abbrev pub berta : Student
berta = record { id = 21; institutional_email = 98 ∷ []; academic_shift = day; status = active }

abbrev pub carlos : Student
carlos = record { id = 22; institutional_email = 99 ∷ []; academic_shift = night; status = active }

abbrev pub first_window : EnrollmentWindow
first_window = record {
  id = 30;
  semester_id = 1;
  starts_at = 0;
  ends_at = 1000;
  target_shift = none;
  status = active;
}

abbrev pub empty : Database
empty = record {
  groups = day_group ∷ night_group ∷ [];
  students = ana ∷ berta ∷ carlos ∷ [];
  admins = 40 ∷ [];
  windows = first_window ∷ [];
  requests = [];
  decisions = [];
  adjustments = [];
  audit_events = [];
  notifications = [];
  arrival_seq = 1;
}

-- A session whose ids start at `n`.
abbrev pub session : Uuid → Session
session n = record {
  now = 100;
  request_uuid = n;
  inbox_uuid = n + 1;
  mail_uuid = n + 2;
  meta = record { ip_address = []; user_agent = [] };
  reports_idempotency_first = false;
}

-- A student asks for a group, with a key of one letter.
abbrev pub asks : Uuid → Uuid → ℕ → SubmitInput
asks student group key = record {
  semester_id = 1;
  student_id = student;
  offering_group_id = group;
  idempotency_key = key ∷ [];
}

abbrev pub accepts : Uuid → DecisionInput
accepts request = record {
  request_id = request;
  admin_user_id = 40;
  decision_type = accept;
  reason = 102 ∷ 105 ∷ 116 ∷ 115 ∷ [];
  target_group_id = none;
}

pub empty-Inv : Inv empty
unfolding count
empty-Inv = record {
  capped = λ student semester. omega arith;
  seated = λ id g found. omega arith;
  arranged = tt;
}

pub empty-IsDirectSeated : IsDirectSeated empty
unfolding count
empty-IsDirectSeated id g found = omega arith
