-- ===== src/Tests/Requests.antt =====
-- Submissions, batches and cancellations.
use profundiza_uq_backend.Base.{
  ◌*◌, ◌⊎◌, ℕ, some, [], ◌∷◌, ◌≡◌, ◌≤◌, ◌+◌, refl, true, false, ok, err,
}
use profundiza_uq_backend.Base.Table.{find, count, select, select_one, least, least_from}
use profundiza_uq_backend.Base.Text.{text_eq}
use profundiza_uq_backend.Shared.Shift.{same_as}
use profundiza_uq_backend.Enrollment.Status.{direct_same_shift, pending_review}
use profundiza_uq_backend.Enrollment.Classify.{classify}
use profundiza_uq_backend.Enrollment.Database.{Database, Student, OfferingGroup}
use profundiza_uq_backend.Enrollment.Submit.{
  SubmittedRequest, EnrollmentError, submit_tx, submit, prepare, finish, insert_outcome, lock_group,
  lock_student, open_window, is_open, occupancy, new_request,
}
use profundiza_uq_backend.Enrollment.Submit.Seats.{
  IsDirectSeated, taken, run, run-IsDirectSeated, submit_direct_fits,
}
use profundiza_uq_backend.Enrollment.Cancel.{cancel}
use profundiza_uq_backend.System.Invariant.{Inv}
use profundiza_uq_backend.System.Reach.{here, next, submits, cancels, decides, Reach-Inv}
use profundiza_uq_backend.System.Idempotency.{Act, start, then_act, submit_idempotent}
use profundiza_uq_backend.Review.Decide.{decide}
use profundiza_uq_backend.Base.Int.{pos}
use profundiza_uq_backend.Enrollment.Submit.Effects.{is_new, StoresOne, LeavesTables, submit_atomic}
use profundiza_uq_backend.Enrollment.Service.{Turn, BatchInput, itoa}
use profundiza_uq_backend.Enrollment.Service.Keys.{value_from, IsDigit, IsLeading, itoa_lem}
use profundiza_uq_backend.Base.Table.{All}
use profundiza_uq_backend.Enrollment.Cancel.Effects.{Cancels, Refusal, cancel_effects}
use profundiza_uq_backend.Catalog.Capacity.{CatalogError, adjust_capacity}
use profundiza_uq_backend.System.Resizing.{Resizes, adjust_capacity_effects}
use profundiza_uq_backend.Tests.Fixtures.{
  empty, session, asks, accepts, empty-Inv, empty-IsDirectSeated,
}

abbrev first : SubmittedRequest
first = record {
  id = 100;
  offering_id = 1;
  status = pending_review;
  priority_group = direct_same_shift;
  arrival_sequence = 1;
  existed = false;
}

-- The first student of the shift gets the direct slot.
first_submission : (submit_tx (session 100) (asks 20 10 107) empty).1 ≡ ok first
unfolding submit_tx prepare finish insert_outcome lock_group lock_student open_window is_open
    occupancy new_request classify find select select_one least least_from count text_eq same_as
first_submission = refl

abbrev history : Database
history = (submit_tx (session 100) (asks 20 10 107) empty).0

abbrev decided_history : Database
decided_history = (decide (session 200) (accepts 100) history).0

Reach-Inv_example :
    Inv (cancel (session 300) (record { request_id = 100; student_id = 20 }) decided_history).0
Reach-Inv_example =
    Reach-Inv
      (next
        (next (next here (submits (session 100) (asks 20 10 107)))
          (decides (session 200) (accepts 100)))
        (cancels (session 300) (record { request_id = 100; student_id = 20 })))
      empty-Inv

submit_idempotent_example :
    (found : SubmittedRequest) × (submit (session 400) (λ db. db) (asks 20 11 107) decided_history
      ≡ (decided_history, ok found))
    × (found.id ≡ 100)
    × (found.arrival_sequence ≡ 1)
    × (found.existed ≡ true)
submit_idempotent_example =
    submit_idempotent (session 100) (session 400) (λ db. db) (asks 20 10 107) (asks 20 11 107) empty
      decided_history first first_submission
      (then_act start (Act.decides (session 200) (accepts 100))) refl refl refl

run-IsDirectSeated_example :
    IsDirectSeated (run ((session 100, asks 20 10 107) ∷ (session 200, asks 21 10 107) ∷ []) empty)
run-IsDirectSeated_example =
    run-IsDirectSeated ((session 100, asks 20 10 107) ∷ (session 200, asks 21 10 107) ∷ []) empty
      empty-IsDirectSeated

submit_direct_fits_example :
    (g : OfferingGroup) × (st : Student) × (lock_group empty 10 ≡ some g)
    × (lock_student empty 20 ≡ some st)
    × (st.academic_shift ≡ g.shift)
    × (taken 10 (submit_tx (session 100) (asks 20 10 107) empty).0.requests ≤ g.capacity)
submit_direct_fits_example =
    submit_direct_fits (session 100) (asks 20 10 107) empty first first_submission refl refl

submit_atomic_example :
    StoresOne (session 100) (asks 20 10 107) empty (submit_tx (session 100) (asks 20 10 107) empty)
    ⊎ ((is_new (submit_tx (session 100) (asks 20 10 107) empty).1 ≡ false)
        × LeavesTables empty (submit_tx (session 100) (asks 20 10 107) empty).0)
submit_atomic_example = submit_atomic (session 100) (asks 20 10 107) empty

abbrev quiet_turns : ℕ → Turn
quiet_turns i = record { session = session (100 + 10 * i); earlier = λ db. db; between = λ db. db }

abbrev ana_batch : BatchInput
ana_batch = record { semester_id = 1; student_id = 20; base_key = 107 ∷ [] }

itoa_lem_example :
    (value_from 0 (itoa 1234) ≡ 1234) × All IsDigit (itoa 1234) × IsLeading (itoa 1234)
itoa_lem_example = itoa_lem 1234

cancel_effects_example :
    Cancels
      (session 300)
      (record { request_id = 100; student_id = 20 })
      history
      (cancel (session 300) (record { request_id = 100; student_id = 20 }) history).0
    ⊎ ((e : EnrollmentError) × (cancel
            (session 300)
            (record { request_id = 100; student_id = 20 })
            history
          ≡ (history, err e))
        × Refusal (record { request_id = 100; student_id = 20 }) history e)
cancel_effects_example =
    cancel_effects (session 300) (record { request_id = 100; student_id = 20 }) history

adjust_capacity_effects_example :
    Resizes
      (record { group_id = 10; new_capacity = pos 5; reason = 102 ∷ 105 ∷ 116 ∷ []; actor_id = 40 })
      history
      (adjust_capacity
        (record { ip_address = []; user_agent = [] })
        (record {
          group_id = 10;
          new_capacity = pos 5;
          reason = 102 ∷ 105 ∷ 116 ∷ [];
          actor_id = 40;
        })
        history).0
    ⊎ ((e : CatalogError) × (adjust_capacity
            (record { ip_address = []; user_agent = [] })
            (record {
              group_id = 10;
              new_capacity = pos 5;
              reason = 102 ∷ 105 ∷ 116 ∷ [];
              actor_id = 40;
            })
            history
          ≡ (history, err e)))
adjust_capacity_effects_example =
    adjust_capacity_effects (record { ip_address = []; user_agent = [] })
      (record { group_id = 10; new_capacity = pos 5; reason = 102 ∷ 105 ∷ 116 ∷ []; actor_id = 40 })
      history
