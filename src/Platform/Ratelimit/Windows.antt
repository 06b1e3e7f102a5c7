-- ===== src/Platform/Ratelimit/Windows.antt =====
-- How many requests of a key pass.
use profundiza_uq_backend.Base.{
  ℕ, zero, suc, ◌+◌, ◌-◌, ◌≤◌, ◌<◌, ◌⊎◌, ◌≡◌, refl, sym, ◌∙◌, ==_self, ==_iff, inl, inr, true,
  false, Option, none, some, List, [], ◌∷◌, arith, Uuid, Time, ◌==◌, ltb, leb, if◌then◌else◌,
  Bool-cases, Option-cases,
}
use profundiza_uq_backend.Base.Int.{ℤ, pos, negsuc}
use mathlib.Core.Path.{subst}
use profundiza_uq_backend.Base.Table.{All, tally}
use profundiza_uq_backend.Platform.Ratelimit.{Slot, Limiter, reaches, put, allow_in, allow}

-- Calls at the given instants for the given keys: how many of one key's calls pass.
unfoldable pub passes : Uuid → List (Time × Uuid) → Limiter → ℕ
passes key [] l = 0
passes key ((now, k) ∷ rest) l =
    let step = allow now k l in
    let later = passes key rest step.0 in if k == key then tally step.1 + later else later

-- The calls that a window lets pass: its first one passes also if the maximum is not positive.
abbrev pub most : ℤ → ℕ
most (pos zero) = 1
most (pos (suc n)) = suc n
most (negsuc n) = 1

-- No window of the key is open at `start`: it was never called, or its last window is over.
abbrev pub IsIdle : Time → Option Slot → Type 0
IsIdle start none = Unit
IsIdle start (some s) = s.reset_at < start

-- `b` more calls of a key may pass before `end`, by the key's slot.
abbrev Left : Time → Time → ℕ → ℕ → Option Slot → Type 0
Left start end max b none = b ≡ max
Left start end max b (some s) =
    ((s.reset_at < start) × (b ≡ max)) ⊎ ((end ≤ s.reset_at) × (1 ≤ s.count) × (b ≡ max - s.count))

record Fits (start end period : Time) (key : Uuid) (max : ℤ) (b : ℕ) (l : Limiter) : Type 0 where
  limited : l.max ≡ max
  lasting : l.period ≡ period
  left : Left start end (most max) b (l.windows key)

-- A call that uses `spent` of the budget leaves the rest.
Spends : Time → Time → Time → Uuid → ℤ → ℕ → ℕ → Limiter → Type 0
Spends start end period key max b spent l =
    (rest : ℕ) × Fits start end period key max rest l × (spent + rest ≤ b)

put-Fits :
    (start end period : Time) (key : Uuid) (max : ℤ) (s : Slot) (l : Limiter)
    → l.max ≡ max
    → l.period ≡ period
    → end ≤ s.reset_at
    → 1 ≤ s.count
    → Fits start end period key max (most max - s.count) (put key s l)
put-Fits start end period key max s l limited lasting later counted = record {
  limited = limited;
  lasting = lasting;
  left = rw (==_self key) (inr (later, counted, refl));
}

reaches-most : (count : ℕ) (max : ℤ) → 1 ≤ count → reaches count max ≡ leb (most max) count
reaches-most count (pos zero) h = ground arith
reaches-most count (pos (suc n)) h = refl
reaches-most count (negsuc n) h = ground arith

most-positive : (max : ℤ) → 1 ≤ most max
most-positive (pos zero) = omega arith
most-positive (pos (suc n)) = omega arith
most-positive (negsuc n) = omega arith

-- The first call of a window.
opening-Spends :
    (now start end period : Time) (key : Uuid) (l : Limiter) (max : ℤ)
    → l.max ≡ max
    → l.period ≡ period
    → end ≤ now + period
    → Spends start end period key max
        (most max)
        1
        (put key (record { count = 1; reset_at = now + l.period }) l)
unfolding Spends
opening-Spends now start end period key l max limited lasting whole =
    let positive = most-positive max in
    (
      most max - 1,
      put-Fits start end period key max (record { count = 1; reset_at = now + l.period }) l limited
          lasting (rw lasting whole) (omega arith),
      omega arith,
    )

allow_in-Spends :
    (now start end period : Time) (key : Uuid) (l : Limiter) (max : ℤ) (b : ℕ) (o : Option Slot)
    → l.windows key ≡ o
    → l.max ≡ max
    → l.period ≡ period
    → start ≤ now
    → now ≤ end
    → end ≤ now + period
    → Left start end (most max) b o
    → Spends start end period key max b (tally (allow_in now key l o).1) (allow_in now key l o).0
unfolding Spends
allow_in-Spends now start end period key l max b none at limited lasting from to whole full =
    rw full (opening-Spends now start end period key l max limited lasting whole)
allow_in-Spends now start end period key l max b (some s) at limited lasting from to whole
      (inl (over, full)) =
    let closed : ltb s.reset_at now ≡ true = ground arith in
    rw (closed, full) (opening-Spends now start end period key l max limited lasting whole)
allow_in-Spends now start end period key l max b (some s) at limited lasting from to whole
      (inr (later, counted, left)) =
    let open_still : ltb s.reset_at now ≡ false = ground arith in
    let tested : reaches s.count l.max ≡ leb (most max) s.count =
      rw limited (reaches-most s.count max counted) in
    elim (Bool-cases (leb (most max) s.count)) [
      | inl full ↦
          rw (open_still, tested, full)
            (
              b,
              record {
                limited = limited;
                lasting = lasting;
                left = rw at (inr (later, counted, left));
              },
              omega arith,
            )
      | inr room ↦
          rw (open_still, tested, room)
            (
              most max - (s.count + 1),
              put-Fits start end period key max
                  (record { count = s.count + 1; reset_at = s.reset_at }) l limited lasting later
                  (omega arith),
              ground arith,
            )
    ]

allow-Spends :
    (now start end period : Time) (key : Uuid) (l : Limiter) (max : ℤ) (b : ℕ)
    → Fits start end period key max b l
    → start ≤ now
    → now ≤ end
    → end ≤ now + period
    → Spends start end period key max b (tally (allow now key l).1) (allow now key l).0
unfolding allow
allow-Spends now start end period key l max b f from to whole =
    allow_in-Spends now start end period key l max b (l.windows key) refl f.limited f.lasting from
      to whole f.left

-- A call for another key leaves the slot of this one.
pub allow_other :
    (now : Time) (k key : Uuid) (l : Limiter)
    → (k == key) ≡ false
    → ((allow now k l).0.windows key ≡ l.windows key)
      × ((allow now k l).0.max ≡ l.max)
      × ((allow now k l).0.period ≡ l.period)
unfolding allow
allow_other now k key l other = elim (Option-cases (l.windows k)) [
  | inl e ↦ rw e (ground arith)
  | inr (s, e) ↦ rw e (ground arith)
]

other-Fits :
    (now start end period : Time) (k key : Uuid) (l : Limiter) (max : ℤ) (b : ℕ)
    → (k == key) ≡ false
    → Fits start end period key max b l
    → Fits start end period key max b (allow now k l).0
other-Fits now start end period k key l max b other f =
    let (kept, same_max, same_period) = allow_other now k key l other in
    record {
      limited = same_max ∙ f.limited;
      lasting = same_period ∙ f.lasting;
      left = rw kept f.left;
    }

idle-Left :
    (start end : Time) (max : ℕ) (o : Option Slot) → IsIdle start o → Left start end max max o
idle-Left start end max none idle = refl
idle-Left start end max (some s) idle = inl (idle, refl)

passes-Fits :
    (start end period : Time) (key : Uuid) (max : ℤ) (calls : List (Time × Uuid)) (b : ℕ)
    (l : Limiter)
    → end ≤ start + period
    → All (λ call. (start ≤ call.0) × (call.0 ≤ end)) calls
    → Fits start end period key max b l
    → passes key calls l ≤ b
unfolding passes Spends
passes-Fits start end period key max [] b l whole times f = omega arith
passes-Fits start end period key max ((now, k) ∷ rest) b l whole ((from, to), times) f =
    elim (Bool-cases (k == key)) [
      | inr other ↦
          let ih =
            passes-Fits start end period key max rest b (allow now k l).0 whole times
              (other-Fits now start end period k key l max b other f) in
          rw other ih
      | inl own ↦
          let same : k ≡ key = (==_iff k key).0 own in
          let spends : Spends start end period key max b (tally (allow now k l).1)
              (allow now k l).0 =
            subst
              (λ x. Spends start end period key max b (tally (allow now x l).1) (allow now x l).0)
              (sym same) (allow-Spends now start end period key l max b f from to (omega arith)) in
          let (left, f', within) = spends in
          let ih =
            passes-Fits start end period key max rest left (allow now k l).0 whole times f' in
          rw own (omega arith)
    ]

-- Within one period, at most `max` calls pass of a key that has no open window at its start, and at
-- most one if `max` is not positive, whatever the calls for other keys in between.
pub allow_bounded :
    (start : Time) (key : Uuid) (calls : List (Time × Uuid)) (l : Limiter)
    → IsIdle start (l.windows key)
    → All (λ call. (start ≤ call.0) × (call.0 ≤ start + l.period)) calls
    → passes key calls l ≤ most l.max
allow_bounded start key calls l idle times =
    passes-Fits start (start + l.period) l.period key l.max calls (most l.max) l (omega arith) times
      (record {
        limited = refl;
        lasting = refl;
        left = idle-Left start (start + l.period) (most l.max) (l.windows key) idle;
      })
