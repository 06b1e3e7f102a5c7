-- ===== src/Platform/Ratelimit.antt =====
-- internal/platform/ratelimit/ratelimit.go: the fixed-window limiter. The mutex makes each call one
-- step; the clock and the address are arguments. A Go map with keys that are only compared is a
-- function.
pub mod Windows
use profundiza_uq_backend.Base.{
  ℕ, ◌+◌, Bool, true, false, Option, none, some, List, [], ◌∷◌, Uuid, Time, ◌==◌, ltb, leb,
  if◌then◌else◌,
}
use profundiza_uq_backend.Base.Int.{ℤ, pos, negsuc}

-- `slot`
pub record Slot : Type 0 where
  pub count : ℕ
  pub reset_at : Time

-- `Limiter`; `max` is an int.
pub record Limiter : Type 0 where
  pub windows : Uuid → Option Slot
  pub max : ℤ
  pub period : Time

-- `New`
unfoldable pub new : ℤ → Time → Limiter
new max period = record { windows = λ key. none; max = max; period = period }

-- `s.count >= l.max`
abbrev pub reaches : ℕ → ℤ → Bool
reaches count (pos max) = leb max count
reaches count (negsuc n) = true

abbrev pub put : Uuid → Slot → Limiter → Limiter
put key s l = record l { windows = λ k. if k == key then some s else l.windows k }

-- `Allow` for a slot whose window is over, or is not.
abbrev pub allow_in : Time → Uuid → Limiter → Option Slot → Limiter × Bool
allow_in now key l none = (put key (record { count = 1; reset_at = now + l.period }) l, true)
allow_in now key l (some s) =
    if ltb s.reset_at now
    then (put key (record { count = 1; reset_at = now + l.period }) l, true)
    else if reaches s.count l.max
    then (l, false)
    else (put key (record { count = s.count + 1; reset_at = s.reset_at }) l, true)

-- `Allow`
unfoldable pub allow : Time → Uuid → Limiter → Limiter × Bool
allow now key l = allow_in now key l (l.windows key)

-- `IPMiddleware`: the next handler runs, or 429 is written. `host_of` is `net.SplitHostPort`.
unfoldable pub ip_middleware {ℓ} :
    {R : Type ℓ} → (Uuid → Option Uuid) → Time → Uuid → R → R → Limiter → Limiter × R
unfolding allow
ip_middleware host_of now remote_addr next too_many l =
    let ip : Uuid = elim (host_of remote_addr) [ none ↦ remote_addr | some host ↦ host ] in
    let (l', allowed) = allow now ip l in (l', if allowed then next else too_many)
