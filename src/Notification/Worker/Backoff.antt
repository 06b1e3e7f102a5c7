-- ===== src/Notification/Worker/Backoff.antt =====
-- The delays between the attempts to deliver a mail.
use profundiza_uq_backend.Base.{
  ℕ, zero, suc, ◌*◌, ◌^◌, ◌≤◌, ◌≡◌, refl, arith, inl, inr, Bool-cases, leb, if◌then◌else◌,
}
use profundiza_uq_backend.Base.Int.{pos}
use profundiza_uq_backend.Notification.Worker.{backoff_base, max_backoff, retry_backoff}

abbrev pub smaller : ℕ → ℕ → ℕ
smaller m n = if leb m n then m else n

doubles : (n : ℕ) → 2 ^ suc n ≡ 2 * 2 ^ n
doubles n = omega arith

power_positive : (n : ℕ) → 1 ≤ 2 ^ n
power_positive zero = omega arith
power_positive (suc n) = let h = power_positive n in let d = doubles n in omega arith

large : (n : ℕ) → 10 ≤ n → 1024 ≤ 2 ^ n
large zero h = omega arith
large (suc n) h = elim (Bool-cases (leb 10 n)) [
  | inl e ↦ let ih = large n (ground arith) in let d = doubles n in omega arith
  | inr e ↦ let ten : n ≡ 9 = ground arith in rw ten (omega arith)
]

-- The delay after the n-th attempt doubles from 30 seconds and stays at 5 minutes: no shift
-- overflows.
pub retry_backoff_lem :
    (n : ℕ) → retry_backoff (pos (suc n)) ≡ smaller max_backoff (backoff_base * 2 ^ n)
unfolding retry_backoff
retry_backoff_lem zero = refl
retry_backoff_lem (suc zero) = refl
retry_backoff_lem (suc (suc zero)) = refl
retry_backoff_lem (suc (suc (suc zero))) = refl
retry_backoff_lem (suc (suc (suc (suc zero)))) = refl
retry_backoff_lem (suc (suc (suc (suc (suc zero))))) = refl
retry_backoff_lem (suc (suc (suc (suc (suc (suc zero)))))) = refl
retry_backoff_lem (suc (suc (suc (suc (suc (suc (suc zero))))))) = refl
retry_backoff_lem (suc (suc (suc (suc (suc (suc (suc (suc zero)))))))) = refl
retry_backoff_lem (suc (suc (suc (suc (suc (suc (suc (suc (suc zero))))))))) = refl
retry_backoff_lem (suc (suc (suc (suc (suc (suc (suc (suc (suc (suc n)))))))))) =
    let h = large (suc (suc (suc (suc (suc (suc (suc (suc (suc (suc n)))))))))) (omega arith) in
    ground arith
