-- ===== src/Prelude/Division.antt =====
-- Quotients and remainders of the native numbers.
use os_tep.Prelude.{ℕ, ◌+◌, ◌*◌, ◌/◌, ◌%◌, ◌<◌, ◌≡◌, ◌∙◌, arith}
use native.Mathlib.Nat.{
  mul-add-div_right, mul-add-mod_self_right, mod-eq_of_lt, div-eq_of_lt, add-zero,
}

-- Dividing `q * m + r` by `m` gives back `q` and `r`.
pub quotient_lem : (q m r : ℕ) → r < m → (q * m + r) / m ≡ q
quotient_lem q m r h =
    mul-add-div_right {m = m} (omega arith) q r ∙ rw (div-eq_of_lt h) (add-zero q)

pub remainder_lem : (q m r : ℕ) → r < m → (q * m + r) % m ≡ r
remainder_lem q m r h = mul-add-mod_self_right q m r ∙ mod-eq_of_lt h
