-- ===== src/Scan/Bounds.antt =====
-- The bounds of the sizes that the program takes as arguments.
use mathlib.Core.Path.{subst}
use kube_data_guard.Common.{
  ◌≡◌, ap, inl, inr, arith, ℕ, zero, suc, ◌≤◌, false, String, Bool-cases, if◌then◌else◌,
}
use kube_data_guard.Common.Int.{ℤ, pos, negsuc, ltb_ℤ}
use kube_data_guard.Python.{ok, value_error, >>=-eq-ok, Value, to_int}
use kube_data_guard.Scan.{or_raise, min_ℤ, bounded_int}

-- A number from 1 to that many.
abbrev pub IsBetween : ℕ → ℤ → Type 0
IsBetween most size = (n : ℕ) × (size ≡ pos (suc n)) × (suc n ≤ most)

min-IsBetween :
    (p : ℤ) (m : ℕ) → ltb_ℤ p (pos 1) ≡ false → IsBetween (suc m) (min_ℤ p (pos (suc m)))
min-IsBetween (pos zero) m h = absurd (ground arith)
min-IsBetween (negsuc n) m h = absurd (ground arith)
min-IsBetween (pos (suc n)) m h = elim (Bool-cases (ltb_ℤ (pos (suc m)) (pos (suc n)))) [
  | inl e ↦ (m, ap (λ b. if b then pos (suc m) else pos (suc n)) e, omega arith)
  | inr e ↦ (n, ap (λ b. if b then pos (suc m) else pos (suc n)) e, ground (arith, e))
]

-- A size that passes its check is from 1 to the greatest that the check allows.
pub bounded_int-IsBetween :
    (x y : String) (m : ℕ) (v : Value) (size : ℤ)
    → bounded_int x y (pos (suc m)) v ≡ ok size
    → IsBetween (suc m) size
unfolding bounded_int
bounded_int-IsBetween x y m v size e =
    let (p, q, e') = >>=-eq-ok (or_raise (to_int v) (value_error x)) _ e in
    elim (Bool-cases (ltb_ℤ p (pos 1))) [
      | inl low ↦ absurd (cc (rw low at e'))
      | inr fine ↦
          let made : ok (min_ℤ p (pos (suc m))) ≡ ok size = rw fine at e' in
          let same : min_ℤ p (pos (suc m)) ≡ size = cc in
          subst (λ z. IsBetween (suc m) z) same (min-IsBetween p m fine)
    ]
