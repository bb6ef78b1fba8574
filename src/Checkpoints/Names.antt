-- ===== src/Checkpoints/Names.antt =====
-- The names under which checkpoints are kept.
use Prim.Native.Char.{Char}
use mathlib.Core.Path.{subst}
use kube_data_guard.Common.{
  ◌≡◌, refl, ◌==◌, eq_iff, arith, inl, inr, ℕ, zero, suc, ◌≤◌, Bool, true, false, String, prefix,
  Bool-cases,
}
use kube_data_guard.Python.{ok, reverse_onto, drop_leading, strip_chars, size, AllChars}
use kube_data_guard.Scan.{strip}
use kube_data_guard.Checkpoints.{is_safe_char, is_dot_or_dash, replace_unsafe, safe_checkpoint_id}

replace_unsafe-AllChars :
    (replaced : Bool) (s : String) → AllChars is_safe_char (replace_unsafe replaced s)
unfolding replace_unsafe
replace_unsafe-AllChars replaced String.[] = tt
replace_unsafe-AllChars replaced (String.◌∷◌ c s) = elim (Bool-cases (is_safe_char c)) [
  | inl e ↦ rw (replace_unsafe, e) (e, replace_unsafe-AllChars false s)
  | inr e ↦ elim (Bool-cases replaced) [
    | inl f ↦ rw (replace_unsafe, e, f) (replace_unsafe-AllChars true s)
    | inr f ↦ rw (replace_unsafe, e, f) (refl, replace_unsafe-AllChars true s)
  ]
]

module _ (p : Char → Bool) where
  reverse_onto-AllChars :
      (s acc : String) → AllChars p s → AllChars p acc → AllChars p (reverse_onto s acc)
  unfolding reverse_onto
  reverse_onto-AllChars String.[] acc h k = k
  reverse_onto-AllChars (String.◌∷◌ c s) acc h k =
      reverse_onto-AllChars s (String.◌∷◌ c acc) h.1 (h.0, k)

  drop_leading-AllChars :
      (q : Char → Bool) (s : String) → AllChars p s → AllChars p (drop_leading q s)
  unfolding drop_leading
  drop_leading-AllChars q String.[] h = tt
  drop_leading-AllChars q (String.◌∷◌ c s) h = elim (Bool-cases (q c)) [
    | inl e ↦ rw (drop_leading, e) (drop_leading-AllChars q s h.1)
    | inr e ↦ rw (drop_leading, e) h
  ]

  strip_chars-AllChars :
      (q : Char → Bool) (s : String) → AllChars p s → AllChars p (strip_chars q s)
  unfolding strip_chars
  strip_chars-AllChars q s h =
      let front = drop_leading-AllChars q s h in
      let back = drop_leading-AllChars q _ (reverse_onto-AllChars (drop_leading q s) "" front tt) in
      reverse_onto-AllChars _ "" back tt

  prefix-AllChars : (n : ℕ) (s : String) → AllChars p s → AllChars p (prefix n s)
  unfolding prefix
  prefix-AllChars zero s h = tt
  prefix-AllChars (suc n) String.[] h = tt
  prefix-AllChars (suc n) (String.◌∷◌ c s) h = (h.0, prefix-AllChars n s h.1)

size-prefix : (n : ℕ) (s : String) → size (prefix n s) ≤ n
unfolding size prefix
size-prefix zero s = omega arith
size-prefix (suc n) String.[] = omega arith
size-prefix (suc n) (String.◌∷◌ c s) = omega (arith, size-prefix n s)

prefix_nonempty : (n : ℕ) (s : String) → (s == "") ≡ false → (prefix (suc n) s == "") ≡ false
unfolding prefix
prefix_nonempty n String.[] e = absurd (cc e)
prefix_nonempty n (String.◌∷◌ c s) e = elim (Bool-cases (String.◌∷◌ c (prefix n s) == "")) [
  | inl f ↦ let same = (eq_iff (String.◌∷◌ c (prefix n s)) "").0 f in absurd (cc same)
  | inr f ↦ f
]

-- A checkpoint's safe name is not empty, has at most 180 characters, and all of them are letters, digits,
-- `_`, `.` or `-`.
pub safe_checkpoint_id-AllChars :
    (checkpoint_id safe : String)
    → safe_checkpoint_id checkpoint_id ≡ ok safe
    → AllChars is_safe_char safe × (size safe ≤ 180) × ((safe == "") ≡ false)
unfolding safe_checkpoint_id
safe_checkpoint_id-AllChars checkpoint_id safe e =
    let cleaned = strip_chars is_dot_or_dash (replace_unsafe false (strip checkpoint_id)) in
    elim (Bool-cases (cleaned == "")) [
      | inl empty ↦ absurd (cc (rw empty at e))
      | inr filled ↦
          let cut : prefix 180 cleaned ≡ safe = cc (rw filled at e) in
          subst (λ t. AllChars is_safe_char t × (size t ≤ 180) × ((t == "") ≡ false)) cut
            (
              prefix-AllChars is_safe_char 180 cleaned (
                  strip_chars-AllChars is_safe_char is_dot_or_dash _
                    (replace_unsafe-AllChars false (strip checkpoint_id))),
              size-prefix 180 cleaned,
              prefix_nonempty 179 cleaned filled,
            )
    ]
