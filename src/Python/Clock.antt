-- ===== src/Python/Clock.antt =====
-- `datetime` as the program uses it: an instant is the number of microseconds since the first day
-- of year 1, in UTC. The texts read are those of the layout YYYY-MM-DDThh:mm:ss, with or without a
-- fraction and an offset ±hh:mm; a text with no offset is taken for UTC.
use Prim.Native.Char.{code}
use Prim.Native.String
use kube_data_guard.Common.{
  ℕ, zero, suc, ◌+◌, ◌-◌, ◌*◌, ◌/◌, ◌%◌, ◌≡◌, refl, Bool, true, false, ◌&&◌, ◌||◌, not, String, ltb,
  leb, nat_eq, if◌then◌else◌,
}
use kube_data_guard.Common.Int.{ℤ, pos, negsuc, pos_part, sub_ℕ, ◌+ℤ◌, ◌-ℤ◌}
use kube_data_guard.Python.Exceptions.{Outcome, ok, raise, guard, value_error, Error, ◌>>=◌, ◌>>◌}
use kube_data_guard.Python.Scalars.{is_digit, decimal}

abbrev pub Instant : Type 0
Instant = ℤ

abbrev is_leap : ℕ → Bool
is_leap y = nat_eq (y % 4) 0 && (not (nat_eq (y % 100) 0) || nat_eq (y % 400) 0)

abbrev days_in_month : ℕ → ℕ → ℕ
days_in_month y m =
    if nat_eq m 2
    then (if is_leap y then 29 else 28)
    else if nat_eq m 4 || nat_eq m 6 || nat_eq m 9 || nat_eq m 11
    then 30
    else 31

abbrev days_before_year : ℕ → ℕ
days_before_year y = let p = y - 1 in p * 365 + p / 4 - p / 100 + p / 400

-- The days of the first `m` months.
days_of_months : ℕ → ℕ → ℕ
days_of_months y zero = 0
days_of_months y (suc m) = days_of_months y m + days_in_month y (suc m)

abbrev bad_time : Error
bad_time = value_error "Invalid isoformat string"

read_digits : ℕ → ℕ → String → Outcome (ℕ × String)
read_digits zero n s = ok (n, s)
read_digits (suc k) n String.[] = raise bad_time
read_digits (suc k) n (String.◌∷◌ c s) =
    let more = read_digits k (n * 10 + (code c - 48)) s in
    if is_digit c then more else raise bad_time

abbrev expect : ℕ → String → Outcome String
expect n String.[] = raise bad_time
expect n (String.◌∷◌ c s) = if nat_eq (code c) n then ok s else raise bad_time

abbrev skip_one : String → Outcome String
skip_one String.[] = raise bad_time
skip_one (String.◌∷◌ c s) = ok s

-- Digits after the sixth are dropped.
fraction_digits : ℕ → String → ℕ × String
fraction_digits weight String.[] = (0, String.[])
fraction_digits weight (String.◌∷◌ c s) =
    let (rest, after) = fraction_digits (weight / 10) s in
    if is_digit c then ((code c - 48) * weight + rest, after) else (0, String.◌∷◌ c s)

abbrev read_fraction : String → ℕ × String
read_fraction String.[] = (0, String.[])
read_fraction (String.◌∷◌ c s) =
    if nat_eq (code c) b'.' then fraction_digits 100000 s else (0, String.◌∷◌ c s)

-- The offset from UTC in minutes, and what to do with it: a positive one is taken away.
read_offset : String → Outcome ℤ
unfolding read_digits
read_offset String.[] = ok (pos 0)
read_offset (String.◌∷◌ c s) = do
  (h, s1) ← read_digits 2 0 s
  s2 ← expect b':' s1
  (m, s3) ← read_digits 2 0 s2
  guard (ltb h 24 && ltb m 60) bad_time
  guard (elim s3 [ String.[] ↦ true | _ ↦ false ]) bad_time
  if nat_eq (code c) b'+'
      then ok (sub_ℕ 0 (h * 60 + m))
      else if nat_eq (code c) b'-'
      then ok (pos (h * 60 + m))
      else raise bad_time

-- `text.replace("Z", "+00:00")`
replace_z : String → String
replace_z String.[] = String.[]
replace_z (String.◌∷◌ c s) =
    let rest = replace_z s in
    if nat_eq (code c) b'Z' then String.◌++◌ "+00:00" rest else String.◌∷◌ c rest

abbrev scale : ℤ → ℕ → ℤ
scale (pos n) k = pos (n * k)
scale (negsuc n) k = sub_ℕ 0 (suc n * k)

unfoldable pub parse_time : String → Outcome Instant
unfolding days_of_months read_digits fraction_digits read_offset replace_z ◌+ℤ◌
parse_time s = do
  (y, s1) ← read_digits 4 0 (replace_z s)
  s2 ← expect b'-' s1
  (mo, s3) ← read_digits 2 0 s2
  s4 ← expect b'-' s3
  (d, s5) ← read_digits 2 0 s4
  s6 ← skip_one s5
  (h, s7) ← read_digits 2 0 s6
  s8 ← expect b':' s7
  (mi, s9) ← read_digits 2 0 s8
  s10 ← expect b':' s9
  (sec, s11) ← read_digits 2 0 s10
  let fraction = read_fraction s11
  shift ← read_offset fraction.1
  guard (leb 1 y && leb 1 mo && leb mo 12 && leb 1 d && leb d (days_in_month y mo)) bad_time
  guard (ltb h 24 && ltb mi 60 && ltb sec 60) bad_time
  let days = days_before_year y + days_of_months y (mo - 1) + (d - 1)
  let seconds = ((days * 24 + h) * 60 + mi) * 60 + sec
  ok (pos (seconds * 1000000 + fraction.0) +ℤ scale shift 60000000)

-- Month and day of month of the day with number `n` in its year, from month `m` on.
month_day : ℕ → ℕ → ℕ → ℕ → ℕ × ℕ
month_day zero y m n = (m, n + 1)
month_day (suc fuel) y m n =
    let later = month_day fuel y (m + 1) (n - days_in_month y m) in
    if ltb n (days_in_month y m) then (m, n + 1) else later

-- Year, month and day, as in the standard library: cycles of 400, 100, 4 and 1 years.
civil : ℕ → ℕ × ℕ × ℕ
unfolding month_day
civil days =
    let n400 = days / 146097 in
    let r400 = days % 146097 in
    let n100 = r400 / 36524 in
    let r100 = r400 % 36524 in
    let n4 = r100 / 1461 in
    let r4 = r100 % 1461 in
    let n1 = r4 / 365 in
    let y = n400 * 400 + n100 * 100 + n4 * 4 + n1 + 1 in
    if nat_eq n1 4 || nat_eq n100 4
    then (y - 1, 12, 31)
    else let (m, d) = month_day 12 y 1 (r4 % 365) in (y, m, d)

abbrev pad : ℕ → String → String
pad k s = if ltb (String.count s) k then String.◌++◌ "0" s else s

abbrev two : ℕ → String
two n = pad 2 (decimal n)

abbrev four : ℕ → String
four n = pad 4 (pad 3 (pad 2 (decimal n)))

abbrev six : ℕ → String
six n = pad 6 (pad 5 (pad 4 (pad 3 (pad 2 (decimal n)))))

infixr 60 ◌&◌
abbrev ◌&◌ : String → String → String
s & t = String.◌++◌ s t

-- `value.astimezone(timezone.utc).isoformat()`; an instant before year 1 is none of Python's.
unfoldable pub iso : Instant → String
unfolding civil decimal
iso t =
    let n = pos_part t in
    let us = n % 1000000 in
    let sec = n / 1000000 in
    let (y, m, d) = civil (sec / 86400) in
    let clock = two (sec / 3600 % 24) & ":" & two (sec / 60 % 60) & ":" & two (sec % 60) in
    let fraction = if nat_eq us 0 then "" else "." & six us in
    four y & "-" & two m & "-" & two d & "T" & clock & fraction & "+00:00"

-- `when - timedelta(seconds=n)`
abbrev pub minus_seconds : Instant → ℤ → Instant
unfolding ◌-ℤ◌
minus_seconds t n = t -ℤ scale n 1000000

-- `int((a - b).total_seconds())`, which rounds towards zero.
unfoldable pub whole_seconds : ℤ → ℤ
whole_seconds (pos n) = pos (n / 1000000)
whole_seconds (negsuc n) = sub_ℕ 0 (suc n / 1000000)

iso_tests :
    (parse_time "2026-06-12T12:00:10+00:00" ≡ ok (pos 63916862410000000))
    × (iso (pos 63916862410000000) ≡ "2026-06-12T12:00:10+00:00")
    × (iso (pos 63844934399000250) ≡ "2024-03-01T23:59:59.000250+00:00")
    × (parse_time "2024-03-02T01:59:59.00025+02:00" ≡ ok (pos 63844934399000250))
    × (parse_time "2024-03-01T23:59:59Z" ≡ ok (pos 63844934399000000))
    × (parse_time "2023-02-29T00:00:00Z" ≡ raise bad_time)
unfolding parse_time iso
iso_tests = (refl, refl, refl, refl, refl, refl)
