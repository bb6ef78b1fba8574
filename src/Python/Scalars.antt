-- ===== src/Python/Scalars.antt =====
-- Scalar values: `None`, booleans, integers and texts, with Python's `==`, truth, `str` and `int`.
use Prim.Native.Char.{Char, code}
use kube_data_guard.Common.{
  ℕ, zero, suc, ◌+◌, ◌-◌, ◌*◌, ◌/◌, ◌%◌, ◌≡◌, refl, ◌==◌, eq_refl, Bool, true, false, ◌&&◌, ◌||◌,
  not, Option, none, some, String, ltb, leb, nat_eq, if◌then◌else◌,
}
use kube_data_guard.Common.Int.{ℤ, pos, negsuc, eqb_ℤ, eqb_ℤ_iff}
use kube_data_guard.Python.Exceptions.{Outcome, ok, raise, type_error, value_error}

pub data Value : Type 0 where
  none_value : Value
  bool_value : Bool → Value
  int_value : ℤ → Value
  str_value : String → Value

-- A boolean is the integer 0 or 1.
abbrev pub of_bool : Bool → ℤ
of_bool true = pos 1
of_bool false = pos 0

unfoldable pub value_eq : Value → Value → Bool
value_eq none_value none_value = true
value_eq (str_value a) (str_value b) = a == b
value_eq (int_value a) (int_value b) = eqb_ℤ a b
value_eq (int_value a) (bool_value b) = eqb_ℤ a (of_bool b)
value_eq (bool_value a) (int_value b) = eqb_ℤ (of_bool a) b
value_eq (bool_value a) (bool_value b) = eqb_ℤ (of_bool a) (of_bool b)
value_eq _ _ = false

pub value_eq_refl : (v : Value) → value_eq v v ≡ true
unfolding value_eq
value_eq_refl none_value = refl
value_eq_refl (bool_value true) = refl
value_eq_refl (bool_value false) = refl
value_eq_refl (int_value i) = (eqb_ℤ_iff i i).1 refl
value_eq_refl (str_value s) = eq_refl s

unfoldable pub truthy : Value → Bool
truthy none_value = false
truthy (bool_value b) = b
truthy (int_value i) = not (eqb_ℤ i (pos 0))
truthy (str_value s) = not (s == "")

abbrev pub is_none : Value → Bool
is_none none_value = true
is_none _ = false

abbrev digit_char : ℕ → Char
digit_char d =
    if nat_eq d 0
    then "0"
    else if nat_eq d 1
    then "1"
    else if nat_eq d 2
    then "2"
    else if nat_eq d 3
    then "3"
    else if nat_eq d 4
    then "4"
    else if nat_eq d 5
    then "5"
    else if nat_eq d 6
    then "6"
    else if nat_eq d 7
    then "7"
    else if nat_eq d 8
    then "8"
    else "9"

decimal_from : ℕ → ℕ → String → String
decimal_from zero n rest = rest
decimal_from (suc fuel) n rest =
    let text = String.◌∷◌ (digit_char (n % 10)) rest in
    let more = decimal_from fuel (n / 10) text in if ltb n 10 then text else more

-- `str(n)`. A number has fewer digits than it has units, plus one.
unfoldable pub decimal : ℕ → String
unfolding decimal_from
decimal n = decimal_from (suc n) n ""

unfoldable pub int_text : ℤ → String
unfolding decimal
int_text (pos n) = decimal n
int_text (negsuc n) = String.◌∷◌ "-" (decimal (suc n))

-- `str(value)`
unfoldable pub value_text : Value → String
unfolding int_text
value_text none_value = "None"
value_text (bool_value true) = "True"
value_text (bool_value false) = "False"
value_text (int_value i) = int_text i
value_text (str_value s) = s

abbrev pub is_space : Char → Bool
is_space c = let n = code c in nat_eq n 32 || (leb 9 n && leb n 13) || (leb 28 n && leb n 31)

abbrev pub is_digit : Char → Bool
is_digit c = leb 48 (code c) && leb (code c) 57

-- The digits of a numeral, single `_` between them allowed; then white space alone.
abbrev only_space : String → Bool
only_space String.[] = true
only_space (String.◌∷◌ c s) = is_space c && only_space s

numeral : ℕ → Bool → String → Option ℕ
numeral n after_digit String.[] = if after_digit then some n else none
numeral n after_digit (String.◌∷◌ c s) =
    let more = numeral (n * 10 + (code c - 48)) true s in
    let skip = numeral n false s in
    if is_digit c
    then more
    else if nat_eq (code c) b'_' && after_digit
    then skip
    else if after_digit && is_space c && only_space s
    then some n
    else none

abbrev negated : ℕ → ℤ
negated zero = pos 0
negated (suc n) = negsuc n

signed : String → Option ℤ
signed String.[] = none
signed (String.◌∷◌ c s) =
    if nat_eq (code c) b'-'
    then elim (numeral 0 false s) [ none ↦ none | some n ↦ some (negated n) ]
    else if nat_eq (code c) b'+'
    then elim (numeral 0 false s) [ none ↦ none | some n ↦ some (pos n) ]
    else elim (numeral 0 false (String.◌∷◌ c s)) [ none ↦ none | some n ↦ some (pos n) ]

-- `text.lstrip()`
unfoldable pub lstrip : String → String
lstrip String.[] = String.[]
lstrip (String.◌∷◌ c s) = let rest = lstrip s in if is_space c then rest else String.◌∷◌ c s

-- `int(value)`
unfoldable pub to_int : Value → Outcome ℤ
unfolding numeral signed lstrip
to_int none_value = raise type_error
to_int (bool_value b) = ok (of_bool b)
to_int (int_value i) = ok i
to_int (str_value s) = elim (signed (lstrip s)) [
  | none ↦ raise (value_error "invalid literal for int()")
  | some i ↦ ok i
]

-- `int(value or 0)`
unfoldable pub int_or_zero : Value → Outcome ℤ
unfolding truthy to_int
int_or_zero v = if truthy v then to_int v else ok (pos 0)

value_tests :
    (value_text (int_value (negsuc 119)) ≡ "-120")
    × (to_int (str_value " +1_20 ") ≡ ok (pos 120))
    × (to_int (str_value "1__2") ≡ raise (value_error "invalid literal for int()"))
unfolding value_text to_int
value_tests = (refl, refl, refl)
