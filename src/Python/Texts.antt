-- ===== src/Python/Texts.antt =====
-- Operations on texts: `strip` with a set of characters, `lower` for characters of ASCII, and the size.
use Prim.Native.Char.{Char, code}
use Prim.Native.Nat.{ℕ, zero, suc, ◌-◌}
use Prim.Native.String.{String}
use mathlib.Core.Bool.{Bool, true, ◌&&◌}
use kube_data_guard.Common.{◌≡◌, leb, if◌then◌else◌}

unfoldable pub reverse_onto : String → String → String
reverse_onto String.[] acc = acc
reverse_onto (String.◌∷◌ c s) acc = reverse_onto s (String.◌∷◌ c acc)

unfoldable pub drop_leading : (Char → Bool) → String → String
drop_leading p String.[] = String.[]
drop_leading p (String.◌∷◌ c s) =
    let rest = drop_leading p s in if p c then rest else String.◌∷◌ c s

-- `text.strip(chars)`
unfoldable pub strip_chars : (Char → Bool) → String → String
unfolding reverse_onto drop_leading
strip_chars p s = reverse_onto (drop_leading p (reverse_onto (drop_leading p s) "")) ""

-- `len(text)`
unfoldable pub size : String → ℕ
size String.[] = 0
size (String.◌∷◌ c s) = suc (size s)

abbrev letter : Char → ℕ → String → Char
letter c n String.[] = c
letter c zero (String.◌∷◌ d s) = d
letter c (suc n) (String.◌∷◌ d s) = letter c n s

-- `text.lower()`
unfoldable pub lower : String → String
lower String.[] = String.[]
lower (String.◌∷◌ c s) =
    let rest = lower s in
    String.◌∷◌
      (if leb b'A' (code c) && leb (code c) b'Z'
        then letter c (code c - b'A') "abcdefghijklmnopqrstuvwxyz"
        else c)
      rest

-- Every character of the text passes the test.
abbrev pub AllChars : (Char → Bool) → String → Type 0
AllChars p String.[] = Unit
AllChars p (String.◌∷◌ c s) = (p c ≡ true) × AllChars p s
