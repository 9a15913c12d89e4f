-- ===== src/Base/Regex.antt =====
-- Go's `regexp` on whole texts: `^pattern$`, matched by derivatives.
use Prim.Native.Nat.{ℕ, zero, suc}
use Prim.Native.Char.{code}
use Prim.Native.String.{String}
use mathlib.Core.Bool.{Bool, true, false, ◌&&◌, ◌||◌}
use mathlib.Core.Path.{◌≡◌, refl}
use sshai.Base.Booleans.{leb, ◌==◌, if◌then◌else◌}

pub data Pattern : Type 0 where
  nothing empty_text : Pattern
  class : (ℕ → Bool) → Pattern  -- one code point
  sequence either_of : Pattern → Pattern → Pattern
  many : Pattern → Pattern

-- {0,n}, {n} and ?
abbrev pub up_to : ℕ → Pattern → Pattern
up_to zero r = empty_text
up_to (suc n) r = either_of (sequence r (up_to n r)) empty_text

abbrev pub exactly : ℕ → Pattern → Pattern
exactly zero r = empty_text
exactly (suc n) r = sequence r (exactly n r)

abbrev pub optional : Pattern → Pattern
optional r = either_of r empty_text

-- A literal text before another pattern.
abbrev pub literal : String → Pattern → Pattern
literal String.[] r = r
literal (String.◌∷◌ c s) r = sequence (class (λ n. n == code c)) (literal s r)

abbrev pub is_between : ℕ → ℕ → ℕ → Bool
is_between low high n = leb low n && leb n high

accepts_empty : Pattern → Bool
accepts_empty nothing = false
accepts_empty empty_text = true
accepts_empty (class f) = false
accepts_empty (sequence r s) = accepts_empty r && accepts_empty s
accepts_empty (either_of r s) = accepts_empty r || accepts_empty s
accepts_empty (many r) = true

join : Pattern → Pattern → Pattern
join nothing s = nothing
join empty_text s = s
join r s = sequence r s

meet : Pattern → Pattern → Pattern
meet nothing s = s
meet r nothing = r
meet r s = either_of r s

-- What is left of the pattern after one code point.
after_code : ℕ → Pattern → Pattern
after_code n nothing = nothing
after_code n empty_text = nothing
after_code n (class f) = if f n then empty_text else nothing
after_code n (sequence r s) =
    let first = join (after_code n r) s in
    let second = after_code n s in if accepts_empty r then meet first second else first
after_code n (either_of r s) = meet (after_code n r) (after_code n s)
after_code n (many r) = join (after_code n r) (many r)

unfoldable pub matches : Pattern → String → Bool
unfolding accepts_empty join meet after_code
matches r String.[] = accepts_empty r
matches r (String.◌∷◌ c s) = matches (after_code (code c) r) s

matches_test :
    matches
      (sequence
        (many (class (is_between 48 57)))
        (literal ":" (up_to 2 (class (is_between 97 122)))))
      "42:ab"
    ≡ true
unfolding matches
matches_test = refl
