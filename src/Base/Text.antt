-- ===== src/Base/Text.antt =====
-- What the source uses of Go's `strings`, `regexp` and `net/netip`, on texts in valid UTF-8.
use Prim.Native.Nat.{ℕ, zero, suc, ◌+◌, ◌*◌, ◌-◌, ◌/◌}
use Prim.Native.Char.{Char, code}
use Prim.Native.String.{String}
use mathlib.Core.Path.{◌≡◌, refl}
use mathlib.Core.Logic.{◌↔◌}
use mathlib.Core.Bool.{Bool, true, false, not, ◌&&◌, ◌||◌}
use mathlib.Core.Option.{Option, none, some}
use mathlib.Core.List.{List, [], ◌∷◌}
use native.Mathlib.Omega.{arith}
use text.Mathlib.Text.{◌==◌ as str_eq}
use text.Mathlib.TextEquality.{eq_iff}
use sshai.Base.Booleans.{ltb, leb, ◌==◌, if◌then◌else◌}

abbrev pub same_text : String → String → Bool
same_text = str_eq

pub same_text_iff : (s t : String) → (same_text s t ≡ true) ↔ (s ≡ t)
same_text_iff = eq_iff

abbrev pub is_empty : String → Bool
is_empty String.[] = true
is_empty (String.◌∷◌ c s) = false

-- Whether a text is among others.
unfoldable pub has_text : String → List String → Bool
has_text s [] = false
has_text s (t ∷ rest) = same_text s t || has_text s rest

-- unicode.IsSpace
is_space : ℕ → Bool
is_space c =
    (leb 9 c && leb c 13)
    || (c == 32)
    || (c == 0x85)
    || (c == 0xa0)
    || (c == 0x1680)
    || (leb 0x2000 c && leb c 0x200a)
    || (c == 0x2028)
    || (c == 0x2029)
    || (c == 0x202f)
    || (c == 0x205f)
    || (c == 0x3000)

trim_left : String → String
trim_left String.[] = String.[]
trim_left (String.◌∷◌ c s) =
    let rest = trim_left s in if is_space (code c) then rest else String.◌∷◌ c s

trim_right : String → String
trim_right String.[] = String.[]
trim_right (String.◌∷◌ c s) =
    let rest = trim_right s in
    if is_empty rest && is_space (code c) then String.[] else String.◌∷◌ c rest

-- strings.TrimSpace
unfoldable pub trim_space : String → String
unfolding is_space trim_left trim_right
trim_space s = trim_right (trim_left s)

-- strings.TrimSpace(s) == ""
unfoldable pub is_blank : String → Bool
unfolding trim_space
is_blank s = is_empty (trim_space s)

-- strings.TrimSpace(s) == "" || s != strings.TrimSpace(s)
unfoldable pub is_untrimmed : String → Bool
unfolding trim_space is_blank
is_untrimmed s = is_blank s || not (same_text s (trim_space s))

-- value != nil && strings.TrimSpace(*value) != ""
abbrev pub present : Option String → Bool
present none = false
present (some s) = not (is_blank s)

is_digit : ℕ → Bool
is_digit c = leb 48 c && leb c 57

-- The loop of netip.parseIPv4Fields: the octet so far, its number of digits, the octets before it
-- with the last one first.
ipv4_fields : String → ℕ → ℕ → List ℕ → Option (List ℕ)
ipv4_fields String.[] val digits (c ∷ b ∷ a ∷ []) =
    if digits == 0 then none else some (a ∷ b ∷ c ∷ val ∷ [])
ipv4_fields String.[] val digits fields = none
ipv4_fields (String.◌∷◌ ch s) val digits fields =
    let c = code ch in
    let octet = val * 10 + (c - 48) in
    let more = ipv4_fields s octet (digits + 1) fields in
    let next = ipv4_fields s 0 0 (val ∷ fields) in
    if is_digit c
    then (if digits == 1 && val == 0 then none else if ltb 255 octet then none else more)
    else if c == 46
    then (if digits == 0 then none else next)
    else none

-- netip.Addr.IsPrivate on an IPv4 address
private_octets : Option (List ℕ) → Bool
private_octets (some (a ∷ b ∷ r)) = (a == 10) || (a == 172 && b / 16 == 1) || (a == 192 && b == 168)
private_octets _ = false

-- address, err := netip.ParseAddr(s); err == nil && address.Is4() && address.IsPrivate()
unfoldable pub is_private_ipv4 : String → Bool
unfolding ipv4_fields private_octets is_digit
is_private_ipv4 s = private_octets (ipv4_fields s 0 0 [])

-- [a-f0-9]{n} up to the end
hex_digits : ℕ → String → Bool
hex_digits zero String.[] = true
hex_digits zero (String.◌∷◌ c s) = false
hex_digits (suc n) String.[] = false
hex_digits (suc n) (String.◌∷◌ ch s) =
    let c = code ch in (is_digit c || (leb 97 c && leb c 102)) && hex_digits n s

strip_prefix : String → String → Option String
strip_prefix String.[] s = some s
strip_prefix (String.◌∷◌ c p) String.[] = none
strip_prefix (String.◌∷◌ c p) (String.◌∷◌ d s) =
    let rest = strip_prefix p s in if code c == code d then rest else none

hex_rest : Option String → Bool
hex_rest none = false
hex_rest (some s) = hex_digits 64 s

-- `^sha256:[a-f0-9]{64}$`
unfoldable pub is_content_digest : String → Bool
unfolding hex_digits strip_prefix hex_rest is_digit
is_content_digest s = hex_rest (strip_prefix "sha256:" s)

is_digit→not_space : (c : ℕ) → is_digit c ≡ true → is_space c ≡ false
unfolding is_digit is_space
is_digit→not_space c h = ground arith

trim_right-solid :
    (ch : Char) (s : String)
    → is_space (code ch) ≡ false
    → is_empty (trim_right (String.◌∷◌ ch s)) ≡ false
unfolding trim_right
trim_right-solid ch s h = ground arith

first_digit :
    (ch : Char) (s : String)
    → private_octets (ipv4_fields (String.◌∷◌ ch s) 0 0 []) ≡ true
    → is_digit (code ch) ≡ true
unfolding private_octets ipv4_fields
first_digit ch s h = ground arith

-- A private IPv4 address is not a blank text.
pub not-is_blank_of_private : (s : String) → is_private_ipv4 s ≡ true → is_blank s ≡ false
unfolding is_private_ipv4
not-is_blank_of_private String.[] h = cc
not-is_blank_of_private (String.◌∷◌ ch s) h =
    let solid = is_digit→not_space (code ch) (first_digit ch s h) in
    unfold is_blank in ground (arith, solid, trim_right-solid ch s solid)

-- A text that is not untrimmed is not blank.
pub not-is_blank_of_trimmed : (s : String) → is_untrimmed s ≡ false → is_blank s ≡ false
unfolding is_untrimmed
not-is_blank_of_trimmed s h = ground arith

trim_space_test : trim_space "  a b \t" ≡ "a b"
unfolding trim_space
trim_space_test = refl

private_test : is_private_ipv4 "172.31.0.9" ≡ true
unfolding is_private_ipv4
private_test = refl

public_test : is_private_ipv4 "172.32.0.9" ≡ false
unfolding is_private_ipv4
public_test = refl

leading_zero_test : is_private_ipv4 "10.0.00.1" ≡ false
unfolding is_private_ipv4
leading_zero_test = refl
