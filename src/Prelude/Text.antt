-- ===== src/Prelude/Text.antt =====
-- The operations of Python's `str` that the program uses.
use Prim.Native.Char.{Char, code}
use Prim.Native.Nat.{ℕ, zero, suc, ◌/◌, ◌%◌}
use Prim.Native.String.{String, ◌++◌, compare}
use mathlib.Core.Bool.{Bool, true, false, ◌||◌, ◌&&◌}
use mathlib.Core.List.{List, [], ◌∷◌}
use text.Mathlib.Text.{is_le}
use mathlib.Core.Path.{◌≡◌, refl, ap}
use native.Mathlib.Omega.{arith}
use vectural.Prelude.Tests.{string_key, leb, ltb, nat_beq, if◌then◌else◌}

-- s <= t
abbrev pub str_le : String → String → Bool
str_le s t = is_le (compare s t)

-- str.isspace of one character
is_space_code : ℕ → Bool
is_space_code c =
    leb 9 c && leb c 13
    || leb 28 c && leb c 32
    || nat_beq c 133
    || nat_beq c 160
    || nat_beq c 5760
    || leb 8192 c && leb c 8202
    || nat_beq c 8232
    || nat_beq c 8233
    || nat_beq c 8239
    || nat_beq c 8287
    || nat_beq c 12288

unfoldable pub is_space : Char → Bool
unfolding is_space_code
is_space c = is_space_code (code c)

lstrip : String → String
lstrip String.[] = String.[]
lstrip (String.◌∷◌ c s) = if is_space c then lstrip s else String.◌∷◌ c s

drop_last_space : Char → String → String
drop_last_space c String.[] = if is_space c then String.[] else String.◌∷◌ c String.[]
drop_last_space c (String.◌∷◌ d s) = String.◌∷◌ c (String.◌∷◌ d s)

unfoldable pub rstrip : String → String
unfolding drop_last_space
rstrip String.[] = String.[]
rstrip (String.◌∷◌ c s) = drop_last_space c (rstrip s)

-- s.strip()
unfoldable pub strip : String → String
unfolding lstrip rstrip is_space
strip s = rstrip (lstrip s)

is_empty_text : String → Bool
is_empty_text String.[] = true
is_empty_text (String.◌∷◌ c s) = false

emptied : (s : String) → s ≡ "" → is_empty_text s ≡ true
unfolding is_empty_text
emptied s e = ap is_empty_text e

apart_empty : (s : String) → is_empty_text s ≡ false → string_key.same s "" ≡ false
apart_empty s h = ground (arith, h, string_key.same_iff s "", emptied s)

drop_last-nonempty :
    (c : Char) (s : String) → is_space c ≡ false → is_empty_text (drop_last_space c s) ≡ false
unfolding drop_last_space is_empty_text
drop_last-nonempty c String.[] h = ground (arith, h)
drop_last-nonempty c (String.◌∷◌ d s) h = refl

-- What starts with another character than white space is not empty when stripped.
pub strip-nonempty :
    (c : Char) (s : String)
    → is_space c ≡ false
    → string_key.same (strip (String.◌∷◌ c s)) "" ≡ false
unfolding strip lstrip rstrip
strip-nonempty c s h =
    rw (h, lstrip) (apart_empty (drop_last_space c (rstrip s)) (drop_last-nonempty c (rstrip s) h))

drop_last-first :
    (c : Char) (s : String)
    → is_space c ≡ false
    → (t : String) × (drop_last_space c s ≡ String.◌∷◌ c t)
unfolding drop_last_space
drop_last-first c String.[] h = ("", rw (h, if◌then◌else◌) refl)
drop_last-first c (String.◌∷◌ d s) h = (String.◌∷◌ d s, refl)

-- It still starts with that character.
pub strip-first :
    (c : Char) (s : String)
    → is_space c ≡ false
    → (t : String) × (strip (String.◌∷◌ c s) ≡ String.◌∷◌ c t)
unfolding strip lstrip rstrip
strip-first c s h = rw (h, if◌then◌else◌) (drop_last-first c (rstrip s) h)

-- sep.join(parts)
unfoldable pub join : String → List String → String
join sep [] = ""
join sep (s ∷ []) = s
join sep (s ∷ t ∷ rest) = s ++ sep ++ join sep (t ∷ rest)

-- s.startswith(p)
unfoldable pub starts_with : String → String → Bool
starts_with String.[] s = true
starts_with (String.◌∷◌ c p) String.[] = false
starts_with (String.◌∷◌ c p) (String.◌∷◌ d s) = nat_beq (code c) (code d) && starts_with p s

digit_of : List String → ℕ → String
digit_of [] n = ""
digit_of (d ∷ ds) zero = d
digit_of (d ∷ ds) (suc n) = digit_of ds n

digit : ℕ → String
unfolding digit_of
digit n = digit_of ("0" ∷ "1" ∷ "2" ∷ "3" ∷ "4" ∷ "5" ∷ "6" ∷ "7" ∷ "8" ∷ "9" ∷ []) n

-- A number has no more digits than the fuel.
digits : ℕ → ℕ → String
unfolding digit
digits zero n = ""
digits (suc fuel) n =
    let front = digits fuel (n / 10) in if ltb n 10 then digit n else front ++ digit (n % 10)

-- str(n)
unfoldable pub show_nat : ℕ → String
unfolding digits
show_nat n = digits (suc n) n

-- s[:n]
unfoldable pub first_chars : ℕ → String → String
first_chars zero s = ""
first_chars (suc n) String.[] = ""
first_chars (suc n) (String.◌∷◌ c s) = String.◌∷◌ c (first_chars n s)
