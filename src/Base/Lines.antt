-- ===== src/Base/Lines.antt =====
-- Python's `str.strip`, `str.splitlines` and slices of texts.
use Prim.Native.Nat.{ℕ, zero, suc}
use Prim.Native.Char.{Char, code}
use Prim.Native.String.{String}
use mathlib.Core.Bool.{Bool, true, false, ◌&&◌, ◌||◌}
use mathlib.Core.Option.{Option, none, some}
use mathlib.Core.List.{List, [], ◌∷◌}
use omegahive.Base.Tests.{leb, eqb, if◌then◌else◌}

-- The characters that `str.strip` removes.
unfoldable pub is_space : ℕ → Bool
is_space c =
    leb 9 c && leb c 13
    || leb 28 c && leb c 32
    || eqb c 0x85
    || eqb c 0xa0
    || eqb c 0x1680
    || leb 0x2000 c && leb c 0x200a
    || eqb c 0x2028
    || eqb c 0x2029
    || eqb c 0x202f
    || eqb c 0x205f
    || eqb c 0x3000

-- The characters that end a line for `str.splitlines`.
unfoldable pub is_break : ℕ → Bool
is_break c =
    leb 10 c && leb c 13 || leb 28 c && leb c 30 || eqb c 0x85 || eqb c 0x2028 || eqb c 0x2029

-- `len(s)`
unfoldable pub text_length : String → ℕ
text_length String.[] = 0
text_length (String.◌∷◌ c s) = suc (text_length s)

abbrev pub is_empty : String → Bool
is_empty String.[] = true
is_empty (String.◌∷◌ c s) = false

-- `s.lstrip()`
unfoldable pub strip_left : String → String
strip_left String.[] = String.[]
strip_left (String.◌∷◌ c s) = if is_space (code c) then strip_left s else String.◌∷◌ c s

abbrev trim_cons : Char → String → String
trim_cons c r = if is_empty r && is_space (code c) then String.[] else String.◌∷◌ c r

-- `s.rstrip()`
unfoldable pub strip_right : String → String
strip_right String.[] = String.[]
strip_right (String.◌∷◌ c s) = trim_cons c (strip_right s)

-- `s.strip()`
unfoldable pub strip : String → String
unfolding is_space strip_left strip_right
strip s = strip_right (strip_left s)

abbrev cons_line : Char → List String → List String
cons_line c [] = String.◌∷◌ c String.[] ∷ []
cons_line c (l ∷ ls) = String.◌∷◌ c l ∷ ls

-- The lines from here on; the flag says that the last character was a carriage return, whose line
-- feed ends no second line.
unfoldable pub lines_after : Bool → String → List String
unfolding is_break
lines_after cr String.[] = []
lines_after cr (String.◌∷◌ c s) =
    let rest = lines_after (eqb (code c) 13) s in
    if cr && eqb (code c) 10
    then rest
    else if is_break (code c)
    then String.[] ∷ rest
    else cons_line c rest

-- `s.splitlines()`
unfoldable pub split_lines : String → List String
unfolding lines_after
split_lines s = lines_after false s

-- `s[:n] + tail`
unfoldable pub cut : ℕ → String → String → String
cut zero tail s = tail
cut (suc n) tail String.[] = tail
cut (suc n) tail (String.◌∷◌ c s) = String.◌∷◌ c (cut n tail s)

-- `s + t`
unfoldable pub concat : String → String → String
concat String.[] t = t
concat (String.◌∷◌ c s) t = String.◌∷◌ c (concat s t)

-- What follows a prefix of a text; `none` where the text does not start with it.
unfoldable pub without_prefix : String → String → Option String
without_prefix String.[] t = some t
without_prefix (String.◌∷◌ c s) String.[] = none
without_prefix (String.◌∷◌ c s) (String.◌∷◌ d t) =
    let rest = without_prefix s t in if eqb (code c) (code d) then rest else none
