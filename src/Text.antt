-- ===== src/Text.antt =====
-- Go's `string` as the list of its bytes, and the functions of package `strings` that the program
-- calls. `ToLower` and `TrimSpace` are those functions on ASCII text: a byte from 128 on is left as
-- it is, and is no space.
pub mod Laws
pub mod Trim
pub mod Quote
use Prim.Native.Char.{code}
use app_gocms.Prelude.{
  ℕ, zero, suc, ◌+◌, ◌-◌, Bool, true, false, not, ◌&&◌, ◌||◌, Option, none, some, List, [], ◌∷◌,
  ◌++◌, String, length, eqb, leb, if◌then◌else◌, is_some,
}

abbrev pub Text : Type 0
Text = List ℕ

-- The bytes of an ASCII literal.
abbrev pub codes : String → Text
codes String.[] = []
codes (String.◌∷◌ c s) = code c ∷ codes s

infix 50 ◌==◌
unfoldable pub ◌==◌ : Text → Text → Bool
[] == [] = true
[] == (d ∷ t) = false
(c ∷ s) == [] = false
(c ∷ s) == (d ∷ t) = eqb c d && s == t

unfoldable pub is_empty : Text → Bool
is_empty [] = true
is_empty (c ∷ s) = false

-- What follows the prefix, if the text begins with it.
unfoldable pub strip_prefix : Text → Text → Option Text
strip_prefix s [] = some s
strip_prefix [] (p ∷ ps) = none
strip_prefix (c ∷ s) (p ∷ ps) = if eqb c p then strip_prefix s ps else none

unfoldable pub has_prefix : Text → Text → Bool
unfolding strip_prefix
has_prefix s p = is_some (strip_prefix s p)

unfoldable pub trim_prefix : Text → Text → Text
unfolding strip_prefix
trim_prefix s p = elim (strip_prefix s p) [ some rest ↦ rest | none ↦ s ]

-- `strings.Cut`: the text before and after the first occurrence.
abbrev push_left : ℕ → Option (Text × Text) → Option (Text × Text)
push_left c none = none
push_left c (some (a, b)) = some (c ∷ a, b)

abbrev whole : Option Text → Option (Text × Text)
whole none = none
whole (some rest) = some ([], rest)

unfoldable pub cut : Text → Text → Option (Text × Text)
unfolding strip_prefix
cut [] sep = whole (strip_prefix [] sep)
cut (c ∷ s) sep =
    let later = push_left c (cut s sep) in
    elim (strip_prefix (c ∷ s) sep) [ some rest ↦ some ([], rest) | none ↦ later ]

unfoldable pub contains : Text → Text → Bool
unfolding has_prefix
contains [] sub = has_prefix [] sub
contains (c ∷ s) sub = has_prefix (c ∷ s) sub || contains s sub

-- The text before the suffix, if the text ends with it.
unfoldable pub strip_suffix : Text → Text → Option Text
unfolding ◌==◌
strip_suffix [] t = if [] == t then some [] else none
strip_suffix (c ∷ s) t =
    let rest = strip_suffix s t in
    if (c ∷ s) == t then some [] else elim rest [ some r ↦ some (c ∷ r) | none ↦ none ]

unfoldable pub has_suffix : Text → Text → Bool
unfolding strip_suffix
has_suffix s t = is_some (strip_suffix s t)

unfoldable pub trim_suffix : Text → Text → Text
unfolding strip_suffix
trim_suffix s t = elim (strip_suffix s t) [ some r ↦ r | none ↦ s ]

-- `strings.Count` of a text of one byte.
unfoldable pub count : ℕ → Text → ℕ
count c [] = 0
count c (d ∷ s) = if eqb d c then suc (count c s) else count c s

-- `strings.ReplaceAll` of a text that is not empty: the first argument counts the bytes of an
-- occurrence that are still to be left out.
unfoldable pub replace_from : Text → Text → ℕ → Text → Text
unfolding has_prefix
replace_from old new k [] = []
replace_from old new (suc k) (c ∷ s) = replace_from old new k s
replace_from old new zero (c ∷ s) = elim (has_prefix (c ∷ s) old) [
  | true ↦ new ++ replace_from old new (length old - 1) s
  | false ↦ c ∷ replace_from old new 0 s
]

unfoldable pub replace_all : Text → Text → Text → Text
unfolding replace_from
replace_all s old new = replace_from old new 0 s

-- `strings.TrimLeft` and `strings.TrimRight`, with the set of bytes as a test.
unfoldable pub trim_left : (ℕ → Bool) → Text → Text
trim_left p [] = []
trim_left p (c ∷ s) = if p c then trim_left p s else c ∷ s

unfoldable pub trim_right : (ℕ → Bool) → Text → Text
unfolding is_empty
trim_right p [] = []
trim_right p (c ∷ s) = let rest = trim_right p s in if p c && is_empty rest then [] else c ∷ rest

unfoldable pub trim : (ℕ → Bool) → Text → Text
unfolding trim_left trim_right
trim p s = trim_right p (trim_left p s)

abbrev pub slash : ℕ
slash = b'/'

abbrev pub is_slash : ℕ → Bool
is_slash c = eqb c slash

abbrev pub is_space : ℕ → Bool
is_space c = (leb 9 c && leb c 13) || eqb c 32

unfoldable pub trim_space : Text → Text
unfolding trim
trim_space s = trim is_space s

-- `strings.Split` by a text of one byte.
abbrev push_first : ℕ → List Text → List Text
push_first c [] = (c ∷ []) ∷ []
push_first c (p ∷ ps) = (c ∷ p) ∷ ps

unfoldable pub split : ℕ → Text → List Text
split sep [] = [] ∷ []
split sep (c ∷ s) = let rest = split sep s in if eqb c sep then [] ∷ rest else push_first c rest

unfoldable pub to_lower_byte : ℕ → ℕ
to_lower_byte c = if leb b'A' c && leb c b'Z' then c + 32 else c

unfoldable pub to_lower : Text → Text
unfolding to_lower_byte
to_lower [] = []
to_lower (c ∷ s) = to_lower_byte c ∷ to_lower s
