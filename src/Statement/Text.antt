-- ===== src/Statement/Text.antt =====
-- The string operations that the import uses.
use Prim.Native.Char.{code}
use Prim.Native.String.{String}
use stead.Prelude.{
  ℕ, zero, suc, ◌+◌, ◌*◌, ◌-◌, ◌/◌, ◌%◌, ◌==◌, leb, ltb, Bool, true, false, not, ◌&&◌, ◌||◌, Option,
  none, some, List, [], ◌∷◌, ◌++◌, filter, if◌then◌else◌,
}

abbrev pub Text : Type 0
Text = List ℕ

abbrev pub codes : String → Text
codes String.[] = []
codes (String.◌∷◌ c s) = code c ∷ codes s

-- `/\s/`, which are also the characters that `trim` takes away.
abbrev pub is_space : ℕ → Bool
is_space c =
    (leb 9 c && leb c 13)
    || c == 32
    || c == 160
    || c == 5760
    || (leb 8192 c && leb c 8202)
    || c == 8232
    || c == 8233
    || c == 8239
    || c == 8287
    || c == 12288
    || c == 65279

-- `/\d/`
abbrev pub is_digit : ℕ → Bool
is_digit c = leb b'0' c && leb c b'9'

abbrev pub is_empty : Text → Bool
is_empty [] = true
is_empty (c ∷ s) = false

unfoldable pub trim_start : Text → Text
trim_start [] = []
trim_start (c ∷ s) = if is_space c then trim_start s else c ∷ s

unfoldable pub trim_end : Text → Text
trim_end [] = []
trim_end (c ∷ s) = let rest = trim_end s in if is_space c && is_empty rest then [] else c ∷ rest

unfoldable pub trim : Text → Text
unfolding trim_start trim_end
trim s = trim_end (trim_start s)

-- `===` on strings
abbrev pub eq_text : Text → Text → Bool
eq_text [] [] = true
eq_text [] (d ∷ t) = false
eq_text (c ∷ s) [] = false
eq_text (c ∷ s) (d ∷ t) = c == d && eq_text s t

-- `headers.indexOf(header)`, `none` for -1
abbrev pub index_of : Text → List Text → Option ℕ
index_of t [] = none
index_of t (s ∷ ss) =
    if eq_text s t then some 0 else elim (index_of t ss) [ none ↦ none | some n ↦ some (n + 1) ]

-- `record[index] ?? ''`
abbrev pub cell : List Text → ℕ → Text
cell [] i = []
cell (s ∷ ss) zero = s
cell (s ∷ ss) (suc i) = cell ss i

-- `parts.join(separator)` with a separator of one unit
unfoldable pub join : ℕ → List Text → Text
join sep [] = []
join sep (s ∷ []) = s
join sep (s ∷ t ∷ ss) = s ++ (sep ∷ join sep (t ∷ ss))

unfoldable pub prepend : ℕ → List Text → List Text
prepend c [] = (c ∷ []) ∷ []
prepend c (part ∷ parts) = (c ∷ part) ∷ parts

-- `text.split(separator)` with a separator of one unit
unfoldable pub split : ℕ → Text → List Text
unfolding prepend
split sep [] = [] ∷ []
split sep (c ∷ s) = let parts = split sep s in if c == sep then [] ∷ parts else prepend c parts

-- `value.replace(/,/g, '')` for the unit `sep`
abbrev pub without : ℕ → Text → Text
without sep s = filter (λ c. not (c == sep)) s

-- `value.replace(/\s+/g, ' ')`
unfoldable pub collapse_spaces : Bool → Text → Text
collapse_spaces after [] = []
collapse_spaces after (c ∷ s) =
    let rest = collapse_spaces (is_space c) s in
    if is_space c then (if after then rest else 32 ∷ rest) else c ∷ rest

-- The number that a row of digits stands for, after the digits of `n`.
unfoldable pub number_from : ℕ → Text → ℕ
number_from n [] = n
number_from n (c ∷ s) = number_from (n * 10 + (c - b'0')) s

abbrev pub number_of : Text → ℕ
number_of s = number_from 0 s

-- The digits of `n` before `out`, on fuel that exceeds `n`.
unfoldable pub digits : ℕ → ℕ → Text → Text
digits zero n out = out
digits (suc fuel) n out = elim (ltb n 10) [
  | true ↦ (b'0' + n) ∷ out
  | false ↦ digits fuel (n / 10) ((b'0' + n % 10) ∷ out)
]

-- `String(n)`
unfoldable pub show : ℕ → Text
unfolding digits
show n = digits (n + 1) n []
