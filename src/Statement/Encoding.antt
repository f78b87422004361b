-- ===== src/Statement/Encoding.antt =====
-- What a text is once it is written in UTF-8, as `update` of a hash does with a string.
use stead.Prelude.{
  ℕ, ◌≡◌, refl, ap, ◌∙◌, leb, Bool, true, ◌&&◌, Option, none, some, [], ◌∷◌, ◌++◌, all, arith,
  if◌then◌else◌,
}
use stead.Statement.Text.{Text, is_digit, show}
use stead.Statement.Decimal.{show-is_digit}

abbrev is_lead : ℕ → Bool
is_lead c = leb 55_296 c && leb c 56_319

abbrev is_trail : ℕ → Bool
is_trail c = leb 56_320 c && leb c 57_343

-- U+FFFD
abbrev replacement : ℕ
replacement = 65_533

-- The text after a leading surrogate that waits for its partner, where there is one.
unfoldable pub encode : Option ℕ → Text → Text
encode none [] = []
encode (some lead) [] = replacement ∷ []
encode none (c ∷ s) =
    if is_lead c then encode (some c) s else (if is_trail c then replacement else c) ∷ encode none s
encode (some lead) (c ∷ s) =
    if is_trail c
    then lead ∷ c ∷ encode none s
    else replacement ∷ (if is_lead c then encode (some c) s else c ∷ encode none s)

-- The text that is read back from the UTF-8 form of a text: a surrogate without its partner is written
-- as U+FFFD. Texts that are alike in this form have the same bytes, and only those.
abbrev pub as_utf8 : Text → Text
as_utf8 s = encode none s

encode-bar :
    (lead : Option ℕ) (s t : Text)
    → encode lead (s ++ (b'|' ∷ t)) ≡ encode lead s ++ (b'|' ∷ encode none t)
unfolding encode
encode-bar none [] t = refl
encode-bar (some lead) [] t = refl
encode-bar none (c ∷ s) t = ground (arith, encode-bar none s t, encode-bar (some c) s t)
encode-bar (some lead) (c ∷ s) t = ground (arith, encode-bar none s t, encode-bar (some c) s t)

encode-digits : (s : Text) → all is_digit s ≡ true → encode none s ≡ s
unfolding encode
encode-digits [] h = refl
encode-digits (c ∷ s) h = ground (arith, encode-digits s)

-- A number after a bar adds nothing that is lost.
pub as_utf8-bar :
    (s : Text) (n : ℕ) → as_utf8 s ≡ s → as_utf8 (s ++ (b'|' ∷ show n)) ≡ s ++ (b'|' ∷ show n)
as_utf8-bar s n e =
    encode-bar none s (show n)
    ∙ ap (λ r. r ++ (b'|' ∷ encode none (show n))) e
    ∙ ap (λ r. s ++ (b'|' ∷ r)) (encode-digits (show n) (show-is_digit n))
