-- ===== src/Shell/Text.antt =====
-- What myshell_parser.c makes of C strings: strtok_r, findChars and deleteWords.
use ec.Base.{
  ℕ, zero, suc, ◌+◌, ◌-◌, ◌*◌, Bool, false, ◌||◌, Option, none, some, List, [], ◌∷◌, ◌==◌,
  if◌then◌else◌,
}
use ec.Base.Blocks.{length}

-- The bytes of a C string before the terminating 0.
abbrev pub Text : Type 0
Text = List ℕ

-- `WHITESPACE_CHARS`, `SPECIAL_CHARS`, and the delimiters of one character.
abbrev pub is_white : ℕ → Bool
is_white c = c == b'\n' || c == b'\t' || c == b' '

abbrev pub is_special : ℕ → Bool
is_special c = c == b'&' || c == b'|' || c == b'<' || c == b'>'

abbrev pub is_pipe : ℕ → Bool
is_pipe c = c == b'|'

abbrev pub is_red_in : ℕ → Bool
is_red_in c = c == b'<'

abbrev pub is_red_out : ℕ → Bool
is_red_out c = c == b'>'

-- `findChars`, for a string of one character: whether it stands in the line.
unfoldable pub find_chars : Text → ℕ → Bool
find_chars [] c = false
find_chars (a ∷ s) c = a == c || find_chars s c

-- `strtok_r`: it skips delimiters, and takes what stands before the next one. The rest begins behind
-- that one.
unfoldable pub skip : (ℕ → Bool) → Text → Text
skip d [] = []
skip d (c ∷ s) = if d c then skip d s else c ∷ s

unfoldable pub token : (ℕ → Bool) → Text → Text × Text
token d [] = ([], [])
token d (c ∷ s) = let (t, r) = token d s in if d c then ([], s) else (c ∷ t, r)

abbrev pub first_token : (ℕ → Bool) → Text → Option (Text × Text)
first_token d [] = none
first_token d (c ∷ s) = some (token d (c ∷ s))

unfoldable pub strtok : (ℕ → Bool) → Text → Option (Text × Text)
strtok d s = first_token d (skip d s)

-- The tokens that a `while` loop over `strtok_r` goes through.
unfoldable pub tokens_from : ℕ → (ℕ → Bool) → Text → List Text
tokens_from zero d s = []
tokens_from (suc fuel) d s = elim (strtok d s) [
  | none ↦ []
  | some (t, r) ↦ t ∷ tokens_from fuel d r
]

unfoldable pub tokens : (ℕ → Bool) → Text → List Text
tokens d s = tokens_from (suc (length s)) d s

-- `strstr(s, word) == s`: what stands behind the word, if the text begins with it.
unfoldable pub strip : Text → Text → Option Text
strip [] s = some s
strip (w ∷ ws) [] = none
strip (w ∷ ws) (c ∷ s) = let rest = strip ws s in if w == c then rest else none

-- The first loop of `deleteWords`: the characters that it passes, and how many words it meets.
unfoldable pub count_words : ℕ → Text → Text → ℕ × ℕ
count_words zero word s = (0, 0)
count_words (suc fuel) word [] = (0, 0)
count_words (suc fuel) word (c ∷ s) = elim (strip word (c ∷ s)) [
  | none ↦ let (i, n) = count_words fuel word s in (i + 1, n)
  | some r ↦ let (i, n) = count_words fuel word r in (i + length word, n + 1)
]

-- The second loop, for the empty new word: what it copies.
unfoldable pub copy_rest : ℕ → Text → Text → Text
copy_rest zero word s = []
copy_rest (suc fuel) word [] = []
copy_rest (suc fuel) word (c ∷ s) = elim (strip word (c ∷ s)) [
  | none ↦ c ∷ copy_rest fuel word s
  | some r ↦ copy_rest fuel word r
]

-- `i + c * (newWordLength - oldWordLength) + 1`, the size of the block for the result.
unfoldable pub result_size : Text → Text → ℕ
result_size s word = let (i, n) = count_words (suc (length s)) word s in i - n * length word + 1

-- `deleteWords(s, word, "")`, for a word that is not empty.
unfoldable pub delete_words : Text → Text → Text
delete_words s word = copy_rest (suc (length s)) word s
