-- ===== src/Shell/Bounds.antt =====
-- The array of arguments in myshell_parser.c, and the block that deleteWords allocates.
use ec.Base.{
  ℕ, zero, suc, ◌+◌, ◌*◌, ◌≤◌, ◌<◌, ◌≡◌, ◌≢◌, refl, ◌∙◌, ap, inl, inr, Bool, true, false, Option,
  none, some, List, [], ◌∷◌, ◌==◌, ltb, if◌then◌else◌, update, Bool-cases, Option-cases, arith,
}
use ec.Base.Blocks.{length}
use ec.Shell.Text.{
  Text, is_special, is_red_in, is_red_out, find_chars, tokens, strip, count_words, copy_rest,
  result_size, delete_words,
}
use ec.Shell.Parser.{
  Command, Parsed, parsed, crash, ◌>>=◌, redirect_path, redirect, redirect_if, redirects,
  store_parts, is_nil, store_args,
}

-- What is left behind a word that the text begins with is shorter by the word.
strip-length : (word s r : Text) → strip word s ≡ some r → length s ≡ length word + length r
unfolding strip
strip-length [] s r e = let same : s ≡ r = cc in omega (arith, ap (length {0}) same)
strip-length (w ∷ ws) [] r e = cc
strip-length (w ∷ ws) (c ∷ s) r e = elim (Bool-cases (w == c)) [
  | inl f ↦ omega (arith, strip-length ws s r (rw f at e))
  | inr f ↦ cc (rw f at e)
]

suc-mul : (n l : ℕ) → (n + 1) * l ≡ n * l + l
suc-mul n l = grind arith

-- One round of each loop.
count_none :
    (fuel : ℕ) (word : Text) (c : ℕ) (s : Text)
    → strip word (c ∷ s) ≡ none
    → count_words (suc fuel) word (c ∷ s)
      ≡ ((count_words fuel word s).0 + 1, (count_words fuel word s).1)
unfolding count_words
count_none fuel word c s e = rw (e, count_words)

count_some :
    (fuel : ℕ) (word : Text) (c : ℕ) (s r : Text)
    → strip word (c ∷ s) ≡ some r
    → count_words (suc fuel) word (c ∷ s)
      ≡ ((count_words fuel word r).0 + length word, (count_words fuel word r).1 + 1)
unfolding count_words
count_some fuel word c s r e = rw (e, count_words)

pub copy_none :
    (fuel : ℕ) (word : Text) (c : ℕ) (s : Text)
    → strip word (c ∷ s) ≡ none
    → copy_rest (suc fuel) word (c ∷ s) ≡ c ∷ copy_rest fuel word s
unfolding copy_rest
copy_none fuel word c s e = rw (e, copy_rest)

pub copy_some :
    (fuel : ℕ) (word : Text) (c : ℕ) (s r : Text)
    → strip word (c ∷ s) ≡ some r
    → copy_rest (suc fuel) word (c ∷ s) ≡ copy_rest fuel word r
unfolding copy_rest
copy_some fuel word c s r e = rw (e, copy_rest)

-- The two loops of `deleteWords` agree on what is left.
count_words-copy :
    (fuel : ℕ) (word s : Text)
    → 0 < length word
    → length s < fuel
    → (count_words fuel word s).0
      ≡ length (copy_rest fuel word s) + (count_words fuel word s).1 * length word
unfolding count_words copy_rest
count_words-copy zero word s h k = absurd (omega arith)
count_words-copy (suc fuel) word [] h k = omega arith
count_words-copy (suc fuel) word (c ∷ s) h k = elim (Option-cases (strip word (c ∷ s))) [
  | inl e ↦ omega (
    arith,
    count_words-copy fuel word s h (omega arith),
    ap (λ p. p.0) (count_none fuel word c s e),
    ap (λ p. p.1 * length word) (count_none fuel word c s e),
    ap (length {0}) (copy_none fuel word c s e),
  )
  | inr (r, e) ↦
      let shorter : length r < fuel = omega (arith, strip-length word (c ∷ s) r e) in
      omega (
        arith,
        count_words-copy fuel word r h shorter,
        suc-mul (count_words fuel word r).1 (length word),
        ap (λ p. p.0) (count_some fuel word c s r e),
        ap (λ p. p.1 * length word) (count_some fuel word c s r e),
        ap (length {0}) (copy_some fuel word c s r e),
      )
]

copy_rest-length : (fuel : ℕ) (word s : Text) → length (copy_rest fuel word s) ≤ length s
unfolding copy_rest
copy_rest-length zero word s = omega arith
copy_rest-length (suc fuel) word [] = omega arith
copy_rest-length (suc fuel) word (c ∷ s) = elim (Option-cases (strip word (c ∷ s))) [
  | inl e ↦ omega (arith, copy_rest-length fuel word s, ap (length {0}) (copy_none fuel word c s e))
  | inr (r, e) ↦ omega (
    arith,
    copy_rest-length fuel word r,
    strip-length word (c ∷ s) r e,
    ap (length {0}) (copy_some fuel word c s r e),
  )
]

-- `deleteWords` allocates exactly the characters that it then writes, and one for the terminating 0, and what
-- it writes is at most as long as the line.
pub delete_words-result_size :
    (s word : Text)
    → 0 < length word
    → (result_size s word ≡ length (delete_words s word) + 1)
      × (length (delete_words s word) ≤ length s)
unfolding result_size delete_words
delete_words-result_size s word h = (
  omega (arith, count_words-copy (suc (length s)) word s h (omega arith)),
  copy_rest-length (suc (length s)) word s,
)

delete_words-length : (s word : Text) → length (delete_words s word) ≤ length s
unfolding delete_words
delete_words-length s word = copy_rest-length (suc (length s)) word s

-- What the line is cut down to after the redirections is no longer than the line.
redirect-length :
    (d : ℕ → Bool) (line : Text) (path : Option Text) (left : Text)
    → redirect d line ≡ parsed (path, left)
    → length left ≤ length line
unfolding redirect
redirect-length d line path left e = elim (Option-cases (redirect_path d line)) [
  | inl f ↦ absurd (cc (rw (f, redirect) at e))
  | inr (word, f) ↦
      let same : delete_words line word ≡ left = cc (rw (f, redirect) at e) in
      omega (arith, ap (length {0}) same, delete_words-length line word)
]

redirect_if-length :
    (c : ℕ) (d : ℕ → Bool) (old : Option Text) (line : Text) (path : Option Text) (left : Text)
    → redirect_if c d old line ≡ parsed (path, left)
    → length left ≤ length line
redirect_if-length c d old line path left e = elim (Bool-cases (find_chars line c)) [
  | inl f ↦ redirect-length d line path left (rw f at e)
  | inr f ↦ let same : line ≡ left = cc (rw f at e) in omega (arith, ap (length {0}) same)
]

>>=-eq-parsed {ℓ κ} :
    {A : Type ℓ} {B : Type κ} (m : Parsed A) (f : A → Parsed B) {b : B}
    → (m >>= f) ≡ parsed b
    → (a : A) × (m ≡ parsed a) × (f a ≡ parsed b)
>>=-eq-parsed (parsed a) f e = (a, refl, e)
>>=-eq-parsed crash f e = cc

pub redirects-length :
    (t : Text) (c : Command) (path_in path_out : Option Text) (left : Text)
    → redirects t c ≡ parsed (path_in, path_out, left)
    → length left ≤ length t
unfolding redirects
redirects-length t c path_in path_out left e =
    let (a, f, g) = >>=-eq-parsed (redirect_if b'<' is_red_in c.redirect_in_path t) _ e in
    let (b, h, i) = >>=-eq-parsed (redirect_if b'>' is_red_out c.redirect_out_path a.1) _ g in
    let same : b.1 ≡ left = cc i in
    omega (
      arith,
      redirect_if-length b'<' is_red_in c.redirect_in_path t a.0 a.1 f,
      redirect_if-length b'>' is_red_out c.redirect_out_path a.1 b.0 b.1 h,
      ap (length {0}) same,
    )

-- The arguments of a command end with a null pointer inside the array.
abbrev pub Terminated : Command → Type 0
Terminated c = (k : ℕ) → 256 ≤ k → c.command_args k ≡ none

store_parts-ne :
    (pos : ℕ) (ts : List Text) (args : ℕ → Option Text) (k : ℕ)
    → k ≢ pos
    → store_parts pos ts args k ≡ args k
unfolding store_parts
store_parts-ne pos [] args k h = refl
store_parts-ne pos (t ∷ ts) args k h =
    store_parts-ne pos ts (update args pos (some t)) k h ∙ ground arith

pub store_args-Bounded :
    (pos : ℕ) (ts : List Text) (args : ℕ → Option Text)
    → pos + length ts ≤ 256
    → ((k : ℕ) → pos ≤ k → args k ≡ none)
    → (a : ℕ → Option Text) × (store_args pos ts args ≡ parsed a) × ((k : ℕ) → 256 ≤ k → a k ≡ none)
unfolding store_args
store_args-Bounded pos [] args h n = (args, refl, λ k l. n k (omega arith))
store_args-Bounded pos (t ∷ ts) args h n =
    let parts = tokens is_special t in
    let (a, e, m) =
      store_args-Bounded (pos + 1) ts (store_parts pos parts args) (omega arith)
        (λ k l. store_parts-ne pos parts args k (omega arith) ∙ n k (omega arith)) in
    let low : ltb pos 257 ≡ true = ground arith in (a, rw low (either (is_nil parts) e), m)
  where
    either : (b : Bool) {x y : Parsed (ℕ → Option Text)} → x ≡ y → (if b then x else x) ≡ y
    either true e = e
    either false e = e
