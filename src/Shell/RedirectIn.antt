-- ===== src/Shell/RedirectIn.antt =====
-- A command with a redirection from a file: p_command_link of myshell_parser.c.
use mathlib.Core.List.{append_assoc}
use ec.Base.{
  ℕ, zero, suc, ◌-◌, ◌≤◌, ◌<◌, ◌≡◌, refl, sym, ◌∙◌, ap, subst, Bool, true, false, Option, none,
  some, List, [], ◌∷◌, ◌++◌, arith,
}
use ec.Base.Blocks.{length, length-++}
use ec.Shell.Text.{
  Text, is_white, is_special, is_red_in, find_chars, skip, token, strtok, tokens, strip, copy_rest,
  delete_words,
}
use ec.Shell.Tokens.{Plain, runs, runs_from, tokens-eq-runs}
use ec.Shell.Bounds.{copy_none, copy_some}
use ec.Shell.Parser.{
  empty_command, parsed, cut, second, redirect_path, redirect, redirects, store_parts, store_args,
  p_command_link,
}
use ec.Shell.Printer.{
  IsWord, IsCommand, words_of, text_of, white-Wordy, special-Wordy, one-text_of, one-Wordy, starts,
  find_chars-text_of, runs-text_of, Plain-append,
}
use ec.Shell.RoundTrip.{get_elem?, store_args-placed, words_placed, short}

token-Plain :
    (d : ℕ → Bool) (t : Text) (c : ℕ) (s : Text)
    → Plain d t
    → d c ≡ true
    → token d (t ++ (c ∷ s)) ≡ (t, s)
unfolding token
token-Plain d [] c s p e = rw e
token-Plain d (a ∷ t) c s p e = rw (p.0, token-Plain d t c s p.1 e)

token-Plain_end : (d : ℕ → Bool) (t : Text) → Plain d t → token d t ≡ (t, [])
unfolding token
token-Plain_end d [] p = refl
token-Plain_end d (a ∷ t) p = rw (p.0, token-Plain_end d t p.1)

-- A token at the start of a text, up to a delimiter or the end.
strtok-Plain :
    (d : ℕ → Bool) (a : ℕ) (t : Text) (c : ℕ) (s : Text)
    → Plain d (a ∷ t)
    → d c ≡ true
    → strtok d (a ∷ t ++ (c ∷ s)) ≡ some (a ∷ t, s)
unfolding strtok skip
strtok-Plain d a t c s p e = rw p.0 (ap (λ z. some z) (token-Plain d (a ∷ t) c s p e))

strtok-Plain_end :
    (d : ℕ → Bool) (a : ℕ) (t : Text) → Plain d (a ∷ t) → strtok d (a ∷ t) ≡ some (a ∷ t, [])
unfolding strtok skip
strtok-Plain_end d a t p = rw p.0 (ap (λ z. some z) (token-Plain_end d (a ∷ t) p))

-- The rest of the line from the redirection on.
abbrev behind : Text → Text
behind f = b' ' ∷ f ++ (b'\n' ∷ [])

-- The words, then a redirection from the file `f`.
abbrev pub line_from : List Text → Text → Text
line_from ws f = text_of ws ++ (b'<' ∷ behind f)

skip_blank : (s : Text) → strtok is_white (b' ' ∷ s) ≡ strtok is_white s
unfolding strtok skip
skip_blank s = refl

path_lem :
    (ws : List Text) (f : Text)
    → IsCommand ws
    → IsWord f
    → redirect_path is_red_in (line_from ws f) ≡ some f
unfolding redirect_path
path_lem ws [] h w = absurd w
path_lem ws (a ∷ f) h w =
    let (c, t, e) = starts ws h in
    let plain : Plain is_red_in (c ∷ t) =
      subst (Plain is_red_in) e (one-text_of ws b'<' refl (words_of ws h)) in
    let one : strtok is_red_in (line_from ws (a ∷ f)) ≡ some (text_of ws, behind (a ∷ f)) =
      ap (λ z. strtok is_red_in (z ++ (b'<' ∷ behind (a ∷ f)))) e
      ∙ strtok-Plain is_red_in c t b'<' (behind (a ∷ f)) plain refl
      ∙ ap (λ z. some (z, behind (a ∷ f))) (sym e) in
    let plain_f : Plain is_red_in (a ∷ f) = one-Wordy (a ∷ f) b'<' refl w in
    let two : strtok is_red_in (behind (a ∷ f)) ≡ some (behind (a ∷ f), []) =
      strtok-Plain_end is_red_in b' ' (a ∷ f ++ (b'\n' ∷ []))
        (refl, Plain-append is_red_in (a ∷ f) (b'\n' ∷ []) plain_f (refl, tt)) in
    let three : strtok is_white (behind (a ∷ f)) ≡ some (a ∷ f, []) =
      skip_blank (a ∷ f ++ (b'\n' ∷ []))
      ∙ strtok-Plain is_white a f b'\n' [] (white-Wordy (a ∷ f) w) refl in
    let four : strtok is_special (a ∷ f) ≡ some (a ∷ f, []) =
      strtok-Plain_end is_special a f (special-Wordy (a ∷ f) w) in
    let all : cut is_special
          (cut is_white (second is_red_in (strtok is_red_in (line_from ws (a ∷ f)))))
        ≡ some (a ∷ f, []) =
      ap (λ z. cut is_special (cut is_white (second is_red_in z))) one
      ∙ ap (λ z. cut is_special (cut is_white z)) two
      ∙ ap (cut is_special) three
      ∙ four in
    rw (all, redirect_path)

strip_self : (f t : Text) → strip f (f ++ t) ≡ some t
unfolding strip
strip_self [] t = refl
strip_self (c ∷ f) t = ground (arith, strip_self f t)

-- No place in `s` begins with the word, when `t` stands behind.
abbrev pub Apart : Text → Text → Text → Type 0
Apart f [] t = Unit {0}
Apart f (c ∷ s) t = (strip f (c ∷ s ++ t) ≡ none) × Apart f s t

copy_rest-Apart :
    (fuel : ℕ) (f s t : Text)
    → Apart f s t
    → length s ≤ fuel
    → copy_rest fuel f (s ++ t) ≡ s ++ copy_rest (fuel - length s) f t
copy_rest-Apart fuel f [] t a h = ap (λ z. copy_rest z f t) (omega arith)
copy_rest-Apart zero f (c ∷ s) t a h = absurd (omega arith)
copy_rest-Apart (suc fuel) f (c ∷ s) t a h =
    copy_none fuel f c (s ++ t) a.0
    ∙ ap (λ z. c ∷ z) (copy_rest-Apart fuel f s t a.1 (omega arith))
    ∙ ap (λ z. c ∷ (s ++ copy_rest z f t)) (omega arith)

strip-newline : (f : Text) → IsWord f → strip f (b'\n' ∷ []) ≡ none
unfolding strip
strip-newline [] w = absurd w
strip-newline (c ∷ f) w = ground (arith, w.0)

copy_rest-nil : (fuel : ℕ) (f : Text) → copy_rest fuel f [] ≡ []
unfolding copy_rest
copy_rest-nil zero f = refl
copy_rest-nil (suc fuel) f = refl

-- The line without the path.
deleted :
    (s f : Text)
    → IsWord f
    → Apart f s (f ++ (b'\n' ∷ []))
    → delete_words (s ++ (f ++ (b'\n' ∷ []))) f ≡ s ++ (b'\n' ∷ [])
unfolding delete_words
deleted s [] w a = absurd w
deleted s (c ∷ f) w a =
    let line = s ++ (c ∷ f ++ (b'\n' ∷ [])) in
    let n = length line in
    copy_rest-Apart (suc n) (c ∷ f) s (c ∷ f ++ (b'\n' ∷ [])) a
      (omega (arith, length-++ s (c ∷ f ++ (b'\n' ∷ []))))
    ∙ ap (λ z. s ++ z)
        (rest (suc n - length s)
          (omega (arith, length-++ s (c ∷ f ++ (b'\n' ∷ [])), length-++ f (b'\n' ∷ []))))
  where
    rest : (fuel : ℕ) → 1 < fuel → copy_rest fuel (c ∷ f) (c ∷ f ++ (b'\n' ∷ [])) ≡ b'\n' ∷ []
    rest zero h = absurd (omega arith)
    rest (suc zero) h = absurd (omega arith)
    rest (suc (suc fuel)) h =
        copy_some (suc fuel) (c ∷ f) c (f ++ (b'\n' ∷ [])) (b'\n' ∷ [])
          (strip_self (c ∷ f) (b'\n' ∷ []))
        ∙ copy_none fuel (c ∷ f) b'\n' [] (strip-newline (c ∷ f) w)
        ∙ ap (λ z. b'\n' ∷ z) (copy_rest-nil fuel (c ∷ f))

-- The character of the redirection is a token without a part.
less-end : (pos : ℕ) (args : ℕ → Option Text) → store_args pos ((b'<' ∷ []) ∷ []) args ≡ parsed args
unfolding store_args store_parts runs_from
less-end pos args = rw (tokens-eq-runs is_special (b'<' ∷ [])) refl

runs-less : runs is_white (b'<' ∷ b' ' ∷ b'\n' ∷ []) ≡ (b'<' ∷ []) ∷ []
unfolding runs_from
runs-less = refl

finds_less : (t : Text) → find_chars (b'<' ∷ t) b'<' ≡ true
unfolding find_chars
finds_less t = refl

no_more : find_chars (b'<' ∷ b' ' ∷ b'\n' ∷ []) b'>' ≡ false
unfolding find_chars
no_more = refl

redirect_from :
    (ws : List Text) (f : Text)
    → IsCommand ws
    → IsWord f
    → Apart f (text_of ws ++ (b'<' ∷ b' ' ∷ [])) (f ++ (b'\n' ∷ []))
    → redirect is_red_in (line_from ws f)
      ≡ parsed (some f, text_of ws ++ (b'<' ∷ b' ' ∷ b'\n' ∷ []))
unfolding redirect
redirect_from ws f h w a =
    let cut_line : delete_words (line_from ws f) f ≡ text_of ws ++ (b'<' ∷ b' ' ∷ b'\n' ∷ []) =
      ap (λ z. delete_words z f)
        (sym (append_assoc (text_of ws) (b'<' ∷ b' ' ∷ []) (f ++ (b'\n' ∷ []))))
      ∙ deleted (text_of ws ++ (b'<' ∷ b' ' ∷ [])) f w a
      ∙ append_assoc (text_of ws) (b'<' ∷ b' ' ∷ []) (b'\n' ∷ []) in
    rw (path_lem ws f h w, redirect) (ap (λ z. parsed (some f, z)) cut_line)

-- A command of at most 256 words with a redirection from a file behind them, as in "wc -l < f", whose path
-- is spelled nowhere before in the line: p_command_link gives exactly the words as arguments, the path as the
-- input path and no output path.
pub p_command_link-line_from :
    (ws : List Text) (f : Text)
    → IsCommand ws
    → IsWord f
    → Apart f (text_of ws ++ (b'<' ∷ b' ' ∷ [])) (f ++ (b'\n' ∷ []))
    → p_command_link (line_from ws f) empty_command
      ≡ parsed (record {
        command_args = get_elem? ws;
        redirect_in_path = some f;
        redirect_out_path = none;
      })
unfolding p_command_link redirects
p_command_link-line_from ws f h w a =
    let end : Text = b'<' ∷ b' ' ∷ b'\n' ∷ [] in
    let less : find_chars (line_from ws f) b'<' ≡ true =
      find_chars-text_of ws (b'<' ∷ behind f) b'<' refl (words_of ws h) ∙ finds_less (behind f) in
    let more : find_chars (text_of ws ++ end) b'>' ≡ false =
      find_chars-text_of ws end b'>' refl (words_of ws h) ∙ no_more in
    let words : tokens is_white (text_of ws ++ end) ≡ ws ++ ((b'<' ∷ []) ∷ []) =
      tokens-eq-runs is_white (text_of ws ++ end)
      ∙ runs-text_of ws end (words_of ws h)
      ∙ ap (λ z. ws ++ z) runs-less in
    let args : store_args 0 (ws ++ ((b'<' ∷ []) ∷ [])) (λ k. none) ≡ parsed (get_elem? ws) =
      store_args-placed 0 ws ((b'<' ∷ []) ∷ []) (λ k. none) less-end (words_of ws h) (short ws h)
      ∙ ap (λ z. parsed z) (words_placed ws) in
    rw (less, redirect_from ws f h w a, more, words, args)
