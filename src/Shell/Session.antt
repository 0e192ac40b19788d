-- ===== src/Shell/Session.antt =====
-- A session of the shell: what main makes of the lines that a user types.
use mathlib.Core.List.{append_assoc}
use ec.Base.{
  ℕ, zero, suc, ◌<◌, ◌≡◌, refl, sym, ◌∙◌, ap, Bool, true, false, some, List, [], ◌∷◌, ◌++◌, map,
  ◌==◌, arith,
}
use ec.Base.Blocks.{length, length-++}
use ec.Shell.Text.{Text}
use ec.Shell.Tokens.{Plain}
use ec.Shell.Parser.{Pipeline, parsed}
use ec.Shell.Exec.{Host, Shell, exec_pipeline}
use ec.Shell.Printer.{
  AllWords, Wordy, AllCommands, words_of, text_of, line_of, Wordy-of_IsWord, Plain-append,
}
use ec.Shell.RoundTrip.{command_of, pipeline_build-line_of}
use ec.Shell.Main.{take_line, fgets, ended, run_line, prompt, main_loop, main}

abbrev is_newline : ℕ → Bool
is_newline c = c == b'\n'

-- A line that fits into the buffer is taken whole.
take_line-Plain :
    (n : ℕ) (s r : Text)
    → Plain is_newline s
    → length s < n
    → take_line n (s ++ (b'\n' ∷ r)) ≡ (s ++ (b'\n' ∷ []), r)
unfolding take_line
take_line-Plain zero s r p h = absurd (omega arith)
take_line-Plain (suc n) [] r p h = refl
take_line-Plain (suc n) (c ∷ s) r p h = rw (p.0, take_line-Plain n s r p.1 (omega arith))

newline-Wordy : (w : Text) → Wordy w → Plain is_newline w
newline-Wordy [] h = tt
newline-Wordy (c ∷ s) h = (ground (arith, h.0), newline-Wordy s h.2)

newline-text_of : (ws : List Text) → AllWords ws → Plain is_newline (text_of ws)
unfolding text_of
newline-text_of [] h = tt
newline-text_of (w ∷ ws) h =
    Plain-append is_newline w (b' ' ∷ text_of ws) (newline-Wordy w (Wordy-of_IsWord w h.0))
      (refl, newline-text_of ws h.1)

-- A line is a text without the end of a line, and that.
body_lem :
    (c : List Text) (cs : List (List Text)) (b : Bool)
    → AllCommands (c ∷ cs)
    → (s : Text) × (line_of c cs b ≡ s ++ (b'\n' ∷ [])) × Plain is_newline s
unfolding line_of
body_lem c [] true h = (
  text_of c ++ (b'&' ∷ []),
  sym (append_assoc (text_of c) (b'&' ∷ []) (b'\n' ∷ [])),
  Plain-append is_newline (text_of c) (b'&' ∷ []) (newline-text_of c (words_of c h.0)) (refl, tt),
)
body_lem c [] false h = (text_of c, refl, newline-text_of c (words_of c h.0))
body_lem c (d ∷ ds) b h =
    let (s, e, p) = body_lem d ds b h.1 in
    (
      text_of c ++ (b'|' ∷ s),
      ap (λ z. text_of c ++ (b'|' ∷ z)) e ∙ sym (append_assoc (text_of c) (b'|' ∷ s) (b'\n' ∷ [])),
      Plain-append is_newline (text_of c) (b'|' ∷ s) (newline-text_of c (words_of c h.0)) (refl, p),
    )

fgets-some : (s r : Text) → fgets 512 (s ++ (b'\n' ∷ r)) ≡ some (take_line 511 (s ++ (b'\n' ∷ r)))
unfolding fgets
fgets-some [] r = refl
fgets-some (c ∷ s) r = refl

fgets-line_of :
    (c : List Text) (cs : List (List Text)) (b : Bool) (r : Text)
    → AllCommands (c ∷ cs)
    → length (line_of c cs b) < 512
    → fgets 512 (line_of c cs b ++ r) ≡ some (line_of c cs b, r)
fgets-line_of c cs b r h k =
    let (s, e, p) = body_lem c cs b h in
    let short : length s < 511 = omega (arith, ap (length {0}) e, length-++ s (b'\n' ∷ [])) in
    ap (λ z. fgets 512 (z ++ r)) e
    ∙ ap (fgets 512) (append_assoc s (b'\n' ∷ []) r)
    ∙ fgets-some s r
    ∙ ap (λ z. some z) (take_line-Plain 511 s r p short)
    ∙ ap (λ z. some (z, r)) (sym e)

-- What a user types: each line a command, those behind it, and whether it ends with an ampersand.
abbrev pub Typed : Type 0
Typed = List Text × List (List Text) × Bool

abbrev pub lines_of : List Typed → Text
lines_of [] = []
lines_of ((c, cs, b) ∷ ls) = line_of c cs b ++ lines_of ls

abbrev pub AllFit : List Typed → Type 0
AllFit [] = Unit {0}
AllFit ((c, cs, b) ∷ ls) = AllCommands (c ∷ cs) × (length (line_of c cs b) < 512) × AllFit ls

abbrev pub pipeline_of : Typed → Pipeline
pipeline_of (c, cs, b) = record {
  first = command_of c;
  others = map command_of cs;
  is_background = b;
}

-- The pipelines in order, each behind a prompt, and the prompt at the end of the input.
abbrev pub session : Host → Bool → List Typed → Shell → Shell
session h no_prompt [] s = prompt no_prompt s
session h no_prompt (l ∷ ls) s =
    session h no_prompt ls (exec_pipeline h (pipeline_of l) (prompt no_prompt s))

pub run_line-line_of :
    (h : Host) (c : List Text) (cs : List (List Text)) (b : Bool) (s : Shell)
    → AllCommands (c ∷ cs)
    → run_line h (line_of c cs b) s ≡ parsed (exec_pipeline h (pipeline_of (c, cs, b)) s)
unfolding run_line
run_line-line_of h c cs b s k = rw (pipeline_build-line_of c cs b k)

-- One line.
main_loop-line_of :
    (fuel : ℕ) (h : Host) (no_prompt has_line : Bool) (l : Typed) (ls : List Typed) (s : Shell)
    → AllFit (l ∷ ls)
    → main_loop (suc fuel) h no_prompt has_line (lines_of (l ∷ ls)) s
      ≡ main_loop fuel h no_prompt true
          (lines_of ls)
          (exec_pipeline h (pipeline_of l) (prompt no_prompt s))
unfolding main_loop
main_loop-line_of fuel h no_prompt has_line (c, cs, b) ls s f = rw (
  fgets-line_of c cs b (lines_of ls) f.0 f.1,
  main_loop,
  run_line-line_of h c cs b (prompt no_prompt s) f.0,
)

lines-shorter :
    (l : Typed) (ls : List Typed)
    → AllFit (l ∷ ls)
    → length (lines_of ls) < length (lines_of (l ∷ ls))
lines-shorter (c, cs, b) ls f =
    let (s, e, p) = body_lem c cs b f.0 in
    omega
      (arith, ap (length {0}) e, length-++ s (b'\n' ∷ []), length-++ (line_of c cs b) (lines_of ls))

main_loop-lines_of :
    (fuel : ℕ) (h : Host) (no_prompt : Bool) (ls : List Typed) (s : Shell)
    → AllFit ls
    → length (lines_of ls) < fuel
    → main_loop fuel h no_prompt true (lines_of ls) s ≡ ended (session h no_prompt ls s)
unfolding main_loop fgets
main_loop-lines_of zero h no_prompt ls s f k = absurd (omega arith)
main_loop-lines_of (suc fuel) h no_prompt [] s f k = refl
main_loop-lines_of (suc fuel) h no_prompt (l ∷ ls) s f k =
    main_loop-line_of fuel h no_prompt true l ls s f
    ∙ main_loop-lines_of fuel h no_prompt ls (exec_pipeline h (pipeline_of l) (prompt no_prompt s))
        f.2 (omega (arith, lines-shorter l ls f))

-- The user types one or more lines of commands without redirections, each with less than 512 characters and
-- spaced as `line_of` prints it: one blank behind every word, a `|` before every command but the first with no
-- blank behind it, and the `&` and the line end last. Then the shell ends, and what it has done is to print its
-- prompt, if it is not switched off, and execute the pipeline that the line describes, for each line in order.
pub main-lines_of :
    (h : Host) (no_prompt : Bool) (l : Typed) (ls : List Typed) (s : Shell)
    → AllFit (l ∷ ls)
    → main h no_prompt (lines_of (l ∷ ls)) s ≡ ended (session h no_prompt (l ∷ ls) s)
unfolding main
main-lines_of h no_prompt l ls s f =
    main_loop-line_of (length (lines_of (l ∷ ls))) h no_prompt false l ls s f
    ∙ main_loop-lines_of (length (lines_of (l ∷ ls))) h no_prompt ls
        (exec_pipeline h (pipeline_of l) (prompt no_prompt s)) f.2 (lines-shorter l ls f)
