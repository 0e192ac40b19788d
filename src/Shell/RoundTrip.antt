-- ===== src/Shell/RoundTrip.antt =====
-- pipeline_build of myshell_parser.c reads back every line of commands without redirections.
use mathlib.Core.List.{append_assoc, append-nil}
use ec.Base.{
  ℕ, zero, suc, ◌+◌, ◌≤◌, ◌<◌, ◌≡◌, refl, sym, ◌∙◌, ap, fun_ext, Bool, true, false, Option, none,
  some, List, [], ◌∷◌, ◌++◌, map, ltb, update, arith,
}
use ec.Base.Blocks.{length}
use ec.Shell.Text.{Text, is_white, is_special, is_pipe, find_chars, tokens}
use ec.Shell.Tokens.{runs, runs_from, tokens-eq-runs}
use ec.Shell.Parser.{
  Command, Pipeline, empty_command, empty_pipeline, parsed, redirects, store_parts, store_args,
  p_command_link, link_command, pipelines, link_all, pipeline_build,
}
use ec.Shell.Printer.{
  IsWord, AllWords, IsCommand, AllCommands, text_of, line_end, line_of, parts_of, words_of,
  find_chars-text_of, find_chars-line_of, runs-line_of, end_tokens, runs-text_of, runs-line_end,
  runs-Word,
}

abbrev pub get_elem? : List Text → ℕ → Option Text
get_elem? [] k = none
get_elem? (w ∷ ws) zero = some w
get_elem? (w ∷ ws) (suc k) = get_elem? ws k

-- The command of these words.
abbrev pub command_of : List Text → Command
command_of ws = record {
  command_args = get_elem? ws;
  redirect_in_path = none;
  redirect_out_path = none;
}

-- The arguments with the words from place `pos` on.
abbrev pub placed : ℕ → List Text → (ℕ → Option Text) → (ℕ → Option Text)
placed pos [] args = args
placed pos (w ∷ ws) args = placed (pos + 1) ws (update args pos (some w))

store_args-step :
    (pos : ℕ) (w : Text) (ts : List Text) (args : ℕ → Option Text)
    → IsWord w
    → pos < 257
    → store_args pos (w ∷ ts) args ≡ store_args (pos + 1) ts (update args pos (some w))
unfolding store_args store_parts
store_args-step pos w ts args h k =
    let one : tokens is_special w ≡ w ∷ [] = tokens-eq-runs is_special w ∙ runs-Word w h in
    let low : ltb pos 257 ≡ true = ground arith in rw (one, low)

store_args-end :
    (pos : ℕ) (b : Bool) (args : ℕ → Option Text) → store_args pos (end_tokens b) args ≡ parsed args
unfolding store_args store_parts runs_from
store_args-end pos false args = refl
store_args-end pos true args = rw (tokens-eq-runs is_special (b'&' ∷ [])) refl

-- Tokens without a part, behind the words, leave the arguments as they are.
pub store_args-placed :
    (pos : ℕ) (ws ts : List Text) (args : ℕ → Option Text)
    → ((pos : ℕ) (args : ℕ → Option Text) → store_args pos ts args ≡ parsed args)
    → AllWords ws
    → pos + length ws ≤ 257
    → store_args pos (ws ++ ts) args ≡ parsed (placed pos ws args)
store_args-placed pos [] ts args e h k = e pos args
store_args-placed pos (w ∷ ws) ts args e h k =
    store_args-step pos w (ws ++ ts) args h.0 (omega arith)
    ∙ store_args-placed (pos + 1) ws ts (update args pos (some w)) e h.1 (omega arith)

placed-low :
    (pos : ℕ) (ws : List Text) (args : ℕ → Option Text) (k : ℕ)
    → k < pos
    → placed pos ws args k ≡ args k
placed-low pos [] args k h = refl
placed-low pos (w ∷ ws) args k h =
    placed-low (pos + 1) ws (update args pos (some w)) k (omega arith) ∙ ground arith

-- From its place on, an array without further words has the words.
placed-at :
    (pos : ℕ) (ws : List Text) (args : ℕ → Option Text) (j : ℕ)
    → ((i : ℕ) → args (pos + i) ≡ none)
    → placed pos ws args (pos + j) ≡ get_elem? ws j
placed-at pos [] args j h = h j
placed-at pos (w ∷ ws) args zero h =
    placed-low (pos + 1) ws (update args pos (some w)) (pos + 0) (omega arith) ∙ ground arith
placed-at pos (w ∷ ws) args (suc j) h =
    ap (placed (pos + 1) ws (update args pos (some w))) (omega arith)
    ∙ placed-at (pos + 1) ws (update args pos (some w)) j (λ i. beyond i)
  where
    beyond : (i : ℕ) → update args pos (some w) (pos + 1 + i) ≡ none
    beyond i =
        let e : args (pos + 1 + i) ≡ none = ap args (omega arith) ∙ h (i + 1) in ground (arith, e)

pub words_placed : (ws : List Text) → placed 0 ws (λ k. none) ≡ get_elem? ws
words_placed ws =
    fun_ext
      (λ j. ap (placed 0 ws (λ k. none)) (omega arith) ∙ placed-at 0 ws (λ k. none) j (λ i. refl))

-- The text of a command, with the end of the line or a pipe behind it.
abbrev Ends : Text → Bool → Type 0
Ends t b =
    (find_chars t b'<' ≡ false) × (find_chars t b'>' ≡ false) × (runs is_white t ≡ end_tokens b)

pub short : (c : List Text) → IsCommand c → 0 + length c ≤ 257
short [] h = absurd h
short (w ∷ ws) h = let k : length (w ∷ ws) ≤ 256 = h.1 in omega arith

command_text :
    (c : List Text) (t : Text) (b : Bool)
    → IsCommand c
    → Ends t b
    → p_command_link (text_of c ++ t) empty_command ≡ parsed (command_of c)
unfolding p_command_link redirects
command_text c t b h e =
    let less : find_chars (text_of c ++ t) b'<' ≡ false =
      find_chars-text_of c t b'<' refl (words_of c h) ∙ e.0 in
    let more : find_chars (text_of c ++ t) b'>' ≡ false =
      find_chars-text_of c t b'>' refl (words_of c h) ∙ e.1 in
    let words : tokens is_white (text_of c ++ t) ≡ c ++ end_tokens b =
      tokens-eq-runs is_white (text_of c ++ t)
      ∙ runs-text_of c t (words_of c h)
      ∙ ap (λ z. c ++ z) e.2 in
    let args : store_args 0 (c ++ end_tokens b) (λ k. none) ≡ parsed (get_elem? c) =
      store_args-placed 0 c (end_tokens b) (λ k. none) (λ pos args. store_args-end pos b args)
        (words_of c h) (short c h)
      ∙ ap (λ z. parsed z) (words_placed c) in
    rw (less, more, words, args)

line_end-Ends : (b : Bool) → Ends (line_end b) b
unfolding find_chars
line_end-Ends true = (refl, refl, runs-line_end true)
line_end-Ends false = (refl, refl, runs-line_end false)

empty-Ends : Ends [] false
unfolding find_chars runs_from
empty-Ends = (refl, refl, refl)

-- A command before a pipe.
inner_text :
    (c : List Text) → IsCommand c → p_command_link (text_of c) empty_command ≡ parsed (command_of c)
inner_text c h =
    sym (ap (λ z. p_command_link z empty_command) (append-nil (text_of c)))
    ∙ command_text c [] false h empty-Ends

-- Behind a first command with a word, the others come in the order of the line.
link_text :
    (t : Text) (c : List Text) (p : Pipeline) (w : Text)
    → p_command_link t empty_command ≡ parsed (command_of c)
    → p.first.command_args 0 ≡ some w
    → pipelines t p ≡ parsed (record p { others = p.others ++ (command_of c ∷ []) })
unfolding pipelines link_command
link_text t c p w e h = rw (e, h)

link_others :
    (c : List Text) (cs : List (List Text)) (b : Bool) (p : Pipeline) (w : Text)
    → AllCommands (c ∷ cs)
    → p.first.command_args 0 ≡ some w
    → link_all (parts_of c cs b) p
      ≡ parsed (record p { others = p.others ++ map command_of (c ∷ cs) })
unfolding link_all parts_of
link_others c [] b p w h e = rw (
    link_text (text_of c ++ line_end b) c p w (command_text c (line_end b) b h.0 (line_end-Ends b))
      e)
link_others c (d ∷ ds) b p w h e = rw (link_text (text_of c) c p w (inner_text c h.0) e) (
    link_others d ds b (record p { others = p.others ++ (command_of c ∷ []) }) w h.1 e
    ∙ ap (λ z. parsed (record p { others = z }))
        (append_assoc p.others (command_of c ∷ []) (map command_of (d ∷ ds))))

-- The first command of a line takes the place of the empty one.
link_first :
    (t : Text) (c : List Text) (b : Bool)
    → p_command_link t empty_command ≡ parsed (command_of c)
    → pipelines t (record empty_pipeline { is_background = b })
      ≡ parsed (record { first = command_of c; others = []; is_background = b })
unfolding pipelines link_command
link_first t c b e = rw e

command_word : (c : List Text) → IsCommand c → (w : Text) × (get_elem? c 0 ≡ some w)
command_word [] h = absurd h
command_word (w ∷ ws) h = (w, refl)

link_line :
    (c : List Text) (cs : List (List Text)) (b : Bool)
    → AllCommands (c ∷ cs)
    → link_all (parts_of c cs b) (record empty_pipeline { is_background = b })
      ≡ parsed (record { first = command_of c; others = map command_of cs; is_background = b })
unfolding link_all parts_of
link_line c [] b h =
    rw (
      link_first (text_of c ++ line_end b) c b
        (command_text c (line_end b) b h.0 (line_end-Ends b)))
link_line c (d ∷ ds) b h =
    let (w, e) = command_word c h.0 in
    rw (link_first (text_of c) c b (inner_text c h.0))
      (link_others d ds b (record { first = command_of c; others = []; is_background = b }) w h.1 e)

-- A line of commands whose words have no blank and no special character, with at most 256 words for each
-- command, is read back: pipeline_build makes one command of each, in the order of the line, with exactly
-- its words as arguments and no redirection, and the pipeline is in the background if the line ends with an
-- ampersand.
pub pipeline_build-line_of :
    (c : List Text) (cs : List (List Text)) (b : Bool)
    → AllCommands (c ∷ cs)
    → pipeline_build (line_of c cs b)
      ≡ parsed (record { first = command_of c; others = map command_of cs; is_background = b })
unfolding pipeline_build
pipeline_build-line_of c cs b h =
    let pipes : tokens is_pipe (line_of c cs b) ≡ parts_of c cs b =
      tokens-eq-runs is_pipe (line_of c cs b) ∙ runs-line_of c cs b h in
    rw (pipes, find_chars-line_of c cs b h) (link_line c cs b h)
