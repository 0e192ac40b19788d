-- ===== src/Shell/Parser.antt =====
-- The rest of myshell_parser.c: a command line becomes a list of commands.
use ec.Base.{
  ℕ, ◌+◌, Bool, true, false, Option, none, some, List, [], ◌∷◌, ◌++◌, ltb, if◌then◌else◌, update,
}
use ec.Shell.Text.{
  Text, is_white, is_special, is_pipe, is_red_in, is_red_out, find_chars, strtok, tokens,
  delete_words,
}

-- `MAX_LINE_LENGTH` and `MAX_ARGV_LENGTH`
abbrev pub max_line_length : ℕ
max_line_length = 512

abbrev pub max_argv_length : ℕ
max_argv_length = 257

-- `struct pipeline_command`, but for the pointer to the next one.
pub record Command : Type 0 where
  pub command_args : ℕ → Option Text
  pub redirect_in_path : Option Text
  pub redirect_out_path : Option Text

-- `struct pipeline`: the first command and those behind it.
pub record Pipeline : Type 0 where
  pub first : Command
  pub others : List Command
  pub is_background : Bool

-- `pipeline_command_alloc` and `pipeline_alloc`
abbrev pub empty_command : Command
empty_command = record {
  command_args = λ k. none;
  redirect_in_path = none;
  redirect_out_path = none;
}

abbrev pub empty_pipeline : Pipeline
empty_pipeline = record { first = empty_command; others = []; is_background = false }

-- A part of the parser gives a value, or it accesses a null pointer or beyond an array.
pub data Parsed {ℓ} (A : Type ℓ) : Type ℓ where
  parsed : A → Parsed A
  crash : Parsed A

infixl 5 ◌>>=◌
abbrev pub ◌>>=◌ {ℓ κ} : {A : Type ℓ} {B : Type κ} → Parsed A → (A → Parsed B) → Parsed B
parsed a >>= f = f a
crash >>= f = crash

-- The path behind a redirection: the second token of the line, cut at the next blank and then at the next
-- special character. A call of `strtok` that gets a null pointer goes on at the end of the line before.
abbrev pub cut : (ℕ → Bool) → Option (Text × Text) → Option (Text × Text)
cut d none = none
cut d (some (t, r)) = strtok d t

abbrev pub second : (ℕ → Bool) → Option (Text × Text) → Option (Text × Text)
second d none = none
second d (some (t, r)) = strtok d r

unfoldable pub redirect_path : (ℕ → Bool) → Text → Option Text
redirect_path d line = elim (cut is_special (cut is_white (second d (strtok d line)))) [
  | none ↦ none
  | some (t, r) ↦ some t
]

-- The path, and the line without the words that are spelled like it. `strlen` of a null path crashes.
unfoldable pub redirect : (ℕ → Bool) → Text → Parsed (Option Text × Text)
redirect d line = elim (redirect_path d line) [
  | none ↦ crash
  | some path ↦ parsed (some path, delete_words line path)
]

-- The inner `while` loop: each part of a token replaces the one before it.
unfoldable pub store_parts : ℕ → List Text → (ℕ → Option Text) → (ℕ → Option Text)
store_parts pos [] args = args
store_parts pos (t ∷ ts) args = store_parts pos ts (update args pos (some t))

abbrev pub is_nil : List Text → Bool
is_nil [] = true
is_nil (t ∷ ts) = false

-- The outer one. It writes to `command_args[pos]` if the token has a part.
unfoldable pub store_args : ℕ → List Text → (ℕ → Option Text) → Parsed (ℕ → Option Text)
store_args pos [] args = parsed args
store_args pos (t ∷ ts) args =
    let parts = tokens is_special t in
    let rest = store_args (pos + 1) ts (store_parts pos parts args) in
    if is_nil parts then rest else if ltb pos max_argv_length then rest else crash

-- The redirections of `p_command_link`, the one from a file first: their paths, and what is left of the
-- line.
abbrev pub redirect_if : ℕ → (ℕ → Bool) → Option Text → Text → Parsed (Option Text × Text)
redirect_if c d path line = if find_chars line c then redirect d line else parsed (path, line)

unfoldable pub redirects : Text → Command → Parsed (Option Text × Option Text × Text)
redirects cline c = do
  (path_in, line1) ← redirect_if b'<' is_red_in c.redirect_in_path cline
  (path_out, line2) ← redirect_if b'>' is_red_out c.redirect_out_path line1
  parsed (path_in, path_out, line2)

-- `p_command_link`
unfoldable pub p_command_link : Text → Command → Parsed Command
p_command_link cline c = do
  (path_in, path_out, line) ← redirects cline c
  args ← store_args 0 (tokens is_white line) c.command_args
  parsed (record { command_args = args; redirect_in_path = path_in; redirect_out_path = path_out })

-- `pipelines`: a command becomes the first one as long as that has no word, else the last.
abbrev pub link_at : Command → Pipeline → Option Text → Pipeline
link_at c p none = record p { first = c; others = [] }
link_at c p (some w) = record p { others = p.others ++ (c ∷ []) }

unfoldable pub link_command : Command → Pipeline → Pipeline
link_command c p = link_at c p (p.first.command_args 0)

unfoldable pub pipelines : Text → Pipeline → Parsed Pipeline
pipelines pipe_tokens p = do c ← p_command_link pipe_tokens empty_command; parsed (link_command c p)

unfoldable pub link_all : List Text → Pipeline → Parsed Pipeline
link_all [] p = parsed p
link_all (t ∷ ts) p = do q ← pipelines t p; link_all ts q

-- `pipeline_build`
unfoldable pub pipeline_build : Text → Parsed Pipeline
pipeline_build command_line =
    link_all (tokens is_pipe command_line)
      (record empty_pipeline { is_background = find_chars command_line b'&' })
