-- ===== src/Shell/Argv.antt =====
-- The arguments in myshell_parser.c: no line is too long for the array of a command.
use ec.Base.{
  ℕ, ◌+◌, ◌≤◌, ◌<◌, ◌≡◌, refl, sym, ◌∙◌, ap, subst, inl, inr, Bool, true, if◌then◌else◌, Bool-cases,
  Option, none, some, List, [], ◌∷◌, ◌++◌, arith,
}
use ec.Base.Blocks.{length}
use ec.Shell.Text.{Text, find_chars, delete_words, is_white, is_pipe, is_red_in, is_red_out, tokens}
use ec.Shell.Tokens.{
  runs, length-runs_from, AllShort, AllShort-mono, AllShort-runs_from, tokens-eq-runs,
}
use ec.Shell.Parser.{
  Command, Pipeline, empty_command, parsed, ◌>>=◌, redirect_path, redirect, redirect_if, redirects,
  p_command_link, link_at, link_command, pipelines, link_all, pipeline_build,
}
use ec.Shell.Bounds.{Terminated, store_args-Bounded, redirects-length}

-- A text with the redirection `c` has a path for it.
abbrev HasPath : ℕ → (ℕ → Bool) → Text → Type 0
HasPath c d line = find_chars line c ≡ true → (path : Text) × (redirect_path d line ≡ some path)

-- What the redirection from a file leaves of a text: its path is deleted wherever it occurs.
abbrev without_path : Option Text → Text → Text
without_path none line = line
without_path (some path) line = delete_words line path

abbrev after_in : Text → Text
after_in line =
    if find_chars line b'<' then without_path (redirect_path is_red_in line) line else line

-- In each of these texts the redirection from a file has a path, and in what that leaves of the text the
-- redirection to a file has one.
abbrev pub HavePaths : List Text → Type 0
HavePaths [] = Unit {0}
HavePaths (t ∷ ts) =
    (HasPath b'<' is_red_in t × HasPath b'>' is_red_out (after_in t)) × HavePaths ts

redirect-eq :
    (d : ℕ → Bool) (line path : Text)
    → redirect_path d line ≡ some path
    → redirect d line ≡ parsed (some path, delete_words line path)
unfolding redirect delete_words
redirect-eq d line path e = rw (e, redirect) refl

redirect_if-HasPath :
    (c : ℕ) (d : ℕ → Bool) (line : Text)
    → HasPath c d line
    → (path : Option Text) × (redirect_if c d none line
        ≡ parsed
            (path, if find_chars line c then without_path (redirect_path d line) line else line))
redirect_if-HasPath c d line h = elim (Bool-cases (find_chars line c)) [
  | inl e ↦ let (path, f) = h e in (some path, rw (e, f) (redirect-eq d line path f))
  | inr e ↦ (none, rw e refl)
]

redirects-HavePaths :
    (t : Text)
    → HasPath b'<' is_red_in t
    → HasPath b'>' is_red_out (after_in t)
    → (r : Option Text × Option Text × Text) × (redirects t empty_command ≡ parsed r)
unfolding redirects
redirects-HavePaths t h k =
    let (i, e) = redirect_if-HasPath b'<' is_red_in t h in
    let (o, f) = redirect_if-HasPath b'>' is_red_out (after_in t) k in
    (
      (i, o, _),
      ap (λ r. r >>= λ x. redirect_if b'>' is_red_out none x.1 >>= λ y. parsed (x.0, y.0, y.1)) e
          ∙ ap (λ r. r >>= λ y. parsed (i, y.0, y.1)) f,
    )

abbrev AllTerminated : List Command → Type 0
AllTerminated [] = Unit {0}
AllTerminated (c ∷ cs) = Terminated c × AllTerminated cs

abbrev pub IsTerminated : Pipeline → Type 0
IsTerminated p = Terminated p.first × AllTerminated p.others

AllTerminated-snoc :
    (cs : List Command) (c : Command)
    → AllTerminated cs
    → Terminated c
    → AllTerminated (cs ++ (c ∷ []))
AllTerminated-snoc [] c a t = (t, tt)
AllTerminated-snoc (d ∷ cs) c a t = (a.0, AllTerminated-snoc cs c a.1 t)

p_command_link-Terminated :
    (t : Text) (path_in path_out : Option Text) (left : Text)
    → length t ≤ 511
    → redirects t empty_command ≡ parsed (path_in, path_out, left)
    → (c : Command) × (p_command_link t empty_command ≡ parsed c) × Terminated c
unfolding p_command_link
p_command_link-Terminated t path_in path_out left h e =
    let few : 0 + length (tokens is_white left) ≤ 256 = omega (
      arith,
      redirects-length t empty_command path_in path_out left e,
      length-runs_from is_white [] left,
      ap (length {0}) (tokens-eq-runs is_white left),
    ) in
    let (a, f, n) = store_args-Bounded 0 (tokens is_white left) (λ k. none) few (λ k l. refl) in
    (
      record { command_args = a; redirect_in_path = path_in; redirect_out_path = path_out },
      rw (e, f),
      n,
    )

link_at-IsTerminated :
    (c : Command) (p : Pipeline) (o : Option Text)
    → Terminated c
    → IsTerminated p
    → IsTerminated (link_at c p o)
link_at-IsTerminated c p none t h = (t, tt)
link_at-IsTerminated c p (some w) t h = (h.0, AllTerminated-snoc p.others c h.1 t)

link_command-IsTerminated :
    (c : Command) (p : Pipeline) → Terminated c → IsTerminated p → IsTerminated (link_command c p)
unfolding link_command
link_command-IsTerminated c p = link_at-IsTerminated c p (p.first.command_args 0)

link_all-IsTerminated :
    (ts : List Text) (p : Pipeline)
    → AllShort 511 ts
    → HavePaths ts
    → IsTerminated p
    → (q : Pipeline) × (link_all ts p ≡ parsed q) × IsTerminated q
unfolding link_all pipelines
link_all-IsTerminated [] p s h t = (p, refl, t)
link_all-IsTerminated (l ∷ ls) p s h t =
    let ((i, o, left), e) = redirects-HavePaths l h.0.0 h.0.1 in
    let (c, f, n) = p_command_link-Terminated l i o left s.0 e in
    let (q, g, m) =
      link_all-IsTerminated ls (link_command c p) s.1 h.1 (link_command-IsTerminated c p n t) in
    (q, rw f g, m)

-- A line of less than `MAX_LINE_LENGTH` characters, in each of whose commands `<`, if it is there, has a path,
-- and `>`, if it is there, has one in what is left of the command when every occurrence of the path of `<` is
-- deleted, is parsed without a fault: no argument is written beyond `command_args`, and the arguments of every
-- command end with a null pointer in it.
pub pipeline_build-IsTerminated :
    (line : Text)
    → length line < 512
    → HavePaths (tokens is_pipe line)
    → (p : Pipeline) × (pipeline_build line ≡ parsed p) × IsTerminated p
unfolding pipeline_build
pipeline_build-IsTerminated line h paths =
    let short : AllShort 511 (tokens is_pipe line) =
      subst (AllShort 511) (sym (tokens-eq-runs is_pipe line)) (
        AllShort-mono (0 + length line) 511 (runs is_pipe line) (omega arith)
          (AllShort-runs_from is_pipe [] line)) in
    link_all-IsTerminated (tokens is_pipe line) _ short paths ((λ k l. refl), tt)
