-- ===== src/Shell/Foreground.antt =====
-- Pipelines in the foreground without redirections, from the command line to the descriptors of the
-- children: main and execCommand of myshell.c.
use mathlib.Core.List.{append_assoc}
use ec.Base.{
  ℕ, ◌≡◌, ◌≢◌, refl, sym, ◌∙◌, ap, subst, inl, inr, Bool, true, false, none, some, List, [], ◌∷◌,
  ◌++◌, map, ◌==◌, Bool-cases, ==→≡, ==→≢, arith,
}
use ec.Shell.Text.{Text}
use ec.Shell.Parser.{Command, Pipeline, parsed}
use ec.Shell.Printer.{AllCommands, line_of}
use ec.Shell.RoundTrip.{command_of}
use ec.Shell.Main.{run_line}
use ec.Shell.Session.{pipeline_of, run_line-line_of}
use ec.Shell.Exec.{
  at, Target, read_end, write_end, Table, Host, Event, started, waited, Shell, connect, child, pipe,
  close_ends, exec_command, exec_from, exec_pipeline,
}
use ec.Shell.Wiring.{
  NoRedirects, AllNoRedirects, IsChild, Runs, Feeds, Piped, open_ne, piped, pipe-Piped, piped-old,
  connect-inner, connect-last, child_lem, new_lem, keeps_open, keeps_one, close_ends-same,
  closed-at,
}

-- The read end of the pipe is the input of the next command.
Feeds-next :
    (base t : Table) (r w input n : ℕ) (x i : Target)
    → Feeds base t input x
    → Piped t r w
    → at base 0 ≡ some i
    → Feeds base (close_ends r w input false (piped t r w n)) r (read_end n)
Feeds-next base t r w input n x i f p e =
    let (ne, free) = new_lem base t input x r f p.free_r in
    let d : w ≢ r = p.apart in
    record {
      same = λ k k_ne. close_ends-same base t r w input n x false k f p k_ne;
      fed = closed-at r w input false (piped t r w n) r ∙ ground arith;
      spare = inr (open_ne base 0 r i e free, free);
    }

close_ends-last :
    (base t : Table) (r w input n : ℕ) (x : Target) (k : ℕ)
    → Feeds base t input x
    → Piped t r w
    → at (close_ends r w input true (piped t r w n)) k ≡ at base k
close_ends-last base t r w input n x k f p = elim (Bool-cases (k == r)) [
  | inl e ↦
      let (ne, free) = new_lem base t input x r f p.free_r in
      closed-at r w input true (piped t r w n) k
      ∙ (let b : at base k ≡ none = subst (λ j. at base j ≡ none) (sym (==→≡ k r e)) free in
          ground arith)
  | inr e ↦ close_ends-same base t r w input n x true k f p (==→≢ k r e)
]

inner_child :
    (h : Host) (c : Command) (base t : Table) (r w input n : ℕ) (x i : Target)
    → NoRedirects c
    → Feeds base t input x
    → Piped t r w
    → at base 0 ≡ some i
    → IsChild h c x
        (write_end n)
        (started (child h c input (input == 0) false false w (piped t r w n)))
inner_child h c base t r w input n x i nr f p e =
    let t2 = piped t r w n in
    let (z, g) = keeps_open base t input x 0 i f e in
    let (a, b) =
      connect-inner c w input t2 x (write_end n) (piped-old t r w n input x p f.fed) (ground arith)
        (open_ne t 0 w z g p.free_w) in
    (
      connect c w input (input == 0) false t2,
      ap (λ z. started z) (child_lem h c input (input == 0) false w t2 nr),
      a,
      b,
    )

last_child :
    (h : Host) (c : Command) (base t : Table) (r w input n : ℕ) (first : Bool) (x y : Target)
    → NoRedirects c
    → Feeds base t input x
    → Piped t r w
    → at base 1 ≡ some y
    → IsChild h c x y (started (child h c input first true false w (piped t r w n)))
last_child h c base t r w input n first x y nr f p e =
    let t2 = piped t r w n in
    let (a, b) =
      connect-last c w input first t2 x y nr (piped-old t r w n input x p f.fed)
        (piped-old t r w n 1 y p (keeps_one base t input x y f e)) in
    (
      connect c w input first true t2,
      ap (λ z. started z) (child_lem h c input first true w t2 nr),
      a,
      b,
    )

exec_from-Runs :
    (h : Host) (c : Command) (ds : List Command) (base : Table) (input : ℕ) (first : Bool)
    (s : Shell) (x y i : Target)
    → ((n : ℕ) → h.forks n ≡ true)
    → NoRedirects c
    → AllNoRedirects ds
    → at base 0 ≡ some i
    → at base 1 ≡ some y
    → first ≡ (input == 0)
    → Feeds base s.table input x
    → let s1 = exec_from h c ds input first false s in
      (es : List Event) × (s1.events ≡ s.events ++ es)
      × Runs h x y s.pipes c ds es
      × ((k : ℕ) → at s1.table k ≡ at base k)
unfolding exec_from exec_command pipe
exec_from-Runs h c [] base input first s x y i forks nr nrs e0 e1 q f =
    let r = (pipe h s.pipes s.table).0 in
    let w = (pipe h s.pipes s.table).1 in
    let p = pipe-Piped h s.pipes s.table in
    let e = started (child h c input first true false w (piped s.table r w s.pipes)) in
    (
      e ∷ waited ∷ [],
      rw (forks s.pipes),
      (e, last_child h c base s.table r w input s.pipes first x y nr f p e1, refl),
      λ k. close_ends-last base s.table r w input s.pipes x k f p,
    )
exec_from-Runs h c (d ∷ ds) base input first s x y i forks nr nrs e0 e1 q f =
    let n = s.pipes in
    let r = (pipe h n s.table).0 in
    let w = (pipe h n s.table).1 in
    let p = pipe-Piped h n s.table in
    let e = started (child h c input first false false w (piped s.table r w n)) in
    let ok : IsChild h c x (write_end n) e =
      subst
        (λ b.
          IsChild h c x (write_end n)
            (started (child h c input b false false w (piped s.table r w n))))
        (sym q) (inner_child h c base s.table r w input n x i nr f p e0) in
    let s1 = (exec_command h c input first false false s).1 in
    let f1 = Feeds-next base s.table r w input n x i f p e0 in
    let r_ne : r ≢ 0 = open_ne base 0 r i e0 (new_lem base s.table input x r f p.free_r).1 in
    let (es, g, runs, same) =
      exec_from-Runs h d ds base r false s1 (read_end n) y i forks nrs.0 nrs.1 e0 e1 (ground arith)
        f1 in
    (e ∷ waited ∷ es, g ∙ rw (forks n, append_assoc), (e, es, ok, runs, refl), same)

-- A pipeline in the foreground, none of whose commands has a redirection, when the shell has descriptors 0
-- and 1 and every fork succeeds: the commands are started in order, the first one with the input of the
-- shell, each other one with the pipe of the one before it as input and every one but the last with its
-- own pipe as output, the last one with the output of the shell. The shell waits behind each start, and has
-- the same descriptors as before in the end.
pub exec_pipeline-Runs :
    (h : Host) (p : Pipeline) (s : Shell) (x y : Target)
    → ((n : ℕ) → h.forks n ≡ true)
    → NoRedirects p.first
    → AllNoRedirects p.others
    → p.is_background ≡ false
    → at s.table 0 ≡ some x
    → at s.table 1 ≡ some y
    → (es : List Event) × ((exec_pipeline h p s).events ≡ s.events ++ es)
      × Runs h x y s.pipes p.first p.others es
      × ((k : ℕ) → at (exec_pipeline h p s).table k ≡ at s.table k)
unfolding exec_pipeline
exec_pipeline-Runs h p s x y forks nr nrs b e0 e1 = rw b (
    exec_from-Runs h p.first p.others s.table 0 true s x y x forks nr nrs e0 e1 refl
      (record { same = λ k d. refl; fed = e0; spare = inl (refl, e0) }))

AllNoRedirects-command_of : (cs : List (List Text)) → AllNoRedirects (map command_of cs)
AllNoRedirects-command_of [] = tt
AllNoRedirects-command_of (c ∷ cs) = ((refl, refl), AllNoRedirects-command_of cs)

-- From the line to the descriptors: a line of commands without redirections and without an ampersand is
-- executed, when the shell has descriptors 0 and 1 and every fork succeeds. Its commands are run one after the
-- other with their words as arguments, each one reads what the one before it has written to its pipe, the
-- first one reads from the input of the shell and the last one writes to its output, and the descriptors of
-- the shell are the same afterwards.
pub run_line-Runs :
    (h : Host) (c : List Text) (cs : List (List Text)) (s : Shell) (x y : Target)
    → AllCommands (c ∷ cs)
    → ((n : ℕ) → h.forks n ≡ true)
    → at s.table 0 ≡ some x
    → at s.table 1 ≡ some y
    → (s1 : Shell) × (es : List Event) × (run_line h (line_of c cs false) s ≡ parsed s1)
      × (s1.events ≡ s.events ++ es)
      × Runs h x y s.pipes (command_of c) (map command_of cs) es
      × ((k : ℕ) → at s1.table k ≡ at s.table k)
run_line-Runs h c cs s x y ok forks e0 e1 =
    let p = pipeline_of (c, cs, false) in
    let (es, e, runs, same) =
      exec_pipeline-Runs h p s x y forks (refl, refl) (AllNoRedirects-command_of cs) refl e0 e1 in
    (exec_pipeline h p s, es, run_line-line_of h c cs false s ok, e, runs, same)
