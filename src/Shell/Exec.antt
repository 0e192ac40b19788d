-- ===== src/Shell/Exec.antt =====
-- execCommand of 1. Simple Shell/myshell.c, and the loop of main over the commands of a pipeline.
use ec.Base.{
  ℕ, ◌+◌, ◌≡◌, Bool, true, false, ◌&&◌, not, Option, none, some, List, [], ◌∷◌, ◌++◌, ◌==◌,
  if◌then◌else◌,
}
use ec.Shell.Text.{Text}
use ec.Shell.Parser.{Command, Pipeline}

-- What a descriptor stands for: what the shell got as descriptor `n`, an end of the pipe with number `n`,
-- or a file.
pub data Target : Type 0 where
  inherited : ℕ → Target
  read_end : ℕ → Target
  write_end : ℕ → Target
  in_file : Text → Target
  out_file : Text → Target

-- The descriptors of a process, with the last change first.
abbrev pub Table : Type 0
Table = List (ℕ × Option Target)

abbrev pub at : Table → ℕ → Option Target
at [] k = none
at ((n, x) ∷ t) k = if n == k then x else at t k

abbrev pub set : Table → ℕ → Option Target → Table
set t n x = (n, x) ∷ t

-- The host: which descriptor it gives next, always an unused one, which files it opens, which programs it
-- runs, and whether the fork after the pipe with number `n` succeeds.
pub record Host : Type 0 where
  pub unused : Table → ℕ
  pub can_open : Text → Bool
  pub can_create : Text → Bool
  pub can_run : Text → Bool
  pub forks : ℕ → Bool
  pub unused_lem : (t : Table) → at t (unused t) ≡ none

-- A child runs a program, or it exits. `execvp` without a name is an access through a null pointer.
pub data Child : Type 0 where
  execs : (ℕ → Option Text) → Table → Child
  exits : ℕ → Child
  faults : Child

pub data Event : Type 0 where
  prompted : Event
  started : Child → Event
  waited : Event

-- The shell: its descriptors, the number of the next pipe, and what it has done, in order.
pub record Shell : Type 0 where
  pub table : Table
  pub pipes : ℕ
  pub events : List Event

abbrev pub close_fd : ℕ → Table → Table
close_fd n t = set t n none

-- `dup2` fails on a descriptor that is closed, and changes nothing.
abbrev pub dup_to : Option Target → ℕ → Table → Table
dup_to none b t = t
dup_to (some x) b t = set t b (some x)

abbrev pub dup2 : ℕ → ℕ → Table → Table
dup2 a b t = dup_to (at t a) b t

-- `creat` or `open` into `fd[1]`: what becomes of `fd[1]` and the descriptors, unless the host fails.
abbrev pub opened : Host → Target → Table → ℕ × Table
opened h x t = (h.unused t, set t (h.unused t) (some x))

abbrev pub open_out : Host → Option Text → ℕ → Table → Option (ℕ × Table)
open_out h none fd t = some (fd, t)
open_out h (some path) fd t = if h.can_create path then some (opened h (out_file path) t) else none

abbrev pub open_in : Host → Option Text → ℕ → Table → Option (ℕ × Table)
open_in h none fd t = some (fd, t)
open_in h (some path) fd t = if h.can_open path then some (opened h (in_file path) t) else none

abbrev pub is_some : Option Text → Bool
is_some none = false
is_some (some path) = true

-- The `dup2` calls of the child.
unfoldable pub connect : Command → ℕ → ℕ → Bool → Bool → Table → Table
connect c fd input first last t =
    if first && not last && input == 0
    then dup2 fd 1 t
    else if not first && not last && not (input == 0)
    then dup2 fd 1 (dup2 input 0 t)
    else (let t1 = if is_some c.redirect_out_path then dup2 fd 1 t else t in
        let t2 = if is_some c.redirect_in_path then dup2 fd 0 t1 else t1 in dup2 input 0 t2)

abbrev pub execute_named : Host → Option Text → (ℕ → Option Text) → Table → Child
execute_named h none args t = faults
execute_named h (some name) args t = if h.can_run name then execs args t else exits 1

-- `execvp`
abbrev pub execute : Host → Command → Table → Child
execute h c t = execute_named h (c.command_args 0) c.command_args t

abbrev pub child_in : Host → Command → ℕ → Bool → Bool → Bool → Option (ℕ × Table) → Child
child_in h c input first last background none = exits 0
child_in h c input first last background (some (fd, t)) =
    execute h c (connect c fd input first last (if background then close_fd fd t else t))

abbrev pub child_out : Host → Command → ℕ → Bool → Bool → Bool → Option (ℕ × Table) → Child
child_out h c input first last background none = exits 0
child_out h c input first last background (some (fd, t)) =
    child_in h c input first last background (open_in h c.redirect_in_path fd t)

-- The child, with the write end of the pipe.
unfoldable pub child : Host → Command → ℕ → Bool → Bool → Bool → ℕ → Table → Child
child h c input first last background fd t =
    child_out h c input first last background (open_out h c.redirect_out_path fd t)

-- `pipe`: the read end, the write end, and the descriptors with them.
unfoldable pub pipe : Host → ℕ → Table → ℕ × ℕ × Table
pipe h n t =
    let r = h.unused t in
    let t1 = set t r (some (read_end n)) in
    let w = h.unused t1 in (r, w, set t1 w (some (write_end n)))

-- What the parent closes: the write end, the input unless it is 0, and the read end of the last pipe.
unfoldable pub close_ends : ℕ → ℕ → ℕ → Bool → Table → Table
close_ends r w input last t =
    let t1 = close_fd w t in
    let t2 = if input == 0 then t1 else close_fd input t1 in if last then close_fd r t2 else t2

abbrev pub child_events : Bool → Bool → Child → List Event
child_events forks background c =
    (if forks then started c ∷ [] else []) ++ (if background then [] else waited ∷ [])

-- `execCommand`: the read end of the pipe, and the shell afterwards.
unfoldable pub exec_command : Host → Command → ℕ → Bool → Bool → Bool → Shell → ℕ × Shell
exec_command h c input first last background s =
    let (r, w, t) = pipe h s.pipes s.table in
    (
      r,
      record {
        table = close_ends r w input last t;
        pipes = s.pipes + 1;
        events =
            s.events
            ++ child_events (h.forks s.pipes) background
                (child h c input first last background w t);
      },
    )

-- The loop of `main` over the commands.
unfoldable pub exec_from : Host → Command → List Command → ℕ → Bool → Bool → Shell → Shell
exec_from h c [] input first background s = (exec_command h c input first true background s).1
exec_from h c (d ∷ ds) input first background s =
    let (r, s1) = exec_command h c input first false background s in
    exec_from h d ds r false background s1

unfoldable pub exec_pipeline : Host → Pipeline → Shell → Shell
exec_pipeline h p s = exec_from h p.first p.others 0 true p.is_background s
