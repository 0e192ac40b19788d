-- ===== src/Shell/Redirects.antt =====
-- The redirections of a command on its own: execCommand of myshell.c.
use ec.Base.{
  ℕ, ◌≡◌, ◌≢◌, refl, Bool, true, false, Option, none, some, [], ◌∷◌, ◌++◌, if◌then◌else◌, arith,
}
use ec.Shell.Text.{Text}
use ec.Shell.Parser.{Command}
use ec.Shell.Exec.{
  at, set, Target, in_file, out_file, write_end, Table, Host, Child, started, waited, Shell,
  close_fd, is_some, opened, connect, execute, child, pipe, exec_command, exec_from, exec_pipeline,
}
use ec.Shell.Wiring.{open_ne, piped, pipe-Piped, piped-old}

-- What a command on its own gets as its input and output.
abbrev pub input_for : Bool → Option Text → Target → Target
input_for true i x = x
input_for false none x = x
input_for false (some path) x = in_file path

abbrev pub output_for : Bool → Option Text → Option Text → Target → Target
output_for true i o y = y
output_for false i none y = y
output_for false none (some path) y = out_file path
output_for false (some path_in) (some path) y = in_file path_in

-- Descriptors with an input `x` and an output `y`, and another one that is open.
record Opens (t : Table) (x y : Target) (fd : ℕ) : Type 0 where
  input : at t 0 ≡ some x
  output : at t 1 ≡ some y
  other : (z : Target) × (at t fd ≡ some z)
  not_input : fd ≢ 0
  not_output : fd ≢ 1

Opens-opened :
    (h : Host) (t : Table) (x y z : Target) (fd : ℕ)
    → Opens t x y fd
    → Opens (opened h z t).1 x y (opened h z t).0
Opens-opened h t x y z fd o =
    let e = h.unused_lem t in
    let a : h.unused t ≢ 0 = open_ne t 0 (h.unused t) x o.input e in
    let b : h.unused t ≢ 1 = open_ne t 1 (h.unused t) y o.output e in
    record {
      input = ground (arith, o.input);
      output = ground (arith, o.output);
      other = (z, ground arith);
      not_input = a;
      not_output = b;
    }

-- The command with these parts.
abbrev with_paths : (ℕ → Option Text) → Option Text → Option Text → Command
with_paths a i o = record { command_args = a; redirect_in_path = i; redirect_out_path = o }

-- In the background the descriptor is closed before it is copied.
connect-closed :
    (a : ℕ → Option Text) (i o : Option Text) (fd : ℕ) (t : Table) (x y : Target)
    → at t 0 ≡ some x
    → at t 1 ≡ some y
    → at t fd ≡ none
    → let u = connect (with_paths a i o) fd 0 true true t in (at u 0 ≡ some x) × (at u 1 ≡ some y)
unfolding connect
connect-closed a none none fd t x y e f g = (rw e, rw e f)
connect-closed a none (some q) fd t x y e f g = (rw (g, e), rw (g, e) f)
connect-closed a (some p) none fd t x y e f g = (rw (g, e), rw (g, e) f)
connect-closed a (some p) (some q) fd t x y e f g = (rw (g, g, e), rw (g, g, e) f)

-- A descriptor that is closed.
closed_lem :
    (a : ℕ → Option Text) (i o : Option Text) (fd : ℕ) (t : Table) (x y : Target)
    → Opens t x y fd
    → let u = connect (with_paths a i o) fd 0 true true (close_fd fd t) in
      (at u 0 ≡ some x) × (at u 1 ≡ some y)
closed_lem a i o fd t x y s =
    let d = s.not_input in
    let k = s.not_output in
    connect-closed a i o fd (close_fd fd t) x y (ground (arith, s.input)) (ground (arith, s.output))
      (ground arith)

connect-open :
    (a : ℕ → Option Text) (i o : Option Text) (fd : ℕ) (t : Table) (x y z : Target)
    → Opens t x y fd
    → at t fd ≡ some z
    → let u = connect (with_paths a i o) fd 0 true true t in
      (at u 0 ≡ some (if is_some i then z else x)) × (at u 1 ≡ some (if is_some o then z else y))
unfolding connect
connect-open a none none fd t x y z s g = (rw s.input, rw s.input s.output)
connect-open a none (some q) fd t x y z s g = (rw (g, s.input), rw (g, s.input))
connect-open a (some p) none fd t x y z s g = (rw g, rw g s.output)
connect-open a (some p) (some q) fd t x y z s g =
    let d = s.not_output in
    let k : at (set t 1 (some z)) fd ≡ some z = ground (arith, g) in (rw (g, k), rw (g, k))

opened-at : (h : Host) (z : Target) (t : Table) → at (opened h z t).1 (opened h z t).0 ≡ some z
opened-at h z t = ground arith

-- The descriptors that the child connects.
abbrev connected : (ℕ → Option Text) → Option Text → Option Text → Bool → ℕ × Table → Table
connected a i o b (fd, t) =
    connect (with_paths a i o) fd 0 true true (if b then close_fd fd t else t)

-- The child with `u` as its descriptors.
abbrev Gets :
    Host → (ℕ → Option Text) → Option Text → Option Text → Target → Target → Child → Type 0
Gets h a i o x y c =
    (u : Table) × (c ≡ execute h (with_paths a i o) u) × (at u 0 ≡ some x) × (at u 1 ≡ some y)

child-open :
    (h : Host) (a : ℕ → Option Text) (i o : Option Text) (fd : ℕ) (t : Table) (x y : Target)
    → ((f : Text) → h.can_open f ≡ true)
    → ((f : Text) → h.can_create f ≡ true)
    → Opens t x y fd
    → Gets h a i o
        (input_for false i x)
        (output_for false i o y)
        (child h (with_paths a i o) 0 true true false fd t)
unfolding child
child-open h a none none fd t x y ci co s =
    let (z, g) = s.other in
    let (e, f) = connect-open a none none fd t x y z s g in
    (connect (with_paths a none none) fd 0 true true t, refl, e, f)
child-open h a none (some q) fd t x y ci co s =
    let (e, f) =
      connect-open a none (some q) _ _ x y (out_file q) (Opens-opened h t x y (out_file q) fd s)
        (opened-at h (out_file q) t) in
    (connected a none (some q) false (opened h (out_file q) t), rw (co q), e, f)
child-open h a (some p) none fd t x y ci co s =
    let (e, f) =
      connect-open a (some p) none _ _ x y (in_file p) (Opens-opened h t x y (in_file p) fd s)
        (opened-at h (in_file p) t) in
    (connected a (some p) none false (opened h (in_file p) t), rw (ci p), e, f)
child-open h a (some p) (some q) fd t x y ci co s =
    let s1 = Opens-opened h t x y (out_file q) fd s in
    let (e, f) =
      connect-open a (some p) (some q) _ _ x y (in_file p) (Opens-opened h _ x y (in_file p) _ s1)
        (opened-at h (in_file p) (opened h (out_file q) t).1) in
    (
      connected a (some p) (some q) false (opened h (in_file p) (opened h (out_file q) t).1),
      rw (co q, ci p),
      e,
      f,
    )

child-closed :
    (h : Host) (a : ℕ → Option Text) (i o : Option Text) (fd : ℕ) (t : Table) (x y : Target)
    → ((f : Text) → h.can_open f ≡ true)
    → ((f : Text) → h.can_create f ≡ true)
    → Opens t x y fd
    → Gets h a i o x y (child h (with_paths a i o) 0 true true true fd t)
unfolding child
child-closed h a none none fd t x y ci co s =
    let (e, f) = closed_lem a none none fd t x y s in
    (connected a none none true (fd, t), refl, e, f)
child-closed h a none (some q) fd t x y ci co s =
    let (e, f) = closed_lem a none (some q) _ _ x y (Opens-opened h t x y (out_file q) fd s) in
    (connected a none (some q) true (opened h (out_file q) t), rw (co q), e, f)
child-closed h a (some p) none fd t x y ci co s =
    let (e, f) = closed_lem a (some p) none _ _ x y (Opens-opened h t x y (in_file p) fd s) in
    (connected a (some p) none true (opened h (in_file p) t), rw (ci p), e, f)
child-closed h a (some p) (some q) fd t x y ci co s =
    let s1 = Opens-opened h t x y (out_file q) fd s in
    let (e, f) = closed_lem a (some p) (some q) _ _ x y (Opens-opened h _ x y (in_file p) _ s1) in
    (
      connected a (some p) (some q) true (opened h (in_file p) (opened h (out_file q) t).1),
      rw (co q, ci p),
      e,
      f,
    )

child-Gets :
    (h : Host) (c : Command) (b : Bool) (fd : ℕ) (t : Table) (x y : Target)
    → ((f : Text) → h.can_open f ≡ true)
    → ((f : Text) → h.can_create f ≡ true)
    → Opens t x y fd
    → (u : Table) × (child h c 0 true true b fd t ≡ execute h c u)
      × (at u 0 ≡ some (input_for b c.redirect_in_path x))
      × (at u 1 ≡ some (output_for b c.redirect_in_path c.redirect_out_path y))
child-Gets h c true fd t x y ci co s =
    child-closed h c.command_args c.redirect_in_path c.redirect_out_path fd t x y ci co s
child-Gets h c false fd t x y ci co s =
    child-open h c.command_args c.redirect_in_path c.redirect_out_path fd t x y ci co s

-- A command on its own, when the shell has descriptors 0 and 1, the fork succeeds and the host opens every
-- file. In the foreground it reads from its input path, if it has one, and else from the input of the shell.
-- It writes to its output path if it has one and no input path; with both paths its output is the file that it
-- reads from; without an output path it writes to the output of the shell. In the background it always has
-- the input and output of the shell, whatever its paths are. The shell waits for it in the foreground only.
pub exec_pipeline-redirects :
    (h : Host) (c : Command) (b : Bool) (s : Shell) (x y : Target)
    → h.forks s.pipes ≡ true
    → ((f : Text) → h.can_open f ≡ true)
    → ((f : Text) → h.can_create f ≡ true)
    → at s.table 0 ≡ some x
    → at s.table 1 ≡ some y
    → (u : Table) × ((exec_pipeline h
          (record { first = c; others = []; is_background = b })
          s).events
        ≡ s.events ++ (started (execute h c u) ∷ (if b then [] else waited ∷ [])))
      × (at u 0 ≡ some (input_for b c.redirect_in_path x))
      × (at u 1 ≡ some (output_for b c.redirect_in_path c.redirect_out_path y))
unfolding exec_pipeline exec_from exec_command pipe
exec_pipeline-redirects h c b s x y forks ci co e0 e1 =
    let n = s.pipes in
    let r = (pipe h n s.table).0 in
    let w = (pipe h n s.table).1 in
    let p = pipe-Piped h n s.table in
    let opens : Opens (piped s.table r w n) x y w = record {
      input = piped-old s.table r w n 0 x p e0;
      output = piped-old s.table r w n 1 y p e1;
      other = (write_end n, ground arith);
      not_input = open_ne s.table 0 w x e0 p.free_w;
      not_output = open_ne s.table 1 w y e1 p.free_w;
    } in
    let (u, e, g, k) = child-Gets h c b w (piped s.table r w n) x y ci co opens in
    (u, rw (forks, e), g, k)
