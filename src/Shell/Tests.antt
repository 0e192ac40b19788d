-- ===== src/Shell/Tests.antt =====
-- The theorems about the shell at small command lines, and runs of the parser.
use ec.Shell.RedirectIn.{Apart, line_from, p_command_link-line_from}
use ec.Shell.Printer.{IsCommand, IsWord}
use ec.Shell.Parser.{empty_command}
use ec.Base.{◌<◌, false}
use ec.Shell.Parser.{Command}
use ec.Shell.Printer.{text_of}
use ec.Shell.Exec.{
  Target, inherited, in_file, Table, at, Host, execs, Event, started, waited, Shell, execute,
  connect, child, pipe, exec_command, exec_from, exec_pipeline,
}
use ec.Shell.Wiring.{Runs}
use ec.Shell.Foreground.{run_line-Runs}
use ec.Shell.Redirects.{exec_pipeline-redirects}
use ec.Shell.Main.{fgets, ended, faulted, run_line, main_loop, main}
use ec.Shell.Session.{AllFit, lines_of, session, main-lines_of}
use ec.Base.{
  ◌++◌, if◌then◌else◌, ℕ, ◌+◌, ◌≡◌, refl, true, Option, none, some, List, [], ◌∷◌, map, arith,
}
use ec.Shell.Text.{
  is_red_in, is_red_out, Text, is_pipe, skip, token, strtok, tokens_from, tokens, strip, copy_rest,
  delete_words, find_chars,
}
use ec.Shell.Parser.{
  Pipeline, Parsed, parsed, crash, redirect_path, redirect, redirects, store_parts, store_args,
  p_command_link, link_command, pipelines, link_all, pipeline_build,
}
use ec.Shell.Argv.{HavePaths, IsTerminated, pipeline_build-IsTerminated}
use ec.Shell.Printer.{AllCommands, line_of}
use ec.Shell.RoundTrip.{get_elem?, command_of, pipeline_build-line_of}

-- "ls -a" and "wc"
abbrev ls_a : List Text
ls_a = (b'l' ∷ b's' ∷ []) ∷ (b'-' ∷ b'a' ∷ []) ∷ []

abbrev wc : List Text
wc = (b'w' ∷ b'c' ∷ []) ∷ []

ls_a-wc : AllCommands (ls_a ∷ wc ∷ [])
ls_a-wc = ground arith

-- "ls -a|wc&"
pipeline_build-line_of_example :
    pipeline_build (line_of ls_a (wc ∷ []) true)
    ≡ parsed (record {
      first = command_of ls_a;
      others = map command_of (wc ∷ []);
      is_background = true;
    })
pipeline_build-line_of_example = pipeline_build-line_of ls_a (wc ∷ []) true ls_a-wc

typed_fit : AllFit ((ls_a, wc ∷ [], true) ∷ (wc, [], false) ∷ [])
unfolding line_of text_of
typed_fit = ground arith

-- "wc < a > b"
abbrev wc_in_out : Text
wc_in_out = b'w' ∷ b'c' ∷ b' ' ∷ b'<' ∷ b' ' ∷ b'a' ∷ b' ' ∷ b'>' ∷ b' ' ∷ b'b' ∷ b'\n' ∷ []

redirects_run :
    redirects wc_in_out
      (record { command_args = λ k. none; redirect_in_path = none; redirect_out_path = none })
    ≡ parsed (
      some (b'a' ∷ []),
      some (b'b' ∷ []),
      b'w' ∷ b'c' ∷ b' ' ∷ b'<' ∷ b' ' ∷ b' ' ∷ b'>' ∷ b' ' ∷ b'\n' ∷ [],
    )
unfolding redirects redirect redirect_path find_chars strtok skip token delete_words copy_rest strip
redirects_run = refl

pipes_run : tokens is_pipe wc_in_out ≡ wc_in_out ∷ []
unfolding tokens tokens_from strtok skip token
pipes_run = refl

path_a : redirect_path is_red_in wc_in_out ≡ some (b'a' ∷ [])
unfolding redirect_path strtok skip token
path_a = refl

path_b :
    redirect_path is_red_out
      (b'w' ∷ b'c' ∷ b' ' ∷ b'<' ∷ b' ' ∷ b' ' ∷ b'>' ∷ b' ' ∷ b'b' ∷ b'\n' ∷ [])
    ≡ some (b'b' ∷ [])
unfolding redirect_path strtok skip token
path_b = refl

have_paths : HavePaths (tokens is_pipe wc_in_out)
unfolding find_chars redirect_path strtok skip token delete_words copy_rest strip
have_paths = rw pipes_run (((λ e. (b'a' ∷ [], path_a)), λ e. (b'b' ∷ [], path_b)), tt)

pipeline_build-IsTerminated_example :
    (p : Pipeline) × (pipeline_build wc_in_out ≡ parsed p) × IsTerminated p
pipeline_build-IsTerminated_example = pipeline_build-IsTerminated wc_in_out (omega arith) have_paths

-- The path of the first redirection is deleted from behind the second one too, which then has none.
same_path_crashes :
    pipeline_build
      (b'w' ∷ b'c' ∷ b' ' ∷ b'<' ∷ b' ' ∷ b'a' ∷ b' ' ∷ b'>' ∷ b' ' ∷ b'a' ∷ b'\n' ∷ [])
    ≡ crash
unfolding pipeline_build link_all pipelines p_command_link redirects redirect redirect_path
    find_chars tokens tokens_from strtok skip token delete_words copy_rest strip
same_path_crashes = refl

-- A redirection without a path.
no_path_crashes : pipeline_build (b'w' ∷ b'c' ∷ b' ' ∷ b'<' ∷ b'\n' ∷ []) ≡ crash
unfolding pipeline_build link_all pipelines p_command_link redirects redirect redirect_path
    find_chars tokens tokens_from strtok skip token
no_path_crashes = refl

-- The word behind a redirection stands behind a null pointer.
abbrev arg : Parsed Pipeline → ℕ → Option Text
arg crash k = none
arg (parsed p) k = p.first.command_args k

abbrev wc_in_x : Text
wc_in_x = b'w' ∷ b'c' ∷ b' ' ∷ b'<' ∷ b' ' ∷ b'a' ∷ b' ' ∷ b'x' ∷ b'\n' ∷ []

hole_run :
    (arg (pipeline_build wc_in_x) 1 ≡ none) × (arg (pipeline_build wc_in_x) 2 ≡ some (b'x' ∷ []))
unfolding pipeline_build link_all pipelines p_command_link redirects redirect redirect_path
    find_chars tokens tokens_from strtok skip token delete_words copy_rest strip store_args
    store_parts link_command
hole_run = (refl, refl)

-- A host that opens every file and runs every program, with the descriptors above all those in use.
abbrev top : Table → ℕ
top [] = 0
top ((n, x) ∷ t) = n + top t

at-above : (t : Table) (k : ℕ) → top t < k → at t k ≡ none
at-above [] k h = refl
at-above ((n, x) ∷ t) k h = ground (arith, at-above t k (omega arith))

abbrev host : Host
host = record {
  unused = λ t. top t + 1;
  can_open = λ f. true;
  can_create = λ f. true;
  can_run = λ f. true;
  forks = λ n. true;
  unused_lem = λ t. at-above t (top t + 1) (omega arith);
}

-- The shell at its start, with the descriptors 0 to 2.
abbrev shell : Shell
shell = record {
  table = (0, some (inherited 0)) ∷ (1, some (inherited 1)) ∷ (2, some (inherited 2)) ∷ [];
  pipes = 0;
  events = [];
}

run_line-Runs_example :
    (s1 : Shell) × (es : List Event) × (run_line host (line_of ls_a (wc ∷ []) false) shell
      ≡ parsed s1)
    × (s1.events ≡ [] ++ es)
    × Runs host (inherited 0) (inherited 1) 0 (command_of ls_a) (map command_of (wc ∷ [])) es
    × ((k : ℕ) → at s1.table k ≡ at shell.table k)
run_line-Runs_example =
    run_line-Runs host ls_a (wc ∷ []) shell (inherited 0) (inherited 1) ls_a-wc (λ n. refl) refl
      refl

main-lines_of_example :
    main host false (lines_of ((ls_a, wc ∷ [], true) ∷ (wc, [], false) ∷ [])) shell
    ≡ ended (session host false ((ls_a, wc ∷ [], true) ∷ (wc, [], false) ∷ []) shell)
main-lines_of_example =
    main-lines_of host false (ls_a, wc ∷ [], true) ((wc, [], false) ∷ []) shell typed_fit

-- "wc < a > b"
abbrev wc_both : Command
wc_both = record {
  command_args = get_elem? wc;
  redirect_in_path = some (b'a' ∷ []);
  redirect_out_path = some (b'b' ∷ []);
}

exec_pipeline-redirects_example :
    (u : Table) × ((exec_pipeline host
        (record { first = wc_both; others = []; is_background = false })
        shell).events
      ≡ [] ++ (started (execute host wc_both u) ∷ (if false then [] else waited ∷ [])))
    × (at u 0 ≡ some (in_file (b'a' ∷ [])))
    × (at u 1 ≡ some (in_file (b'a' ∷ [])))
exec_pipeline-redirects_example =
    exec_pipeline-redirects host wc_both false shell (inherited 0) (inherited 1) refl (λ f. refl)
      (λ f. refl) refl refl

-- The first output of a list of events.
abbrev first_output : List Event → Option Target
first_output (started (execs args t) ∷ es) = at t 1
first_output es = none

-- In the background the first command does not write to its pipe.
background_run :
    first_output
      (exec_pipeline host
        (record { first = command_of ls_a; others = command_of wc ∷ []; is_background = true })
        shell).events
    ≡ some (inherited 1)
unfolding exec_pipeline exec_from exec_command pipe child connect
background_run = refl

-- A session without a line.
no_line_faults : main host true [] shell ≡ faulted
unfolding main main_loop fgets
no_line_faults = refl

-- "wc < a"
a-Apart : Apart (b'a' ∷ []) (text_of wc ++ (b'<' ∷ b' ' ∷ [])) (b'a' ∷ b'\n' ∷ [])
unfolding text_of strip
a-Apart = (refl, (refl, (refl, (refl, (refl, tt)))))

p_command_link-line_from_example :
    p_command_link (line_from wc (b'a' ∷ [])) empty_command
    ≡ parsed (record {
      command_args = get_elem? wc;
      redirect_in_path = some (b'a' ∷ []);
      redirect_out_path = none;
    })
p_command_link-line_from_example = p_command_link-line_from wc (b'a' ∷ []) wc_command a_word a-Apart
  where
    wc_command : IsCommand wc
    wc_command = ground arith

    a_word : IsWord (b'a' ∷ [])
    a_word = ground arith
