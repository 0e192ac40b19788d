-- ===== src/Shell/Main.antt =====
-- main of 1. Simple Shell/myshell.c.
use ec.Base.{
  ℕ, zero, suc, ◌-◌, Bool, true, false, Option, none, some, [], ◌∷◌, ◌++◌, ◌==◌, if◌then◌else◌,
}
use ec.Base.Blocks.{length}
use ec.Shell.Text.{Text}
use ec.Shell.Parser.{Parsed, parsed, crash, ◌>>=◌, max_line_length, pipeline_build}
use ec.Shell.Exec.{Host, Shell, prompted, exec_pipeline}

-- `fgets`: at most `n` bytes of the input, up to the end of its first line, and the rest.
unfoldable pub take_line : ℕ → Text → Text × Text
take_line zero s = ([], s)
take_line (suc n) [] = ([], [])
take_line (suc n) (c ∷ s) =
    let (l, r) = take_line n s in if c == b'\n' then (c ∷ [], s) else (c ∷ l, r)

unfoldable pub fgets : ℕ → Text → Option (Text × Text)
fgets size [] = none
fgets size (c ∷ s) = some (take_line (size - 1) (c ∷ s))

-- The program ends, it faults, or it has run out of fuel.
pub data Outcome : Type 0 where
  ended : Shell → Outcome
  faulted : Outcome
  no_fuel : Outcome

-- A line of the input: parsed and executed.
unfoldable pub run_line : Host → Text → Shell → Parsed Shell
run_line h command_line s = do p ← pipeline_build command_line; parsed (exec_pipeline h p s)

abbrev pub prompt : Bool → Shell → Shell
prompt true s = s
prompt false s = record s { events = s.events ++ (prompted ∷ []) }

-- At the end of the input `pipeline_free` gets the pipeline of the last line; without a line its pointer has
-- no value.
abbrev pub finish : Bool → Shell → Outcome
finish true s = ended s
finish false s = faulted

abbrev pub next_line : (Shell → Outcome) → Parsed Shell → Outcome
next_line loop crash = faulted
next_line loop (parsed s) = loop s

unfoldable pub main_loop : ℕ → Host → Bool → Bool → Text → Shell → Outcome
main_loop zero h no_prompt has_line input s = no_fuel
main_loop (suc fuel) h no_prompt has_line input s = elim (fgets max_line_length input) [
  | none ↦ finish has_line (prompt no_prompt s)
  | some (l, r) ↦ next_line (main_loop fuel h no_prompt true r) (run_line h l (prompt no_prompt s))
]

unfoldable pub main : Host → Bool → Text → Shell → Outcome
main h no_prompt input s = main_loop (suc (length input)) h no_prompt false input s
