-- ===== src/Shell/Single/Pipes.antt =====
-- p2/single.c: the pipeline of a job, in the shell's own process.
use sp.Base.{
  ℕ, zero, suc, ◌-◌, ◌≤◌, ◌<◌, ◌≡◌, ◌∙◌, refl, sym, ap, false, Option, none, some, List, [], ◌∷◌,
  length, arith, ℤ, pos, negsuc, eqb_ℤ, CString, All, Holds,
}
use sp.Shell.Process.{fork, pipe, close, waitpid, History, Os, returns}
use sp.Shell.Parser.{Argv, char}
use sp.Shell.Parser.Tokens.{tokens}
use sp.Shell.Parser.Laws.{args_of, parse_pipe_lem}
use sp.Shell.Basic.{string_of}
use sp.Shell.Single.{Pipe, next_pipe, other_pipes, make_pipes, run_commands, run_pipeline}
use sp.Shell.Single.Jobs.{fresh, Room-fresh, Plain, InParent, is_parent, is_above_0, atomic-runs}

-- Every `pipe` succeeds.
abbrev pub PipesOpen : Os → Type 0
PipesOpen os = (h : History) → eqb_ℤ (os.answer (pipe ∷ h)) (negsuc 0) ≡ false

-- The ends of so many new pipes, and the calls that open them.
abbrev pub new_pipes : Os → ℕ → History → List Pipe
new_pipes os zero h = []
new_pipes os (suc n) h = os.pipe_ends (pipe ∷ h) ∷ new_pipes os n (pipe ∷ h)

abbrev pub opened : Os → ℕ → History → History
opened os zero h = h
opened os (suc n) h = opened os n (pipe ∷ h)

make_pipes_lem :
    (os : Os) (n : ℕ) (h : History)
    → PipesOpen os
    → make_pipes os n h ≡ returns (new_pipes os n h) (opened os n h)
unfolding make_pipes
make_pipes_lem os zero h opens = refl
make_pipes_lem os (suc n) h opens = rw (opens h, make_pipes_lem os n (pipe ∷ h) opens) refl

abbrev pub closed : Option Pipe → History → History
closed none h = h
closed (some (rd, wr)) h = close wr ∷ close rd ∷ h

-- The calls for the commands of a pipeline: each is started, the pipe before it is closed, and it is waited for
-- before the next one is started.
abbrev pub piped : Os → List CString → Option Pipe → List Pipe → History → History
piped os [] prev pipes h = h
piped os (cmd ∷ cmds) prev pipes h =
    piped os cmds (next_pipe pipes) (other_pipes pipes)
      (waitpid (os.answer (fork ∷ h)) ∷ closed prev (fork ∷ h))

run_commands_lem :
    (os : Os) (fd : ℤ) (cmds : List CString) (argv : Argv) (j : ℕ) (prev : Option Pipe)
    (pipes : List Pipe) (h : History)
    → 2 ≤ os.max_length
    → InParent os
    → All (Plain os) cmds
    → Holds argv j (args_of cmds)
    → run_commands os fd (length cmds) argv j prev pipes h ≡ returns tt (piped os cmds prev pipes h)
unfolding run_commands string_of
run_commands_lem os fd [] argv j prev pipes h two forks plain cells = refl
run_commands_lem os fd (cmd ∷ cmds) argv j none pipes h two forks plain cells =
    let (p, forked) = forks h in
    rw (cells.0, atomic-runs os fd cmd none (next_pipe pipes) h p two plain.0 forked, is_above_0 p)
      (run_commands_lem os fd cmds argv (suc j) (next_pipe pipes) (other_pipes pipes)
          (waitpid (pos (suc p)) ∷ fork ∷ h) two forks plain.1 cells.1
        ∙ ap
            (λ pid.
              returns tt
                (piped os cmds (next_pipe pipes) (other_pipes pipes) (waitpid pid ∷ fork ∷ h)))
            (sym forked))
run_commands_lem os fd (cmd ∷ cmds) argv j (some (rd, wr)) pipes h two forks plain cells =
    let (p, forked) = forks h in
    rw
      (
        cells.0,
        atomic-runs os fd cmd (some (rd, wr)) (next_pipe pipes) h p two plain.0 forked,
        is_above_0 p,
      )
      (run_commands_lem os fd cmds argv (suc j) (next_pipe pipes) (other_pipes pipes)
          (waitpid (pos (suc p)) ∷ close wr ∷ close rd ∷ fork ∷ h) two forks plain.1 cells.1
        ∙ ap
            (λ pid. returns tt (
              piped os cmds (next_pipe pipes) (other_pipes pipes)
                (waitpid pid ∷ close wr ∷ close rd ∷ fork ∷ h)))
            (sym forked))

-- Where MAX_LENGTH is at least 2, every `fork` answers with a positive process id and every `pipe`
-- succeeds, the job is shorter than MAX_LENGTH, and its pieces between bars are single commands
-- that are no built-ins, the pipeline of `executeSingleJob` ends; its calls are a `fork`, a `pipe`
-- for each command but one, and then for each command in turn a `fork`, the closing of both ends of
-- the pipe before it, and a `waitpid` for it, before the next command is started.
pub run_pipeline_lem :
    (os : Os) (fd : ℤ) (job : CString) (h : History)
    → 2 ≤ os.max_length
    → InParent os
    → PipesOpen os
    → length job < os.max_length
    → All (Plain os) (tokens (char b'|') job)
    → run_pipeline os fd job h
      ≡ returns (os.answer (fork ∷ h)) (
          piped os
            (tokens (char b'|') job)
            none
            (new_pipes os (length (tokens (char b'|') job) - 1) (fork ∷ h))
            (opened os (length (tokens (char b'|') job) - 1) (fork ∷ h)))
unfolding run_pipeline
run_pipeline_lem os fd job h two forks opens lt plain =
    let (p, forked) = forks h in
    let child : eqb_ℤ (os.answer (fork ∷ h)) (pos 0) ≡ false =
      ap (λ z. eqb_ℤ z (pos 0)) forked ∙ is_parent p in
    let (argv, parses, cells) =
      parse_pipe_lem job (fresh os (fork ∷ h)) os.max_length
        (Room-fresh os (fork ∷ h) 0 os.max_length (omega arith)) lt two in
    let count = length (tokens (char b'|') job) in
    rw
      (
        child,
        parses,
        make_pipes_lem os (count - 1) (fork ∷ h) opens,
        run_commands_lem os fd (tokens (char b'|') job) argv 0 none
            (new_pipes os (count - 1) (fork ∷ h)) (opened os (count - 1) (fork ∷ h)) two forks plain
            cells,
      )
      refl
