-- ===== src/Shell/Draft/Runs.antt =====
-- p2/mysh.c: what the draft does with its one line.
use sp.Base.{
  ℕ, zero, suc, ◌+◌, ◌≤◌, ◌<◌, ◌≡◌, refl, false, none, some, List, [], ◌∷◌, ◌++◌, ◌==◌, ltb, lt→ltb,
  if◌then◌else◌, length, length-append, arith, ℤ, pos, negsuc, eqb_ℤ, CString, has_byte,
  is_nonempty, keep, All, Room, Written, Holds, Room-Holds, inr, Bool-cases, inl,
}
use sp.Shell.Process.{
  fork, error_message, prompt, waitpid, write_out, History, Os, Result, returns, exits,
}
use sp.Shell.Parser.{Argv, char, lead, skip, token, cut, parse_loop}
use sp.Shell.Parser.Tokens.{to_first, split, tokens, length-tokens}
use sp.Shell.Parser.Laws.{args_of, parse_tokens}
use sp.Shell.Basic.{get_command_mode}
use sp.Shell.Single.Jobs.{InParent, is_parent}
use sp.Shell.Draft.{
  argv_size, gaps, waiting, execute_single_command, commands_loop, cut_twice, parse_last, run_mode,
  main,
}

length-token : (delims s : CString) → length (token delims s) ≤ length s
unfolding token
length-token delims [] = omega arith
length-token delims (c ∷ s) = ground (arith, length-token delims s)

length-cut : (delims s : CString) → length (cut delims s) ≤ length s
unfolding cut lead skip token
length-cut delims [] = omega arith
length-cut delims (c ∷ s) = ground (arith, length-cut delims s, length-token delims s)

-- The pieces are no longer than the string.
abbrev Shorter : ℕ → List CString → Type 0
Shorter n = All (λ p. length p ≤ n)

Shorter-suc : (n : ℕ) (ps : List CString) → Shorter n ps → Shorter (suc n) ps
Shorter-suc n [] k = tt
Shorter-suc n (p ∷ ps) k = (omega (arith, k.0), Shorter-suc n ps k.1)

Shorter-to_first : (c n : ℕ) (ps : List CString) → Shorter n ps → Shorter (suc n) (to_first c ps)
Shorter-to_first c n [] k = tt
Shorter-to_first c n (p ∷ ps) k = (omega (arith, k.0), Shorter-suc n ps k.1)

split-Shorter : (delims s : CString) → Shorter (length s) (split delims s)
unfolding split
split-Shorter delims [] = (omega arith, tt)
split-Shorter delims (c ∷ s) = elim (Bool-cases (has_byte delims c)) [
  | inl end ↦ rw end (omega arith, Shorter-suc (length s) (split delims s) (split-Shorter delims s))
  | inr more ↦ rw more (Shorter-to_first c (length s) (split delims s) (split-Shorter delims s))
]

keep-Shorter : (n : ℕ) (ps : List CString) → Shorter n ps → Shorter n (keep is_nonempty ps)
keep-Shorter n [] k = tt
keep-Shorter n ([] ∷ ps) k = keep-Shorter n ps k.1
keep-Shorter n ((c ∷ p) ∷ ps) k = (k.0, keep-Shorter n ps k.1)

-- The vector of the pieces of a string that fits.
parse_array :
    (argv : Argv) (delims s : CString)
    → Room argv 0 argv_size
    → length s < argv_size
    → Written argv 0 (args_of (tokens delims s)) (parse_loop (suc (length s)) delims s argv 0)
parse_array argv delims s room lt = parse_tokens delims s argv argv_size room lt (omega arith)

abbrev first_argv : Os → History → Argv
first_argv os h i = if ltb i argv_size then some (os.stack h i) else none

Room-first_argv : (os : Os) (h : History) (i n : ℕ) → i + n ≤ argv_size → Room (first_argv os h) i n
Room-first_argv os h i zero le = tt
Room-first_argv os h i (suc n) le = (
  (os.stack h i, rw (lt→ltb i argv_size (omega arith)) refl),
  Room-first_argv os h (suc i) n (omega arith),
)

did_fork : (p : ℕ) → eqb_ℤ (pos (suc p)) (negsuc 0) ≡ false
did_fork p = ground arith

-- The calls of one command, and of commands that run one after the other.
abbrev pub waited : Os → CString → History → History
waited os cmd h =
    waitpid (os.answer (fork ∷ h)) ∷ write_out (waiting ++ cut gaps cmd ++ char b'\n') ∷ fork ∷ h

abbrev pub ran : (ℤ → CString) → Os → List CString → History → History
ran decimal os [] h = h
ran decimal os (cmd ∷ cmds) h =
    ran decimal os cmds
      (write_out (decimal (os.answer (waited os cmd h)) ++ char b'\n') ∷ waited os cmd h)

execute_single_command_lem :
    (os : Os) (cmd : CString) (h : History)
    → InParent os
    → length cmd < argv_size
    → execute_single_command os cmd h ≡ returns (os.answer (waited os cmd h)) (waited os cmd h)
unfolding execute_single_command
execute_single_command_lem os cmd h forks lt =
    let w =
      parse_array (first_argv os h) gaps cmd (Room-first_argv os h 0 argv_size (omega arith)) lt in
    let (p, forked) = forks h in rw (w.returns, forked, did_fork p, is_parent p) refl

commands_loop_lem :
    (decimal : ℤ → CString) (n : ℕ) (os : Os) (argv : Argv) (i : ℕ) (cmds : List CString)
    (h : History)
    → InParent os
    → All (λ cmd. length cmd ≤ 511) cmds
    → Holds argv i (args_of cmds)
    → length cmds < n
    → commands_loop decimal n os argv i h ≡ returns tt (ran decimal os cmds h)
unfolding commands_loop
commands_loop_lem decimal zero os argv i cmds h forks short cells lt = absurd (omega arith)
commands_loop_lem decimal (suc n) os argv i [] h forks short cells lt = rw cells.0 refl
commands_loop_lem decimal (suc n) os argv i (cmd ∷ cmds) h forks short cells lt =
    rw (cells.0, execute_single_command_lem os cmd h forks (omega (arith, short.0)))
      (commands_loop_lem decimal n os argv (suc i) cmds _ forks short.1 cells.1 (omega arith))

parse_last_lem :
    (s : CString) (argv : Argv) (h : History)
    → Room argv 0 argv_size
    → length s < argv_size
    → parse_last s argv h ≡ exits 0 h
unfolding parse_last
parse_last_lem s argv h room lt = let w = parse_array argv gaps s room lt in rw w.returns refl

Shorter-le : (n m : ℕ) (ps : List CString) → n ≤ m → Shorter n ps → Shorter m ps
Shorter-le n m [] le k = tt
Shorter-le n m (p ∷ ps) le k = (omega (arith, k.0), Shorter-le n m ps le k.1)

length-cut_twice : (s : CString) → length (cut_twice s) ≤ length s
unfolding cut_twice cut
length-cut_twice s =
    let first = token (char b';') (skip (char b';') s) in
    let whole = length-cut (char b';') s in
    let piece = length-cut gaps first in
    omega (
      arith,
      whole,
      piece,
      length-append (lead (char b';') s) first,
      length-append (lead (char b';') s) (cut gaps first),
    )

-- What the draft does with a line, by its mode.
abbrev pub done : (ℤ → CString) → Os → CString → History → Result (Unit {0})
done decimal os s h =
    if get_command_mode s == 3
    then exits 1 (error_message ∷ h)
    else (if get_command_mode s == 1
        then exits 0 (ran decimal os (tokens (char b';') s) h)
        else exits 0 h)

tokens-Shorter : (delims s : CString) → length s < argv_size → Shorter 511 (tokens delims s)
tokens-Shorter delims s lt =
    Shorter-le (length s) 511 (tokens delims s) (omega arith)
      (keep-Shorter (length s) (split delims s) (split-Shorter delims s))

-- What is parsed at the end where a string was parsed into the vector before.
finish_parsed :
    (delims s s' : CString) (argv : Argv) (h : History)
    → (room : Room argv 0 argv_size) → (lt : length s < argv_size) → length s' ≤ length s
    → parse_last s' (parse_array argv delims s room lt).final h ≡ exits 0 h
finish_parsed delims s s' argv h room lt le =
    let w = parse_array argv delims s room lt in
    parse_last_lem s' w.final h
      (Room-Holds argv w.final 0 argv_size (args_of (tokens delims s)) room w.holds
        (λ j above. w.outside j (inr above)))
      (omega arith)

run_mode_lem :
    (decimal : ℤ → CString) (n : ℕ) (os : Os) (s : CString) (argv : Argv) (h : History)
    → InParent os
    → Room argv 0 argv_size
    → length s < argv_size
    → length s + 1 < n
    → run_mode decimal n os s argv (get_command_mode s) h ≡ done decimal os s h
unfolding run_mode
run_mode_lem decimal n os s argv h forks room lt enough =
    elim (Bool-cases (get_command_mode s == 3)) [
      | inl both ↦ rw both refl
      | inr not_both ↦ elim (Bool-cases (get_command_mode s == 1)) [
        | inl sequential ↦
            let w = parse_array argv (char b';') s room lt in
            rw
              (
                not_both,
                sequential,
                w.returns,
                commands_loop_lem decimal n os w.final 0 (tokens (char b';') s) h forks
                    (tokens-Shorter (char b';') s lt) w.holds
                    (omega (arith, length-tokens (char b';') s)),
              )
              (finish_parsed (char b';') s (cut_twice s) argv _ room lt (length-cut_twice s))
        | inr other ↦ elim (Bool-cases (get_command_mode s == 2)) [
          | inl parallel ↦
              let w = parse_array argv (char b'+') s room lt in
              rw (not_both, other, parallel, w.returns)
                (finish_parsed (char b'+') s (cut (char b'+') s) argv h room lt
                  (length-cut (char b'+') s))
          | inr single ↦ rw (not_both, other, single) (parse_last_lem s argv h room lt)
        ]
      ]
    ]

-- Where every `fork` answers with a positive process id, on a line of fewer than 512 bytes, with
-- two rounds more than it has bytes, `main` of the draft agrees with a description by cases, where
-- a final newline is cut off: it prints the prompt, and then a line with `;` and `+` ends with the
-- error message and status 1, a line with `;` alone forks and waits for each of its pieces that are
-- not empty, in order, with what is printed, and ends with status 0, and any other line ends with
-- status 0 though nothing was run.
pub draft_main_lem :
    (decimal : ℤ → CString) (n : ℕ) (os : Os) (input : CString) (h : History)
    → InParent os
    → length input < argv_size
    → length input + 1 < n
    → main decimal n os input h ≡ done decimal os (cut (char b'\n') input) (prompt ∷ h)
unfolding main
draft_main_lem decimal n os input h forks lt enough =
    let le = length-cut (char b'\n') input in
    run_mode_lem decimal n os (cut (char b'\n') input) (first_argv os h) (prompt ∷ h) forks
      (Room-first_argv os h 0 argv_size (omega arith)) (omega arith) (omega arith)
