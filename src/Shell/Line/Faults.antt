-- ===== src/Shell/Line/Faults.antt =====
-- p2/shell.c: a blank line at the prompt, and a job without a process id.
use sp.Base.{
  ℕ, zero, suc, ◌≤◌, ◌<◌, ◌≡◌, refl, subst, true, false, Option, none, some, List, [], ◌∷◌, length,
  arith, lt→ltb, ℤ, pos, ltb_ℤ, Array, CString, has_byte, Holds, All,
}
use sp.Shell.Process.{null, text, History, Os, crash, loops, prompt}
use sp.Shell.Parser.{Argv, blanks, cut}
use sp.Shell.Parser.Tokens.{split, tokens}
use sp.Shell.Parser.Laws.{args_of}
use sp.Shell.Parser.Whole.{tokens_whole}
use sp.Shell.Basic.{get_command_mode_lem, is_empty_line, strspn, string_of, command_name}
use sp.Shell.Single.{execute_atomic_command}
use sp.Shell.Single.Jobs.{job-checks, parse_fresh, after_check}
use sp.Shell.Line.{sequential_loop, wait_loop, interactive_loop, execute_current_line, main}
use sp.Shell.Line.Sequential.{parse_line}

AllBlank : CString → Type 0
AllBlank = All (λ c. has_byte blanks c ≡ true)

strspn-length : (s set : CString) → strspn s set ≤ length s
unfolding strspn
strspn-length [] set = omega arith
strspn-length (c ∷ s) set = ground (arith, strspn-length s set)

is_empty_line-AllBlank : (s : CString) → strspn s blanks ≡ length s → AllBlank s
unfolding strspn AllBlank
is_empty_line-AllBlank [] e = tt
is_empty_line-AllBlank (c ∷ s) e =
    (ground (arith, e), is_empty_line-AllBlank s (ground (arith, e, strspn-length s blanks)))

blank_lacks : (d : ℕ) (s : CString) → has_byte blanks d ≡ false → AllBlank s → has_byte s d ≡ false
unfolding has_byte AllBlank
blank_lacks d [] e a = refl
blank_lacks d (c ∷ s) e (b, a) = ground (arith, e, b, blank_lacks d s)

blank_tokens : (s : CString) → AllBlank s → tokens blanks s ≡ []
unfolding split AllBlank
blank_tokens [] a = refl
blank_tokens (c ∷ s) (b, a) = rw (b) (blank_tokens s a)

atomic-crashes :
    (os : Os) (fd : ℤ) (job : CString) (h : History)
    → 2 ≤ os.max_length
    → tokens blanks job ≡ []
    → length job < os.max_length
    → execute_atomic_command os fd job none none h ≡ crash
unfolding execute_atomic_command command_name string_of
atomic-crashes os fd job h two none_there lt =
    let w = parse_fresh os h blanks job lt two in
    let cells : Holds w.final 0 (null ∷ []) =
      subst (λ ts. Holds w.final 0 (args_of ts)) none_there w.holds in
    rw (lt→ltb (length job) os.max_length lt, w.returns, cells.0) refl

-- Where MAX_LENGTH is at least 3, on a line of blanks that is not empty and shorter than
-- MAX_LENGTH, `executeCurrentLine` passes a null pointer to `strcmp`, which is undefined.
pub blank_line_crash :
    (n : ℕ) (os : Os) (c : ℕ) (s : CString) (h : History)
    → 3 ≤ os.max_length
    → is_empty_line (c ∷ s) ≡ true
    → length (c ∷ s) < os.max_length
    → execute_current_line (suc n) os (c ∷ s) h ≡ crash
unfolding execute_current_line is_empty_line sequential_loop
blank_line_crash n os c s h three empty lt =
    let blank = is_empty_line-AllBlank (c ∷ s) (ground (arith, empty)) in
    let lacks = λ (d : ℕ) (e : has_byte blanks d ≡ false). blank_lacks d (c ∷ s) e blank in
    let p = parse_line os h b';' (c ∷ s) lt (omega arith) in
    let one = tokens_whole b';' c s (lacks b';' (unfold has_byte in refl)) in
    let cells : Holds p.second 0 (text (c ∷ s) ∷ null ∷ []) =
      subst (λ ts. Holds p.second 0 (args_of ts)) one p.jobs in
    rw
      (
        lt→ltb (length (c ∷ s)) os.max_length lt,
        p.parses_first,
        get_command_mode_lem (c ∷ s),
        lacks b';' (unfold has_byte in refl),
        lacks b'+' (unfold has_byte in refl),
        p.parses_second,
        cells.0,
        job-checks os c s h three (lacks b'>' (unfold has_byte in refl))
            (lacks b'|' (unfold has_byte in refl)) lt,
        atomic-crashes os (pos 1) (c ∷ s) (after_check os h) (omega arith)
            (blank_tokens (c ∷ s) blank) lt,
      )
      refl

-- At the prompt an empty line ends like that.
pub main_blank_line :
    (k n : ℕ) (os : Os) (file : CString → Option (List CString)) (typed : List CString)
    (buffer : CString) (h : History)
    → 3 ≤ os.max_length
    → main (suc k) (suc n) os file ((b'\n' ∷ []) ∷ typed) buffer [] h ≡ crash
unfolding main interactive_loop execute_current_line cut has_byte
main_blank_line k n os file typed buffer h three =
    rw
      (blank_line_crash n os b'\n' [] (prompt ∷ h) three
        (unfold is_empty_line strspn has_byte in refl) (omega arith))
      refl

-- At a job whose process id is not above 0, the loop that waits for the jobs of the parallel mode
-- makes no call and uses up any number of rounds.
wait_loop_hang :
    (n : ℕ) (argv : Argv) (pids : Array ℤ) (i : ℕ) (job : CString) (pid : ℤ) (h : History)
    → argv i ≡ some (text job)
    → pids i ≡ some pid
    → ltb_ℤ (pos 0) pid ≡ false
    → wait_loop n argv pids i h ≡ loops h
unfolding wait_loop
wait_loop_hang zero argv pids i job pid h cell id low = refl
wait_loop_hang (suc n) argv pids i job pid h cell id low =
    rw (cell, id, low) (wait_loop_hang n argv pids i job pid h cell id low)
