-- ===== src/Rio/Writes.antt =====
-- p5/cs537.c: `rio_writen` writes all of its bytes, in as many pieces as it takes.
use sp.Base.{
  ℕ, suc, ◌+◌, ◌-◌, ◌≤◌, ◌<◌, ◌≡◌, ◌∙◌, sym, ap, subst, List, [], ◌∷◌, ◌++◌, take, drop,
  take-append-drop, length, length-take, length-drop, arith, pos, ok, Array, Holds, Holds-split,
}
use mathlib.Core.List.{append-nil, append_assoc}
use sp.Rio.{Write, wrote, refused, refused_by_signal, writen_loop, rio_writen, load_range}
use sp.Rio.Buffer.{load_range_lem}

-- The answers of `write` take up `n` bytes in the end, each at least one and no more than are left.
abbrev pub Takes : List Write → ℕ → Type 0
Takes [] n = n ≡ 0
Takes (refused ∷ ws) n = n ≡ 0
Takes (refused_by_signal ∷ ws) n = Takes ws n
Takes (wrote k ∷ ws) n = (0 < k) × (k ≤ n) × Takes ws (n - k)

writen_loop_lem :
    (ws : List Write) (usr : Array ℕ) (out : List ℕ) (bufp n : ℕ) (xs : List ℕ)
    → Takes ws (length xs)
    → Holds usr bufp xs
    → writen_loop ws usr out bufp n (length xs) ≡ ok (pos n, out ++ xs)
unfolding writen_loop
writen_loop_lem [] usr out bufp n [] t h = ap (λ o. ok (pos n, o)) (sym (append-nil out))
writen_loop_lem (refused ∷ ws) usr out bufp n [] t h =
    ap (λ o. ok (pos n, o)) (sym (append-nil out))
writen_loop_lem (refused_by_signal ∷ ws) usr out bufp n [] t h =
    ap (λ o. ok (pos n, o)) (sym (append-nil out))
writen_loop_lem (wrote k ∷ ws) usr out bufp n [] t h =
    ap (λ o. ok (pos n, o)) (sym (append-nil out))
writen_loop_lem [] usr out bufp n (x ∷ xs) t h = absurd (omega (arith, t))
writen_loop_lem (refused ∷ ws) usr out bufp n (x ∷ xs) t h = absurd (omega (arith, t))
writen_loop_lem (refused_by_signal ∷ ws) usr out bufp n (x ∷ xs) t h =
    writen_loop_lem ws usr out bufp n (x ∷ xs) t h
writen_loop_lem (wrote k ∷ ws) usr out bufp n (x ∷ xs) (more, le, t) h =
    let first = take k (x ∷ xs) in
    let left = drop k (x ∷ xs) in
    let long : length first ≡ k = length-take k (x ∷ xs) le in
    let count : suc (length xs) - k ≡ length left = sym (length-drop k (x ∷ xs)) in
    let (here, there) =
      Holds-split usr bufp first left
        (subst (Holds usr bufp) (sym (take-append-drop k (x ∷ xs))) h) in
    let read : load_range k usr bufp ≡ ok first =
      subst (λ m. load_range m usr bufp ≡ ok first) long (load_range_lem usr bufp first here) in
    rw (read, count)
      (writen_loop_lem ws usr (out ++ first) (bufp + k) n left (subst (Takes ws) count t)
          (subst (λ m. Holds usr (bufp + m) left) long there)
        ∙ ap (λ o. ok (pos n, o))
            (append_assoc out first left ∙ ap (λ zs. out ++ zs) (take-append-drop k (x ∷ xs))))

-- Where the calls of `write` take up n bytes in the end, each between one and those that are left,
-- and may be interrupted in between, `rio_writen` writes the n bytes of the buffer in order and
-- returns n.
pub rio_writen_lem :
    (ws : List Write) (usr : Array ℕ) (xs : List ℕ)
    → Takes ws (length xs)
    → Holds usr 0 xs
    → rio_writen ws usr (length xs) ≡ ok (pos (length xs), xs)
unfolding rio_writen
rio_writen_lem ws usr xs t h = writen_loop_lem ws usr [] 0 (length xs) xs t h
