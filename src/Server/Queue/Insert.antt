-- ===== src/Server/Queue/Insert.antt =====
-- p5/server.c: the sequence of requests after an insertion.
use sp.Base.{
  ℕ, zero, suc, ◌+◌, ◌≡◌, ◌≢◌, refl, sym, Bool, true, ◌&&◌, List, [], ◌∷◌, ◌++◌, ltb, arith,
  All-append, leb_ℤ, take, drop, take-append-drop, Bool-cases, inl, inr,
}
use sp.Server.Queue.Chain.{Entry, Avoids, Distinct, insert_within}

-- Whether the loop goes on past `e`.
abbrev pub passes : (ℕ → Bool) → ℕ → Entry → Entry → Bool
passes within count new e = within count && leb_ℤ e.request.st_size new.request.st_size

-- An insertion keeps a list away from an address, and keeps the addresses distinct.
pub Avoids-insert :
    (within : ℕ → Bool) (count x : ℕ) (new : Entry) (es : List Entry)
    → new.addr ≢ x
    → Avoids x es
    → Avoids x (insert_within within count new es)
Avoids-insert within count x new [] p v = (p, tt)
Avoids-insert within count x new (e ∷ es) p v = elim (Bool-cases (passes within count new e)) [
  | inl past ↦ rw past (v.0, Avoids-insert within (suc count) x new es p v.1)
  | inr stop ↦ rw stop (p, v)
]

pub Distinct-insert :
    (within : ℕ → Bool) (count : ℕ) (new : Entry) (es : List Entry)
    → Avoids new.addr es
    → Distinct es
    → Distinct (insert_within within count new es)
Distinct-insert within count new [] v d = (tt, tt)
Distinct-insert within count new (e ∷ es) v d = elim (Bool-cases (passes within count new e)) [
  | inl past ↦ rw past (
    Avoids-insert within (suc count) e.addr new es (λ p. v.0 (sym p)) d.0,
    Distinct-insert within (suc count) new es v.1 d.1,
  )
  | inr stop ↦ rw stop (v, d)
]

pub Distinct-append :
    (new : Entry) (es : List Entry) → Avoids new.addr es → Distinct es → Distinct (es ++ new ∷ [])
Distinct-append new [] v d = (tt, tt)
Distinct-append new (e ∷ es) v d = (
  All-append (λ x. x.addr ≢ e.addr) es (new ∷ []) d.0 (λ p. v.0 (sym p), tt),
  Distinct-append new es v.1 d.1,
)

-- With a bound on the count the request goes among the first ones only.
pub insert_bounded :
    (bound k count other : ℕ) (new : Entry) (es : List Entry)
    → bound ≡ count + k
    → insert_within (λ c. ltb c bound) count new es
      ≡ insert_within (λ c. true) other new (take k es) ++ drop k es
insert_bounded bound zero count other new [] e = refl
insert_bounded bound zero count other new (x ∷ es) e = ground arith
insert_bounded bound (suc k) count other new [] e = refl
insert_bounded bound (suc k) count other new (x ∷ es) e = ground (
  arith,
  insert_bounded bound k (suc count) (suc other) new es (omega arith),
  take-append-drop k es,
)
