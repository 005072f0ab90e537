-- ===== src/Base/Arrays.antt =====
-- C arrays: an index either names an element of the object or is out of bounds.
use Prim.Native.Nat.{ℕ, zero, suc, ◌+◌, ◌≤◌, ◌<◌}
use mathlib.Core.Path.{◌≡◌, refl, subst, ◌∙◌}
use mathlib.Core.Logic.{◌≢◌, ◌⊎◌, inl, inr}
use mathlib.Core.List.{List, [], ◌∷◌, ◌++◌}
use mathlib.Core.Option.{Option, none, some}
use native.Mathlib.Omega.{arith}
use sp.Base.Tests.{ltb, ◌==◌, if◌then◌else◌, lt→ltb, Bool-cases}
use sp.Base.Lists.{length}
use sp.Base.Outcomes.{Outcome, ok, fault, or_fault}

abbrev pub Array {ℓ} : Type ℓ → Type ℓ
Array A = ℕ → Option A

module _ {ℓ} {A : Type ℓ} where
  -- `calloc (n, sizeof (A))`, every element holding the zero `z`.
  abbrev pub calloc : ℕ → A → Array A
  calloc n z i = if ltb i n then some z else none

  abbrev pub update : Array A → ℕ → A → Array A
  update f i a j = if i == j then some a else f j

  abbrev pub load : Array A → ℕ → Outcome A
  load f i = or_fault (f i)

  -- A store out of bounds is a fault.
  abbrev pub store : Array A → ℕ → A → Outcome (Array A)
  store f i a = elim (f i) [ none ↦ fault | some _ ↦ ok (update f i a) ]

  -- The elements from `i` on are those of the list.
  abbrev pub Holds : Array A → ℕ → List A → Type ℓ
  Holds f i [] = Unit
  Holds f i (x ∷ xs) = (f i ≡ some x) × Holds f (suc i) xs

  -- The `n` elements from `i` on are there.
  abbrev pub Room : Array A → ℕ → ℕ → Type ℓ
  Room f i zero = Unit
  Room f i (suc n) = ((x : A) × (f i ≡ some x)) × Room f (suc i) n

  -- The run `r` stores `zs` from `k` on in the array `f`, and nothing else.
  pub record Written (f : Array A) (k : ℕ) (zs : List A) (r : Outcome (Array A)) : Type ℓ where
    pub final : Array A
    pub returns : r ≡ ok final
    pub holds : Holds final k zs
    pub outside : (j : ℕ) → (j < k) ⊎ (k + length zs ≤ j) → final j ≡ f j

module _ {ℓ} {A : Type ℓ} where
  pub Holds-append :
      (f : Array A) (i : ℕ) (xs ys : List A)
      → Holds f i xs
      → Holds f (i + length xs) ys
      → Holds f i (xs ++ ys)
  Holds-append f i [] ys h k = subst (λ n. Holds f n ys) (omega arith) k
  Holds-append f i (x ∷ xs) ys h k =
      (h.0, Holds-append f (suc i) xs ys h.1 (subst (λ n. Holds f n ys) (omega arith) k))

  pub Holds-split :
      (f : Array A) (i : ℕ) (xs ys : List A)
      → Holds f i (xs ++ ys)
      → Holds f i xs × Holds f (i + length xs) ys
  Holds-split f i [] ys h = (tt, subst (λ n. Holds f n ys) (omega arith) h)
  Holds-split f i (x ∷ xs) ys h =
      let (before, after) = Holds-split f (suc i) xs ys h.1 in
      ((h.0, before), subst (λ n. Holds f n ys) (omega arith) after)

  -- What two arrays have in common on a range.
  pub Holds-agree :
      (f g : Array A) (i : ℕ) (xs : List A)
      → ((j : ℕ) → i ≤ j → j < i + length xs → g j ≡ f j)
      → Holds f i xs
      → Holds g i xs
  Holds-agree f g i [] same h = tt
  Holds-agree f g i (x ∷ xs) same h = (
    same i (omega arith) (omega arith) ∙ h.0,
    Holds-agree f g (suc i) xs (λ j p q. same j (omega arith) (omega arith)) h.1,
  )

  pub Holds-Room : (f : Array A) (i : ℕ) (xs : List A) → Holds f i xs → Room f i (length xs)
  Holds-Room f i [] h = tt
  Holds-Room f i (x ∷ xs) h = ((x, h.0), Holds-Room f (suc i) xs h.1)

  pub Room-update : (f : Array A) (i n k : ℕ) (a : A) → Room f i n → Room (update f k a) i n
  Room-update f i zero k a h = tt
  Room-update f i (suc n) k a ((x, e), h) = elim (Bool-cases (k == i)) [
    | inl hit ↦ ((a, rw hit), Room-update f (suc i) n k a h)
    | inr miss ↦ ((x, rw miss e), Room-update f (suc i) n k a h)
  ]

  pub Room-calloc : (n i m : ℕ) (z : A) → i + m ≤ n → Room (calloc n z) i m
  Room-calloc n i zero z h = tt
  Room-calloc n i (suc m) z h =
      ((z, rw (lt→ltb i n (omega arith))), Room-calloc n (suc i) m z (omega arith))

  -- What is there after some elements from `i` on were stored.
  pub Room-Holds :
      (f g : Array A) (i n : ℕ) (zs : List A)
      → Room f i n
      → Holds g i zs
      → ((j : ℕ) → i + length zs ≤ j → g j ≡ f j)
      → Room g i n
  Room-Holds f g i zero zs r h same = tt
  Room-Holds f g i (suc n) [] ((x, e), r) h same = (
    (x, same i (omega arith) ∙ e),
    Room-Holds f g (suc i) n [] r tt (λ j le. same j (omega arith)),
  )
  Room-Holds f g i (suc n) (z ∷ zs) (x, r) h same =
      ((z, h.0), Room-Holds f g (suc i) n zs r h.1 (λ j le. same j (omega arith)))

  pub store_lem :
      (f : Array A) (k : ℕ) {x : A} (a : A) → f k ≡ some x → store f k a ≡ ok (update f k a)
  store_lem f k a e = rw (e, store)

  pub Written-nil : (f : Array A) (k : ℕ) → Written f k [] (ok f)
  Written-nil f k = record { final = f; returns = refl; holds = tt; outside = λ j h. refl }

  -- One more element in front of what a run stores.
  pub Written-cons :
      (f : Array A) (k : ℕ) (x : A) (zs : List A) (r : Outcome (Array A))
      → Written (update f k x) (suc k) zs r
      → Written f k (x ∷ zs) r
  Written-cons f k x zs r w = record {
    final = w.final;
    returns = w.returns;
    holds = (w.outside k (inl (omega arith)) ∙ hit, w.holds);
    outside = λ j h. w.outside j (omega arith) ∙ miss j h;
  }
    where
      hit : update f k x k ≡ some x
      hit = ground arith

      miss : (j : ℕ) → (j < k) ⊎ (k + length (x ∷ zs) ≤ j) → update f k x j ≡ f j
      miss j h = ground arith

  pub update_hit : (f : Array A) (i : ℕ) (a : A) → update f i a i ≡ some a
  update_hit f i a = ground arith

  pub update_miss : (f : Array A) (i j : ℕ) (a : A) → i ≢ j → update f i a j ≡ f j
  update_miss f i j a h = ground arith
