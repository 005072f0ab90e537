-- ===== src/Shell/Parser/Whole.antt =====
-- p2/parser.c: a string without the delimiter is one token, and `strtok` leaves it as it is.
use sp.Base.{ℕ, ◌≡◌, refl, false, ◌||◌, [], ◌∷◌, arith, CString, has_byte, ◌==◌}
use sp.Shell.Parser.{char, lead, skip, token, cut}
use sp.Shell.Parser.Tokens.{split, tokens}

module _ (d : ℕ) where
  split_whole : (s : CString) → has_byte s d ≡ false → split (char d) s ≡ s ∷ []
  unfolding split has_byte
  split_whole [] e = refl
  split_whole (c ∷ s) e =
      let (other, more) : (d == c || false ≡ false) × (has_byte s d ≡ false) =
        (ground (arith, e), ground (arith, e)) in
      rw (other, split_whole s more) refl

  token_whole : (s : CString) → has_byte s d ≡ false → token (char d) s ≡ s
  unfolding token has_byte
  token_whole [] e = refl
  token_whole (c ∷ s) e = ground (arith, token_whole s)

  pub tokens_whole :
      (c : ℕ) (s : CString) → has_byte (c ∷ s) d ≡ false → tokens (char d) (c ∷ s) ≡ (c ∷ s) ∷ []
  tokens_whole c s e = rw (split_whole (c ∷ s) e) refl

  pub lead_whole : (s : CString) → has_byte s d ≡ false → lead (char d) s ≡ []
  unfolding lead has_byte
  lead_whole [] e = refl
  lead_whole (c ∷ s) e = ground (arith, e)

  pub cut_whole : (s : CString) → has_byte s d ≡ false → cut (char d) s ≡ s
  unfolding cut lead skip has_byte
  cut_whole [] e = unfold token in refl
  cut_whole (c ∷ s) e = ground (arith, e, token_whole (c ∷ s) e)
