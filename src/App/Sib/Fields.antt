-- ===== src/App/Sib/Fields.antt =====
-- What `decode_sib` reads out of a system information block laid out as the specification has it.
use updi_programmer.Prelude.{
  ℕ, ◌≡◌, true, false, some, List, [], ◌∷◌, ◌++◌, arith, ltb, ◌==◌, le→ltb,
}
use updi_programmer.Prelude.Lists.{length}
use updi_programmer.Exec.{ok}
use updi_programmer.App.Sib.{decode_sib, is_ascii, is_space, strip, second_field, split_fields}

-- a printable character that stands for itself in a field
pub record IsMark (c : ℕ) : Type 0 where
  pub ascii : ltb c 128 ≡ true
  pub solid : is_space c ≡ false
  pub plain : (c == b':') ≡ false

-- `x:n`, three characters
abbrev tag : ℕ → ℕ → List ℕ
tag x n = x ∷ b':' ∷ n ∷ []

strip-tag : (x n : ℕ) → IsMark x → IsMark n → strip (tag x n) ≡ tag x n
unfolding strip
strip-tag x n hx hn = rw (hx.solid, hn.solid)

second_field-tag : (x n : ℕ) → IsMark x → IsMark n → second_field (tag x n) ≡ some (n ∷ [])
unfolding second_field
second_field-tag x n hx hn = rw (hx.plain, hn.plain)

-- seven, then four, characters of free text
abbrev pub text7 : (a b c d e f g : ℕ) → List ℕ
text7 a b c d e f g = a ∷ b ∷ c ∷ d ∷ e ∷ f ∷ g ∷ []

abbrev pub text4 : (a b c d : ℕ) → List ℕ
text4 a b c d = a ∷ b ∷ c ∷ d ∷ []

module _ (a b c d e f g : ℕ) (p n o v : ℕ) (h i j k : ℕ) (gap gap' : ℕ) (extra : List ℕ) where
  -- family, a gap, `p:n`, `o:v`, a gap, oscillator, and the rest
  abbrev pub block : List ℕ
  block =
      text7 a b c d e f g ++ (gap ∷ p ∷ b':' ∷ n ∷ o ∷ b':' ∷ v ∷ gap' ∷ (text4 h i j k ++ extra))

  -- A block of ASCII characters with its fields in place decodes to those fields: the characters
  -- behind the two colons, and the free text stripped of its blanks.
  pub decode_sib-block :
      is_ascii block ≡ true
      → IsMark p
      → IsMark n
      → IsMark o
      → IsMark v
      → decode_sib block
        ≡ ok (
            some (record {
              family = strip (text7 a b c d e f g);
              nvm = n ∷ [];
              ocd = v ∷ [];
              osc = strip (text4 h i j k);
              extra = strip extra;
            }))
  unfolding decode_sib split_fields
  decode_sib-block ascii hp hn ho hv = rw (
    ascii,
    le→ltb (length block) 19 (omega arith),
    strip-tag p n hp hn,
    strip-tag o v ho hv,
    second_field-tag p n hp hn,
    second_field-tag o v ho hv,
  )
