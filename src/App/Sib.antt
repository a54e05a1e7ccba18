-- ===== src/App/Sib.antt =====
-- `decode_sib` of reference/pymcuprog/serialupdi/application.py: the fixed-width fields of the
-- system information block.
pub mod Fields
use updi_programmer.Prelude.{
  ℕ, Bool, true, not, ◌&&◌, ◌||◌, Option, none, some, List, [], ◌∷◌, reverse, ltb, leb, ◌==◌,
  if◌then◌else◌,
}
use updi_programmer.Prelude.Lists.{length, take, drop}
use updi_programmer.Exec.{Result, ok, err, index_error}

pub record SibInfo : Type 0 where
  pub family : List ℕ
  pub nvm : List ℕ
  pub ocd : List ℕ
  pub osc : List ℕ
  pub extra : List ℕ

-- `sib.decode('ascii')` raises no error.
unfoldable pub is_ascii : List ℕ → Bool
is_ascii [] = true
is_ascii (c ∷ cs) = ltb c 128 && is_ascii cs

-- the bytes that `strip` removes: space, and tab to carriage return
abbrev pub is_space : ℕ → Bool
is_space c = c == 32 || (leb 9 c && leb c 13)

unfoldable pub lstrip : List ℕ → List ℕ
lstrip [] = []
lstrip (c ∷ cs) = if is_space c then lstrip cs else c ∷ cs

-- `bytes.strip()`
unfoldable pub strip : List ℕ → List ℕ
unfolding lstrip
strip cs = reverse (lstrip (reverse (lstrip cs)))

-- the text up to the next colon
unfoldable pub until_colon : List ℕ → List ℕ
until_colon [] = []
until_colon (c ∷ cs) = if c == b':' then [] else c ∷ until_colon cs

-- `text.split(':')[1]`, or none where the index is out of range
unfoldable pub second_field : List ℕ → Option (List ℕ)
unfolding until_colon
second_field [] = none
second_field (c ∷ cs) = if c == b':' then some (until_colon cs) else second_field cs

-- `sib[a:b]`
abbrev pub slice : ℕ → ℕ → List ℕ → List ℕ
slice start len cs = take len (drop start cs)

unfoldable pub split_fields : List ℕ → Option (List ℕ) → Option (List ℕ) → Result (Option SibInfo)
split_fields sib none ocd = err index_error
split_fields sib (some nvm) none = err index_error
split_fields sib (some nvm) (some ocd) = ok (
    some (record {
      family = strip (slice 0 7 sib);
      nvm = nvm;
      ocd = ocd;
      osc = strip (slice 15 4 sib);
      extra = strip (drop 19 sib);
    }))

-- None where the text is not ASCII or too short; a field with no colon raises.
unfoldable pub decode_sib : List ℕ → Result (Option SibInfo)
decode_sib sib =
    if not (is_ascii sib) || ltb (length sib) 19
    then ok none
    else split_fields sib (second_field (strip (slice 8 3 sib)))
        (second_field (strip (slice 11 3 sib)))
