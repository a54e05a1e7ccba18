-- ===== src/Port/Session/Mismatches.antt =====
-- The comparison of bytes of updi/updi_session.c.
use updi_programmer.Prelude.{
  ℕ, suc, ◌+◌, ◌≡◌, ◌≢◌, refl, ap, true, Bool-cases, inl, inr, Option, none, some, List, [], ◌∷◌,
  ◌++◌, arith, ◌==◌,
}
use updi_programmer.Prelude.Lists.{length, get_elem?, take}
use updi_programmer.Port.Session.{Mismatch, first_mismatch}

-- the first mismatch of two parts
unfoldable pub pick : Option Mismatch → Option Mismatch → Option Mismatch
pick (some m) next = some m
pick none next = next

pub first_mismatch-append :
    (off : ℕ) (xs ys zs bs : List ℕ)
    → length xs ≡ length zs
    → first_mismatch off (xs ++ ys) (zs ++ bs)
      ≡ pick (first_mismatch off xs zs) (first_mismatch (off + length xs) ys bs)
unfolding first_mismatch pick
first_mismatch-append off [] ys [] bs h = let z : off + 0 ≡ off = omega arith in rw z
first_mismatch-append off [] ys (a ∷ zs) bs h = absurd (omega arith)
first_mismatch-append off (x ∷ xs) ys [] bs h = absurd (omega arith)
first_mismatch-append off (x ∷ xs) ys (a ∷ zs) bs h =
    let next : off + suc (length xs) ≡ off + 1 + length xs = omega arith in
    let others = first_mismatch-append (off + 1) xs ys zs bs (omega arith) in
    elim (Bool-cases (x == a)) [ inl same ↦ rw (same, next) others | inr other ↦ rw other ]

-- the bytes that were meant to be there are
pub same_bytes : (off : ℕ) (xs : List ℕ) → first_mismatch off xs xs ≡ none
unfolding first_mismatch
same_bytes off [] = refl
same_bytes off (x ∷ xs) =
    let same : (x == x) ≡ true = ground arith in rw same (same_bytes (off + 1) xs)

-- no mismatch means the same bytes
pub first_mismatch_sound :
    (off : ℕ) (xs ys : List ℕ) → length xs ≡ length ys → first_mismatch off xs ys ≡ none → xs ≡ ys
unfolding first_mismatch
first_mismatch_sound off [] [] h e = refl
first_mismatch_sound off [] (y ∷ ys) h e = absurd (omega arith)
first_mismatch_sound off (x ∷ xs) [] h e = absurd (omega arith)
first_mismatch_sound off (x ∷ xs) (y ∷ ys) h e = elim (Bool-cases (x == y)) [
  | inl same ↦
      (let here : x ≡ y = ground arith in
        let rest = first_mismatch_sound (off + 1) xs ys (omega arith) (rw same at e) in
        rw (here, rest))
  | inr other ↦ (let never = rw other at e in cc)
]

-- The lists first differ at index `i`, where they hold the two bytes of the mismatch.
pub record DiffersAt (m : Mismatch) (i : ℕ) (held meant : List ℕ) : Type 0 where
  pub is_actual : get_elem? held i ≡ some m.actual
  pub is_expected : get_elem? meant i ≡ some m.expected
  pub differ : m.expected ≢ m.actual
  pub same_before : take i held ≡ take i meant

-- What a comparison says of two lists of bytes: that they are the same, or where they first differ.
abbrev pub Reports : Option Mismatch → List ℕ → List ℕ → Type 0
Reports none held meant = held ≡ meant
Reports (some m) held meant = DiffersAt m m.offset held meant

first_mismatch-DiffersAt :
    (off : ℕ) (xs ys : List ℕ) (m : Mismatch)
    → first_mismatch off xs ys ≡ some m
    → (i : ℕ) × (m.offset ≡ off + i) × DiffersAt m i xs ys
unfolding first_mismatch
first_mismatch-DiffersAt off [] ys m e = cc
first_mismatch-DiffersAt off (x ∷ xs) [] m e = cc
first_mismatch-DiffersAt off (x ∷ xs) (y ∷ ys) m e = elim (Bool-cases (x == y)) [
  | inl same ↦
      (let here : x ≡ y = ground arith in
        let (i, place, d) = first_mismatch-DiffersAt (off + 1) xs ys m (rw same at e) in
        (
          suc i,
          omega arith,
          record {
            is_actual = d.is_actual;
            is_expected = d.is_expected;
            differ = d.differ;
            same_before = rw here (ap (λ (l : List ℕ). y ∷ l) d.same_before);
          },
        ))
  | inr other ↦
      (let found : some (record { offset = off; expected = y; actual = x }) ≡ some m =
          rw other at e in
        let this : record { offset = off; expected = y; actual = x } ≡ m = cc in
        rw (← this) (
          0,
          omega arith,
          record {
            is_actual = refl;
            is_expected = refl;
            differ = ground arith;
            same_before = refl;
          },
        ))
]

first_mismatch_reported :
    (xs ys : List ℕ) (r : Option Mismatch)
    → length xs ≡ length ys
    → first_mismatch 0 xs ys ≡ r
    → Reports r xs ys
first_mismatch_reported xs ys none h e = first_mismatch_sound 0 xs ys h e
first_mismatch_reported xs ys (some m) h e =
    let (i, place, d) = first_mismatch-DiffersAt 0 xs ys m e in
    let here : i ≡ m.offset = omega arith in rw here at d

-- what the code's comparison of two lists of the same length says is right
pub first_mismatch-Reports :
    (xs ys : List ℕ) → length xs ≡ length ys → Reports (first_mismatch 0 xs ys) xs ys
first_mismatch-Reports xs ys h = first_mismatch_reported xs ys (first_mismatch 0 xs ys) h refl
