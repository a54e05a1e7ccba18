-- ===== src/Provider/Read.antt =====
-- `read` of nvmserialupdi.py, which reads a memory in pieces of at most 256 bytes.
use updi_programmer.Prelude.{
  ℕ, zero, suc, ◌+◌, ◌-◌, ◌<◌, ◌≤◌, ◌≡◌, ap, ◌∙◌, List, [], ◌∷◌, ◌++◌, arith, ltb, if◌then◌else◌,
}
use mathlib.Core.List.{append_assoc, append-nil}
use updi_programmer.Exec.{ok}
use updi_programmer.Provider.{Avr, read, read_loop}
use updi_programmer.Provider.Memory.{MemoryInfo}

-- the bytes of a memory from `a` up
unfoldable pub range : (ℕ → ℕ) → ℕ → ℕ → List ℕ
range content a zero = []
range content a (suc n) = content a ∷ range content (a + 1) n

-- What the provider relies on: below `limit`, in the states of `P`, a read of 1 to 256 bytes
-- returns the device's content and stays in `P`.
pub record Serves {S : Type 0} (avr : Avr S) (P : S → Type 0) (content : ℕ → ℕ) (limit : ℕ)
    : Type 0 where
  pub read_data_lem :
      (a n : ℕ) (s : S)
      → P s
      → 0 < n
      → n ≤ 256
      → a + n ≤ limit
      → (s' : S) × (avr.read_data a n s ≡ (ok (range content a n), s')) × P s'

range-append :
    (content : ℕ → ℕ) (a k n : ℕ)
    → k ≤ n
    → range content a k ++ range content (a + k) (n - k) ≡ range content a n
unfolding range
range-append content a zero n h =
    let z : a + 0 ≡ a = omega arith in let m : n - 0 ≡ n = omega arith in rw (z, m)
range-append content a (suc k) zero h = absurd (omega arith)
range-append content a (suc k) (suc n) h =
    let z : a + suc k ≡ a + 1 + k = omega arith in
    let m : suc n - suc k ≡ n - k = omega arith in
    rw (z, m) (ap (λ (l : List ℕ). content a ∷ l) (range-append content (a + 1) k n (omega arith)))

module _ {S : Type 0} (avr : Avr S) (P : S → Type 0) (content : ℕ → ℕ) (limit : ℕ)
    (serves : Serves avr P content limit) where
  chunk_fits :
      (chunk n : ℕ)
      → 0 < n
      → 0 < chunk
      → chunk ≤ 256
      → let k = if ltb n chunk then n else chunk in (0 < k) × (k ≤ 256) × (k ≤ n)
  chunk_fits chunk n h p q = ground arith

  read_loop_lem :
      (fuel chunk a n : ℕ) (acc : List ℕ) (s : S)
      → P s
      → n ≤ fuel
      → 0 < chunk
      → chunk ≤ 256
      → a + n ≤ limit
      → (s' : S) × (read_loop avr fuel chunk a n acc s ≡ (ok (acc ++ range content a n), s')) × P s'
  unfolding read_loop
  read_loop_lem fuel chunk a zero acc s h f p q b = (s, unfold range in rw append-nil, h)
  read_loop_lem zero chunk a (suc n) acc s h f p q b = elim f [ ]
  read_loop_lem (suc fuel) chunk a (suc n) acc s h f p q b =
      let k = if ltb (suc n) chunk then suc n else chunk in
      let fits = chunk_fits chunk (suc n) (omega arith) p q in
      let (s', here, h') = serves.read_data_lem a k s h fits.0 fits.1 (omega arith) in
      let (s'', rest, h'') =
        read_loop_lem fuel k (a + k) (suc n - k) (acc ++ range content a k) s' h' (omega arith)
          fits.0 fits.1 (omega arith) in
      (
        s'',
        rw here (
            rest
            ∙ ap (λ (l : List ℕ). (ok l, s''))
                (append_assoc acc (range content a k) (range content (a + k) (suc n - k))
                  ∙ ap (λ (l : List ℕ). acc ++ l) (range-append content a k (suc n) fits.2))),
        h'',
      )

  -- Where single reads of 1 to 256 bytes below a limit return the device's content, `read` of a range
  -- of any length below the limit returns the content of the whole range.
  pub read_lem :
      (info : MemoryInfo) (offset n : ℕ) (s : S)
      → P s
      → offset + info.address + n ≤ limit
      → (s' : S) × (read avr info offset n s ≡ (ok (range content (offset + info.address) n), s'))
        × P s'
  unfolding read
  read_lem info offset n s h b =
      read_loop_lem n 0x100 (offset + info.address) n [] s h (omega arith) (omega arith)
        (omega arith) b
