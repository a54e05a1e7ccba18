-- ===== src/Provider/Erase.antt =====
-- `erase` of nvmserialupdi.py on the flash: the pages that it erases, and what they cover.
use updi_programmer.Prelude.{
  ℕ, zero, suc, ◌+◌, ◌*◌, ◌/◌, ◌<◌, ◌≤◌, ◌≡◌, refl, ap, none, some, List, [], ◌∷◌, arith, ne→==,
}
use native.Mathlib.Decide.{dec_lt}
use native.Mathlib.Nat.{mul-div_cancel}
use updi_programmer.Exec.{Exec, raise_if, ◌>>◌}
use updi_programmer.Exec.Triple.{for_each}
use updi_programmer.Link.Base.{Exceptions}
use updi_programmer.Provider.{Avr, erase, erase_memory, erase_pages}
use updi_programmer.Provider.Memory.{MemoryName, MemoryInfo}

-- the starts of `n` pages from `a` up
unfoldable pub page_starts : ℕ → ℕ → ℕ → List ℕ
page_starts a page_size zero = []
page_starts a page_size (suc n) = a ∷ page_starts (a + page_size) page_size n

-- One of the pages holds the address.
pub data Covers (page_size x : ℕ) : List ℕ → Type 0 where
  here :
      {start : ℕ} {starts : List ℕ}
      → start ≤ x
      → x < start + page_size
      → Covers page_size x (start ∷ starts)
  there :
      {start : ℕ} {starts : List ℕ}
      → Covers page_size x starts
      → Covers page_size x (start ∷ starts)

module _ {S : Type 0} (avr : Avr S) where
  erase_pages-for_each :
      (a page_size n : ℕ)
      → erase_pages avr a page_size n
        ≡ for_each avr.nvm.erase_flash_page (page_starts a page_size n)
  unfolding erase_pages for_each page_starts
  erase_pages-for_each a page_size zero = refl
  erase_pages-for_each a page_size (suc n) =
      ap (λ (m : Exec S Unit). avr.nvm.erase_flash_page a >> m)
        (erase_pages-for_each (a + page_size) page_size n)

page_starts-Covers :
    (a page_size n x : ℕ)
    → a ≤ x
    → x < a + n * page_size
    → Covers page_size x (page_starts a page_size n)
unfolding page_starts
page_starts-Covers a page_size zero x h b = absurd (omega arith)
page_starts-Covers a page_size (suc n) x h b = elim (dec_lt x (a + page_size)) [
  | yes p ↦ here h p
  | no p ↦ there (page_starts-Covers (a + page_size) page_size n x (omega arith) (omega arith))
]

-- Of a flash memory whose size is `pages` pages, with a page size above 0, an erase erases pages one
-- by one, from the memory's address up, and an address `x` of the memory lies in one of them.
pub erase-Covers :
    {S : Type 0} (avr : Avr S) (exceptions : Exceptions) (info : MemoryInfo) (pages x : ℕ)
    → info.name ≡ MemoryName.flash
    → 0 < info.page_size
    → info.size ≡ pages * info.page_size
    → info.address ≤ x
    → x < info.address + info.size
    → let starts = page_starts info.address info.page_size pages in
      (erase avr exceptions (some info) none ≡ for_each avr.nvm.erase_flash_page starts)
      × Covers info.page_size x starts
unfolding erase erase_memory raise_if
erase-Covers avr exceptions info pages x name p size lo hi =
    let exact : info.size / info.page_size ≡ pages = rw size (mul-div_cancel pages p) in
    (
      rw (name, ne→== info.page_size 0 (λ e. omega arith), exact)
          (erase_pages-for_each avr info.address info.page_size pages),
      page_starts-Covers info.address info.page_size pages x lo (omega arith),
    )
