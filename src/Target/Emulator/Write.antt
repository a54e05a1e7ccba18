-- ===== src/Target/Emulator/Write.antt =====
-- The page loop of updi/updi_session.c, run on the emulator.
use updi_programmer.Prelude.{
  some, ℕ, zero, suc, ◌+◌, ◌-◌, ◌*◌, ◌%◌, ◌^◌, ◌<◌, ◌≤◌, ◌≡◌, refl, ap, ◌∙◌, Bool, true, List, [],
  ◌∷◌, ◌++◌, arith, if◌then◌else◌, Bool-cases, inl, inr,
}
use updi_programmer.Prelude.Lists.{length, take, drop, length-append}
use updi_programmer.Devices.Table.{Row}
use updi_programmer.Port.Call.{Outcome, done, give}
use updi_programmer.Port.Nvm.Memory as NvmMemory
use updi_programmer.Port.Session.{
  UpdiSession, on_link, on_nvm, all_ff, fill_ff, page_buffer, write_page,
}
use updi_programmer.Target.Memory.{Preset, Memory, mem_read, read_range}
use updi_programmer.Target.Device.{Core, store_all}
use updi_programmer.Target.Flash.{read_range-flash}
use updi_programmer.Target.Transfer.{IsBytes}
use updi_programmer.Target.Transfer.RoundTrip.{InFlash, mem_read-store_all}
use updi_programmer.Target.Transfer.Frame.{
  mem_read-flash, mem_read-store_all_above, read_range-store_all_prefix,
}
use updi_programmer.Target.Emulator.{Emu, emu_transport, at_rest, reach}
use updi_programmer.Target.Emulator.Data.{reach_small}
use updi_programmer.Target.Emulator.Nvm.{Describes, write_flash_page_lem}

length-fill_ff : (n : ℕ) → length (fill_ff n) ≡ n
unfolding fill_ff
length-fill_ff zero = refl
length-fill_ff (suc n) = ap suc (length-fill_ff n)

fill_ff-IsBytes : (n : ℕ) → IsBytes (fill_ff n)
unfolding fill_ff
fill_ff-IsBytes zero = tt
fill_ff-IsBytes (suc n) = (omega arith, fill_ff-IsBytes n)

append-IsBytes : (xs ys : List ℕ) → IsBytes xs → IsBytes ys → IsBytes (xs ++ ys)
append-IsBytes [] ys p q = q
append-IsBytes (x ∷ xs) ys p q = (p.0, append-IsBytes xs ys p.1 q)

pub take-IsBytes : (n : ℕ) (xs : List ℕ) → IsBytes xs → IsBytes (take n xs)
take-IsBytes zero [] p = tt
take-IsBytes (suc n) [] p = tt
take-IsBytes zero (x ∷ xs) p = tt
take-IsBytes (suc n) (x ∷ xs) p = (p.0, take-IsBytes n xs p.1)

pub drop-IsBytes : (n : ℕ) (xs : List ℕ) → IsBytes xs → IsBytes (drop n xs)
drop-IsBytes zero xs p = p
drop-IsBytes (suc n) [] p = tt
drop-IsBytes (suc n) (x ∷ xs) p = drop-IsBytes n xs p.1

length-page_buffer :
    (page : ℕ) (xs : List ℕ) → length xs ≤ page → length (page_buffer page xs) ≡ page
unfolding page_buffer
length-page_buffer page xs p =
    omega (arith, length-append xs (fill_ff (page - length xs)), length-fill_ff (page - length xs))

page_buffer-IsBytes : (page : ℕ) (xs : List ℕ) → IsBytes xs → IsBytes (page_buffer page xs)
unfolding page_buffer
page_buffer-IsBytes page xs p =
    append-IsBytes xs (fill_ff (page - length xs)) p (fill_ff-IsBytes (page - length xs))

all_ff-append : (xs ys : List ℕ) → all_ff (xs ++ ys) ≡ true → all_ff xs ≡ true
unfolding all_ff
all_ff-append [] ys h = refl
all_ff-append (x ∷ xs) ys h =
    let rest : all_ff (xs ++ ys) ≡ true = ground arith in
    let ih = all_ff-append xs ys rest in ground arith

module _ (preset : Preset) where
  -- the range is erased
  abbrev pub Erased : Memory → ℕ → ℕ → Type 0
  Erased m a n = (j : ℕ) → a ≤ j → j < a + n → mem_read preset m j ≡ 0xFF

  Erased-read_range :
      (a : ℕ) (xs : List ℕ) (m : Memory)
      → all_ff xs ≡ true
      → a + length xs < 2 ^ 32
      → Erased m a (length xs)
      → read_range preset m a (length xs) ≡ xs
  unfolding all_ff read_range
  Erased-read_range a [] m h b e = refl
  Erased-read_range a (x ∷ xs) m h b e =
      let next : (a + 1) % 2 ^ 32 ≡ a + 1 = omega arith in
      let here : mem_read preset m a ≡ x = e a (omega arith) (omega arith) ∙ ground arith in
      let others : all_ff xs ≡ true = ground arith in
      rw (next, here)
        (ap (λ (l : List ℕ). x ∷ l)
          (Erased-read_range (a + 1) xs m others (omega arith)
            (λ j p q. e j (omega arith) (omega arith))))

-- Pages of an even number of bytes that the session's buffer can hold.
pub record HasPages (d : Row) (words : ℕ) : Type 0 where
  pub page : d.flash_page_size ≡ words * 2
  pub some_words : 0 < words
  pub buffer : words ≤ 128

module _ (preset : Preset) (d : Row) (h : Describes preset d) (wait : ℕ) (wide : Bool) (words : ℕ)
    (pages : HasPages d words) (s : UpdiSession Emu) where
  -- the session with its link at rest
  abbrev pub live : Bool → Core → ℕ → UpdiSession Emu
  live ack e now = record s { link = at_rest wide wait ack e now }

  abbrev pub page_size : ℕ
  page_size = d.flash_page_size

  -- `call` puts `xs` at `a`, and changes nothing in the flash but the page at `a`
  abbrev Puts :
      (UpdiSession Emu → Outcome Unit × UpdiSession Emu) → ℕ → List ℕ → Bool → Core → ℕ → Type 0
  Puts call a xs ack e now =
      (ack' : Bool) × (e' : Core) × (now' : ℕ) × (call (live ack e now)
        ≡ (done tt, live ack' e' now'))
      × (read_range preset e'.memory a (length xs) ≡ xs)
      × ((j : ℕ)
          → InFlash preset j 1
          → j < a
          → mem_read preset e'.memory j ≡ mem_read preset e.memory j)
      × ((j : ℕ)
          → InFlash preset j 1
          → a + page_size ≤ j
          → mem_read preset e'.memory j ≡ mem_read preset e.memory j)
      × (e'.repeat_next ≡ 0)

  page_written :
      s.nvm_device ≡ some d
      → (a now : ℕ) (ack : Bool) (xs : List ℕ) (e : Core) → e.repeat_next ≡ 0
      → IsBytes xs
      → length xs ≤ page_size
      → a + page_size ≤ reach wide
      → InFlash preset a page_size
      → Puts
          (on_nvm λ row.
            NvmMemory.write_flash_page (emu_transport preset) row a (page_buffer page_size xs))
          a
          xs
          ack
          e
          now
  unfolding on_nvm on_link
  page_written nvm a now ack xs e r v p q f =
      let buf = page_buffer page_size xs in
      let fill = fill_ff (page_size - length xs) in
      let size = length-page_buffer page_size xs p in
      let whole = pages.page in
      let most = pages.buffer in
      let inside : InFlash preset a (length buf) = rw size f in
      let (ack', e', now', ends, flash, r') =
        write_flash_page_lem preset d h wait wide ack a words now buf e r
          (page_buffer-IsBytes page_size xs v) (omega arith) pages.some_words (omega arith)
          (omega arith) (omega arith) inside in
      (
        ack',
        e',
        now',
        rw (nvm, ends),
        read_range-flash preset a (length xs) e'.memory (store_all preset a buf e.memory)
              (omega arith) flash
            ∙ (unfold page_buffer in
                read_range-store_all_prefix preset a xs fill e.memory
                  (omega (arith, length-fill_ff (page_size - length xs)))),
        λ j k l.
            mem_read-flash preset j e'.memory (store_all preset a buf e.memory) k flash
            ∙ mem_read-store_all preset a j buf e.memory inside k l,
        λ j k l.
            mem_read-flash preset j e'.memory (store_all preset a buf e.memory) k flash
            ∙ mem_read-store_all_above preset a j buf e.memory inside k (omega arith),
        r',
      )

  page_lem :
      s.nvm_device ≡ some d
      → (a now : ℕ) (ack : Bool) (xs : List ℕ) (e : Core) → e.repeat_next ≡ 0
      → IsBytes xs
      → length xs ≤ page_size
      → a + page_size ≤ reach wide
      → InFlash preset a page_size
      → Erased preset e.memory a page_size
      → Puts
          (let buf = page_buffer page_size xs in
            if all_ff buf
            then give tt
            else on_nvm λ row. NvmMemory.write_flash_page (emu_transport preset) row a buf)
          a
          xs
          ack
          e
          now
  unfolding page_buffer give
  page_lem nvm a now ack xs e r v p q f erased =
      let small = reach_small wide in
      elim (Bool-cases (all_ff (page_buffer page_size xs))) [
        | inl skipped ↦ (
          ack,
          e,
          now,
          rw skipped,
          Erased-read_range preset a xs e.memory
              (all_ff-append xs (fill_ff (page_size - length xs)) (unfold page_buffer in skipped))
              (omega arith) (λ j k l. erased j k (omega arith)),
          λ j k l. refl,
          λ j k l. refl,
          r,
        )
        | inr needed ↦ rw needed (page_written nvm a now ack xs e r v p q f)
      ]

  pub write_page_lem :
      s.nvm_device ≡ some d
      → (off now : ℕ) (ack : Bool) (xs : List ℕ) (e : Core) → e.repeat_next ≡ 0
      → IsBytes xs
      → length xs ≤ page_size
      → d.flash_address + off + page_size ≤ reach wide
      → InFlash preset (d.flash_address + off) page_size
      → Erased preset e.memory (d.flash_address + off) page_size
      → Puts
          (write_page (emu_transport preset) d off (page_buffer page_size xs))
          (d.flash_address + off)
          xs
          ack
          e
          now
  unfolding write_page
  write_page_lem nvm off now ack xs e r v p q f erased =
      let small = reach_small wide in
      let some_page = pages.page in
      let here : (d.flash_address + off) % 2 ^ 32 ≡ d.flash_address + off = omega arith in
      rw here (page_lem nvm (d.flash_address + off) now ack xs e r v p q f erased)
