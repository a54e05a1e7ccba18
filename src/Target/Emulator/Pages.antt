-- ===== src/Target/Emulator/Pages.antt =====
-- All the pages of a flash image, put into the emulator by the loop of updi/updi_session.c.
use updi_programmer.Prelude.{
  some, ℕ, zero, suc, ◌+◌, ◌*◌, ◌^◌, ◌<◌, ◌≤◌, ◌≡◌, refl, ap, sym, ◌∙◌, Bool, ◌⊎◌, inl, inr, List,
  [], ◌∷◌, arith, ltb, ltb→lt, Bool-cases,
}
use native.Mathlib.Nat.{suc-mul}
use updi_programmer.Prelude.Lists.{
  length, take, drop, take-append-drop, drop_of_length_le, length-drop, length-take,
}
use updi_programmer.Devices.Table.{Row}
use updi_programmer.Port.Call.{done}
use updi_programmer.Port.Session.{UpdiSession, page_buffer, write_page, write_pages}
use updi_programmer.Target.Memory.{Preset, Memory, mem_read, read_range}
use updi_programmer.Target.Device.{Core}
use updi_programmer.Target.Transfer.{IsBytes}
use updi_programmer.Target.Transfer.RoundTrip.{InFlash}
use updi_programmer.Target.Transfer.Frame.{read_range-ext, read_range-split}
use updi_programmer.Target.Emulator.{Emu, emu_transport, reach}
use updi_programmer.Target.Emulator.Data.{reach_small}
use updi_programmer.Target.Emulator.Nvm.{Describes}
use updi_programmer.Target.Emulator.Read.{same_range}
use updi_programmer.Target.Emulator.Write.{
  HasPages, Erased, live, write_page_lem, take-IsBytes, drop-IsBytes,
}

module _ (preset : Preset) (d : Row) (h : Describes preset d) (wait : ℕ) (wide : Bool) (words : ℕ)
    (pages : HasPages d words) (s : UpdiSession Emu) where
  abbrev session : Bool → Core → ℕ → UpdiSession Emu
  session = live preset d h wait wide words pages s

  -- one round of the loop
  write_round :
      (fuel off b now now1 : ℕ) (ack ack1 : Bool) (rest : List ℕ) (e e1 : Core)
      → write_page
          (emu_transport preset)
          d
          off
          (page_buffer d.flash_page_size (take d.flash_page_size (b ∷ rest)))
          (session ack e now)
        ≡ (done tt, session ack1 e1 now1)
      → write_pages
          (emu_transport preset)
          d
          (suc fuel)
          d.flash_page_size
          off
          (b ∷ rest)
          (session ack e now)
        ≡ write_pages
            (emu_transport preset)
            d
            fuel
            d.flash_page_size
            (off + d.flash_page_size)
            (drop d.flash_page_size (b ∷ rest))
            (session ack1 e1 now1)
  unfolding write_pages
  write_round fuel off b now now1 ack ack1 rest e e1 step = rw step

  -- a part is whole, or nothing is left behind it
  at_end : (k : ℕ) (bs : List ℕ) → (length (take k bs) ≡ k) ⊎ (drop k bs ≡ [])
  at_end k bs = elim (Bool-cases (ltb k (length bs))) [
    | inl more ↦ inl (let m = ltb→lt k (length bs) more in omega (arith, length-take k bs))
    | inr enough ↦ inr (drop_of_length_le k bs (grind arith))
  ]

  -- what two parts of the range hold
  joined :
      (a k : ℕ) (bs : List ℕ) (m : Memory)
      → a + length bs < 2 ^ 32
      → read_range preset m a (length (take k bs)) ≡ take k bs
      → read_range preset m (a + k) (length (drop k bs)) ≡ drop k bs
      → read_range preset m a (length bs) ≡ bs
  unfolding read_range
  joined a k bs m b first others =
      let xs = take k bs in
      let ys = drop k bs in
      let whole : length xs + length ys ≡ length bs =
        omega (arith, length-take k bs, length-drop k bs) in
      let behind : read_range preset m (a + length xs) (length ys) ≡ ys = elim (at_end k bs) [
        | inl full ↦ same_range preset (ap (λ n. a + n) full) refl refl ∙ others
        | inr none_left ↦ rw none_left
      ] in
      sym (same_range preset refl whole refl)
      ∙ read_range-split preset a (length xs) (length ys) m (omega arith)
      ∙ rw (first, behind) (take-append-drop k bs)

  pub write_pages_lem :
      s.nvm_device ≡ some d
      → (fuel count off now : ℕ) (ack : Bool) (bs : List ℕ) (e : Core) → e.repeat_next ≡ 0
      → IsBytes bs
      → length bs ≤ fuel
      → length bs ≤ count * d.flash_page_size
      → d.flash_address + off + count * d.flash_page_size ≤ reach wide
      → InFlash preset (d.flash_address + off) (count * d.flash_page_size)
      → Erased preset e.memory (d.flash_address + off) (count * d.flash_page_size)
      → (ack' : Bool) × (e' : Core) × (now' : ℕ) × (write_pages
            (emu_transport preset)
            d
            fuel
            d.flash_page_size
            off
            bs
            (session ack e now)
          ≡ (done tt, session ack' e' now'))
        × (read_range preset e'.memory (d.flash_address + off) (length bs) ≡ bs)
        × ((j : ℕ)
            → InFlash preset j 1
            → j < d.flash_address + off
            → mem_read preset e'.memory j ≡ mem_read preset e.memory j)
        × (e'.repeat_next ≡ 0)
  unfolding write_pages read_range
  write_pages_lem nvm zero count off now ack [] e r v f c b i erased =
      (ack, e, now, refl, refl, λ j k l. refl, r)
  write_pages_lem nvm (suc fuel) count off now ack [] e r v f c b i erased =
      (ack, e, now, refl, refl, λ j k l. refl, r)
  write_pages_lem nvm zero count off now ack (x ∷ xs) e r v f c b i erased = absurd (omega arith)
  write_pages_lem nvm (suc fuel) zero off now ack (x ∷ xs) e r v f c b i erased =
      absurd (omega arith)
  write_pages_lem nvm (suc fuel) (suc count) off now ack (x ∷ xs) e r v f c b i erased =
      let bs = x ∷ xs in
      let page = d.flash_page_size in
      let a = d.flash_address + off in
      let size : suc count * page ≡ page + count * page = omega (arith, suc-mul count page) in
      let small = reach_small wide in
      let nonempty = pages.some_words in
      let shape = pages.page in
      let first = take page bs in
      let others = drop page bs in
      let (ack1, e1, now1, step, held, below, above, r1) =
        write_page_lem preset d h wait wide words pages s nvm off now ack first e r
          (take-IsBytes page bs v) (omega (arith, length-take page bs)) (omega arith) (omega arith)
          (λ j p q. erased j p (omega arith)) in
      let (ack', e', now', ends, held', below', r') =
        write_pages_lem nvm fuel count (off + page) now1 ack1 others e1 r1 (drop-IsBytes page bs v)
          (omega (arith, length-drop page bs)) (omega (arith, length-drop page bs)) (omega arith)
          (omega arith)
          (λ j p q. above j (omega arith) (omega arith) ∙ erased j (omega arith) (omega arith)) in
      let next : d.flash_address + (off + page) ≡ a + page = omega arith in
      let kept : read_range preset e'.memory a (length first)
          ≡ read_range preset e1.memory a (length first) =
        read_range-ext preset a (length first) e'.memory e1.memory
          (omega (arith, length-take page bs))
          (λ j p q.
            below' j (omega (arith, length-take page bs)) (omega (arith, length-take page bs))) in
      (
        ack',
        e',
        now',
        write_round fuel off x now now1 ack ack1 xs e e1 step ∙ ends,
        joined a page bs e'.memory (omega arith) (kept ∙ held)
            (same_range preset (sym next) refl refl ∙ held'),
        λ j p q. below' j p (omega arith) ∙ below j p q,
        r',
      )
