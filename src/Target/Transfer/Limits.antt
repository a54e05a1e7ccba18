-- ===== src/Target/Transfer/Limits.antt =====
-- The sizes that readwrite.py transfers and those that it refuses, over a link to the target.
use updi_programmer.Prelude.{
  ℕ, ◌+◌, ◌*◌, ◌%◌, ◌^◌, ◌<◌, ◌≤◌, ◌≡◌, refl, List, arith, ltb, le→ltb, ltb→lt, Bool-cases, inl,
  inr, if◌then◌else◌,
}
use native.Mathlib.Nat.{mod-eq_of_lt}
use updi_programmer.Prelude.Lists.{length}
use updi_programmer.Exec.{ok, err, protocol_error, raise_if}
use updi_programmer.Link.{Datalink}
use updi_programmer.ReadWrite.{read_data, read_data_words, write_data_words}
use updi_programmer.ReadWrite.Refuses.{
  read_data_refused, read_data_words_refused, write_data_words_refused,
}
use updi_programmer.Target.Memory.{Preset, read_range}
use updi_programmer.Target.Device.{Core, store_all}
use updi_programmer.Target.Line.{Line, quiet}
use updi_programmer.Target.Link.{Speaks}
use updi_programmer.Target.Transfer.{IsBytes, read_data_lem}
use updi_programmer.Target.Transfer.Words.{write_data_words_lem}

module _ (preset : Preset) (space : ℕ) (dl : Datalink Line) (link : Speaks preset space dl) where
  pub read_data_words_lem :
      (a w : ℕ) (e : Core)
      → e.repeat_next ≡ 0
      → 0 < w
      → w ≤ 128
      → a < space
      → read_data_words dl a w (quiet e) ≡ (
        ok (read_range preset e.memory a (w * 2)),
        quiet (record e { repeat_next = 0; ptr = (a + w * 2) % 2 ^ 32 }),
      )
  unfolding read_data_words raise_if
  read_data_words_lem a w e r p q s =
      let inside : a % space ≡ a = mod-eq_of_lt s in
      elim (Bool-cases (ltb 1 w)) [
        | inl more ↦
            rw
              (
                le→ltb 128 w q,
                link.st_ptr_lem a e,
                more,
                link.repeat_lem w _ p (omega arith),
                inside,
              )
              (link.ld_ptr_inc16_lem w _ (omega arith) (omega arith))
        | inr one ↦
            rw (le→ltb 128 w q, link.st_ptr_lem a e, one, inside)
              (link.ld_ptr_inc16_lem w _ (grind arith) (omega arith))
      ]

  read_data_limit :
      (a n : ℕ) (e : Core)
      → e.repeat_next ≡ 0
      → 0 < n
      → a < space
      → (e' : Core) × (read_data dl a n (quiet e) ≡ (
        if ltb 256 n then err protocol_error else ok (read_range preset e.memory a n),
        quiet e',
      ))
        × (e'.memory ≡ e.memory)
  read_data_limit a n e r p s = elim (Bool-cases (ltb 256 n)) [
    | inl over ↦ (e, rw over (read_data_refused dl (quiet e) a n (ltb→lt 256 n over)), refl)
    | inr fits ↦ (
      record e { repeat_next = 0; ptr = (a + n) % 2 ^ 32 },
      rw fits (read_data_lem preset space dl link a n e r p (grind arith) s),
      refl,
    )
  ]

  read_data_words_limit :
      (a w : ℕ) (e : Core)
      → e.repeat_next ≡ 0
      → 0 < w
      → a < space
      → (e' : Core) × (read_data_words dl a w (quiet e) ≡ (
        if ltb 128 w then err protocol_error else ok (read_range preset e.memory a (w * 2)),
        quiet e',
      ))
        × (e'.memory ≡ e.memory)
  read_data_words_limit a w e r p s = elim (Bool-cases (ltb 128 w)) [
    | inl over ↦ (e, rw over (read_data_words_refused dl (quiet e) a w (ltb→lt 128 w over)), refl)
    | inr fits ↦ (
      record e { repeat_next = 0; ptr = (a + w * 2) % 2 ^ 32 },
      rw fits (read_data_words_lem a w e r p (grind arith) s),
      refl,
    )
  ]

  write_data_words_limit :
      (a words : ℕ) (bs : List ℕ) (e : Core)
      → e.repeat_next ≡ 0
      → IsBytes bs
      → length bs ≡ words * 2
      → 0 < words
      → a + length bs ≤ space
      → (e' : Core) × (write_data_words dl a bs (quiet e)
          ≡ (if ltb 512 (length bs) then err protocol_error else ok tt, quiet e'))
        × (e'.memory ≡ (if ltb 512 (length bs) then e.memory else store_all preset a bs e.memory))
  write_data_words_limit a words bs e r v n p s = elim (Bool-cases (ltb 512 (length bs))) [
    | inl over ↦ (
      e,
      rw over (write_data_words_refused dl (quiet e) a bs (ltb→lt 512 (length bs) over)),
      rw over,
    )
    | inr fits ↦
        (let (e', written, stored, _) =
            write_data_words_lem preset space dl link a words bs e r v n p (grind arith) s in
          (e', rw fits written, rw fits stored))
  ]

  -- Through a link that speaks to a quiet target with no repeat pending, from an address that the link
  -- can express: `read_data` of at least one byte returns the bytes of the range where they are 256 at
  -- most and raises a protocol error where they are more; `read_data_words` of at least one word does
  -- so with 128 words as its bound; and `write_data_words` of an even number of bytes within the
  -- addresses, at least two, returns and stores them where they are 512 at most and raises a protocol
  -- error where they are more. Reads and refused writes leave the memory alone, and the target is
  -- quiet in every case.
  pub transfer_limits :
      (a n w words : ℕ) (bs : List ℕ) (e : Core)
      → e.repeat_next ≡ 0
      → IsBytes bs
      → length bs ≡ words * 2
      → 0 < n
      → 0 < w
      → 0 < words
      → a + length bs ≤ space
      → ((e1 : Core) × (read_data dl a n (quiet e) ≡ (
        if ltb 256 n then err protocol_error else ok (read_range preset e.memory a n),
        quiet e1,
      ))
          × (e1.memory ≡ e.memory))
        × ((e2 : Core) × (read_data_words dl a w (quiet e) ≡ (
          if ltb 128 w then err protocol_error else ok (read_range preset e.memory a (w * 2)),
          quiet e2,
        ))
            × (e2.memory ≡ e.memory))
        × ((e3 : Core) × (write_data_words dl a bs (quiet e)
              ≡ (if ltb 512 (length bs) then err protocol_error else ok tt, quiet e3))
            × (e3.memory
                ≡ (if ltb 512 (length bs) then e.memory else store_all preset a bs e.memory)))
  transfer_limits a n w words bs e r v m p q h s = (
    read_data_limit a n e r p (omega arith),
    read_data_words_limit a w e r q (omega arith),
    write_data_words_limit a words bs e r v m h s,
  )
