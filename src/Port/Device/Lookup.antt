-- ===== src/Port/Device/Lookup.antt =====
-- What the lookup of updi/updi_device.c finds in the table of updi/updi_device_table.h, which
-- scripts/gen_device_table.py makes of the device packs.
use updi_programmer.Prelude.{
  leb, ℕ, zero, suc, ◌≡◌, refl, sym, ap, ◌∙◌, Bool, true, false, not, ◌&&◌, some, List, [], ◌∷◌,
  arith, ◌==◌,
}
use updi_programmer.Prelude.Lists.{get_elem?}
use updi_programmer.Devices.Pack.{DevicePack}
use updi_programmer.Devices.Table.{Row, row, parts}
use updi_programmer.Port.Device.{updi_device_table, find_in, find_by_id}

-- the rows of a list of parts
unfoldable rows : List DevicePack → List Row
unfolding row
rows [] = []
rows (p ∷ ps) = row p ∷ rows ps

-- The table that is checked in is what the generator makes of the device packs, in their order.
updi_device_table-rows : updi_device_table ≡ rows parts
unfolding updi_device_table rows
updi_device_table-rows = refl

-- so the lookup is one among the generator's rows
find_by_id-rows : (device_id : ℕ) → find_by_id device_id ≡ find_in device_id (rows parts)
unfolding find_by_id
find_by_id-rows device_id = ap (find_in device_id) updi_device_table-rows

-- a part of the list, with its place
record Part (l : List DevicePack) (d : Row) : Type 0 where
  place : ℕ
  info : DevicePack
  is_at : get_elem? l place ≡ some info
  is_row : row info ≡ d

-- no part of the list has the id
absent : ℕ → List DevicePack → Bool
absent device_id [] = true
absent device_id (p ∷ ps) = not (p.device_id == device_id) && absent device_id ps

distinct : List DevicePack → Bool
distinct [] = true
distinct (p ∷ ps) = absent p.device_id ps && distinct ps

absent_lem :
    (device_id : ℕ) (l : List DevicePack) (i : ℕ) {info : DevicePack}
    → absent device_id l ≡ true
    → get_elem? l i ≡ some info
    → (device_id == info.device_id) ≡ false
unfolding absent
absent_lem device_id [] i h e = cc
absent_lem device_id (p ∷ ps) zero {info} h e =
    let here : p ≡ info = cc in
    let other : (p.device_id == device_id) ≡ false = ground arith in
    let swapped : (device_id == p.device_id) ≡ false = ground arith in rw here at swapped
absent_lem device_id (p ∷ ps) (suc i) h e = absent_lem device_id ps i (ground arith) e

find_in-row :
    (l : List DevicePack) (i : ℕ) {info : DevicePack}
    → distinct l ≡ true
    → get_elem? l i ≡ some info
    → find_in info.device_id (rows l) ≡ some (row info)
unfolding find_in rows distinct
find_in-row [] i h e = cc
find_in-row (p ∷ ps) zero {info} h e =
    let here : info ≡ p = cc in
    let first : (p.device_id == info.device_id) ≡ true =
      rw here (let t : (p.device_id == p.device_id) ≡ true = ground arith in t) in
    let same : row p ≡ row info = ap row (sym here) in rw first (ap some same)
find_in-row (p ∷ ps) (suc i) {info} h e =
    let other = absent_lem p.device_id ps i {info = info} (ground arith) e in
    rw other (find_in-row ps i {info = info} (ground arith) e)

distinct-parts : distinct parts ≡ true
unfolding distinct absent
distinct-parts = refl

-- the pages fit the session's page buffer
buffered : List DevicePack → Bool
buffered [] = true
buffered (p ∷ ps) = leb p.flash.page_size 256 && buffered ps

-- Each part that the generator knows is found by its id, with the row that the generator makes of it.
pub find_by_id-row :
    (i : ℕ) {info : DevicePack}
    → get_elem? parts i ≡ some info
    → find_by_id info.device_id ≡ some (row info)
find_by_id-row i {info} e =
    find_by_id-rows info.device_id ∙ find_in-row parts i {info = info} distinct-parts e
