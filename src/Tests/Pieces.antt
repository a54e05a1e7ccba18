-- ===== src/Tests/Pieces.antt =====
-- Reads and writes in pieces, erases by pages, and the blocks and tables that are decoded.
use updi_programmer.Prelude.{ℕ, ◌+◌, ◌≡◌, refl, false, none, some, List, [], ◌∷◌, arith}
use updi_programmer.Exec.{ok, err, protocol_error}
use updi_programmer.Exec.Triple.{for_each}
use updi_programmer.Phys.{Phys}
use updi_programmer.Link.Base.{repeat}
use updi_programmer.ReadWrite.Refuses.{repeat_cases}
use updi_programmer.Nvm.{nvm_p0}
use updi_programmer.App.Sib.{decode_sib, is_ascii, strip}
use updi_programmer.App.Sib.Fields.{decode_sib-block}
use updi_programmer.Provider.{Avr, Options, Utils, erase, is_paged, read, write}
use updi_programmer.Provider.Memory.{MemoryName, MemoryInfo, same_name}
use updi_programmer.Provider.Read.{range, Serves, read_lem}
use updi_programmer.Provider.Write.{Tiles, write_pieces, write-Tiles}
use updi_programmer.Provider.Erase.{page_starts, Covers, erase-Covers}
use updi_programmer.Target.Line.{Line, quiet}
use updi_programmer.Target.Line.Direct.{phy}
use updi_programmer.Devices.Ea.{avr64ea28}
use updi_programmer.Devices.Table.{Fits, row, row-Fits}
use updi_programmer.Tests.Data.{exceptions, preset_p3, fresh, greeting, idle_bus}

-- a device whose every byte is 0xA5
abbrev content : ℕ → ℕ
content a = 0xA5

abbrev avr : Avr ℕ
avr = record {
  nvm = nvm_p0 idle_bus;
  read_device_info = λ s. (ok tt, s);
  read_data = λ a n s. (ok (range content a n), s);
  enter_progmode = λ s. (ok tt, s);
  leave_progmode = λ s. (ok tt, s);
  unlock = λ s. (ok tt, s);
  write_user_row_locked_device = λ a bytes s. (ok tt, s);
}

-- utilities that leave the data as they are
abbrev utils : Utils
utils = record {
  pagealign = λ bytes offset page_size write_size. (bytes, offset);
  pad_to_size = λ bytes size value. bytes;
  unpack_be24 = λ bytes. 0;
}

abbrev options : Options
options = record { user_row_locked_device = false; chip_erase_locked_device = false }

abbrev flash : MemoryInfo
flash = record {
  name = MemoryName.flash;
  address = 0x8000;
  size = 256;
  page_size = 64;
  write_size = 2;
}

avr-Serves : Serves avr (λ _. Unit) content 0x10000
avr-Serves = record { read_data_lem = λ a n s h p q b. (s, refl, tt) }

read_lem_example :
    (s : ℕ) × (read avr flash 3 700 0 ≡ (ok (range content (3 + 0x8000) 700), s)) × Unit {0}
read_lem_example =
    read_lem avr (λ _. Unit) content 0x10000 avr-Serves flash 3 700 0 tt (omega arith)

write-Tiles_example :
    (pieces : List (ℕ × List ℕ)) × Tiles 64 (0 + 0x8000) greeting pieces
    × (write avr utils options flash 0 greeting ≡ write_pieces avr MemoryName.flash pieces)
unfolding same_name is_paged
write-Tiles_example = write-Tiles avr utils options flash 0 greeting refl (omega arith)

erase-Covers_example :
    (erase avr exceptions (some flash) none
      ≡ for_each avr.nvm.erase_flash_page (page_starts 0x8000 64 4))
    × Covers 64 0x8050 (page_starts 0x8000 64 4)
erase-Covers_example =
    erase-Covers avr exceptions flash 4 0x8050 refl (omega arith) refl (omega arith) (omega arith)

abbrev port : Phys Line
port = phy preset_p3 230400

repeat_cases_example :
    (repeat port 200 (quiet fresh) ≡ port.send (0x55 ∷ 0xA0 ∷ 199 ∷ []) (quiet fresh))
    × (repeat port 258 (quiet fresh) ≡ (err protocol_error, quiet fresh))
    × (repeat port 257 (quiet fresh) ≡ repeat port 1 (quiet fresh))
    × (repeat port 0 (quiet fresh) ≡ repeat port 256 (quiet fresh))
repeat_cases_example =
    repeat_cases port (quiet fresh) 200 258 (omega arith) (omega arith) (omega arith)

-- `tinyAVR P:0D:1-3M2 (01.59B14.0)`
decode_sib-block_example :
    decode_sib (
      b't' ∷ b'i' ∷ b'n' ∷ b'y' ∷ b'A' ∷ b'V' ∷ b'R' ∷ b' ' ∷ b'P' ∷ b':' ∷ b'0' ∷ b'D' ∷ b':'
      ∷ b'1' ∷ b'-' ∷ b'3' ∷ b'M' ∷ b'2' ∷ b' ' ∷ b'(' ∷ b')' ∷ [])
    ≡ ok (
        some (record {
          family = b't' ∷ b'i' ∷ b'n' ∷ b'y' ∷ b'A' ∷ b'V' ∷ b'R' ∷ [];
          nvm = b'0' ∷ [];
          ocd = b'1' ∷ [];
          osc = b'3' ∷ b'M' ∷ b'2' ∷ [];
          extra = b'(' ∷ b')' ∷ [];
        }))
unfolding strip is_ascii
decode_sib-block_example =
    decode_sib-block b't' b'i' b'n' b'y' b'A' b'V' b'R' b'P' b'0' b'D' b'1' b'3' b'M' b'2' b' ' b' '
      b'-' (b'(' ∷ b')' ∷ []) refl (record { ascii = refl; solid = refl; plain = refl })
      (record { ascii = refl; solid = refl; plain = refl })
      (record { ascii = refl; solid = refl; plain = refl })
      (record { ascii = refl; solid = refl; plain = refl })

row-Fits_example : Fits (row avr64ea28)
row-Fits_example = row-Fits 0 refl
