-- ===== src/Nvm/Guard/Drivers.antt =====
-- Every operation of every driver keeps the discipline of the NVM controller, whatever the device
-- answers and wherever an exception ends it.
use updi_programmer.Prelude.{ℕ, true, false, List}
use updi_programmer.Exec.{Exec, Result, ok, err}
use updi_programmer.Exec.Triple.{Post}
use updi_programmer.Nvm.{Nvm, nvm_p0, nvm_word, nvm_paged}
use updi_programmer.Nvm.Controller.{Bus, Registers}
use updi_programmer.Nvm.P0
use updi_programmer.Nvm.Word
use updi_programmer.Nvm.Paged
use updi_programmer.Nvm.Log.{Logged, logged}
use updi_programmer.Nvm.Guard.{Rule, Good, Guarded}
use updi_programmer.Nvm.Guard.Rules.{Guards, OnError}
use updi_programmer.Nvm.Guard.Access.{rule_of}
use updi_programmer.Nvm.Guard.P0 as GuardP0
use updi_programmer.Nvm.Guard.Word as GuardWord
use updi_programmer.Nvm.Guard.Paged as GuardPaged

-- the operations of an NVM driver, with their arguments
pub data Operation : Type 0 where
  chip_erase erase_eeprom : Operation
  erase_flash_page : ℕ → Operation
  erase_user_row : ℕ → ℕ → Operation
  write_flash write_user_row write_eeprom write_fuse : ℕ → List ℕ → Operation

abbrev pub perform : {S : Type 0} → Nvm S → Operation → Exec S Unit
perform nvm chip_erase = nvm.chip_erase
perform nvm erase_eeprom = nvm.erase_eeprom
perform nvm (erase_flash_page a) = nvm.erase_flash_page a
perform nvm (erase_user_row a n) = nvm.erase_user_row a n
perform nvm (write_flash a bytes) = nvm.write_flash a bytes
perform nvm (write_user_row a bytes) = nvm.write_user_row a bytes
perform nvm (write_eeprom a bytes) = nvm.write_eeprom a bytes
perform nvm (write_fuse a bytes) = nvm.write_fuse a bytes

module _ {S : Type 0} (bus : Bus S) where
  -- a triple whose two ends agree
  Good-of :
      (rule : Rule) (m : Exec (Logged S) Unit)
      → Guards rule bus (Good rule) m (Good rule)
      → (s : Logged S) → Good rule s
      → Good rule (m s).1
  Good-of rule m t s h = ends (m s) (t.run s h)
    where
      ends :
          (r : Result Unit × Logged S) → Post (λ _. Good rule) (OnError rule bus) r → Good rule r.1
      ends (ok _, s') g = g
      ends (err _, s') g = g

  p0-Disciplined : (op : Operation) → GuardP0.Disciplined bus (perform (nvm_p0 (logged bus)) op)
  unfolding P0.write_flash P0.write_eeprom P0.write_user_row
  p0-Disciplined chip_erase = GuardP0.chip_erase-Disciplined bus
  p0-Disciplined erase_eeprom = GuardP0.erase_eeprom-Disciplined bus
  p0-Disciplined (erase_flash_page a) = GuardP0.erase_flash_page-Disciplined bus a
  p0-Disciplined (erase_user_row a n) = GuardP0.erase_user_row-Disciplined bus a n
  p0-Disciplined (write_flash a bytes) =
      GuardP0.write_nvm-Disciplined bus a bytes true P0.nvmcmd_write_page
  p0-Disciplined (write_user_row a bytes) =
      GuardP0.write_nvm-Disciplined bus a bytes false P0.nvmcmd_erase_write_page
  p0-Disciplined (write_eeprom a bytes) =
      GuardP0.write_nvm-Disciplined bus a bytes false P0.nvmcmd_erase_write_page
  p0-Disciplined (write_fuse a bytes) = GuardP0.write_fuse-Disciplined bus a bytes

  word-Disciplined :
      (registers : Registers) (op : Operation)
      → GuardWord.Disciplined registers bus (perform (nvm_word registers (logged bus)) op)
  unfolding Word.write_flash Word.write_user_row Word.write_fuse Word.erase_user_row
  word-Disciplined r chip_erase = GuardWord.chip_erase-Disciplined r bus
  word-Disciplined r erase_eeprom = GuardWord.erase_eeprom-Disciplined r bus
  word-Disciplined r (erase_flash_page a) = GuardWord.erase_flash_page-Disciplined r bus a
  word-Disciplined r (erase_user_row a n) = GuardWord.erase_flash_page-Disciplined r bus a
  word-Disciplined r (write_flash a bytes) = GuardWord.write_nvm-Disciplined r bus a bytes true
  word-Disciplined r (write_user_row a bytes) = GuardWord.write_nvm-Disciplined r bus a bytes false
  word-Disciplined r (write_eeprom a bytes) = GuardWord.write_eeprom-Disciplined r bus a bytes
  word-Disciplined r (write_fuse a bytes) = GuardWord.write_eeprom-Disciplined r bus a bytes

  paged-Disciplined :
      (registers : Registers) (op : Operation)
      → GuardPaged.Disciplined registers bus (perform (nvm_paged registers (logged bus)) op)
  unfolding Paged.write_flash Paged.write_user_row Paged.write_eeprom Paged.write_fuse
      Paged.erase_user_row
  paged-Disciplined r chip_erase = GuardPaged.chip_erase-Disciplined r bus
  paged-Disciplined r erase_eeprom = GuardPaged.erase_eeprom-Disciplined r bus
  paged-Disciplined r (erase_flash_page a) = GuardPaged.erase_flash_page-Disciplined r bus a
  paged-Disciplined r (erase_user_row a n) = GuardPaged.erase_flash_page-Disciplined r bus a
  paged-Disciplined r (write_flash a bytes) =
      GuardPaged.write_nvm-Disciplined r bus a bytes true Paged.nvmcmd_flash_page_write
        Paged.nvmcmd_flash_page_buffer_clear
  paged-Disciplined r (write_user_row a bytes) =
      GuardPaged.write_nvm-Disciplined r bus a bytes true Paged.nvmcmd_flash_page_write
        Paged.nvmcmd_flash_page_buffer_clear
  paged-Disciplined r (write_eeprom a bytes) =
      GuardPaged.write_nvm-Disciplined r bus a bytes false Paged.nvmcmd_eeprom_page_erase_write
        Paged.nvmcmd_eeprom_page_buffer_clear
  paged-Disciplined r (write_fuse a bytes) =
      GuardPaged.write_nvm-Disciplined r bus a bytes false Paged.nvmcmd_eeprom_page_erase_write
        Paged.nvmcmd_eeprom_page_buffer_clear

-- On any bus, whatever it answers and however the operation ends, an operation of the P:0 driver
-- that starts with a log in which every command followed an idle and fault-free status read of its
-- own ends with such a log.
pub p0-Guarded :
    {S : Type 0} (bus : Bus S) (op : Operation) (s : Logged S)
    → Guarded (GuardP0.rule_p0 bus) s.events
    → Guarded (GuardP0.rule_p0 bus) (perform (nvm_p0 (logged bus)) op s).1.events
p0-Guarded bus op s h = Good-of bus (GuardP0.rule_p0 bus) _ (p0-Disciplined bus op) s h

-- At any registers and on any bus, whatever it answers and however the operation ends, an operation
-- of the code that the P:2 and P:4 drivers share, started with a log in which every command but 0, the
-- one that clears the register, followed an idle and fault-free status read of its own, ends with
-- such a log.
pub word-Guarded :
    {S : Type 0} (registers : Registers) (bus : Bus S) (op : Operation) (s : Logged S)
    → Guarded (rule_of registers bus) s.events
    → Guarded (rule_of registers bus) (perform (nvm_word registers (logged bus)) op s).1.events
word-Guarded registers bus op s h =
    Good-of bus (rule_of registers bus) _ (word-Disciplined bus registers op) s h

-- At any registers and on any bus, whatever it answers and however the operation ends, an operation
-- of the code that the P:3 and P:5 drivers share, started with a log in which every command but 0, the
-- one that clears the register, followed an idle and fault-free status read of its own, ends with
-- such a log.
pub paged-Guarded :
    {S : Type 0} (registers : Registers) (bus : Bus S) (op : Operation) (s : Logged S)
    → Guarded (rule_of registers bus) s.events
    → Guarded (rule_of registers bus) (perform (nvm_paged registers (logged bus)) op s).1.events
paged-Guarded registers bus op s h =
    Good-of bus (rule_of registers bus) _ (paged-Disciplined bus registers op) s h
