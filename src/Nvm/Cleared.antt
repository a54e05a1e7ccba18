-- ===== src/Nvm/Cleared.antt =====
-- What the drivers P:2 to P:5 leave in the command register: an armed command would be carried out
-- by the next store.
use updi_programmer.Prelude.{
  ℕ, ◌+◌, ◌≡◌, Bool, true, false, Option, none, some, List, [], ◌∷◌, ◌==◌, if◌then◌else◌, arith,
}
use updi_programmer.Exec.{Exec, Result, ok, err, raise_if, ◌>>◌, ◌>>=◌}
use updi_programmer.Exec.Triple.{Triple, Post, Triple-bind}
use updi_programmer.Nvm.{nvm_word, nvm_paged}
use updi_programmer.Nvm.Controller.{Bus, Registers, wait_nvm_ready, execute_nvm_command, or_timeout}
use updi_programmer.Nvm.Log.{
  Event, byte_read, byte_written, data_written, words_written, Logged, logged, log_call,
}
use updi_programmer.Nvm.Word
use updi_programmer.Nvm.Paged
use updi_programmer.Nvm.Guard.Drivers.{Operation, perform}

-- the newest byte that was stored at an address
unfoldable pub last_command : ℕ → List Event → Option ℕ
last_command ctrla [] = none
last_command ctrla (byte_written a v ∷ es) = if a == ctrla then some v else last_command ctrla es
last_command ctrla (byte_read _ _ ∷ es) = last_command ctrla es
last_command ctrla (data_written _ _ ∷ es) = last_command ctrla es
last_command ctrla (words_written _ _ ∷ es) = last_command ctrla es

-- nothing is claimed of a call
any_Post : {S A : Type 0} (r : Result A × S) → Post (λ _ _. Unit) (λ _ _. Unit) r
any_Post (ok a, s) = tt
any_Post (err e, s) = tt

-- a claim that holds of the state whatever the result
state_Post :
    {S A : Type 0} (Q : S → Type 0) (r : Result A) (s : S)
    → Q s
    → Post (λ _. Q) (λ _ _. Unit) (r, s)
state_Post Q (ok a) s h = h
state_Post Q (err e) s h = tt

module _ {S : Type 0} (registers : Registers) (bus : Bus S) where
  abbrev ctrla : ℕ
  ctrla = bus.nvmctrl_address + registers.ctrla

  abbrev Cleared : Logged S → Type 0
  Cleared s = last_command ctrla s.events ≡ some 0

  -- a call that clears the register by its end, unless it raises
  abbrev Clears : Exec (Logged S) Unit → Type 0
  Clears m = Triple (λ _. Unit) m (λ _. Cleared) (λ _ _. Unit)

  infixr 6 ◌before◌
  ◌before◌ : (m : Exec (Logged S) Unit) {n : Exec (Logged S) Unit} → Clears n → Clears (m >> n)
  ◌before◌ m t = Triple-bind m _ (record { run = λ s h. any_Post (m s) }) (λ _. t)

  abbrev command : ℕ → Exec (Logged S) Unit
  command c = execute_nvm_command registers (logged bus) c

  abbrev write_data : ℕ → List ℕ → Exec (Logged S) Unit
  write_data = (logged bus).readwrite.write_data

  abbrev load : Bool → ℕ → List ℕ → Exec (Logged S) Unit
  load by_words a bytes =
      if by_words then (logged bus).readwrite.write_data_words a bytes else write_data a bytes

  clear : Clears (execute_nvm_command registers (logged bus) 0)
  unfolding execute_nvm_command log_call last_command
  clear = record {
    run = λ s h. state_Post Cleared (bus.readwrite.write_byte ctrla 0 s.world).0 _ (ground arith);
  }

  or_timeout-Cleared : (b : Bool) → Triple Cleared (or_timeout b) (λ _. Cleared) (λ _ _. Unit)
  unfolding or_timeout raise_if
  or_timeout-Cleared true = record { run = λ s h. h }
  or_timeout-Cleared false = record { run = λ s h. tt }

  wait_clear : Clears (
      wait_nvm_ready registers (logged bus) >>= λ status.
      execute_nvm_command registers (logged bus) 0 >> or_timeout status)
  wait_clear =
      Triple-bind (wait_nvm_ready registers (logged bus)) _
        (record { run = λ s h. any_Post (wait_nvm_ready registers (logged bus) s) })
        λ status.
          Triple-bind (execute_nvm_command registers (logged bus) 0) _ clear
            (λ _. or_timeout-Cleared status)

  paged_finish : Clears (Paged.finish registers (logged bus))
  unfolding Paged.finish
  paged_finish = wait_clear

  word_finish : Clears (Word.finish registers (logged bus))
  unfolding Word.finish
  word_finish = wait_clear

  abbrev paged_wait : Exec (Logged S) Unit
  paged_wait = Paged.expect_ready registers (logged bus)

  abbrev word_wait : Exec (Logged S) Unit
  word_wait = Word.expect_ready registers (logged bus)

  paged_write :
      (a : ℕ) (bytes : List ℕ) (by_words : Bool) (commit clearing : ℕ)
      → Clears (Paged.write_nvm registers (logged bus) a bytes by_words commit clearing)
  unfolding Paged.write_nvm
  paged_write a bytes by_words commit clearing =
      paged_wait
      before command clearing
      before paged_wait
      before load by_words a bytes
      before command commit
      before paged_wait
      before clear

  paged_erase : (a : ℕ) → Clears (Paged.erase_flash_page registers (logged bus) a)
  unfolding Paged.erase_flash_page
  paged_erase a =
      paged_wait
      before write_data a (0xFF ∷ [])
      before command Paged.nvmcmd_flash_page_erase
      before paged_finish

  paged-Clears : (op : Operation) → Clears (perform (nvm_paged registers (logged bus)) op)
  unfolding Paged.chip_erase Paged.erase_eeprom Paged.erase_user_row Paged.write_flash
      Paged.write_user_row Paged.write_eeprom Paged.write_fuse
  paged-Clears Operation.chip_erase =
      paged_wait before command Paged.nvmcmd_chip_erase before paged_finish
  paged-Clears Operation.erase_eeprom =
      paged_wait before command Paged.nvmcmd_eeprom_erase before paged_finish
  paged-Clears (Operation.erase_flash_page a) = paged_erase a
  paged-Clears (Operation.erase_user_row a n) = paged_erase a
  paged-Clears (Operation.write_flash a bytes) =
      paged_write a bytes true Paged.nvmcmd_flash_page_write Paged.nvmcmd_flash_page_buffer_clear
  paged-Clears (Operation.write_user_row a bytes) =
      paged_write a bytes true Paged.nvmcmd_flash_page_write Paged.nvmcmd_flash_page_buffer_clear
  paged-Clears (Operation.write_eeprom a bytes) =
      paged_write a bytes false Paged.nvmcmd_eeprom_page_erase_write
        Paged.nvmcmd_eeprom_page_buffer_clear
  paged-Clears (Operation.write_fuse a bytes) =
      paged_write a bytes false Paged.nvmcmd_eeprom_page_erase_write
        Paged.nvmcmd_eeprom_page_buffer_clear

  word_write :
      (a : ℕ) (bytes : List ℕ) (by_words : Bool)
      → Clears (Word.write_nvm registers (logged bus) a bytes by_words)
  unfolding Word.write_nvm
  word_write a bytes by_words =
      word_wait
      before command Word.nvmcmd_flash_write
      before load by_words a bytes
      before word_finish

  word_eeprom : (a : ℕ) (bytes : List ℕ) → Clears (Word.write_eeprom registers (logged bus) a bytes)
  unfolding Word.write_eeprom
  word_eeprom a bytes =
      word_wait
      before command Word.nvmcmd_eeprom_erase_write
      before write_data a bytes
      before word_finish

  word_erase : (a : ℕ) → Clears (Word.erase_flash_page registers (logged bus) a)
  unfolding Word.erase_flash_page
  word_erase a =
      word_wait
      before command Word.nvmcmd_flash_page_erase
      before write_data a (0xFF ∷ [])
      before word_finish

  word-Clears : (op : Operation) → Clears (perform (nvm_word registers (logged bus)) op)
  unfolding Word.chip_erase Word.erase_eeprom Word.erase_user_row Word.write_flash
      Word.write_user_row Word.write_fuse
  word-Clears Operation.chip_erase =
      word_wait before command Word.nvmcmd_chip_erase before word_finish
  word-Clears Operation.erase_eeprom =
      word_wait before command Word.nvmcmd_eeprom_erase before word_finish
  word-Clears (Operation.erase_flash_page a) = word_erase a
  word-Clears (Operation.erase_user_row a n) = word_erase a
  word-Clears (Operation.write_flash a bytes) = word_write a bytes true
  word-Clears (Operation.write_user_row a bytes) = word_write a bytes false
  word-Clears (Operation.write_eeprom a bytes) = word_eeprom a bytes
  word-Clears (Operation.write_fuse a bytes) = word_eeprom a bytes

-- what a triple says of a call that returned
returned :
    {S A : Type 0} (Q : S → Type 0) (r : Result A × S) (a : A)
    → Post (λ _. Q) (λ _ _. Unit) r
    → r.0 ≡ ok a
    → Q r.1
returned Q (ok b, s) a h e = h
returned Q (err x, s) a h e = cc

-- After an operation of the code that the P:3 and P:5 drivers share that returns, the last byte
-- written to the command register is 0, the command that clears it, at any registers and on any bus.
pub paged-Cleared :
    {S : Type 0} (registers : Registers) (bus : Bus S) (op : Operation) (s : Logged S)
    → (perform (nvm_paged registers (logged bus)) op s).0 ≡ ok tt
    → last_command
        (bus.nvmctrl_address + registers.ctrla)
        (perform (nvm_paged registers (logged bus)) op s).1.events
      ≡ some 0
paged-Cleared registers bus op s e =
    returned (Cleared registers bus) (perform (nvm_paged registers (logged bus)) op s) tt
      ((paged-Clears registers bus op).run s tt) e

-- After an operation of the code that the P:2 and P:4 drivers share that returns, the last byte
-- written to the command register is 0, the command that clears it, at any registers and on any bus.
pub word-Cleared :
    {S : Type 0} (registers : Registers) (bus : Bus S) (op : Operation) (s : Logged S)
    → (perform (nvm_word registers (logged bus)) op s).0 ≡ ok tt
    → last_command
        (bus.nvmctrl_address + registers.ctrla)
        (perform (nvm_word registers (logged bus)) op s).1.events
      ≡ some 0
word-Cleared registers bus op s e =
    returned (Cleared registers bus) (perform (nvm_word registers (logged bus)) op s) tt
      ((word-Clears registers bus op).run s tt) e
