-- ===== src/Tests/Drivers.antt =====
-- The NVM drivers, over a small world.
use updi_programmer.Prelude.{◌≡◌, refl, some}
use updi_programmer.Exec.{raise_if}
use updi_programmer.Nvm.{nvm_p0, nvm_word, nvm_paged, registers_p2, registers_p3}
use updi_programmer.Nvm.Log.{logged, log_read, log_call}
use updi_programmer.Nvm.Controller.{execute_nvm_command, wait_nvm_ready, poll_status, or_timeout}
use updi_programmer.Nvm.Paged
use updi_programmer.Nvm.Word
use updi_programmer.Nvm.Cleared.{last_command, paged-Cleared, word-Cleared}
use updi_programmer.Nvm.Guard.{Guarded}
use updi_programmer.Nvm.Guard.Access.{rule_of}
use updi_programmer.Nvm.Guard.P0.{rule_p0}
use updi_programmer.Nvm.Guard.Drivers.{Operation, perform, p0-Guarded, word-Guarded, paged-Guarded}
use updi_programmer.Tests.Data.{idle_bus, unlogged_yet, greeting}

p0-Guarded_example :
    Guarded
      (rule_p0 idle_bus)
      (perform
        (nvm_p0 (logged idle_bus))
        (Operation.write_flash 0x8000 greeting)
        unlogged_yet).1.events
p0-Guarded_example = p0-Guarded idle_bus (Operation.write_flash 0x8000 greeting) unlogged_yet tt

word-Guarded_example :
    Guarded
      (rule_of registers_p2 idle_bus)
      (perform
        (nvm_word registers_p2 (logged idle_bus))
        (Operation.write_flash 0x800000 greeting)
        unlogged_yet).1.events
word-Guarded_example =
    word-Guarded registers_p2 idle_bus (Operation.write_flash 0x800000 greeting) unlogged_yet tt

paged-Guarded_example :
    Guarded
      (rule_of registers_p3 idle_bus)
      (perform
        (nvm_paged registers_p3 (logged idle_bus))
        (Operation.write_eeprom 0x1400 greeting)
        unlogged_yet).1.events
paged-Guarded_example =
    paged-Guarded registers_p3 idle_bus (Operation.write_eeprom 0x1400 greeting) unlogged_yet tt

paged-Cleared_example :
    last_command 0x1000
      (perform
        (nvm_paged registers_p3 (logged idle_bus))
        Operation.chip_erase
        unlogged_yet).1.events
    ≡ some 0
unfolding Paged.chip_erase Paged.expect_ready Paged.finish execute_nvm_command wait_nvm_ready
    poll_status raise_if or_timeout log_read log_call
paged-Cleared_example = paged-Cleared registers_p3 idle_bus Operation.chip_erase unlogged_yet refl

word-Cleared_example :
    last_command 0x1000
      (perform (nvm_word registers_p2 (logged idle_bus)) Operation.chip_erase unlogged_yet).1.events
    ≡ some 0
unfolding Word.chip_erase Word.expect_ready Word.finish execute_nvm_command wait_nvm_ready
    poll_status raise_if or_timeout log_read log_call
word-Cleared_example = word-Cleared registers_p2 idle_bus Operation.chip_erase unlogged_yet refl
