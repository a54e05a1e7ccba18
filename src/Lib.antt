-- ===== src/Lib.antt =====
-- The programmer's Python stack, which talks UPDI to an AVR microcontroller over a one-wire serial
-- line, its port to C, and the device at the other end of the line.
--
-- The parts, from the wire up. Python paths lie below reference/pymcuprog/, but for scripts/.
-- - Exec: a call of a method on a world `S`, which ends with a value or an exception, and in either
--   case with the world as it was left. Exec.Triple has triples with a postcondition for each end.
-- - Serial: pyserial's port and the clock of `time`, as parameters.
-- - Phys (serialupdi/physical.py): `send`, which drops its own echo, `receive`, the double break, and
--   opening the port.
-- - Link (serialupdi/link.py): the UPDI instructions. Link.Base has those of `UpdiDatalink`, Link.Narrow
--   and Link.Wide those of the 16-bit and the 24-bit subclass; `Datalink` is what the layers above
--   call, and `datalink16` and `datalink24` fill it.
-- - ReadWrite (serialupdi/readwrite.py): memory reads and writes through the pointer and the repeat
--   counter, over any data link. ReadWrite.Refuses is about what is refused.
-- - Timeout (serialupdi/timeout.py): the polling loop of the drivers and of the application.
-- - Nvm (serialupdi/nvm.py and nvmp0.py to nvmp5.py): the drivers of the controller of the nonvolatile
--   memories. Nvm.P0 is nvmp0.py; Nvm.Word is nvmp2.py and nvmp4.py, and Nvm.Paged nvmp3.py and
--   nvmp5.py, which differ pairwise in constants only (`Registers`). Nvm.Log records what a driver does
--   to its bus, and Nvm.Guard is about the discipline of commands and status reads, and
--   Nvm.Cleared about what is left in the command register.
-- - App (serialupdi/application.py): `UpdiApplication`. App.Sib is `decode_sib`; App.Mode has reset, keys
--   and the programming mode; App itself identifies the device and picks the driver and the link.
-- - Provider (nvmserialupdi.py): `NvmAccessProviderSerial`, over the operations of `self.avr`
--   (`Avr`), which Provider.Session fills with the application. Provider.Read, Provider.Write and
--   Provider.Erase are about its loops.
-- - Devices (deviceinfo/devices/ and scripts/gen_device_table.py): the 21 device packs, and the rows of
--   the table that is generated from them.
-- - Target (host_test/updi_emu.c): the emulated device, which decodes the byte stream. It is joined to
--   the stack by Target.Line, an instance of the serial port, and Target.Link says what each
--   instruction of a link does to it. Target.Transfer and Target.Session follow reads and writes down
--   to the device's memory (Target.Transfer.Overlay to each of its bytes, Target.Transfer.Limits up to
--   the sizes that are refused), Target.Flash and Target.FlashP0 writes by the
--   drivers P:3 and P:0, and Target.Programming the way into the programming mode.
-- - Port (updi/): the port of the stack to C, in calls that end with outputs or an `UpdiStatus`
--   (Port.Call), over a transport that is a parameter. Port.Link, with its children, is updi_link.c,
--   Port.Nvm and Port.Nvm.Memory are updi_nvm.c, Port.Device is updi_device.c with its checked-in
--   table and in Port.Device.Lookup what it finds, and Port.Session is updi_session.c. Port.Ends is
--   about the end of its loops. Port.Session.Reached has the states that a user's requests lead to.
-- - Target.Emulator (host_test/updi_emu.c): the emulated device as a transport of the C port, with its
--   clock. Below it, Direct, Block, Data and Nvm follow the port's instructions, transfers and NVM
--   commands down to the device, Read, Verify, Write and Pages the loops over ranges and pages, Session
--   and Connected a whole session, Fuse a fuse write, and Agree compares the port with the Python stack.
-- - Hex (hex/intel_hex.c): the Intel HEX parser, and in Hex.Writer the writer. Hex.Bounds is about what
--   a line leaves in the image, Hex.RoundTrip about reading what was written.
-- - Constants (serialupdi/constants.py), Prelude: the constants, and shared names and lemmas.
-- - Tests: data, and the theorems applied to it.
--
-- Exceptions are values of `Error`, by the class that is raised; which of them an `except` clause
-- catches is the parameter `Exceptions`, as the class hierarchy is not in the repository. Numbers are
-- natural; a mask `& 0xFF` is a remainder. Loops that consume data have the length of the data as
-- fuel, since each round takes at least one element. A polling loop has its fuel as a parameter, and
-- raises `out_of_fuel` where the code would go on. The polls of the C port count 200000 rounds at
-- most, which is their fuel, and are then over. A call that would follow a NULL device of the `nvm`
-- ends in the port's model with `null_device`. The image buffer of Hex is a function of the index, and
-- the number of values of a `size_t`, at which its sums wrap, is a parameter.
--
-- Not modelled: logging, messages and progress callbacks; `pymcuprog.utils` and `pyedbglib`, which are
-- parameters (`Utils`); the printing of the generated table; the transmit log and the presets of the
-- emulator; what a read of the C port that fails leaves in its buffer; and the user interface, the
-- serial transport and the worker thread of the Flipper (ui/, transport/), which only call the parts
-- above and the Flipper's own libraries.
pub mod Prelude
pub mod Exec
pub mod Constants
pub mod Serial
pub mod Phys
pub mod Link
pub mod ReadWrite
pub mod Timeout
pub mod Nvm
pub mod App
pub mod Provider
pub mod Target
pub mod Port
pub mod Hex
pub mod Devices
pub mod Tests
