-- ===== src/Port/Session/Reached.antt =====
-- The states that the calls of updi/updi_session.c lead to, in any order and with any answers.
use updi_programmer.Prelude.{ℕ, List}
use updi_programmer.Port.Transport.{Transport}
use updi_programmer.Port.Nvm.{unlock}
use updi_programmer.Port.Session.{
  UpdiSession, start, connect, session_unlock, disconnect, chip_erase, write_flash, verify_flash,
  read_flash, read_fuses, write_fuse,
}
use updi_programmer.Port.Session.Consistent.{Consistent, on_link-Keeps}
use updi_programmer.Port.Session.Keeps.{
  connect-Keeps, disconnect-Keeps, chip_erase-Keeps, write_flash-Keeps, verify_flash-Keeps,
  read_flash-Keeps, read_fuses-Keeps, write_fuse-Keeps,
}

-- a request of the session's user
pub data Request : Type 0 where
  connects unlocks disconnects erases : Request
  writes verifies : List ℕ → Request
  reads reads_fuses : ℕ → Request
  writes_fuse : ℕ → ℕ → Request

-- A request is carried out, and the caller goes on whatever its status.
unfoldable pub perform : {S : Type 0} → Transport S → Request → UpdiSession S → UpdiSession S
perform transport connects s = (connect transport s).1
perform transport unlocks s = (session_unlock transport s).1
perform transport disconnects s = (disconnect transport s).1
perform transport erases s = (chip_erase transport s).1
perform transport (writes bytes) s = (write_flash transport bytes s).1
perform transport (verifies bytes) s = (verify_flash transport bytes s).1
perform transport (reads len) s = (read_flash transport len s).1
perform transport (reads_fuses count) s = (read_fuses transport count s).1
perform transport (writes_fuse index value) s = (write_fuse transport index value s).1

-- the sessions that a start and any requests lead to
pub data Reached {S : Type 0} (transport : Transport S) : UpdiSession S → Type 0 where
  started : (world : S) → Reached transport (start world)
  requested :
      (request : Request) {s : UpdiSession S}
      → Reached transport s
      → Reached transport (perform transport request s)

perform-Consistent :
    {S : Type 0} (transport : Transport S) (request : Request) (s : UpdiSession S)
    → Consistent s
    → Consistent (perform transport request s)
unfolding perform session_unlock
perform-Consistent transport connects s c = connect-Keeps transport s c
perform-Consistent transport unlocks s c = on_link-Keeps (unlock transport) s c
perform-Consistent transport disconnects s c = disconnect-Keeps transport s c
perform-Consistent transport erases s c = chip_erase-Keeps transport s c
perform-Consistent transport (writes bytes) s c = write_flash-Keeps transport bytes s c
perform-Consistent transport (verifies bytes) s c = verify_flash-Keeps transport bytes s c
perform-Consistent transport (reads len) s c = read_flash-Keeps transport len s c
perform-Consistent transport (reads_fuses count) s c = read_fuses-Keeps transport count s c
perform-Consistent transport (writes_fuse index value) s c =
    write_fuse-Keeps transport index value s c

-- Whatever the target answers, in every state of a session that a start and any requests lead to, in
-- any order and whether they fail or not: a session that says that it is connected has a device, and
-- its NVM functions have the same one.
pub Reached-Consistent :
    {S : Type 0} (transport : Transport S) {s : UpdiSession S} → Reached transport s → Consistent s
Reached-Consistent transport (started world) = λ c. cc
Reached-Consistent transport (requested request {s} before) =
    perform-Consistent transport request s (Reached-Consistent transport before)
