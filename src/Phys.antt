-- ===== src/Phys.antt =====
-- The physical layer, reference/pymcuprog/serialupdi/physical.py: bytes on the one-wire line,
-- where each byte sent is read back as its echo.
use updi_programmer.Prelude.{ℕ, zero, suc, true, false, List, [], ◌∷◌, ◌++◌, bit_or}
use updi_programmer.Prelude.Lists.{length}
use updi_programmer.Exec.{Exec, pure, lift, modify, ◌>>=◌, ◌>>◌}
use updi_programmer.Serial.{Serial}
use updi_programmer.Constants.{updi_break, updi_phy_sync, updi_key, updi_key_sib, updi_sib_32bytes}

-- What the upper layers call of an `UpdiPhysical`.
pub record Phys (S : Type 0) : Type 0 where
  pub send : List ℕ → Exec S Unit
  pub receive : ℕ → Exec S (List ℕ)
  pub sib : Exec S (List ℕ)
  pub send_double_break : Exec S Unit

module _ {S : Type 0} (ser : Serial S) where
  -- `ser.write` and the echo, which is read and dropped.
  unfoldable pub send : List ℕ → Exec S Unit
  unfolding ◌>>=◌ modify
  send command = do modify (ser.write command); lift (ser.read (length command)); pure tt

  -- `while size and timeout`: the first empty read ends the loop, since `timeout` starts at 1. A
  -- read of one byte returns one byte or none.
  unfoldable pub receive_loop : ℕ → List ℕ → S → List ℕ × S
  receive_loop zero response s = (response, s)
  receive_loop (suc size) response s =
      let (character, s') = ser.read 1 s in
      elim character [ [] ↦ (response, s') | c ∷ _ ↦ receive_loop size (response ++ c ∷ []) s' ]

  unfoldable pub receive : ℕ → Exec S (List ℕ)
  unfolding receive_loop lift
  receive size = lift (receive_loop size [])

  unfoldable pub sib : Exec S (List ℕ)
  unfolding send ◌>>=◌
  sib = do
    send (updi_phy_sync ∷ bit_or (bit_or updi_key updi_key_sib) updi_sib_32bytes ∷ [])
    lift ser.readline

module _ {S : Type 0} (ser : Serial S) (baud : ℕ) where
  unfoldable pub initialise_serial : Exec S Unit
  initialise_serial = ser.open_port (record { baud = baud; two_stop_bits = true })

  -- Two breaks at 300 baud on a port of their own, and the port is opened again.
  unfoldable pub send_double_break : Exec S Unit
  unfolding initialise_serial ◌>>=◌ modify
  send_double_break = do
    modify ser.close_port
    ser.open_port (record { baud = 300; two_stop_bits = false })
    modify (ser.write (updi_break ∷ []))
    lift (ser.read 1)
    modify (ser.sleep 100)
    modify (ser.write (updi_break ∷ []))
    lift (ser.read 1)
    modify ser.close_port
    initialise_serial

  -- `UpdiPhysical(port, baud, timeout)`, with the default baud already put in
  unfoldable pub open_physical : Exec S Unit
  unfolding initialise_serial send ◌>>=◌
  open_physical = do initialise_serial; send ser (updi_break ∷ [])

  abbrev pub updi_physical : Phys S
  updi_physical = record {
    send = send ser;
    receive = receive ser;
    sib = sib ser;
    send_double_break = send_double_break;
  }
