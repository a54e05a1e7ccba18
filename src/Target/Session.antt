-- ===== src/Target/Session.antt =====
-- A whole session on the line: what the provider's `read` returns is the target's memory.
use updi_programmer.Prelude.{
  ℕ, zero, suc, ◌+◌, ◌-◌, ◌%◌, ◌^◌, ◌≤◌, ◌≡◌, refl, ap, Bool, true, false, Option, List, ◌∷◌, arith,
}
use updi_programmer.Exec.{ok}
use updi_programmer.Serial.{Clock}
use updi_programmer.Link.Base.{Exceptions}
use updi_programmer.App.{App, Config, Device, Driver}
use updi_programmer.App.Mode
use updi_programmer.Provider.{read}
use updi_programmer.Provider.Memory.{MemoryInfo}
use updi_programmer.Provider.Read.{Serves, range, read_lem}
use updi_programmer.Provider.Session.{avr_of, on_readwrite}
use updi_programmer.Target.Memory.{Preset, Memory, mem_read, read_range}
use updi_programmer.Target.Device.{Core}
use updi_programmer.Target.Line.{Line, quiet}
use updi_programmer.Target.Line.Direct.{phy}
use updi_programmer.Target.Link.{datalink16-Speaks, datalink24-Speaks}
use updi_programmer.Target.Transfer.{read_data_lem}

-- the addresses that a link can express
abbrev pub space : Bool → ℕ
space true = 2 ^ 16
space false = 2 ^ 24

-- The session's link has the given width, and its target is quiet and holds the memory `m`.
abbrev pub Holds : Memory → Bool → App Line → Type 0
Holds m narrow app =
    (e : Core) × (d : Driver) × (app ≡ record { world = quiet e; is_narrow = narrow; driver = d })
    × (e.repeat_next ≡ 0)
    × (e.memory ≡ m)

range-eq-read_range :
    (preset : Preset) (m : Memory) (a n : ℕ)
    → a + n ≤ 2 ^ 32 - 1
    → range (mem_read preset m) a n ≡ read_range preset m a n
unfolding range read_range
range-eq-read_range preset m a zero h = refl
range-eq-read_range preset m a (suc n) h =
    let next : (a + 1) % 2 ^ 32 ≡ a + 1 = omega arith in
    rw next (
      ap (λ (l : List ℕ). mem_read preset m a ∷ l)
        (range-eq-read_range preset m (a + 1) n (omega arith)))

module _ (preset : Preset) (baud : ℕ) (clock : Clock Line) (exceptions : Exceptions) (fuel : ℕ)
    (dut : Device) (m : Memory) where
  abbrev pub config : Config Line
  config = record {
    phy = phy preset baud;
    clock = clock;
    exceptions = exceptions;
    fuel = fuel;
    device = Option.some dut;
  }

  avr-Serves :
      (narrow : Bool)
      → Serves (avr_of config dut) (Holds m narrow) (mem_read preset m) (space narrow)
  unfolding on_readwrite Mode.read_data
  avr-Serves true = record {
    read_data_lem = λ a n app (e, d, same, r, held) p q b. (
      record {
        world = quiet (record e { repeat_next = 0; ptr = (a + n) % 2 ^ 32 });
        is_narrow = true;
        driver = d;
      },
      rw (
        same,
        read_data_lem preset (2 ^ 16) _ (datalink16-Speaks exceptions preset baud) a n e r p q
            (omega arith),
        range-eq-read_range preset m a n (omega arith),
        held,
      ),
      (record e { repeat_next = 0; ptr = (a + n) % 2 ^ 32 }, d, refl, refl, held),
    );
  }
  avr-Serves false = record {
    read_data_lem = λ a n app (e, d, same, r, held) p q b. (
      record {
        world = quiet (record e { repeat_next = 0; ptr = (a + n) % 2 ^ 32 });
        is_narrow = false;
        driver = d;
      },
      rw (
        same,
        read_data_lem preset (2 ^ 24) _ (datalink24-Speaks exceptions preset baud) a n e r p q
            (omega arith),
        range-eq-read_range preset m a n (omega arith),
        held,
      ),
      (record e { repeat_next = 0; ptr = (a + n) % 2 ^ 32 }, d, refl, refl, held),
    );
  }

  -- In a session whose target is quiet and holds the memory `m`, `read` of any length within the
  -- addresses of the session's link returns the bytes of `m`, and the target still holds `m`.
  pub read-Holds :
      (narrow : Bool) (info : MemoryInfo) (offset n : ℕ) (app : App Line)
      → Holds m narrow app
      → offset + info.address + n ≤ space narrow
      → (app' : App Line) × (read (avr_of config dut) info offset n app
          ≡ (ok (range (mem_read preset m) (offset + info.address) n), app'))
        × Holds m narrow app'
  read-Holds narrow info offset n app h b =
      read_lem (avr_of config dut) (Holds m narrow) (mem_read preset m) (space narrow)
        (avr-Serves narrow) info offset n app h b
