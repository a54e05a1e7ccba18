-- ===== src/Nvm/Log.antt =====
-- What an NVM driver does to the bus, as a log: an instance of `ReadWrite` that keeps, newest
-- first, the accesses of the instance below it.
use updi_programmer.Prelude.{ℕ, List, ◌∷◌}
use updi_programmer.Exec.{Exec, Result, ok, err}
use updi_programmer.ReadWrite.{ReadWrite}
use updi_programmer.Nvm.Controller.{Bus}

-- A byte that was read comes with its value; a store is logged whether or not it succeeds.
pub data Event : Type 0 where
  byte_read byte_written : ℕ → ℕ → Event
  data_written words_written : ℕ → List ℕ → Event

pub record Logged (S : Type 0) : Type 0 where
  pub world : S
  pub events : List Event

-- a read that raised is not logged
abbrev pub log_result : ℕ → Result ℕ → List Event → List Event
log_result address (ok v) events = byte_read address v ∷ events
log_result address (err _) events = events

module _ {S : Type 0} where
  unfoldable pub unlogged : {A : Type 0} → Exec S A → Exec (Logged S) A
  unlogged call s = let (r, world) = call s.world in (r, record s { world = world })

  unfoldable pub log_call : {A : Type 0} → Event → Exec S A → Exec (Logged S) A
  log_call event call s =
      let (r, world) = call s.world in (r, record { world = world; events = event ∷ s.events })

  unfoldable pub log_read : ℕ → Exec S ℕ → Exec (Logged S) ℕ
  log_read address call s =
      let (r, world) = call s.world in
      (r, record { world = world; events = log_result address r s.events })

  abbrev pub logged_read_write : ReadWrite S → ReadWrite (Logged S)
  logged_read_write rw = record {
    read_cs = λ a. unlogged (rw.read_cs a);
    write_cs = λ a v. unlogged (rw.write_cs a v);
    write_key = λ size key. unlogged (rw.write_key size key);
    read_sib = unlogged rw.read_sib;
    read_byte = λ a. log_read a (rw.read_byte a);
    write_byte = λ a v. log_call (byte_written a v) (rw.write_byte a v);
    read_data = λ a n. unlogged (rw.read_data a n);
    read_data_words = λ a n. unlogged (rw.read_data_words a n);
    write_data_words = λ a bytes. log_call (words_written a bytes) (rw.write_data_words a bytes);
    write_data = λ a bytes. log_call (data_written a bytes) (rw.write_data a bytes);
  }

  abbrev pub logged : Bus S → Bus (Logged S)
  logged bus = record {
    readwrite = logged_read_write bus.readwrite;
    clock = record {
      now = λ s. let (t, world) = bus.clock.now s.world in (t, record s { world = world });
    };
    fuel = bus.fuel;
    nvmctrl_address = bus.nvmctrl_address;
  }
