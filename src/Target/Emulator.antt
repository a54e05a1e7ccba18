-- ===== src/Target/Emulator.antt =====
-- The transport that host_test/updi_emu.c offers to the C port: the echo is already gone, and the
-- clock moves on at every reading.
pub mod Direct
pub mod Data
pub mod Words
pub mod Block
pub mod Nvm
pub mod Read
pub mod Write
pub mod Pages
pub mod Session
pub mod Connect
pub mod Connected
pub mod Agree
pub mod Verify
pub mod Fuse
use updi_programmer.Prelude.{ℕ, ◌+◌, ◌%◌, ◌^◌, Bool, true, some, List, [], ◌∷◌, if◌then◌else◌}
use updi_programmer.Prelude.Lists.{take, drop}
use updi_programmer.Port.Transport.{Transport}
use updi_programmer.Port.Link.{UpdiLink}
use updi_programmer.Target.Memory.{Preset}
use updi_programmer.Target.Device.{Core, Phase, feed_byte}
use updi_programmer.Target.Line.{rx_push}

pub record Emu : Type 0 where
  pub core : Core
  pub phase : Phase
  pub rx : List ℕ
  pub now_ms : ℕ

abbrev pub emu : Core → Phase → List ℕ → ℕ → Emu
emu core phase rx now_ms = record { core = core; phase = phase; rx = rx; now_ms = now_ms }

module _ (preset : Preset) where
  unfoldable pub feed_all : List ℕ → Emu → Emu
  unfolding feed_byte rx_push
  feed_all [] e = e
  feed_all (b ∷ bs) e =
      let r = feed_byte preset e.core e.phase b in
      feed_all bs (emu r.core r.phase (rx_push e.rx r.pushed) e.now_ms)

  -- `emu_send`, `emu_recv`, `emu_double_break` and `emu_millis`
  abbrev pub emu_transport : Transport Emu
  emu_transport = record {
    send = λ bytes e. (true, feed_all bytes e);
    recv = λ len timeout_ms e. (take len e.rx, record e { rx = drop len e.rx });
    double_break = some (λ e. record e { phase = Phase.idle });
    millis = some λ e. let t = (e.now_ms + 1) % 2 ^ 32 in (t, record e { now_ms = t });
  }

-- a link to an emulator between two instructions, with nothing left to read
abbrev pub at_rest : Bool → ℕ → Bool → Core → ℕ → UpdiLink Emu
at_rest wide timeout_ms ack core now_ms = record {
  world = emu core Phase.idle [] now_ms;
  address_bytes = if wide then 3 else 2;
  timeout_ms = timeout_ms;
  ack_enabled = ack;
}

-- the addresses of a link
abbrev pub reach : Bool → ℕ
reach wide = if wide then 2 ^ 24 else 2 ^ 16
