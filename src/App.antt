-- ===== src/App.antt =====
-- `UpdiApplication` of reference/pymcuprog/serialupdi/application.py: the stack that the
-- constructor builds, and `read_device_info`, which chooses the data link and the NVM driver.
pub mod Sib
pub mod Mode
use updi_programmer.Prelude.{
  ℕ, ◌+◌, Bool, true, false, Option, none, some, List, [], ◌∷◌, ltb, ◌==◌, if◌then◌else◌,
}
use updi_programmer.Prelude.Lists.{length}
use updi_programmer.Exec.{
  Exec, Result, ok, err, updi_error, index_error, pure, raise, raise_if, modify, ◌>>=◌, ◌>>◌,
}
use updi_programmer.Serial.{Clock}
use updi_programmer.Phys.{Phys}
use updi_programmer.Link.{datalink16, datalink24}
use updi_programmer.Link.Base.{Exceptions, init_datalink}
use updi_programmer.ReadWrite.{ReadWrite, updi_read_write}
use updi_programmer.Nvm.{Nvm, nvm_updi, nvm_p0, nvm_p2, nvm_p3, nvm_p4, nvm_p5}
use updi_programmer.Nvm.Controller.{Bus}
use updi_programmer.Constants.{updi_cs_statusa}
use Sib.{SibInfo, decode_sib}
use Mode.{in_prog_mode}

-- the class of `self.nvm`
pub data Driver : Type 0 where
  updi p0 p2 p3 p4 p5 : Driver

-- `Dut`, as far as the application and the provider read it
pub record Device : Type 0 where
  pub sigrow_address : ℕ
  pub syscfg_address : ℕ
  pub nvmctrl_address : ℕ

-- The mutable state of the object, beside the world: which data link `self.readwrite` uses, and
-- the class of `self.nvm`.
pub record App (S : Type 0) : Type 0 where
  pub world : S
  pub is_narrow : Bool
  pub driver : Driver

-- What the object is built from, and the fuel of the polls.
pub record Config (S : Type 0) : Type 0 where
  pub phy : Phys S
  pub clock : Clock S
  pub exceptions : Exceptions
  pub fuel : ℕ
  pub device : Option Device

-- `sib_info['NVM']`, compared with the names of the drivers
unfoldable pub select_driver : List ℕ → Option Driver
select_driver (c ∷ []) =
    if c == b'0'
    then some Driver.p0
    else if c == b'2'
    then some Driver.p2
    else if c == b'3'
    then some Driver.p3
    else if c == b'4'
    then some Driver.p4
    else if c == b'5'
    then some Driver.p5
    else none
select_driver _ = none

module _ {S : Type 0} where
  -- a call that leaves the object's own fields alone
  unfoldable pub on_world : {A : Type 0} → (App S → Exec S A) → Exec (App S) A
  on_world call app = let (r, world) = call app app.world in (r, record app { world = world })

module _ {S : Type 0} (config : Config S) where
  open config use {phy, clock, exceptions, fuel, device}

  abbrev pub readwrite_of : App S → ReadWrite S
  readwrite_of app =
      updi_read_write
        (if app.is_narrow then datalink16 exceptions phy else datalink24 exceptions phy)

  abbrev pub bus_of : App S → Device → Bus S
  bus_of app dut = record {
    readwrite = readwrite_of app;
    clock = clock;
    fuel = fuel;
    nvmctrl_address = dut.nvmctrl_address;
  }

  -- `self.nvm`
  abbrev pub nvm_of : Device → App S → Nvm S
  nvm_of dut app = elim app.driver [
    | Driver.updi ↦ nvm_updi
    | Driver.p0 ↦ nvm_p0 (bus_of app dut)
    | Driver.p2 ↦ nvm_p2 (bus_of app dut)
    | Driver.p3 ↦ nvm_p3 (bus_of app dut)
    | Driver.p4 ↦ nvm_p4 (bus_of app dut)
    | Driver.p5 ↦ nvm_p5 (bus_of app dut)
  ]

  -- `UpdiApplication(...)` once the port is open: the link is activated in 24-bit mode.
  unfoldable pub start_application : Exec S (App S)
  unfolding ◌>>=◌
  start_application s =
      let (r, s') = init_datalink exceptions phy s in
      elim r [
        | ok _ ↦ (ok (record { world = s'; is_narrow = false; driver = Driver.updi }), s')
        | err e ↦ (err e, s')
      ]

  unfoldable pub read_sib : Exec (App S) (List ℕ)
  unfolding on_world
  read_sib = on_world (λ app. (readwrite_of app).read_sib)

  -- `decode_sib(sib)`, whose exceptions pass through
  unfoldable pub decoded : List ℕ → Exec (App S) (Option SibInfo)
  unfolding decode_sib
  decoded sib app = (decode_sib sib, app)

  -- the second try, after a double break
  unfoldable pub recover_sib : Option SibInfo → Exec (App S) SibInfo
  unfolding ◌>>=◌ on_world read_sib decoded
  recover_sib (some info) = pure info
  recover_sib none = do
    on_world (λ _. phy.send_double_break)
    sib ← read_sib
    found ← decoded sib
    elim found [ none ↦ raise updi_error | some info ↦ pure info ]

  -- P:0 starts the 16-bit data link anew before the object takes it; an unknown name changes
  -- nothing.
  unfoldable pub use_driver : Option Driver → Exec (App S) Unit
  unfolding ◌>>=◌ on_world modify
  use_driver none = pure tt
  use_driver (some Driver.p0) = do
    on_world (λ _. init_datalink exceptions phy)
    modify (λ app. record app { is_narrow = true; driver = Driver.p0 })
  use_driver (some driver) = modify (λ app. record app { driver = driver })

  -- what is read for the log only, and can still raise
  unfoldable pub read_ids : Option Device → Exec (App S) Unit
  unfolding ◌>>=◌ on_world raise_if
  read_ids none = pure tt
  read_ids (some dut) = do
    devid ← on_world (λ app. (readwrite_of app).read_data dut.sigrow_address 3)
    devrev ← on_world (λ app. (readwrite_of app).read_data (dut.syscfg_address + 1) 1)
    raise_if (ltb (length devid) 3) index_error
    raise_if (length devrev == 0) index_error

  unfoldable pub read_device_info : Exec (App S) SibInfo
  unfolding ◌>>=◌ read_sib decoded recover_sib use_driver read_ids select_driver in_prog_mode
  read_device_info = do
    sib ← read_sib
    first_try ← decoded sib
    info ← recover_sib first_try
    use_driver (select_driver info.nvm)
    on_world (λ app. (readwrite_of app).read_cs updi_cs_statusa)
    programming ← on_world (λ app. in_prog_mode (readwrite_of app))
    if programming then read_ids device else pure tt
    pure info
