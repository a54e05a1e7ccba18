-- ===== src/Link.antt =====
-- The link layer, reference/pymcuprog/serialupdi/link.py: the base class `UpdiDatalink` in
-- `Link.Base`, `UpdiDatalink16bit` in `Link.Narrow` and `UpdiDatalink24bit` in `Link.Wide`.
pub mod Base
pub mod Narrow
pub mod Wide
use updi_programmer.Prelude.{ℕ, List}
use updi_programmer.Exec.{Exec}
use updi_programmer.Phys.{Phys}
use Base.{
  init_datalink, ldcs, stcs, ld_ptr_inc, ld_ptr_inc16, st_ptr_inc, st_ptr_inc16, repeat, read_sib,
  key, Exceptions,
}

-- What the upper layers call of a data link, whichever class it has.
pub record Datalink (S : Type 0) : Type 0 where
  pub init_datalink : Exec S Unit
  pub ldcs : ℕ → Exec S ℕ
  pub stcs : ℕ → ℕ → Exec S Unit
  pub ld_ptr_inc : ℕ → Exec S (List ℕ)
  pub ld_ptr_inc16 : ℕ → Exec S (List ℕ)
  pub st_ptr_inc : List ℕ → Exec S Unit
  pub st_ptr_inc16 : List ℕ → Exec S Unit
  pub repeat : ℕ → Exec S Unit
  pub read_sib : Exec S (List ℕ)
  pub key : ℕ → List ℕ → Exec S Unit
  pub ld : ℕ → Exec S ℕ
  pub ld16 : ℕ → Exec S (List ℕ)
  pub st : ℕ → ℕ → Exec S Unit
  pub st16 : ℕ → ℕ → Exec S Unit
  pub st_ptr : ℕ → Exec S Unit

module _ {S : Type 0} (exceptions : Exceptions) (phy : Phys S) where
  abbrev pub datalink16 : Datalink S
  datalink16 = record {
    init_datalink = init_datalink exceptions phy;
    ldcs = ldcs phy;
    stcs = stcs phy;
    ld_ptr_inc = ld_ptr_inc phy;
    ld_ptr_inc16 = ld_ptr_inc16 phy;
    st_ptr_inc = st_ptr_inc phy;
    st_ptr_inc16 = st_ptr_inc16 phy;
    repeat = repeat phy;
    read_sib = read_sib phy;
    key = key phy;
    ld = Narrow.ld phy;
    ld16 = Narrow.ld16 phy;
    st = Narrow.st phy;
    st16 = Narrow.st16 phy;
    st_ptr = Narrow.st_ptr phy;
  }

  abbrev pub datalink24 : Datalink S
  datalink24 = record {
    init_datalink = init_datalink exceptions phy;
    ldcs = ldcs phy;
    stcs = stcs phy;
    ld_ptr_inc = ld_ptr_inc phy;
    ld_ptr_inc16 = ld_ptr_inc16 phy;
    st_ptr_inc = st_ptr_inc phy;
    st_ptr_inc16 = st_ptr_inc16 phy;
    repeat = repeat phy;
    read_sib = read_sib phy;
    key = key phy;
    ld = Wide.ld phy;
    ld16 = Wide.ld16 phy;
    st = Wide.st phy;
    st16 = Wide.st16 phy;
    st_ptr = Wide.st_ptr phy;
  }
