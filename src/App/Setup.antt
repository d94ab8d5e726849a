-- ===== src/App/Setup.antt =====
-- src/main.cpp: the self-test of the message store, `bringup_lxmf` and `setup`. The steps of storage,
-- radio and Reticulum are calls of other libraries, and what they return is given.
use thicket_firmware.Base.{
  ℕ, zero, suc, ◌+◌, ◌*◌, Bool, true, false, not, Option, none, some, [], ◌∷◌, length, ◌==◌,
  if◌then◌else◌, equal, u8,
}
use thicket_firmware.App.Platform.{Platform, selftest_path, Bytes}
use thicket_firmware.App.Vault.{State, Build, bringup_identity}
use thicket_firmware.App.Device.{Setting, Device, boot, announce}
use thicket_firmware.App.Autosend.{bringup_autosend}

-- `probe[i] = (uint8_t)(i * 31 + 7)`, from `i` on.
unfoldable pub probe_from : ℕ → ℕ → Bytes
probe_from zero i = []
probe_from (suc left) i = u8 (i * 31 + 7) ∷ probe_from left (i + 1)

unfoldable pub probe : Bytes
unfolding probe_from
probe = probe_from 512 0

-- The reasons that the self-test gives.
pub data Why : Type 0 where
  not_encrypted not_written not_read not_decrypted not_same : Why

module _ (pf : Platform) where
  open pf use {Disk, Identity, read_file, write_file, remove_file, encrypt, decrypt}

  unfoldable pub opened_as_probe : Option Bytes → Option Why
  opened_as_probe none = some not_decrypted
  opened_as_probe (some opened) = if equal opened probe then none else some not_same

  unfoldable pub read_probe : Identity → Bytes → Disk → Option Why
  read_probe i sealed d =
      let (size, text) = read_file selftest_path d in
      if not (size == length sealed) then some not_read else opened_as_probe (decrypt i text)

  unfoldable pub write_probe : Identity → Option Bytes → Disk → Option Why × Disk
  write_probe i none d = (some not_encrypted, d)
  write_probe i (some sealed) d =
      let (size, d') = write_file selftest_path sealed d in
      if not (size == length sealed) then (some not_written, d') else (read_probe i sealed d', d')

  -- The test, with the probe's file removed at the end of it.
  unfoldable pub store_selftest : Identity → Disk → Option Why × Disk
  store_selftest i d =
      let (why, d') = write_probe i (encrypt i probe) d in (why, remove_file selftest_path d')

-- What the boot meets: how the calls of other libraries end, `xTaskCreate` the last of them.
pub record Boot (pf : Platform) : Type 0 where
  pub storage : Bool
  pub generated : Option pf.Identity
  pub radio : Bool
  pub reticulum : Bool
  pub router : Bool
  pub codec : Bool
  pub announce_time : ℕ
  pub autosend_hex : Option Bytes
  pub autosend_time : ℕ
  pub task : Bool

module _ (c : Setting) (pf : Platform) (assign_hex : Bytes → Bytes) where
  pub record System : Type 0 where
    pub device : Device c
    pub state : State pf
    pub running : Bool

  unfoldable pub selftest_passed : Option pf.Identity → System → Bool × System
  selftest_passed none y = (false, y)
  selftest_passed (some i) y =
      let (why, d) = store_selftest pf i y.state.disk in
      let y' = record y { state = record y.state { disk = d } } in
      elim why [ none ↦ (true, y') | some w ↦ (false, y') ]

  unfoldable pub bringup_lxmf : Boot pf → System → Bool × System
  bringup_lxmf b y =
      if not b.router
      then (false, y)
      else (let y' = record y { device = record y.device { router = true } } in
          if not c.have_store
          then (true, y')
          else if not b.codec
          then (false, y')
          else selftest_passed y.state.identity y')

  unfoldable pub bringup_identity_step : Build → Boot pf → System → Bool × System
  bringup_identity_step build b y =
      let (up, s) = bringup_identity pf build b.generated y.state in (up, record y { state = s })

  unfoldable pub autosend_at_boot : Boot pf → Device c → Device c
  autosend_at_boot b s = elim b.autosend_hex [
    | none ↦ s
    | some hex ↦ bringup_autosend c assign_hex hex b.autosend_time s
  ]

  -- From step 6 on: the announce, and the work task.
  unfoldable pub start_work : Boot pf → System → System
  start_work b y = record y {
    device = record (autosend_at_boot b (announce c boot b.announce_time y.device)) {
      stack_up = b.task;
    };
    running = b.task;
  }

  -- `if (!step()) return;`, and what follows.
  abbrev pub and_then : Bool × System → (System → System) → System
  and_then (true, y) rest = rest y
  and_then (false, y) rest = y

  unfoldable pub setup : Build → Boot pf → System → System
  setup build b y =
      and_then (b.storage, y)
        λ y1. and_then (bringup_identity_step build b y1) λ y2.
          and_then (b.radio, y2)
            λ y3.
              and_then (b.reticulum, y3) λ y4. and_then (bringup_lxmf b y4) λ y5. start_work b y5
