-- ===== src/App/Bringup.antt =====
-- What the bring-up promises: the self-test of the store, and what runs after `setup`.
use thicket_firmware.Base.{
  ◌≡◌, ◌↔◌, refl, ap, ◌∙◌, arith, Bool, true, false, not, Option, none, some, [], ◌∷◌, ◌++◌, length,
  ==_refl, if_elim, Bool-cases, Option-cases, inl, inr, equal, equal_iff,
}
use thicket_firmware.App.Platform.{Platform, selftest_path, Bytes, IsStore}
use thicket_firmware.App.Vault.{Build, bringup_identity}
use thicket_firmware.App.Device.{Setting, Device, boot, announced, announce}
use thicket_firmware.App.Autosend.{bringup_autosend}
use thicket_firmware.App.Setup.{
  probe, opened_as_probe, read_probe, write_probe, store_selftest, Boot, System, selftest_passed,
  bringup_lxmf, bringup_identity_step, autosend_at_boot, start_work, and_then, setup,
}

module _ (pf : Platform) (store : IsStore pf) (i : pf.Identity) (d : pf.Disk) where
  -- The codec gives the probe back.
  abbrev pub RoundTrips : Type 0
  RoundTrips =
      (sealed : Bytes) × (pf.encrypt i probe ≡ some sealed) × (pf.decrypt i sealed ≡ some probe)

  opened_as_probe-none_iff : (o : Option Bytes) → (opened_as_probe pf o ≡ none) ↔ (o ≡ some probe)
  unfolding opened_as_probe
  opened_as_probe-none_iff none = (λ h. cc, λ h. cc)
  opened_as_probe-none_iff (some opened) = elim (Bool-cases (equal opened probe)) [
    | inl same ↦ (λ _. ap some ((equal_iff opened probe).0 same), λ _. rw same refl)
    | inr other ↦ (
      rw other λ h. cc,
      λ e. let same : opened ≡ probe = cc in cc (other, (equal_iff opened probe).1 same),
    )
  ]

  read_probe-decrypt :
      (sealed : Bytes)
      → read_probe pf i sealed (pf.write_file selftest_path sealed d).1
        ≡ opened_as_probe pf (pf.decrypt i sealed)
  unfolding read_probe
  read_probe-decrypt sealed =
      rw (store.read_written selftest_path sealed d) (rw (==_refl (length sealed)) refl)

  write_probe-none_iff :
      (o : Option Bytes)
      → ((write_probe pf i o d).0 ≡ none)
        ↔ ((sealed : Bytes) × (o ≡ some sealed) × (pf.decrypt i sealed ≡ some probe))
  unfolding write_probe
  write_probe-none_iff none = (λ h. cc, λ (s, e, h). cc)
  write_probe-none_iff (some sealed) =
      let same = opened_as_probe-none_iff (pf.decrypt i sealed) in
      rw (store.written selftest_path sealed d) (
        rw (==_refl (length sealed)) (
          rw (read_probe-decrypt sealed) (λ h. (sealed, refl, same.0 h), λ (s, e, h). same.1 (cc))))

  -- On a file system that keeps its files, the self-test passes exactly if the codec encrypts the
  -- probe and decrypts what it made to the probe again. Its file is gone afterwards, whether or not
  -- it passes.
  pub store_selftest-none_iff :
      (((store_selftest pf i d).0 ≡ none) ↔ RoundTrips)
      × (pf.file_exists selftest_path (store_selftest pf i d).1 ≡ false)
  unfolding store_selftest
  store_selftest-none_iff = (
    write_probe-none_iff (pf.encrypt i probe),
    store.removed selftest_path (write_probe pf i (pf.encrypt i probe) d).1,
  )

module _ (c : Setting) (pf : Platform) (assign_hex : Bytes → Bytes) where
  -- What a boot that reaches its end has met.
  pub record AllUp (build : Build) (b : Boot pf) (y : System c pf assign_hex) : Type 0 where
    pub storage : b.storage ≡ true
    pub identity : (bringup_identity pf build b.generated y.state).0 ≡ true
    pub radio : b.radio ≡ true
    pub reticulum : b.reticulum ≡ true
    pub router : b.router ≡ true
    pub codec : c.have_store ≡ true → b.codec ≡ true
    pub task : b.task ≡ true

  -- A step that does not start the work lets the boot go on only if it succeeds.
  and_then-running :
      (p : Bool × System c pf assign_hex) (rest : System c pf assign_hex → System c pf assign_hex)
      → p.1.running ≡ false
      → (and_then c pf assign_hex p rest).running ≡ true
      → (p.0 ≡ true) × ((rest p.1).running ≡ true) × (and_then c pf assign_hex p rest ≡ rest p.1)
  and_then-running (true, y) rest down h = (refl, h, refl)
  and_then-running (false, y) rest down h = absurd (cc)

  -- What the step of the messenger leaves alone, and what it brings up where it succeeds.
  pub record Messenger (b : Boot pf) (y : System c pf assign_hex)
      (r : Bool × System c pf assign_hex) : Type 0 where
    pub running : r.1.running ≡ y.running
    pub log : r.1.device.log ≡ y.device.log
    pub up : r.0 ≡ true → r.1.device.router ≡ true
    pub router : r.0 ≡ true → b.router ≡ true
    pub codec : r.0 ≡ true → c.have_store ≡ true → b.codec ≡ true

  -- The self-test changes the disk alone.
  selftest_passed-device :
      (o : Option pf.Identity) (y : System c pf assign_hex)
      → ((selftest_passed c pf assign_hex o y).1.device ≡ y.device)
        × ((selftest_passed c pf assign_hex o y).1.running ≡ y.running)
  unfolding selftest_passed
  selftest_passed-device none y = (refl, refl)
  selftest_passed-device (some i) y = elim (Option-cases (store_selftest pf i y.state.disk).0) [
    | inl passed ↦ rw (passed, selftest_passed) (refl, refl)
    | inr (w, failed) ↦ rw (failed, selftest_passed) (refl, refl)
  ]

  bringup_lxmf-Messenger :
      (b : Boot pf) (y : System c pf assign_hex) → Messenger b y (bringup_lxmf c pf assign_hex b y)
  unfolding bringup_lxmf
  bringup_lxmf-Messenger b y =
      let y' = record y { device = record y.device { router = true } } in
      let tested = selftest_passed-device y.state.identity y' in
      if_elim (Messenger b y) (not b.router)
        (λ _. record {
          running = refl;
          log = refl;
          up = λ h. cc;
          router = λ h. cc;
          codec = λ h. cc;
        })
        λ there.
          let router : b.router ≡ true = ground arith in
          if_elim (Messenger b y) (not c.have_store)
            (λ without. record {
              running = refl;
              log = refl;
              up = λ h. refl;
              router = λ h. router;
              codec = λ h k. ground arith;
            })
            λ _.
              if_elim (Messenger b y) (not b.codec)
                (λ bare. record {
                  running = refl;
                  log = refl;
                  up = λ h. refl;
                  router = λ h. router;
                  codec = λ h. cc;
                })
                λ has. record {
                  running = tested.1;
                  log = ap (λ (s : Device c). s.log) tested.0;
                  up = λ h. ap (λ (s : Device c). s.router) tested.0;
                  router = λ h. router;
                  codec = λ h k. ground arith;
                }

  start_work-log :
      (b : Boot pf) (y : System c pf assign_hex)
      → y.device.router ≡ true
      → (start_work c pf assign_hex b y).device.log
        ≡ y.device.log ++ announced boot b.announce_time ∷ []
  unfolding start_work autosend_at_boot announce bringup_autosend
  start_work-log b y up = elim (Option-cases b.autosend_hex) [
    | inl off ↦ rw (off, up) refl
    | inr (hex, on) ↦ rw on (ground arith)
  ]

  start_work-task :
      (b : Boot pf) (y : System c pf assign_hex)
      → (start_work c pf assign_hex b y).running ≡ true
      → (b.task ≡ true) × ((start_work c pf assign_hex b y).device.stack_up ≡ true)
  unfolding start_work
  start_work-task b y h = (h, h)

  -- Where no work runs at first: if `setup` ends with the work task running, every step before it
  -- has succeeded, the stack is marked as up, and the one thing that was sent is the announce of
  -- the boot, with the time that it read.
  pub setup-AllUp :
      (build : Build) (b : Boot pf) (y : System c pf assign_hex)
      → y.running ≡ false
      → (setup c pf assign_hex build b y).running ≡ true
      → AllUp build b y
        × ((setup c pf assign_hex build b y).device.stack_up ≡ true)
        × ((setup c pf assign_hex build b y).device.log
            ≡ y.device.log ++ announced boot b.announce_time ∷ [])
  unfolding setup bringup_identity_step
  setup-AllUp build b y down h =
      let y2 = (bringup_identity_step c pf assign_hex build b y).1 in
      let lxmf = bringup_lxmf-Messenger b y2 in
      let y5 = (bringup_lxmf c pf assign_hex b y2).1 in
      let (storage, h1, e1) = and_then-running (b.storage, y) _ down h in
      let (identity, h2, e2) =
        and_then-running (bringup_identity_step c pf assign_hex build b y) _ down h1 in
      let (radio, h3, e3) = and_then-running (b.radio, y2) _ down h2 in
      let (reticulum, h4, e4) = and_then-running (b.reticulum, y2) _ down h3 in
      let (router, h5, e5) =
        and_then-running (bringup_lxmf c pf assign_hex b y2) (start_work c pf assign_hex b)
          (lxmf.running ∙ down) h4 in
      let whole : setup c pf assign_hex build b y ≡ start_work c pf assign_hex b y5 =
        e1 ∙ e2 ∙ e3 ∙ e4 ∙ e5 in
      (
        record {
          storage = storage;
          identity = identity;
          radio = radio;
          reticulum = reticulum;
          router = lxmf.router router;
          codec = lxmf.codec router;
          task = (start_work-task b y5 h5).0;
        },
        ap (λ (z : System c pf assign_hex). z.device.stack_up) whole ∙ (start_work-task b y5 h5).1,
        ap (λ (z : System c pf assign_hex). z.device.log) whole
            ∙ start_work-log b y5 (lxmf.up router)
            ∙ ap (λ ls. ls ++ announced boot b.announce_time ∷ []) lxmf.log,
      )
