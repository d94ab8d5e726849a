-- ===== src/App/Vault.antt =====
-- src/main.cpp: the sealed identity with its count of attempts, and `bringup_identity`. What is
-- printed on the serial port is left out.
use thicket_firmware.Base.{
  ℕ, ◌+◌, ◌-◌, Bool, true, false, not, Option, none, some, [], ◌∷◌, get_or, length, ltb, leb, ◌==◌,
  if◌then◌else◌, u8,
}
use thicket_firmware.App.Platform.{Platform, identity_path, vault_tries_path, Bytes}

abbrev pub vault_max_tries : ℕ
vault_max_tries = 10

abbrev pub identity_prv_bytes : ℕ
identity_prv_bytes = 64

-- `g_identity_source`.
pub data Source : Type 0 where
  unknown opened_vault loaded_file generated_sealed generated_written : Source

-- The variants of the build: THICKET_NO_PERSISTENCE, neither flag, THICKET_IDENTITY_CODE.
pub data Build : Type 0 where
  no_persistence plain : Build
  identity_code : Bytes → Build

module _ (pf : Platform) where
  open pf use {
    Disk, Identity, file_exists, read_file, write_file, remove_file, password_open,
    password_protect, load_private_key, get_private_key, from_file, to_file,
  }

  -- An identity that is false in a test is `none`.
  pub record State : Type 0 where
    pub disk : Disk
    pub identity : Option Identity
    pub source : Source

  unfoldable pub vault_tries_read : Disk → ℕ
  vault_tries_read d =
      if not (file_exists vault_tries_path d)
      then 0
      else if ltb (read_file vault_tries_path d).0 1
      then 0
      else get_or (read_file vault_tries_path d).1 0 0

  unfoldable pub vault_tries_write : ℕ → Disk → Disk
  vault_tries_write n d = (write_file vault_tries_path (n ∷ []) d).1

  -- The increment that is kept before the code is tested.
  unfoldable pub count_attempt : Disk → Disk
  count_attempt d = vault_tries_write (u8 (vault_tries_read d + 1)) d

  -- A code that does not open the vault; the last attempt destroys it.
  unfoldable pub wrong_code : ℕ → Disk → Disk
  wrong_code tried d =
      if u8 (vault_max_tries + 256 - tried - 1) == 0 then remove_file identity_path d else d

  unfoldable pub load_key : Bytes → State → Bool × State
  load_key prv s = elim (load_private_key prv) [
    | none ↦ (false, record s { identity = none })
    | some i ↦ (true, record s { identity = some i; disk = remove_file vault_tries_path s.disk })
  ]

  -- The test of the code, with the attempt counted.
  unfoldable pub test_code : ℕ → Bytes → State → Bool × State
  test_code tried code s = elim (password_open identity_path code s.disk) [
    | none ↦ (false, record s { disk = wrong_code tried s.disk })
    | some prv ↦ load_key prv s
  ]

  unfoldable pub vault_open : Bytes → State → Bool × State
  vault_open code s =
      let tried = vault_tries_read s.disk in
      if leb vault_max_tries tried
      then (false, s)
      else test_code tried code (record s { disk = count_attempt s.disk })

  unfoldable pub vault_seal : Bytes → Identity → Disk → Bool × Disk
  vault_seal code i d =
      let prv = get_private_key i in
      if not (length prv == identity_prv_bytes)
      then (false, d)
      else password_protect identity_path code prv d

  -- A file that is there.
  unfoldable pub restore : Build → State → Bool × State
  restore no_persistence s = (false, s)
  restore plain s = elim (from_file identity_path s.disk) [
    | none ↦ (false, record s { identity = none })
    | some i ↦ (true, record s { identity = some i; source = loaded_file })
  ]
  restore (identity_code code) s =
      let (opened, s') = vault_open code s in
      if opened then (true, record s' { source = opened_vault }) else (false, s')

  -- A new identity, written where the build keeps it.
  unfoldable pub keep_new : Build → Identity → State → Bool × State
  keep_new no_persistence i s = (true, record s { identity = some i })
  keep_new plain i s =
      let (kept, d) = to_file i identity_path s.disk in
      if kept
      then (true, record s { identity = some i; disk = d; source = generated_written })
      else (false, record s { identity = some i; disk = d })
  keep_new (identity_code code) i s =
      let (kept, d) = vault_seal code i s.disk in
      if kept
      then (true, record s { identity = some i; disk = d; source = generated_sealed })
      else (false, record s { identity = some i; disk = d })

  -- What the generator of keys gives, or `none` if it fails.
  unfoldable pub create : Build → Option Identity → State → Bool × State
  create b none s = (false, record s { identity = none })
  create b (some i) s = keep_new b i s

  abbrev pub persistent : Build → Bool
  persistent no_persistence = false
  persistent plain = true
  persistent (identity_code code) = true

  unfoldable pub bringup_identity : Build → Option Identity → State → Bool × State
  bringup_identity b generated s =
      if persistent b
      then if file_exists identity_path s.disk then restore b s else create b generated s
      else create b generated s
