-- ===== src/App/Platform.antt =====
-- What the application calls and does not implement: the files of RNS::Utilities::OS, the sealed
-- files of lib/Password, the identities of microReticulum. The laws are what their documents say,
-- on a file system that has room.
use thicket_firmware.Base.{ℕ, ◌≡◌, ◌≢◌, Bool, true, false, Option, some, List, length}

-- The files that the application names (IDENTITY_PATH, VAULT_TRIES_PATH, probe_path).
pub data FilePath : Type 0 where
  identity_path vault_tries_path selftest_path : FilePath

abbrev pub Bytes : Type 0
Bytes = List ℕ

pub record Platform : Type 1 where
  pub Disk : Type 0
  pub Identity : Type 0
  pub file_exists : FilePath → Disk → Bool
  -- the number of bytes read, and the bytes
  pub read_file : FilePath → Disk → ℕ × Bytes
  -- the number of bytes written
  pub write_file : FilePath → Bytes → Disk → ℕ × Disk
  pub remove_file : FilePath → Disk → Disk
  pub password_open : FilePath → Bytes → Disk → Option Bytes
  pub password_protect : FilePath → Bytes → Bytes → Disk → Bool × Disk
  pub load_private_key : Bytes → Option Identity
  pub get_private_key : Identity → Bytes
  pub from_file : FilePath → Disk → Option Identity
  pub to_file : Identity → FilePath → Disk → Bool × Disk
  pub encrypt : Identity → Bytes → Option Bytes
  pub decrypt : Identity → Bytes → Option Bytes

-- Nothing of the file `p` differs between the two disks.
pub record Agrees (pf : Platform) (p : FilePath) (d e : pf.Disk) : Type 0 where
  pub there : pf.file_exists p d ≡ pf.file_exists p e
  pub text : pf.read_file p d ≡ pf.read_file p e
  pub sealed : (code : Bytes) → pf.password_open p code d ≡ pf.password_open p code e
  pub plain : pf.from_file p d ≡ pf.from_file p e

-- Files are kept: a write and a removal change one file, as they say.
pub record IsStore (pf : Platform) : Type 0 where
  pub written : (p : FilePath) (b : Bytes) (d : pf.Disk) → (pf.write_file p b d).0 ≡ length b
  pub read_written :
      (p : FilePath) (b : Bytes) (d : pf.Disk)
      → pf.read_file p (pf.write_file p b d).1 ≡ (length b, b)
  pub exists_written :
      (p : FilePath) (b : Bytes) (d : pf.Disk) → pf.file_exists p (pf.write_file p b d).1 ≡ true
  pub written_else :
      (p q : FilePath) (b : Bytes) (d : pf.Disk) → p ≢ q → Agrees pf q (pf.write_file p b d).1 d
  pub removed : (p : FilePath) (d : pf.Disk) → pf.file_exists p (pf.remove_file p d) ≡ false
  pub removed_else : (p q : FilePath) (d : pf.Disk) → p ≢ q → Agrees pf q (pf.remove_file p d) d

-- A key that was saved is got back, from a plain file and from a sealed one with its code.
pub record IsKeeper (pf : Platform) : Type 0 where
  pub loaded : (i : pf.Identity) → pf.load_private_key (pf.get_private_key i) ≡ some i
  pub key_size : (i : pf.Identity) → length (pf.get_private_key i) ≡ 64
  pub opened :
      (p : FilePath) (code key : Bytes) (d : pf.Disk)
      → (pf.password_protect p code key d).0 ≡ true
      → pf.password_open p code (pf.password_protect p code key d).1 ≡ some key
  pub sealed_there :
      (p : FilePath) (code key : Bytes) (d : pf.Disk)
      → (pf.password_protect p code key d).0 ≡ true
      → pf.file_exists p (pf.password_protect p code key d).1 ≡ true
  pub sealed_else :
      (p q : FilePath) (code key : Bytes) (d : pf.Disk)
      → p ≢ q
      → Agrees pf q (pf.password_protect p code key d).1 d
  pub stored :
      (i : pf.Identity) (p : FilePath) (d : pf.Disk)
      → (pf.to_file i p d).0 ≡ true
      → pf.from_file p (pf.to_file i p d).1 ≡ some i
  pub stored_there :
      (i : pf.Identity) (p : FilePath) (d : pf.Disk)
      → (pf.to_file i p d).0 ≡ true
      → pf.file_exists p (pf.to_file i p d).1 ≡ true
