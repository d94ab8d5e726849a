-- ===== src/App/Samples.antt =====
-- A platform that keeps its files in memory, and a build on it, for the tests.
use thicket_firmware.Base.{
  ℕ, ◌*◌, ◌≡◌, ◌≢◌, refl, Bool, true, false, Option, none, some, [], ◌∷◌, ◌++◌, length, replicate,
  ◌==◌, ==_refl, if◌then◌else◌, codes, pos,
}
use thicket_firmware.App.Platform.{
  Platform, FilePath, identity_path, vault_tries_path, selftest_path, Bytes, IsStore, IsKeeper,
  Agrees,
}
use thicket_firmware.App.Vault.{State, unknown}
use thicket_firmware.App.Device.{Setting, Device}

abbrev same_path : FilePath → FilePath → Bool
same_path identity_path identity_path = true
same_path vault_tries_path vault_tries_path = true
same_path selftest_path selftest_path = true
same_path _ _ = false

abbrev Files : Type 0
Files = FilePath → Option Bytes

abbrev put : FilePath → Option Bytes → Files → Files
put p o d q = if same_path p q then o else d q

abbrev there : Option Bytes → Bool
there none = false
there (some b) = true

abbrev text_of : Option Bytes → ℕ × Bytes
text_of none = (0, [])
text_of (some b) = (length b, b)

-- A sealed file begins with its code.
abbrev unseal : Bytes → Bytes → Option Bytes
unseal [] b = some b
unseal (c ∷ cs) [] = none
unseal (c ∷ cs) (x ∷ xs) = if c == x then unseal cs xs else none

abbrev unseal_file : Bytes → Option Bytes → Option Bytes
unseal_file code none = none
unseal_file code (some b) = unseal code b

-- An identity is a number, and its key begins with it.
abbrev key : ℕ → Bytes
key i = i ∷ replicate 63 0

abbrev load : Bytes → Option ℕ
load [] = none
load (i ∷ rest) = some i

abbrev load_file : Option Bytes → Option ℕ
load_file none = none
load_file (some b) = load b

abbrev tail_of : Bytes → Option Bytes
tail_of [] = none
tail_of (b ∷ bs) = some bs

abbrev pub platform : Platform
platform = record {
  Disk = Files;
  Identity = ℕ;
  file_exists = λ p d. there (d p);
  read_file = λ p d. text_of (d p);
  write_file = λ p b d. (length b, put p (some b) d);
  remove_file = λ p d. put p none d;
  password_open = λ p code d. unseal_file code (d p);
  password_protect = λ p code k d. (true, put p (some (code ++ k)) d);
  load_private_key = load;
  get_private_key = key;
  from_file = λ p d. load_file (d p);
  to_file = λ i p d. (true, put p (some (key i)) d);
  encrypt = λ i b. some (i ∷ b);
  decrypt = λ i b. tail_of b;
}

same_path_refl : (p : FilePath) → same_path p p ≡ true
same_path_refl identity_path = refl
same_path_refl vault_tries_path = refl
same_path_refl selftest_path = refl

same_path_ne : (p q : FilePath) → p ≢ q → same_path p q ≡ false
same_path_ne identity_path identity_path h = absurd (h refl)
same_path_ne identity_path vault_tries_path h = refl
same_path_ne identity_path selftest_path h = refl
same_path_ne vault_tries_path identity_path h = refl
same_path_ne vault_tries_path vault_tries_path h = absurd (h refl)
same_path_ne vault_tries_path selftest_path h = refl
same_path_ne selftest_path identity_path h = refl
same_path_ne selftest_path vault_tries_path h = refl
same_path_ne selftest_path selftest_path h = absurd (h refl)

put_else : (p q : FilePath) (o : Option Bytes) (d : Files) → p ≢ q → Agrees platform q (put p o d) d
put_else p q o d h =
    let e = same_path_ne p q h in
    record { there = rw e refl; text = rw e refl; sealed = λ code. rw e refl; plain = rw e refl }

pub platform-IsStore : IsStore platform
platform-IsStore = record {
  written = λ p b d. refl;
  read_written = λ p b d. rw (same_path_refl p) refl;
  exists_written = λ p b d. rw (same_path_refl p) refl;
  written_else = λ p q b d h. put_else p q (some b) d h;
  removed = λ p d. rw (same_path_refl p) refl;
  removed_else = λ p q d h. put_else p q none d h;
}

unseal-append : (code k : Bytes) → unseal code (code ++ k) ≡ some k
unseal-append [] k = refl
unseal-append (c ∷ cs) k = rw (==_refl c) (unseal-append cs k)

pub platform-IsKeeper : IsKeeper platform
platform-IsKeeper = record {
  loaded = λ i. refl;
  key_size = λ i. refl;
  opened = λ p code k d h. rw (same_path_refl p) (unseal-append code k);
  sealed_there = λ p code k d h. rw (same_path_refl p) refl;
  sealed_else = λ p q code k d h. put_else p q (some (code ++ k)) d h;
  stored = λ i p d h. rw (same_path_refl p) refl;
  stored_there = λ i p d h. rw (same_path_refl p) refl;
}

-- A device that never had power, one whose vault is sealed with 1, 2, and the same tried nine times.
abbrev pub blank_disk : Files
blank_disk p = none

abbrev pub sealed_disk : Files
sealed_disk = put identity_path (some (1 ∷ 2 ∷ key 7)) blank_disk

abbrev pub tried_disk : Files
tried_disk = put vault_tries_path (some (9 ∷ [])) sealed_disk

abbrev pub state_on : Files → State platform
state_on d = record { disk = d; identity = none; source = unknown }

-- Numbers of the radio in tenths.
abbrev pub setting : Setting
setting = record {
  Float = ℕ;
  lroundf = λ n. pos n;
  times_ten = λ n. 10 * n;
  float_zero = 0;
  identity_hex = codes "3f9ac1143f9ac114";
  delivery_hash = replicate 16 5;
  have_store = true;
  pinning = true;
  autosend_interval = none;
}

abbrev pub power_on : Device setting
power_on = record {
  stack_up = false;
  router = false;
  last_announce = 0;
  send_counter = 0;
  reply = record { armed = false; due_ms = 0; to = []; signal_valid = false; rssi = 0; snr = 0 };
  saved_in = 0;
  saved_out = 0;
  save_failures = 0;
  autosend_dest = [];
  autosend_ok = false;
  last_autosend = 0;
  blink_last = 0;
  blink_on = false;
  log = [];
}
