-- ===== src/App/Attempts.antt =====
-- How often the sealed identity can be tried, and what the last attempt leaves.
use thicket_firmware.Base.{
  ℕ, ◌+◌, ◌≤◌, ◌<◌, ◌≡◌, ◌≢◌, refl, arith, false, none, [], ◌∷◌, leb, if◌then◌else◌, Bool-cases,
  inl, inr, u8,
}
use thicket_firmware.App.Platform.{
  Platform, identity_path, vault_tries_path, Bytes, IsStore, Agrees,
}
use thicket_firmware.App.Vault.{
  vault_max_tries, State, vault_tries_read, vault_tries_write, count_attempt, wrong_code, test_code,
  vault_open,
}

pub tries-ne : vault_tries_path ≢ identity_path
tries-ne = λ e. cc

pub identity-ne : identity_path ≢ vault_tries_path
identity-ne = λ e. cc

ltb→ge : (n : ℕ) → n < 10 → leb vault_max_tries n ≡ false
ltb→ge n h = ground arith

module _ (pf : Platform) (store : IsStore pf) where
  -- The count of attempts depends on its file alone.
  pub tries-Agrees :
      {d e : pf.Disk}
      → Agrees pf vault_tries_path d e
      → vault_tries_read pf d ≡ vault_tries_read pf e
  unfolding vault_tries_read
  tries-Agrees a = rw (a.there, a.text) refl

  pub tries-count :
      (d : pf.Disk) → vault_tries_read pf (count_attempt pf d) ≡ u8 (vault_tries_read pf d + 1)
  unfolding count_attempt vault_tries_write vault_tries_read
  tries-count d =
      let b = u8 (vault_tries_read pf d + 1) ∷ [] in
      ground
        (arith, store.exists_written vault_tries_path b d, store.read_written vault_tries_path b d)

  pub count_attempt-Agrees : (d : pf.Disk) → Agrees pf identity_path (count_attempt pf d) d
  unfolding count_attempt vault_tries_write
  count_attempt-Agrees d =
      store.written_else vault_tries_path identity_path (u8 (vault_tries_read pf d + 1) ∷ []) d
        tries-ne

  pub tries-wrong_code :
      (tried : ℕ) (d : pf.Disk)
      → vault_tries_read pf (wrong_code pf tried d) ≡ vault_tries_read pf d
  unfolding wrong_code
  tries-wrong_code tried d =
      ground (arith, tries-Agrees (store.removed_else identity_path vault_tries_path d identity-ne))

  -- A code is tested only while fewer than ten attempts are counted.
  abbrev pub tests : pf.Disk → ℕ
  tests d = if leb vault_max_tries (vault_tries_read pf d) then 0 else 1

  -- Attempts with codes that do not open the vault, and how many codes were tested in them. The
  -- power may go at any time after an attempt was counted, also when its code was tested.
  pub data Guesses (s : State pf) : ℕ → State pf → Type 0 where
    here : Guesses s 0 s
    attempt :
        {n : ℕ} {t : State pf}
        → Guesses s n t
        → (code : Bytes) → pf.password_open identity_path code (count_attempt pf t.disk) ≡ none
        → Guesses s (n + tests t.disk) (vault_open pf code t).1
    cut :
        {n : ℕ} {t : State pf}
        → Guesses s n t
        → vault_tries_read pf t.disk < vault_max_tries
        → Guesses s (n + 1) (record t { disk = count_attempt pf t.disk })

  -- Once ten attempts are counted, no code is tested.
  pub vault_open-refuses :
      (code : Bytes) (s : State pf)
      → vault_tries_read pf s.disk ≡ vault_max_tries
      → vault_open pf code s ≡ (false, s)
  unfolding vault_open
  vault_open-refuses code s full = ground arith

  -- A wrong code with attempts left is counted, and the vault goes with the last of them.
  pub vault_open-wrong :
      (code : Bytes) (s : State pf)
      → vault_tries_read pf s.disk < 10
      → pf.password_open identity_path code (count_attempt pf s.disk) ≡ none
      → vault_open pf code s ≡ (
        false,
        record s { disk = wrong_code pf (vault_tries_read pf s.disk) (count_attempt pf s.disk) },
      )
  unfolding vault_open test_code
  vault_open-wrong code s left wrong =
      rw (ltb→ge (vault_tries_read pf s.disk) left) (rw (test_code, wrong) refl)

  tries-vault_open :
      (code : Bytes) (s : State pf)
      → pf.password_open identity_path code (count_attempt pf s.disk) ≡ none
      → vault_tries_read pf s.disk ≤ vault_max_tries
      → vault_tries_read pf (vault_open pf code s).1.disk
        ≡ vault_tries_read pf s.disk + tests s.disk
  tries-vault_open code s wrong few = elim (Bool-cases (leb 10 (vault_tries_read pf s.disk))) [
    | inl full ↦ ground (arith, vault_open-refuses code s)
    | inr left ↦ ground (
      arith,
      vault_open-wrong code s,
      tries-count s.disk,
      tries-wrong_code (vault_tries_read pf s.disk) (count_attempt pf s.disk),
    )
  ]

  Guesses-tries :
      {s t : State pf} {n : ℕ}
      → vault_tries_read pf s.disk ≤ vault_max_tries
      → Guesses s n t
      → (vault_tries_read pf s.disk + n ≡ vault_tries_read pf t.disk)
        × (vault_tries_read pf t.disk ≤ vault_max_tries)
  Guesses-tries few here = (omega arith, few)
  Guesses-tries few (attempt {n} {t} r code wrong) =
      let so_far = Guesses-tries few r in
      let counted = tries-vault_open code t wrong so_far.1 in
      (ground (arith, so_far, counted), ground (arith, so_far, counted))
  Guesses-tries few (cut {n} {t} r left) =
      let so_far = Guesses-tries few r in
      let counted = tries-count t.disk in
      (omega (arith, so_far, counted), omega (arith, so_far, counted))

  -- On a file system that keeps its files, with no attempt counted at first: in any sequence of
  -- attempts with codes that do not open the vault, with the power cut at any of them after the
  -- attempt was counted, at most ten codes are tested. After ten every further code is refused
  -- untested, the right one as well, and nothing is changed by it.
  pub Guesses-le :
      {s t : State pf} {n : ℕ}
      → vault_tries_read pf s.disk ≡ 0
      → Guesses s n t
      → (n ≤ 10) × (n ≡ 10 → (code : Bytes) → vault_open pf code t ≡ (false, t))
  Guesses-le {t = t} {n} none_yet r =
      let counted = Guesses-tries (omega arith) r in
      (omega (arith, counted), λ full code. vault_open-refuses code t (omega (arith, counted)))

  -- The tenth wrong code destroys the vault, and the count stays at ten.
  pub tenth_wrong :
      (code : Bytes) (s : State pf)
      → vault_tries_read pf s.disk ≡ 9
      → pf.password_open identity_path code (count_attempt pf s.disk) ≡ none
      → (pf.file_exists identity_path (vault_open pf code s).1.disk ≡ false)
        × (vault_tries_read pf (vault_open pf code s).1.disk ≡ 10)
  unfolding wrong_code
  tenth_wrong code s nine wrong =
      let d = count_attempt pf s.disk in
      rw (vault_open-wrong code s (omega arith) wrong, nine)
        (
          store.removed identity_path d,
          omega (
            arith,
            tries-count s.disk,
            tries-Agrees (store.removed_else identity_path vault_tries_path d identity-ne),
          ),
        )
