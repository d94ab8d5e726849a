-- ===== src/App/Reboots.antt =====
-- The identity across reboots: `bringup_identity`, boot after boot.
use thicket_firmware.Base.{
  ◌<◌, ◌≡◌, refl, inl, inr, ◌∙◌, arith, true, false, Option, none, some, List, [], ◌∷◌, length, leb,
  ==_iff, Bool-cases,
}
use thicket_firmware.App.Platform.{
  Platform, identity_path, vault_tries_path, Bytes, IsStore, IsKeeper,
}
use thicket_firmware.App.Vault.{
  State, Build, unknown, no_persistence, plain, identity_code, vault_max_tries, vault_tries_read,
  count_attempt, load_key, test_code, vault_open, vault_seal, restore, keep_new, create,
  bringup_identity,
}
use thicket_firmware.App.Attempts.{
  tries-ne, identity-ne, tries-Agrees, count_attempt-Agrees, vault_open-refuses, vault_open-wrong,
  tenth_wrong,
}

module _ (pf : Platform) where
  -- What a reset leaves: the disk.
  abbrev pub power_cycle : State pf → State pf
  power_cycle s = record s { identity = none; source = unknown }

  -- Boots, each with what the generator of keys would give in it.
  pub boots : Build → List (Option pf.Identity) → State pf → State pf
  boots b [] s = s
  boots b (g ∷ gs) s = boots b gs (bringup_identity pf b g (power_cycle s)).1

  -- The disk holds the identity in the form of the build, with an attempt left.
  pub data Holds (i : pf.Identity) (d : pf.Disk) : Build → Type 0 where
    plainly :
        pf.file_exists identity_path d ≡ true
        → pf.from_file identity_path d ≡ some i
        → Holds i d plain
    sealed :
        {code : Bytes}
        → pf.file_exists identity_path d ≡ true
        → pf.password_open identity_path code d ≡ some (pf.get_private_key i)
        → vault_tries_read pf d < vault_max_tries
        → Holds i d (identity_code code)

module _ (pf : Platform) (store : IsStore pf) (keeper : IsKeeper pf) where
  removed_tries : (d : pf.Disk) → vault_tries_read pf (pf.remove_file vault_tries_path d) ≡ 0
  unfolding vault_tries_read
  removed_tries d = ground (arith, store.removed vault_tries_path d)

  -- With the right code the vault opens, and the count starts again.
  vault_open-right :
      (code : Bytes) (i : pf.Identity) (s : State pf)
      → vault_tries_read pf s.disk < vault_max_tries
      → pf.password_open identity_path code s.disk ≡ some (pf.get_private_key i)
      → vault_open pf code s ≡ (
        true,
        record s {
          identity = some i;
          disk = pf.remove_file vault_tries_path (count_attempt pf s.disk);
        },
      )
  unfolding vault_open test_code load_key
  vault_open-right code i s left right =
      let few : leb vault_max_tries (vault_tries_read pf s.disk) ≡ false = ground arith in
      let there = (count_attempt-Agrees pf store s.disk).sealed code ∙ right in
      rw few (rw (there, test_code) (rw (keeper.loaded i, load_key) refl))

  -- A boot finds the identity, and leaves it on the disk.
  bringup-Holds :
      {b : Build} (i : pf.Identity) (g : Option pf.Identity) (s : State pf)
      → Holds pf i s.disk b
      → let after = bringup_identity pf b g s in
        (after.0 ≡ true) × (after.1.identity ≡ some i) × Holds pf i after.1.disk b
  unfolding bringup_identity restore
  bringup-Holds i g s (plainly there read) =
      rw there (rw (read, restore) (refl, refl, plainly there read))
  bringup-Holds i g s (sealed {code} there right left) =
      let d = count_attempt pf s.disk in
      let counted = count_attempt-Agrees pf store s.disk in
      let kept = store.removed_else vault_tries_path identity_path d tries-ne in
      rw (there, vault_open-right code i s left right)
        (
          refl,
          refl,
          sealed (kept.there ∙ counted.there ∙ there)
              (kept.sealed code ∙ counted.sealed code ∙ right) (rw (removed_tries d) (omega arith)),
        )

  boots-Holds :
      {b : Build} (i : pf.Identity) (gs : List (Option pf.Identity)) (s : State pf)
      → Holds pf i s.disk b
      → Holds pf i (boots pf b gs s).disk b
  unfolding boots
  boots-Holds i [] s h = h
  boots-Holds i (g ∷ gs) s h =
      boots-Holds i gs (bringup_identity pf _ g (power_cycle pf s)).1
        (bringup-Holds i g (power_cycle pf s) h).2

  -- What a first boot has to find besides no identity.
  abbrev pub Ready : Build → pf.Disk → Type 0
  Ready no_persistence d = ⊥
  Ready plain d = Unit
  Ready (identity_code code) d = vault_tries_read pf d < vault_max_tries

  vault_seal-Holds :
      (code : Bytes) (i : pf.Identity) (d : pf.Disk)
      → vault_tries_read pf d < vault_max_tries
      → (vault_seal pf code i d).0 ≡ true
      → Holds pf i (vault_seal pf code i d).1 (identity_code code)
  unfolding vault_seal
  vault_seal-Holds code i d left =
      rw ((==_iff (length (pf.get_private_key i)) 64).1 (keeper.key_size i)) λ kept.
        let key = pf.get_private_key i in
        let same = keeper.sealed_else identity_path vault_tries_path code key d identity-ne in
        sealed (keeper.sealed_there identity_path code key d kept)
          (keeper.opened identity_path code key d kept) (rw (tries-Agrees pf store same) left)

  keep_new-Holds :
      (b : Build) (i : pf.Identity) (s : State pf)
      → Ready b s.disk
      → (keep_new pf b i s).0 ≡ true
      → Holds pf i (keep_new pf b i s).1.disk b
  unfolding keep_new
  keep_new-Holds no_persistence i s ready = absurd ready
  keep_new-Holds plain i s ready = elim (Bool-cases (pf.to_file i identity_path s.disk).0) [
    | inl kept ↦ rw kept λ _.
        plainly (keeper.stored_there i identity_path s.disk kept)
          (keeper.stored i identity_path s.disk kept)
    | inr lost ↦ rw lost λ h. absurd (cc)
  ]
  keep_new-Holds (identity_code code) i s ready =
      elim (Bool-cases (vault_seal pf code i s.disk).0) [
        | inl kept ↦ rw kept λ _. vault_seal-Holds code i s.disk ready kept
        | inr lost ↦ rw lost λ h. absurd (cc)
      ]

  first_boot-Holds :
      (b : Build) (i : pf.Identity) (s : State pf)
      → Ready b s.disk
      → pf.file_exists identity_path s.disk ≡ false
      → (bringup_identity pf b (some i) s).0 ≡ true
      → Holds pf i (bringup_identity pf b (some i) s).1.disk b
  unfolding bringup_identity create
  first_boot-Holds no_persistence i s ready empty = absurd ready
  first_boot-Holds plain i s ready empty = rw empty λ kept. keep_new-Holds plain i s ready kept
  first_boot-Holds (identity_code code) i s ready empty =
      rw empty λ kept. keep_new-Holds (identity_code code) i s ready kept

  -- On a file system that keeps its files, with keys got back as they were saved: where a first
  -- boot of a build with persistence finds no identity and, in a build with a code, fewer than ten
  -- attempts counted, and it makes and keeps one, then after any number of further boots, with
  -- the same code and whatever the generator of keys would give, the next boot succeeds with
  -- the same identity.
  pub identity_survives :
      (b : Build) (i : pf.Identity) (gs : List (Option pf.Identity)) (g : Option pf.Identity)
      (s : State pf)
      → Ready b s.disk
      → pf.file_exists identity_path s.disk ≡ false
      → (bringup_identity pf b (some i) s).0 ≡ true
      → let later = boots pf b gs (bringup_identity pf b (some i) s).1 in
        let boot = bringup_identity pf b g (power_cycle pf later) in
        (boot.0 ≡ true) × (boot.1.identity ≡ some i)
  identity_survives b i gs g s ready empty kept =
      let first = (bringup_identity pf b (some i) s).1 in
      let held = boots-Holds i gs first (first_boot-Holds b i s ready empty kept) in
      let boot = bringup-Holds i g (power_cycle pf (boots pf b gs first)) held in (boot.0, boot.1)

  wrong_boot :
      (code : Bytes) (g : Option pf.Identity) (s : State pf)
      → pf.file_exists identity_path s.disk ≡ true
      → vault_tries_read pf s.disk ≡ 9
      → pf.password_open identity_path code (count_attempt pf s.disk) ≡ none
      → bringup_identity pf (identity_code code) g s ≡ (false, (vault_open pf code s).1)
  unfolding bringup_identity restore
  wrong_boot code g s there nine wrong =
      rw (there, vault_open-wrong pf store code s (omega arith) wrong) refl

  full_boot :
      (code : Bytes) (g : Option pf.Identity) (s : State pf)
      → pf.file_exists identity_path s.disk ≡ true
      → vault_tries_read pf s.disk ≡ 10
      → bringup_identity pf (identity_code code) g s ≡ (false, s)
  unfolding bringup_identity restore
  full_boot code g s there full = rw (there, vault_open-refuses pf store code s full) refl

  -- A boot that seals a new identity, with the count of attempts as it was.
  sealed_boot :
      (code : Bytes) (i : pf.Identity) (s : State pf)
      → pf.file_exists identity_path s.disk ≡ false
      → (bringup_identity pf (identity_code code) (some i) s).0 ≡ true
      → let d = (bringup_identity pf (identity_code code) (some i) s).1.disk in
        (pf.file_exists identity_path d ≡ true)
        × (vault_tries_read pf d ≡ vault_tries_read pf s.disk)
  unfolding bringup_identity create keep_new vault_seal
  sealed_boot code i s empty =
      rw (empty, (==_iff (length (pf.get_private_key i)) 64).1 (keeper.key_size i))
        (elim (Bool-cases
          (pf.password_protect identity_path code (pf.get_private_key i) s.disk).0) [
            | inl kept ↦ rw kept λ _.
                let key = pf.get_private_key i in
                (
                  keeper.sealed_there identity_path code key s.disk kept,
                  tries-Agrees pf store (
                      keeper.sealed_else identity_path vault_tries_path code key s.disk
                        identity-ne),
                )
            | inr lost ↦ rw lost λ h. absurd (cc)
          ])

  -- On a file system that keeps its files: where a boot with nine attempts counted and a wrong
  -- code destroys the vault, and the next boot makes and seals a new identity, every later boot is
  -- locked out, also with the code that it was sealed with, and changes nothing: the count of ten
  -- outlives the vault.
  pub locked_out :
      (wrong code : Bytes) (i : pf.Identity) (g g' : Option pf.Identity) (s : State pf)
      → pf.file_exists identity_path s.disk ≡ true
      → vault_tries_read pf s.disk ≡ 9
      → pf.password_open identity_path wrong (count_attempt pf s.disk) ≡ none
      → (bringup_identity pf
          (identity_code code)
          (some i)
          (power_cycle pf (bringup_identity pf (identity_code wrong) g s).1)).0
        ≡ true
      → let wiped = (bringup_identity pf (identity_code wrong) g s).1 in
        let fresh = bringup_identity pf (identity_code code) (some i) (power_cycle pf wiped) in
        bringup_identity pf (identity_code code) g' (power_cycle pf fresh.1)
        ≡ (false, power_cycle pf fresh.1)
  locked_out wrong code i g g' s there nine bad kept =
      let wiped = power_cycle pf (bringup_identity pf (identity_code wrong) g s).1 in
      let gone = tenth_wrong pf store wrong s nine bad in
      let seal = bringup_identity pf (identity_code code) (some i) wiped in
      let boot = wrong_boot wrong g s there nine bad in
      let sealed_now = sealed_boot code i wiped (rw boot gone.0) kept in
      full_boot code g' (power_cycle pf seal.1) sealed_now.0 (sealed_now.1 ∙ rw boot gone.1)
