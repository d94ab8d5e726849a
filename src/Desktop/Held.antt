-- ===== src/Desktop/Held.antt =====
-- Which file a link's target resolves to.
use thicket_firmware.Base.{◌≡◌, ◌⊎◌, Bool, true, false, List, [], ◌∷◌, ◌++◌, All, codes}
use thicket_firmware.App.Platform.{Bytes}
use thicket_firmware.Base.{take}
use thicket_firmware.Desktop.Resolve.{
  target_parts, without_slash, basename_of, replace_slashes, ends_in_mu,
}

-- Two names, where there is a hash.
abbrev pub named : Bytes → Bytes → Bytes → List Bytes
named [] short long = []
named (h ∷ hash) short long = short ∷ long ∷ []

-- The places of a target: below the root under the hash and the path in one name, with 16 digits of
-- the hash and with all of it; then next to the page under the last part of the path and under the
-- whole path; then below the root under the whole path and under its last part.
abbrev pub places : Bytes → Bytes → Bytes → List Bytes
places target curdir root =
    let hash = (target_parts target).0 in
    let path = without_slash (target_parts target).1 in
    let name = basename_of (target_parts target).1 in
    let flat = codes "__" ++ replace_slashes path in
    named hash (root ++ b'/' ∷ (take 16 hash ++ flat)) (root ++ b'/' ∷ (hash ++ flat))
    ++ ((curdir ++ b'/' ∷ name)
        ∷ (curdir ++ b'/' ∷ path)
        ∷ (root ++ b'/' ∷ path)
        ∷ (root ++ b'/' ∷ name)
        ∷ [])

module _ (file_exists : Bytes → Bool) where
  -- No file is there for the candidate as it stands nor, where it does not end in `.mu`, with `.mu`
  -- behind it.
  abbrev pub Absent : Bytes → Type 0
  Absent cand =
      (file_exists cand ≡ false)
      × ((ends_in_mu cand ≡ true) ⊎ (file_exists (cand ++ codes ".mu") ≡ false))

  -- A candidate that the path is, or one without `.mu` that it is with `.mu` behind it, where none
  -- before it is held.
  pub data Found (path : Bytes) : List Bytes → Type 0 where
    as_named : {cand : Bytes} {cands : List Bytes} → path ≡ cand → Found path (cand ∷ cands)
    with_mu :
        {cand : Bytes} {cands : List Bytes}
        → file_exists cand ≡ false
        → ends_in_mu cand ≡ false
        → path ≡ cand ++ codes ".mu"
        → Found path (cand ∷ cands)
    later :
        {cand : Bytes} {cands : List Bytes}
        → Absent cand
        → Found path cands
        → Found path (cand ∷ cands)

  -- A path that is found among the candidates and held, or the empty one where none is.
  abbrev IsFirst : List Bytes → Bytes → Type 0
  IsFirst cands path =
      (Found path cands × (file_exists path ≡ true)) ⊎ ((path ≡ []) × All Absent cands)
