-- ===== src/Desktop/Resolve.antt =====
-- desktop/browser.cpp: the helpers on paths, and `resolve`, from a link's target to a local file.
-- Which files there are is given.
use thicket_firmware.Base.{
  ◌-◌, Bool, true, false, not, ◌&&◌, Option, none, some, List, [], ◌∷◌, ◌++◌, length, take, drop,
  ltb, leb, ◌==◌, if◌then◌else◌, codes, equal,
}
use thicket_firmware.App.Platform.{Bytes}
use thicket_firmware.App.Autosend.{is_hex}

-- What stands before and behind the last `/`, if there is one.
unfoldable pub split_last : Bytes → Option (Bytes × Bytes)
split_last [] = none
split_last (ch ∷ rest) = elim (split_last rest) [
  | some p ↦ some (ch ∷ p.0, p.1)
  | none ↦ if ch == b'/' then some ([], rest) else none
]

unfoldable pub dirname_of : Bytes → Bytes
dirname_of p = elim (split_last p) [ none ↦ codes "." | some parts ↦ parts.0 ]

unfoldable pub basename_of : Bytes → Bytes
basename_of p = elim (split_last p) [ none ↦ p | some parts ↦ parts.1 ]

-- What stands before and behind the first `:`, if there is one.
unfoldable pub split_colon : Bytes → Option (Bytes × Bytes)
split_colon [] = none
split_colon (ch ∷ rest) = elim (split_colon rest) [
  | some p ↦ if ch == b':' then some ([], rest) else some (ch ∷ p.0, p.1)
  | none ↦ if ch == b':' then some ([], rest) else none
]

-- `std::isxdigit` of each.
unfoldable pub all_xdigits : Bytes → Bool
all_xdigits [] = true
all_xdigits (ch ∷ rest) = if is_hex ch then all_xdigits rest else false

unfoldable pub looks_hex : Bytes → Bool
looks_hex s = if ltb (length s) 8 then false else all_xdigits s

-- `replace_all(s, "/", "__")`: each round goes on behind what it put in.
unfoldable pub replace_slashes : Bytes → Bytes
replace_slashes [] = []
replace_slashes (ch ∷ rest) =
    if ch == b'/' then b'_' ∷ b'_' ∷ replace_slashes rest else ch ∷ replace_slashes rest

unfoldable pub without_slash : Bytes → Bytes
without_slash [] = []
without_slash (ch ∷ rest) = if ch == b'/' then rest else ch ∷ rest

-- The hash and the path that a target names.
unfoldable pub target_parts : Bytes → Bytes × Bytes
target_parts target = elim (split_colon target) [
  | none ↦ ([], target)
  | some p ↦ if looks_hex p.0 then p else ([], target)
]

abbrev pub joined : Bytes → Bytes → Bytes
joined dir name = dir ++ b'/' ∷ name

unfoldable pub hash_candidates : Bytes → Bytes → Bytes → List Bytes
hash_candidates root [] und = []
hash_candidates root (h ∷ hash) und =
    joined root (take 16 (h ∷ hash) ++ (codes "__" ++ und))
    ∷ joined root ((h ∷ hash) ++ (codes "__" ++ und))
    ∷ []

unfoldable pub candidates : Bytes → Bytes → Bytes → List Bytes
candidates target curdir root =
    let (hash, path) = target_parts target in
    let rel = without_slash path in
    let base = basename_of path in
    hash_candidates root hash (replace_slashes rel)
    ++ (joined curdir base ∷ joined curdir rel ∷ joined root rel ∷ joined root base ∷ [])

unfoldable pub ends_in_mu : Bytes → Bool
ends_in_mu p = leb 3 (length p) && equal (drop (length p - 3) p) (codes ".mu")

module _ (file_exists : Bytes → Bool) where
  -- The loop over the candidates, each also with `.mu` behind it.
  unfoldable pub first_held : List Bytes → Bytes
  first_held [] = []
  first_held (cand ∷ cands) =
      if file_exists cand
      then cand
      else if not (ends_in_mu cand) && file_exists (cand ++ codes ".mu")
      then cand ++ codes ".mu"
      else first_held cands

  -- An empty path says that no file is held.
  unfoldable pub resolve : Bytes → Bytes → Bytes → Bytes
  resolve [] curdir root = []
  resolve (ch ∷ rest) curdir root =
      if ch == b':' then [] else first_held (candidates (ch ∷ rest) curdir root)
