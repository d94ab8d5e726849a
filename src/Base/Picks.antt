-- ===== src/Base/Picks.antt =====
-- A list that is left of another when members of it are taken out.
use mathlib.Core.List.{List, [], ◌∷◌, ◌++◌}

-- `xs` is what is left of `ys`, in its order.
pub data Picks {ℓ} {A : Type ℓ} : List A → List A → Type ℓ where
  done : Picks [] []
  leave : {y : A} {xs ys : List A} → Picks xs ys → Picks xs (y ∷ ys)
  take_on : {x : A} {xs ys : List A} → Picks xs ys → Picks (x ∷ xs) (x ∷ ys)

pub Picks-nil {ℓ} : {A : Type ℓ} (ys : List A) → Picks [] ys
Picks-nil [] = done
Picks-nil (y ∷ ys) = leave (Picks-nil ys)

pub Picks-trans {ℓ} : {A : Type ℓ} {xs ys zs : List A} → Picks xs ys → Picks ys zs → Picks xs zs
Picks-trans q done = q
Picks-trans q (leave p) = leave (Picks-trans q p)
Picks-trans (leave q) (take_on p) = leave (Picks-trans q p)
Picks-trans (take_on q) (take_on p) = take_on (Picks-trans q p)

Picks-append {ℓ} : {A : Type ℓ} (xs zs : List A) → Picks xs (xs ++ zs)
Picks-append [] zs = Picks-nil zs
Picks-append (x ∷ xs) zs = take_on (Picks-append xs zs)

-- The last members may go.
pub Picks-front {ℓ} :
    {A : Type ℓ} (xs zs : List A) {ys : List A} → Picks (xs ++ zs) ys → Picks xs ys
Picks-front xs zs p = Picks-trans (Picks-append xs zs) p

-- More may stand behind.
pub Picks-more {ℓ} : {A : Type ℓ} {xs ys : List A} (zs : List A) → Picks xs ys → Picks xs (ys ++ zs)
Picks-more zs done = Picks-nil zs
Picks-more zs (leave p) = leave (Picks-more zs p)
Picks-more zs (take_on p) = take_on (Picks-more zs p)

-- One more may stand behind both.
pub Picks-snoc {ℓ} :
    {A : Type ℓ} {xs ys : List A} (z : A) → Picks xs ys → Picks (xs ++ z ∷ []) (ys ++ z ∷ [])
Picks-snoc z done = take_on done
Picks-snoc z (leave p) = leave (Picks-snoc z p)
Picks-snoc z (take_on p) = take_on (Picks-snoc z p)
