-- ===== src/Store/Paging.antt =====
-- What the listings return, page by page.
use vitis.Prelude.{ℕ, zero, suc, ◌*◌, ◌≤◌, ◌≡◌, refl, ap, List, [], ◌∷◌, ◌++◌, take, drop, All}
use mathlib.Core.List.{Perm}
use mathlib.Core.List.Perm
use vitis.Store.Disk.{Disk}

module _ {A : Type 0} where
  take-drop_split : (n : ℕ) (l : List A) → take n l ++ drop n l ≡ l
  take-drop_split zero l = refl
  take-drop_split (suc n) [] = refl
  take-drop_split (suc n) (x ∷ l) = ap (◌∷◌ x) (take-drop_split n l)

  drop_nil : (n : ℕ) → drop {A = A} n [] ≡ []
  drop_nil zero = refl
  drop_nil (suc n) = refl

  -- The first `k` pages of size `n`.
  abbrev pub pages : ℕ → List A → ℕ → List A
  pages n l zero = []
  pages n l (suc k) = pages n l k ++ take n (drop (k * n) l)

  module _ (time : A → ℕ) where
    abbrev pub IsOlder : A → A → Type 0
    IsOlder x y = time y ≤ time x

    -- No record is newer than one before it.
    abbrev pub IsNewestFirst : List A → Type 0
    IsNewestFirst [] = Unit {0}
    IsNewestFirst (x ∷ xs) = All (IsOlder x) xs × IsNewestFirst xs
