-- ===== src/Terminal/Screen/Returns.antt =====
-- Normal returns: a result that is there and satisfies a predicate.
use vitis.Prelude.{
  ℕ, zero, suc, ◌<◌, ◌≡◌, refl, Option, some, List, [], ◌∷◌, pos, length, get_elem?, All, arith,
  if◌then◌else◌, Bool, true, false,
}
use vitis.Terminal.Screen.Grid.{◌>>=◌, index, set_nth, update}

abbrev pub Returns {ℓ κ} : {A : Type ℓ} → Option A → (A → Type κ) → Type (ℓ ⊔ κ)
Returns {A = A} r P = (a : A) × (r ≡ some a) × P a

module _ {ℓ} {A B : Type ℓ} where
  pub Returns-bind :
      (P : A → Type 0) (Q : B → Type 0) (m : Option A) (f : A → Option B)
      → Returns m P
      → ((a : A) → P a → Returns (f a) Q)
      → Returns (m >>= f) Q
  Returns-bind P Q m f (a, e, p) k = rw e (k a p)

module _ {ℓ} {A : Type ℓ} (P : A → Type 0) where
  pub get_elem?-Returns : (l : List A) (i : ℕ) → i < length l → All P l → Returns (get_elem? l i) P
  get_elem?-Returns [] i h a = absurd (omega arith)
  get_elem?-Returns (x ∷ xs) zero h a = (x, refl, a.0)
  get_elem?-Returns (x ∷ xs) (suc i) h a = get_elem?-Returns xs i (omega arith) a.1

  -- Of the same length, and with the predicate throughout.
  abbrev pub Alike : List A → List A → Type 0
  Alike l l' = (length l' ≡ length l) × All P l'

  pub set_nth-Returns :
      (l : List A) (i : ℕ) (v : A)
      → i < length l
      → All P l
      → P v
      → Returns (set_nth l i v) (Alike l)
  unfolding set_nth
  set_nth-Returns [] i v h a p = absurd (omega arith)
  set_nth-Returns (x ∷ xs) zero v h a p = (v ∷ xs, refl, (refl, (p, a.1)))
  set_nth-Returns (x ∷ xs) (suc i) v h a p =
      Returns-bind (Alike xs) (Alike (x ∷ xs)) (set_nth xs i v) (λ ys. some (x ∷ ys))
        (set_nth-Returns xs i v (omega arith) a.1 p)
        (λ ys q. (x ∷ ys, refl, (omega (arith, q.0), (a.0, q.1))))

  pub index-Returns : (l : List A) (i : ℕ) → i < length l → All P l → Returns (index l (pos i)) P
  unfolding index
  index-Returns = get_elem?-Returns

  pub update-Returns :
      (l : List A) (i : ℕ) (v : A)
      → i < length l
      → All P l
      → P v
      → Returns (update l (pos i) v) (Alike l)
  unfolding update
  update-Returns = set_nth-Returns

-- What holds of both branches.
pub chosen {ℓ κ} :
    {A : Type ℓ} (Q : A → Type κ) (b : Bool) {x y : A} → Q x → Q y → Q (if b then x else y)
chosen Q true p q = p
chosen Q false p q = q
