-- ===== src/Base/Indexed.antt =====
-- Lists read and written by position, and weights summed over them.
use Prim.Native.Nat.{ℕ, zero, suc, ◌+◌, ◌≤◌, ◌<◌}
use mathlib.Core.Path.{◌≡◌, refl, ap, sym, ◌∙◌, subst}
use mathlib.Core.Logic.{◌≢◌, ◌⊎◌, inl, inr}
use mini_rpc.Base.Lists.{length}
use native.Mathlib.Decide.{ℕ_discrete}
use mathlib.Core.List.{List, [], ◌∷◌, ◌++◌, map}
use mathlib.Core.Option.{Option, none, some}
use native.Mathlib.Omega.{arith}

module _ {ℓ} {A : Type ℓ} where
  abbrev pub get_elem? : List A → ℕ → Option A
  get_elem? [] i = none
  get_elem? (x ∷ xs) zero = some x
  get_elem? (x ∷ xs) (suc i) = get_elem? xs i

  -- A write out of bounds changes nothing.
  abbrev pub set : List A → ℕ → A → List A
  set [] i a = []
  set (x ∷ xs) zero a = a ∷ xs
  set (x ∷ xs) (suc i) a = x ∷ set xs i a

  abbrev pub total : (A → ℕ) → List A → ℕ
  total w [] = 0
  total w (x ∷ xs) = w x + total w xs

  pub total-set :
      (w : A → ℕ) (xs : List A) (i : ℕ) (old new : A)
      → get_elem? xs i ≡ some old
      → total w (set xs i new) + w old ≡ total w xs + w new
  total-set w [] i old new e = absurd (cc)
  total-set w (x ∷ xs) zero old new e = ground arith
  total-set w (x ∷ xs) (suc i) old new e = omega (arith, total-set w xs i old new e)

  pub total-append : (w : A → ℕ) (xs ys : List A) → total w (xs ++ ys) ≡ total w xs + total w ys
  total-append w [] ys = omega arith
  total-append w (x ∷ xs) ys = omega (arith, total-append w xs ys)

  pub total-map :
      (w v : A → ℕ) (f : A → A) (xs : List A)
      → ((a : A) → w (f a) ≡ v a)
      → total w (map f xs) ≡ total v xs
  total-map w v f [] h = refl
  total-map w v f (x ∷ xs) h = omega (arith, h x, total-map w v f xs h)

  pub total-le : (w v : A → ℕ) (xs : List A) → ((b : A) → w b ≤ v b) → total w xs ≤ total v xs
  total-le w v [] h = omega arith
  total-le w v (x ∷ xs) h = omega (arith, h x, total-le w v xs h)

  -- What one weight dominates stays dominated in the sum, by one more where an element has it to spare.
  pub total-lt :
      (w v : A → ℕ) (xs : List A) (i : ℕ) (a : A)
      → ((b : A) → w b ≤ v b)
      → get_elem? xs i ≡ some a
      → w a < v a
      → total w xs < total v xs
  total-lt w v [] i a h e lt = absurd (cc)
  total-lt w v (x ∷ xs) zero a h e lt = ground (arith, total-le w v xs h)
  total-lt w v (x ∷ xs) (suc i) a h e lt = omega (arith, h x, total-lt w v xs i a h e lt)

  pub get_elem?-set_ne :
      (xs : List A) (i j : ℕ) (a : A) → i ≢ j → get_elem? (set xs i a) j ≡ get_elem? xs j
  get_elem?-set_ne [] i j a ne = refl
  get_elem?-set_ne (x ∷ xs) zero zero a ne = absurd (ne refl)
  get_elem?-set_ne (x ∷ xs) zero (suc j) a ne = refl
  get_elem?-set_ne (x ∷ xs) (suc i) zero a ne = refl
  get_elem?-set_ne (x ∷ xs) (suc i) (suc j) a ne = get_elem?-set_ne xs i j a (λ e. ne (ap suc e))

  pub get_elem?-append :
      (xs ys : List A) (i : ℕ) (a : A) → get_elem? xs i ≡ some a → get_elem? (xs ++ ys) i ≡ some a
  get_elem?-append [] ys i a e = absurd (cc)
  get_elem?-append (x ∷ xs) ys zero a e = e
  get_elem?-append (x ∷ xs) ys (suc i) a e = get_elem?-append xs ys i a e

  pub length-set : (xs : List A) (i : ℕ) (a : A) → length (set xs i a) ≡ length xs
  length-set [] i a = refl
  length-set (x ∷ xs) zero a = refl
  length-set (x ∷ xs) (suc i) a = ap suc (length-set xs i a)

  set_self : (xs : List A) (i : ℕ) (a b : A) → get_elem? (set xs i a) i ≡ some b → a ≡ b
  set_self [] i a b e = absurd (cc)
  set_self (x ∷ xs) zero a b e = cc
  set_self (x ∷ xs) (suc i) a b e = set_self xs i a b e

  -- An element after a write is the one written, or was there.
  pub set-cases :
      (xs : List A) (i : ℕ) (a : A) (j : ℕ) (b : A)
      → get_elem? (set xs i a) j ≡ some b
      → ((i ≡ j) × (a ≡ b)) ⊎ ((i ≢ j) × (get_elem? xs j ≡ some b))
  set-cases xs i a j b e = elim (ℕ_discrete i j) [
    | yes same ↦
        inl (same, set_self xs i a b (subst (λ k. get_elem? (set xs i a) k ≡ some b) (sym same) e))
    | no ne ↦ inr (ne, sym (get_elem?-set_ne xs i j a ne) ∙ e)
  ]

  -- An element after `push_back` is the last, or was there.
  pub append-cases :
      (xs : List A) (a : A) (j : ℕ) (b : A)
      → get_elem? (xs ++ (a ∷ [])) j ≡ some b
      → ((length xs ≡ j) × (a ≡ b)) ⊎ (get_elem? xs j ≡ some b)
  append-cases [] a zero b e = inl (refl, cc)
  append-cases [] a (suc j) b e = absurd (cc)
  append-cases (x ∷ xs) a zero b e = inr e
  append-cases (x ∷ xs) a (suc j) b e = elim (append-cases xs a j b e) [
    | inl (last, same) ↦ inl (ap suc last, same)
    | inr old ↦ inr old
  ]

  pub map-cases :
      (f : A → A) (xs : List A) (j : ℕ) (b : A)
      → get_elem? (map f xs) j ≡ some b
      → (a : A) × (get_elem? xs j ≡ some a) × (f a ≡ b)
  map-cases f [] j b e = absurd (cc)
  map-cases f (x ∷ xs) zero b e = (x, refl, cc)
  map-cases f (x ∷ xs) (suc j) b e = map-cases f xs j b e

  pub length-map : (f : A → A) (xs : List A) → length (map f xs) ≡ length xs
  length-map f [] = refl
  length-map f (x ∷ xs) = ap suc (length-map f xs)

  pub get_elem?-lt : (xs : List A) (i : ℕ) (a : A) → get_elem? xs i ≡ some a → i < length xs
  get_elem?-lt [] i a e = absurd (cc)
  get_elem?-lt (x ∷ xs) zero a e = omega arith
  get_elem?-lt (x ∷ xs) (suc i) a e = omega (arith, get_elem?-lt xs i a e)

  pub total-elem :
      (w : A → ℕ) (xs : List A) (i : ℕ) {a : A} → get_elem? xs i ≡ some a → w a ≤ total w xs
  total-elem w [] i e = absurd (cc)
  total-elem w (x ∷ xs) zero e = ground arith
  total-elem w (x ∷ xs) (suc i) e = omega (arith, total-elem w xs i e)
