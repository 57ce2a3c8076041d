-- ===== src/Base/Dict.antt =====
-- `std::map` and `std::unordered_map`: an association list, each key at most once.
use mathlib.Core.Path.{◌≡◌, refl, sym, ◌∙◌, subst}
use mathlib.Core.Logic.{ite, ◌≢◌, if_pos, if_neg, inl, inr}
use mathlib.Core.List.{List, [], ◌∷◌}
use mathlib.Core.Option.{Option, none, some}
use mathlib.Core.Bool.{Bool}
use mini_rpc.Base.Tests.{if◌then◌else◌, Bool-cases}
use native.Mathlib.Omega.{arith}

module _ {ℓ} {K V : Type ℓ} where
  -- The loop that erases, by its iterator, every entry whose value fails the test.
  unfoldable pub keep : (V → Bool) → List (K × V) → List (K × V)
  keep p [] = []
  keep p ((j, w) ∷ m) = let rest = keep p m in if p w then (j, w) ∷ rest else rest

-- A value that passes the test.
abbrev pub only {ℓ} : {V : Type ℓ} → (V → Bool) → Option V → Option V
only p none = none
only p (some v) = if p v then some v else none

module _ {ℓ} {K V : Type ℓ} (eq : Discrete K) where
  -- `find`; `none` is `end()`.
  unfoldable pub lookup : K → List (K × V) → Option V
  lookup k [] = none
  lookup k ((j, v) ∷ m) = ite (eq j k) (some v) (lookup k m)

  -- `m[k] = v`
  unfoldable pub insert : K → V → List (K × V) → List (K × V)
  insert k v [] = (k, v) ∷ []
  insert k v ((j, w) ∷ m) = ite (eq j k) ((k, v) ∷ m) ((j, w) ∷ insert k v m)

  -- `erase(k)`
  unfoldable pub erase : K → List (K × V) → List (K × V)
  erase k [] = []
  erase k ((j, w) ∷ m) = ite (eq j k) (erase k m) ((j, w) ∷ erase k m)

  pub lookup-insert_self : (k : K) (v : V) (m : List (K × V)) → lookup k (insert k v m) ≡ some v
  unfolding lookup insert
  lookup-insert_self k v [] = ground arith
  lookup-insert_self k v ((j, w) ∷ m) = ground (arith, lookup-insert_self k v m)

  pub lookup-insert_ne :
      (k j : K) (v : V) (m : List (K × V)) → k ≢ j → lookup j (insert k v m) ≡ lookup j m
  unfolding lookup insert
  lookup-insert_ne k j v [] h = ground arith
  lookup-insert_ne k j v ((i, w) ∷ m) h = ground (arith, lookup-insert_ne k j v m h)

  pub lookup-erase_self : (k : K) (m : List (K × V)) → lookup k (erase k m) ≡ none
  unfolding lookup erase
  lookup-erase_self k [] = refl
  lookup-erase_self k ((j, w) ∷ m) = ground (arith, lookup-erase_self k m)

  pub lookup-erase_ne : (k j : K) (m : List (K × V)) → k ≢ j → lookup j (erase k m) ≡ lookup j m
  unfolding lookup erase
  lookup-erase_ne k j [] h = refl
  lookup-erase_ne k j ((i, w) ∷ m) h = ground (arith, lookup-erase_ne k j m h)

  -- The two operations as updates of a partial map.
  pub lookup-insert :
      (k j : K) (v : V) (m : List (K × V))
      → lookup j (insert k v m) ≡ ite (eq k j) (some v) (lookup j m)
  lookup-insert k j v m = elim (eq k j) [
    | yes e ↦
        rw (if_pos _ e) (subst (λ i. lookup i (insert k v m) ≡ some v) e (lookup-insert_self k v m))
    | no ne ↦ rw (if_neg _ ne) (lookup-insert_ne k j v m ne)
  ]

  pub lookup-erase :
      (k j : K) (m : List (K × V)) → lookup j (erase k m) ≡ ite (eq k j) none (lookup j m)
  lookup-erase k j m = elim (eq k j) [
    | yes e ↦ rw (if_pos _ e) (subst (λ i. lookup i (erase k m) ≡ none) e (lookup-erase_self k m))
    | no ne ↦ rw (if_neg _ ne) (lookup-erase_ne k j m ne)
  ]

  -- Each key stands at most once.
  abbrev pub Unique : List (K × V) → Type ℓ
  Unique [] = Unit
  Unique ((j, w) ∷ m) = (lookup j m ≡ none) × Unique m

  pub lookup-insert-none :
      (k j : K) (v : V) (m : List (K × V))
      → k ≢ j
      → lookup j m ≡ none
      → lookup j (insert k v m) ≡ none
  lookup-insert-none k j v m h e = lookup-insert_ne k j v m h ∙ e

  lookup-erase-none : (k j : K) (m : List (K × V)) → lookup j m ≡ none → lookup j (erase k m) ≡ none
  unfolding lookup erase
  lookup-erase-none k j [] e = refl
  lookup-erase-none k j ((i, w) ∷ m) e = ground (arith, lookup-erase-none k j m)

  lookup-keep-none :
      (p : V → Bool) (j : K) (m : List (K × V)) → lookup j m ≡ none → lookup j (keep p m) ≡ none
  unfolding lookup keep
  lookup-keep-none p j [] e = refl
  lookup-keep-none p j ((i, w) ∷ m) e = ground (arith, lookup-keep-none p j m)

  pub Unique-insert : (k : K) (v : V) (m : List (K × V)) → Unique m → Unique (insert k v m)
  unfolding insert
  Unique-insert k v [] u = (unfold lookup in refl, tt)
  Unique-insert k v ((j, w) ∷ m) u = elim (eq j k) [
    | yes e ↦ rw (if_pos _ e) (subst (λ i. lookup i m ≡ none) e u.0, u.1)
    | no ne ↦
        rw (if_neg _ ne) (lookup-insert-none k j v m (λ e. ne (sym e)) u.0, Unique-insert k v m u.1)
  ]

  pub Unique-erase : (k : K) (m : List (K × V)) → Unique m → Unique (erase k m)
  unfolding erase
  Unique-erase k [] u = tt
  Unique-erase k ((j, w) ∷ m) u = elim (eq j k) [
    | yes e ↦ rw (if_pos _ e) (Unique-erase k m u.1)
    | no ne ↦ rw (if_neg _ ne) (lookup-erase-none k j m u.0, Unique-erase k m u.1)
  ]

  pub Unique-keep : (p : V → Bool) (m : List (K × V)) → Unique m → Unique (keep p m)
  unfolding keep
  Unique-keep p [] u = tt
  Unique-keep p ((j, w) ∷ m) u = elim (Bool-cases (p w)) [
    | inl e ↦ rw e (lookup-keep-none p j m u.0, Unique-keep p m u.1)
    | inr e ↦ rw e (Unique-keep p m u.1)
  ]

  pub lookup-keep :
      (p : V → Bool) (k : K) (m : List (K × V))
      → Unique m
      → lookup k (keep p m) ≡ only p (lookup k m)
  unfolding lookup keep
  lookup-keep p k [] u = refl
  lookup-keep p k ((j, w) ∷ m) u = elim (eq j k) [
    | yes e ↦
        let gone = subst (λ i. lookup i (keep p m) ≡ none) e (lookup-keep-none p j m u.0) in
        ground arith
    | no ne ↦ ground (arith, lookup-keep p k m u.1)
  ]
