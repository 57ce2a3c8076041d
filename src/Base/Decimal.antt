-- ===== src/Base/Decimal.antt =====
-- `std::to_string` and `std::atoi` of unsigned numbers, and the split of a text at its last separator.
use mini_rpc.Base.Tests.{ltb, leb, ◌==◌, if◌then◌else◌, Bool-cases, ltb→lt}
use mini_rpc.Base.Lists.{All}
use Prim.Native.Nat.{ℕ, zero, suc, ◌+◌, ◌-◌, ◌*◌, ◌/◌, ◌%◌, ◌≤◌, ◌<◌, ◌^◌}
use mathlib.Core.Path.{◌≡◌, refl, ap, ◌∙◌, sym}
use mathlib.Core.Logic.{◌≢◌, inl, inr}
use mathlib.Core.List.{[], ◌∷◌, ◌++◌}
use mathlib.Core.Bool.{Bool, true, false, ◌&&◌}
use mathlib.Core.Option.{Option, none, some}
use native.Mathlib.Nat.{pow-suc}
use native.Mathlib.Omega.{arith}
use mini_rpc.Base.Text.{Text}

-- The last `fuel` decimal digits at most, with no leading zero.
digits : ℕ → ℕ → Text
digits zero n = []
digits (suc fuel) n =
    let more = digits fuel (n / 10) in
    if ltb n 10 then (48 + n) ∷ [] else more ++ ((48 + n % 10) ∷ [])

-- A `uint64_t` has at most twenty digits.
unfoldable pub to_string : ℕ → Text
unfolding digits
to_string n = digits 20 n

abbrev pub is_digit : ℕ → Bool
is_digit c = leb 48 c && leb c 57

abbrev pub IsDigit : ℕ → Type 0
IsDigit c = (48 ≤ c) × (c ≤ 57)

-- The number that the leading digits spell. (`atoi` also skips spaces and takes a sign; the texts
-- that it gets here begin with a digit.)
unfoldable pub atoi_from : ℕ → Text → ℕ
atoi_from acc [] = acc
atoi_from acc (c ∷ cs) = elim (is_digit c) [
  | true ↦ atoi_from (acc * 10 + (c - 48)) cs
  | false ↦ acc
]

unfoldable pub atoi : Text → ℕ
unfolding atoi_from
atoi s = atoi_from 0 s

digits-IsDigit : (fuel n : ℕ) → All IsDigit (digits fuel n)
unfolding digits
digits-IsDigit zero n = tt
digits-IsDigit (suc fuel) n =
    ground
      (arith, digits-IsDigit fuel (n / 10), All-append_digit (digits fuel (n / 10)) (48 + n % 10))
  where
    All-append_digit :
        (xs : Text) (c : ℕ) → All IsDigit xs → IsDigit c → All IsDigit (xs ++ (c ∷ []))
    All-append_digit [] c h d = (d, tt)
    All-append_digit (x ∷ xs) c h d = (h.0, All-append_digit xs c h.1 d)

pub to_string-IsDigit : (n : ℕ) → All IsDigit (to_string n)
unfolding to_string
to_string-IsDigit n = digits-IsDigit 20 n

atoi_from_digit :
    (acc c : ℕ) (cs : Text)
    → IsDigit c
    → atoi_from acc (c ∷ cs) ≡ atoi_from (acc * 10 + (c - 48)) cs
unfolding atoi_from
atoi_from_digit acc c cs h = ground arith

atoi_from-append :
    (acc : ℕ) (xs ys : Text)
    → All IsDigit xs
    → atoi_from acc (xs ++ ys) ≡ atoi_from (atoi_from acc xs) ys
atoi_from-append acc [] ys h = unfold atoi_from in refl
atoi_from-append acc (x ∷ xs) ys h =
    atoi_from_digit acc x (xs ++ ys) h.0
    ∙ atoi_from-append (acc * 10 + (x - 48)) xs ys h.1
    ∙ ap (λ k. atoi_from k ys) (sym (atoi_from_digit acc x xs h.0))

-- one more digit at the end
atoi_from_last :
    (xs : Text) (n d : ℕ)
    → All IsDigit xs
    → d < 10
    → atoi_from 0 xs ≡ n
    → atoi_from 0 (xs ++ ((48 + d) ∷ [])) ≡ n * 10 + d
atoi_from_last xs n d h k e =
    atoi_from-append 0 xs ((48 + d) ∷ []) h
    ∙ ap (λ a. atoi_from a ((48 + d) ∷ [])) e
    ∙ atoi_from_digit n (48 + d) [] (omega arith)
    ∙ unfold atoi_from in omega arith

digits_value : (fuel n : ℕ) → n < 10 ^ fuel → atoi_from 0 (digits fuel n) ≡ n
unfolding digits
digits_value zero n h = unfold atoi_from in omega arith
digits_value (suc fuel) n h = elim (Bool-cases (ltb n 10)) [
  | inl small ↦ rw small (single (ltb→lt _ _ small))
  | inr big ↦ rw big (
      atoi_from_last (digits fuel (n / 10)) (n / 10) (n % 10) (digits-IsDigit fuel (n / 10))
        (omega arith) (digits_value fuel (n / 10) (omega (arith, pow-suc 10 fuel)))
      ∙ omega arith)
]
  where
    single : n < 10 → atoi_from 0 ((48 + n) ∷ []) ≡ n
    single k = atoi_from_digit 0 (48 + n) [] (omega arith) ∙ unfold atoi_from in omega arith

pub atoi-to_string : (n : ℕ) → n < 2 ^ 64 → atoi (to_string n) ≡ n
unfolding atoi to_string
atoi-to_string n h = digits_value 20 n (omega arith)

-- `rfind(c)`, as the text before the last `c` and the text after it; `none` is `npos`.
unfoldable pub split_last : ℕ → Text → Option (Text × Text)
split_last c [] = none
split_last c (x ∷ xs) = elim (split_last c xs) [
  | some (before, after) ↦ some (x ∷ before, after)
  | none ↦ if x == c then some ([], xs) else none
]

pub split_last-none : (c : ℕ) (xs : Text) → All (λ x. x ≢ c) xs → split_last c xs ≡ none
unfolding split_last
split_last-none c [] h = refl
split_last-none c (x ∷ xs) h = ground (arith, split_last-none c xs h.1, h.0)

-- The part after the separator holds none.
pub split_last-append :
    (c : ℕ) (xs ys : Text) → All (λ x. x ≢ c) ys → split_last c (xs ++ (c ∷ ys)) ≡ some (xs, ys)
unfolding split_last
split_last-append c [] ys h = ground (arith, split_last-none c ys h)
split_last-append c (x ∷ xs) ys h = ground (arith, split_last-append c xs ys h)
