-- ===== src/Base/Lists.antt =====
-- Lists measured by native numbers, and predicates on lists by recursion.
use Prim.Native.Nat.{ℕ, zero, suc, ◌+◌}
use mathlib.Core.Path.{◌≡◌}
use mathlib.Core.Logic.{◌⊎◌, inl, inr, ◌↔◌}
use mathlib.Core.Bool.{Bool, true, false, ◌||◌}
use mathlib.Core.List.{List, [], ◌∷◌, ◌++◌}
use mathlib.Core.Option.{Option, none, some}
use native.Mathlib.Omega.{arith}
use binance_testnet_trading.Base.Tests.{if◌then◌else◌, Bool-cases}

module _ {ℓ} {A : Type ℓ} where
  abbrev pub length : List A → ℕ
  length [] = 0
  length (x ∷ xs) = suc (length xs)

  pub length-append : (xs ys : List A) → length (xs ++ ys) ≡ length xs + length ys
  length-append [] ys = omega arith
  length-append (x ∷ xs) ys = omega (arith, length-append xs ys)

  -- `[x for x in xs if p(x)]`
  abbrev pub keep : (A → Bool) → List A → List A
  keep p [] = []
  keep p (x ∷ xs) = let rest = keep p xs in if p x then x ∷ rest else rest

  -- `any(p(x) for x in xs)`
  abbrev pub any : (A → Bool) → List A → Bool
  any p [] = false
  any p (x ∷ xs) = p x || any p xs

  -- `xs[:n]` and `xs[n:]`
  abbrev pub take : ℕ → List A → List A
  take zero xs = []
  take (suc n) [] = []
  take (suc n) (x ∷ xs) = x ∷ take n xs

  abbrev pub drop : ℕ → List A → List A
  drop zero xs = xs
  drop (suc n) [] = []
  drop (suc n) (x ∷ xs) = drop n xs

  -- `xs[-1]`
  abbrev pub last? : List A → Option A
  last? [] = none
  last? (x ∷ []) = some x
  last? (x ∷ y ∷ ys) = last? (y ∷ ys)

abbrev pub All {ℓ κ} : {A : Type ℓ} → (A → Type κ) → List A → Type κ
All P [] = Unit
All P (x ∷ xs) = P x × All P xs

abbrev pub In : {A : Type 0} → A → List A → Type 0
In a [] = ⊥
In a (x ∷ xs) = (a ≡ x) ⊎ In a xs

pub All-append {ℓ κ} :
    {A : Type ℓ} (P : A → Type κ) (xs ys : List A) → All P xs → All P ys → All P (xs ++ ys)
All-append P [] ys hx hy = hy
All-append P (x ∷ xs) ys hx hy = (hx.0, All-append P xs ys hx.1 hy)

-- What `keep` keeps.
pub In-keep :
    {A : Type 0} (p : A → Bool) (xs : List A) (a : A) → In a (keep p xs) ↔ (In a xs × (p a ≡ true))
In-keep p [] a = (λ h. elim h [ ], λ h. elim h.0 [ ])
In-keep p (x ∷ xs) a =
    let rest = In-keep p xs a in
    elim (Bool-cases (p x)) [
      | inl kept ↦ rw kept (
        λ h. elim h [ inl e ↦ (inl e, rw e kept) | inr m ↦ (inr (rest.0 m).0, (rest.0 m).1) ],
        λ h. elim h.0 [ inl e ↦ inl e | inr m ↦ inr (rest.1 (m, h.1)) ],
      )
      | inr left ↦ rw left (
        λ m. (inr (rest.0 m).0, (rest.0 m).1),
        λ h. elim h.0 [ inl e ↦ cc | inr m ↦ rest.1 (m, h.1) ],
      )
    ]

pub All-keep {ℓ} :
    {A : Type 0} (p : A → Bool) (P : A → Type ℓ)
    → ((a : A) → p a ≡ true → P a)
    → (xs : List A) → All P (keep p xs)
All-keep p P holds [] = tt
All-keep p P holds (x ∷ xs) = elim (Bool-cases (p x)) [
  | inl kept ↦ rw kept (holds x kept, All-keep p P holds xs)
  | inr left ↦ rw left (All-keep p P holds xs)
]
