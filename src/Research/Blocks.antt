-- ===== src/Research/Blocks.antt =====
-- research/blocked_chronological_evaluation.py: history is cut into equal consecutive blocks.
use native.Mathlib.Nat.{div-add-mod'}
use native.Mathlib.Nat.{mod-lt}
use binance_testnet_trading.Base.{
  Bool-cases, List, Option, [], ap, arith, if◌then◌else◌, inl, inr, length, ltb, ltb→lt, min, none,
  refl, some, suc, zero, ℕ, ◌%◌, ◌*◌, ◌+◌, ◌-◌, ◌/◌, ◌<◌, ◌∷◌, ◌≡◌, ◌≤◌,
}

-- One round of `for k in range(block_count)` for each block left; `size = base + 1` for the first
-- `remainder` blocks.
block_loop : ℕ → ℕ → ℕ → ℕ → ℕ → List (ℕ × ℕ)
block_loop base remainder zero k cursor = []
block_loop base remainder (suc left) k cursor =
    let end = cursor + (base + (if ltb k remainder then 1 else 0)) in
    (cursor, end) ∷ block_loop base remainder left (k + 1) end

-- For `first_tradable_idx <= n`; `none` is the ZeroDivisionError of `divmod` for no blocks.
unfoldable pub block_boundaries : ℕ → ℕ → ℕ → Option (List (ℕ × ℕ))
unfolding block_loop
block_boundaries first_tradable_idx n zero = none
block_boundaries first_tradable_idx n (suc left) =
    let tradable_n = n - first_tradable_idx in
    let block_count = suc left in
    some (
      block_loop (tradable_n / block_count) (tradable_n % block_count) block_count 0
        first_tradable_idx)

-- The ranges follow one another from `first` to `last`, each of `base` or `base + 1` indices.
abbrev pub Tiles : ℕ → ℕ → ℕ → List (ℕ × ℕ) → Type 0
Tiles base first last [] = first ≡ last
Tiles base first last ((start, end) ∷ rest) =
    (start ≡ first) × (start + base ≤ end) × (end ≤ start + base + 1) × Tiles base end last rest

-- The blocks left of the loop that get one index more.
abbrev extra : ℕ → ℕ → ℕ → ℕ
extra remainder left k = min left (remainder - k)

block_loop-Tiles :
    (base remainder left k cursor last : ℕ)
    → last ≡ cursor + (base * left + extra remainder left k)
    → Tiles base cursor last (block_loop base remainder left k cursor)
unfolding block_loop
block_loop-Tiles base remainder zero k cursor last e = omega arith
block_loop-Tiles base remainder (suc left) k cursor last e = elim (Bool-cases (ltb k remainder)) [
  | inl more ↦
      let lt = ltb→lt k remainder more in
      rw more (
        refl,
        omega arith,
        omega arith,
        block_loop-Tiles base remainder left (k + 1) (cursor + (base + 1)) last (grind arith),
      )
  | inr plain ↦
      let le : remainder ≤ k = ground arith in
      rw plain (
        refl,
        omega arith,
        omega arith,
        block_loop-Tiles base remainder left (k + 1) (cursor + (base + 0)) last (grind arith),
      )
]

length-block_loop :
    (base remainder left k cursor : ℕ) → length (block_loop base remainder left k cursor) ≡ left
unfolding block_loop
length-block_loop base remainder zero k cursor = refl
length-block_loop base remainder (suc left) k cursor =
    ap suc (length-block_loop base remainder left (k + 1) _)

-- For at least one block and a first index within the series, the blocks are as many as asked for,
-- they cover the indices from the first to `n` with no overlap and no hole, in order, and their
-- sizes differ by at most one.
pub block_boundaries_tile :
    (first n block_count : ℕ) {blocks : List (ℕ × ℕ)}
    → first ≤ n
    → block_boundaries first n block_count ≡ some blocks
    → (length blocks ≡ block_count) × Tiles ((n - first) / block_count) first n blocks
unfolding block_boundaries
block_boundaries_tile first n zero h e = cc
block_boundaries_tile first n (suc left) {blocks = blocks} h e =
    let base = (n - first) / suc left in
    let remainder = (n - first) % suc left in
    let made : blocks ≡ block_loop base remainder (suc left) 0 first = ground arith in
    let short : remainder < suc left = mod-lt (n - first) (omega arith) in
    let whole = div-add-mod' (n - first) (suc left) in
    rw made (
      length-block_loop base remainder (suc left) 0 first,
      block_loop-Tiles base remainder (suc left) 0 first n (grind arith),
    )
