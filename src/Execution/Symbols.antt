-- ===== src/Execution/Symbols.antt =====
-- execution/symbol_parsing.py (and the same two functions of execution/live_runner.py): a symbol such
-- as "BTCUSDT" is the base asset followed by one of the known quote assets.
use text.Mathlib.TextEquality.{eq_iff}
use Prim.Native.String.{◌++◌ as append}
use text.Mathlib.Text.{◌==◌ as str_eq}
use text.Mathlib.TextLemmas.{nil-append, cons-append}
use binance_testnet_trading.Base.{
  Bool, Bool-cases, In, List, Option, String, [], ap, arith, if◌then◌else◌, inl, inr, none, some,
  suc, true, zero, ℕ, ◌-◌, ◌||◌, ◌∷◌, ◌≡◌, ◌≤◌,
}

abbrev pub known_quote_assets : List String
known_quote_assets = "USDT" ∷ "USDC" ∷ "BUSD" ∷ "BTC" ∷ "ETH" ∷ []

-- `symbol.endswith(suffix)`: a tail of the symbol is the suffix.
pub ends_with : String → String → Bool
ends_with suffix String.[] = str_eq String.[] suffix
ends_with suffix (String.◌∷◌ c s) = str_eq (String.◌∷◌ c s) suffix || ends_with suffix s

-- `len(s)`
pub chars : String → ℕ
chars String.[] = 0
chars (String.◌∷◌ c s) = suc (chars s)

-- `s[:n]`
pub take_chars : ℕ → String → String
take_chars zero s = String.[]
take_chars (suc n) String.[] = String.[]
take_chars (suc n) (String.◌∷◌ c s) = String.◌∷◌ c (take_chars n s)

pub quote_of : List String → String → Option String
quote_of [] symbol = none
quote_of (suffix ∷ rest) symbol =
    if ends_with suffix symbol then some suffix else quote_of rest symbol

-- `none` is the ValueError.
unfoldable pub quote_asset : String → Option String
unfolding quote_of ends_with
quote_asset symbol = quote_of known_quote_assets symbol

-- `symbol[: -len(quote_asset(symbol))]`; no known quote asset is empty.
unfoldable pub base_asset : String → Option String
unfolding quote_asset chars take_chars
base_asset symbol = elim (quote_asset symbol) [
  | none ↦ none
  | some q ↦ some (take_chars (chars symbol - chars q) symbol)
]

chars-ends_with : (suffix s : String) → ends_with suffix s ≡ true → chars suffix ≤ chars s
unfolding ends_with chars
chars-ends_with suffix String.[] h =
    let same = (eq_iff String.[] suffix).0 h in rw (← same) (omega arith)
chars-ends_with suffix (String.◌∷◌ c s) h = elim (Bool-cases (str_eq (String.◌∷◌ c s) suffix)) [
  | inl same ↦ rw (← (eq_iff (String.◌∷◌ c s) suffix).0 same) (omega arith)
  | inr other ↦ let le = chars-ends_with suffix s (ground arith) in omega arith
]

-- The whole text as the suffix leaves nothing before it.
all_taken : (s : String) → append (take_chars (chars s - chars s) s) s ≡ s
unfolding take_chars
all_taken s = let nothing : chars s - chars s ≡ 0 = omega arith in rw nothing (nil-append s)

take_chars-ends_with :
    (suffix s : String)
    → ends_with suffix s ≡ true
    → append (take_chars (chars s - chars suffix) s) suffix ≡ s
unfolding ends_with chars take_chars
take_chars-ends_with suffix String.[] h =
    let same = (eq_iff String.[] suffix).0 h in rw (← same) (nil-append _)
take_chars-ends_with suffix (String.◌∷◌ c s) h =
    elim (Bool-cases (str_eq (String.◌∷◌ c s) suffix)) [
      | inl same ↦
          let whole = (eq_iff (String.◌∷◌ c s) suffix).0 same in
          rw (← whole) (all_taken (String.◌∷◌ c s))
      | inr other ↦
          let ends : ends_with suffix s ≡ true = ground arith in
          let le = chars-ends_with suffix s ends in
          let one_more : suc (chars s) - chars suffix ≡ suc (chars s - chars suffix) =
            omega arith in
          rw (one_more, cons-append) (ap (λ t. String.◌∷◌ c t) (take_chars-ends_with suffix s ends))
    ]

quote_of-ends_with :
    (table : List String) (symbol : String) {q : String}
    → quote_of table symbol ≡ some q
    → (ends_with q symbol ≡ true) × In q table
unfolding quote_of
quote_of-ends_with [] symbol e = cc
quote_of-ends_with (suffix ∷ rest) symbol {q = q} e = elim (Bool-cases (ends_with suffix symbol)) [
  | inl here ↦ let same : q ≡ suffix = ground arith in (rw same here, inl same)
  | inr later ↦
      let (ends, there) = quote_of-ends_with rest symbol {q = q} (ground arith) in (ends, inr there)
]

-- Where the quote asset of a symbol is found it is one of the known ones, and the symbol is the base
-- asset followed by it.
pub base_asset-append-quote_asset :
    (symbol : String) {q b : String}
    → quote_asset symbol ≡ some q
    → base_asset symbol ≡ some b
    → In q known_quote_assets × (append b q ≡ symbol)
unfolding base_asset
base_asset-append-quote_asset symbol {q = q} {b = b} e f =
    let (ends, known) =
      quote_of-ends_with known_quote_assets symbol {q = q} (unfold quote_asset in e) in
    let cut : b ≡ take_chars (chars symbol - chars q) symbol = ground arith in
    (known, rw cut (take_chars-ends_with q symbol ends))
