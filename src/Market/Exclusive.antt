-- ===== src/Market/Exclusive.antt =====
-- No code is of two kinds: the four classifiers of protocol/unit.go exclude one another.
use tdx.Base.{true, false, [], ◌∷◌, ◌≡◌, arith}
use tdx.Base.Text.{Bytes, to_lower}
use tdx.Market.Kinds.{
  is_stock, is_etf, is_index, is_convertible_bond, is_sh_stock_number, is_sz_stock_number,
  is_bj_stock_number, is_sh_etf, is_sz_etf, is_sh_index, is_sz_index, is_bj_index, is_block,
  sh_bond_number, sz_bond_number,
}

-- In one market the number decides. Where a stock is tested the number is not lowered.
sh_stock_only :
    (n : Bytes)
    → is_sh_stock_number n ≡ true
    → (is_sh_etf (to_lower n) ≡ false)
      × (is_sh_index (to_lower n) ≡ false)
      × (is_block (to_lower n) ≡ false)
      × (sh_bond_number (to_lower n) ≡ false)
unfolding is_sh_stock_number is_sh_etf is_sh_index is_block sh_bond_number
sh_stock_only [] h = ground arith
sh_stock_only (a ∷ n) h = ground arith

sz_stock_only :
    (n : Bytes)
    → is_sz_stock_number n ≡ true
    → (is_sz_etf (to_lower n) ≡ false)
      × (is_sz_index (to_lower n) ≡ false)
      × (sz_bond_number (to_lower n) ≡ false)
unfolding is_sz_stock_number is_sz_etf is_sz_index sz_bond_number
sz_stock_only [] h = ground arith
sz_stock_only (a ∷ []) h = ground arith
sz_stock_only (a ∷ b ∷ n) h = ground arith

bj_stock_only : (n : Bytes) → is_bj_stock_number n ≡ true → is_bj_index (to_lower n) ≡ false
unfolding is_bj_stock_number is_bj_index
bj_stock_only [] h = ground arith
bj_stock_only (a ∷ n) h = ground arith

sh_etf_only :
    (n : Bytes)
    → is_sh_etf n ≡ true
    → (is_sh_index n ≡ false) × (is_block n ≡ false) × (sh_bond_number n ≡ false)
unfolding is_sh_etf is_sh_index is_block sh_bond_number
sh_etf_only [] h = ground arith
sh_etf_only (a ∷ n) h = ground arith

sz_etf_only :
    (n : Bytes) → is_sz_etf n ≡ true → (is_sz_index n ≡ false) × (sz_bond_number n ≡ false)
unfolding is_sz_etf is_sz_index sz_bond_number
sz_etf_only [] h = ground arith
sz_etf_only (a ∷ []) h = ground arith
sz_etf_only (a ∷ b ∷ n) h = ground arith

sh_bond_only :
    (n : Bytes) → sh_bond_number n ≡ true → (is_sh_index n ≡ false) × (is_block n ≡ false)
unfolding is_sh_index is_block sh_bond_number
sh_bond_only [] h = ground arith
sh_bond_only (a ∷ n) h = ground arith

sz_bond_only : (n : Bytes) → sz_bond_number n ≡ true → is_sz_index n ≡ false
unfolding is_sz_index sz_bond_number
sz_bond_only [] h = ground arith
sz_bond_only (a ∷ n) h = ground arith

stock_only :
    (code : Bytes)
    → is_stock code ≡ true
    → (is_etf code ≡ false) × (is_index code ≡ false) × (is_convertible_bond code ≡ false)
unfolding is_stock is_etf is_index is_convertible_bond
stock_only [] h = ground arith
stock_only (a ∷ []) h = ground arith
stock_only (a ∷ b ∷ n) h = ground (arith, sh_stock_only n, sz_stock_only n, bj_stock_only n)

etf_only :
    (code : Bytes)
    → is_etf code ≡ true
    → (is_index code ≡ false) × (is_convertible_bond code ≡ false)
unfolding is_etf is_index is_convertible_bond
etf_only [] h = ground arith
etf_only (a ∷ []) h = ground arith
etf_only (a ∷ b ∷ n) h = ground (arith, sh_etf_only (to_lower n), sz_etf_only (to_lower n))

index_only : (code : Bytes) → is_index code ≡ true → is_convertible_bond code ≡ false
unfolding is_index is_convertible_bond
index_only [] h = ground arith
index_only (a ∷ []) h = ground arith
index_only (a ∷ b ∷ n) h = ground (arith, sh_bond_only (to_lower n), sz_bond_only (to_lower n))

-- Whatever the code, a stock is no fund, index or bond, a fund is no index or bond, and an index is
-- no bond.
pub kinds_exclude :
    (code : Bytes)
    → (is_stock code ≡ true
        → (is_etf code ≡ false) × (is_index code ≡ false) × (is_convertible_bond code ≡ false))
      × (is_etf code ≡ true → (is_index code ≡ false) × (is_convertible_bond code ≡ false))
      × (is_index code ≡ true → is_convertible_bond code ≡ false)
kinds_exclude code = (stock_only code, etf_only code, index_only code)
