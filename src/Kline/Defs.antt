-- ===== src/Kline/Defs.antt =====
-- protocol/model_kline.go: `Kline`. Prices are int64 counts of thousandths; a time is its Unix
-- seconds.
use tdx.Base.{List, [], ◌∷◌, if◌then◌else◌}
use tdx.Base.Int.{ℤ, pos, sub64, eqb_ℤ, ltb_ℤ}

pub record Kline : Type 0 where
  pub last : ℤ
  pub open_price : ℤ
  pub high : ℤ
  pub low : ℤ
  pub close : ℤ
  pub order : ℤ
  pub volume : ℤ
  pub amount : ℤ
  pub time : ℤ
  pub up_count : ℤ
  pub down_count : ℤ

-- `Amplitude` and `MaxDifference` have the same body.
unfoldable pub amplitude : Kline → ℤ
amplitude k = sub64 k.high k.low

unfoldable pub rise_price : Kline → ℤ
rise_price k = if eqb_ℤ k.last (pos 0) then sub64 k.close k.open_price else sub64 k.close k.last

-- `Price.Abs`.
unfoldable pub abs_price : ℤ → ℤ
abs_price p = if ltb_ℤ p (pos 0) then sub64 (pos 0) p else p

-- `LastPrice`.
unfoldable pub last_price : List Kline → ℤ
last_price [] = pos 0
last_price (k ∷ []) = k.close
last_price (k ∷ l ∷ ks) = last_price (l ∷ ks)
