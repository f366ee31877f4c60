-- ===== src/Trade/Defs.antt =====
-- `Trade` and the functions on one trade or on a list of them that make no candles. The time of a
-- trade is the midnight of its day, in Unix seconds, and the minutes since.
use tdx.Base.{ℕ, ◌+◌, ◌==◌, Bool, if◌then◌else◌, not, List, [], ◌∷◌}
use tdx.Base.Int.{ℤ, pos, add64, mul64, eqb_ℤ, ltb_ℤ}
use tdx.Kline.Defs.{Kline}
use tdx.Kline.Merge.{flat_kline}

pub record Trade : Type 0 where
  pub day : ℤ
  pub minute : ℕ
  pub price : ℤ
  pub volume : ℤ
  pub status : ℤ
  pub number : ℤ

unfoldable pub trade_amount : Trade → ℤ
trade_amount v = mul64 v.price (mul64 v.volume (pos 100))

unfoldable pub is_buy : Trade → Bool
is_buy v = eqb_ℤ v.status (pos 0)

unfoldable pub is_sell : Trade → Bool
is_sell v = eqb_ℤ v.status (pos 1)

-- The two sums of `Volume2`.
pub record Sides : Type 0 where
  pub sell : ℤ
  pub buy : ℤ

abbrev pub side_round : Sides → Trade → Sides
side_round s v =
    if eqb_ℤ v.status (pos 0)
    then record s { buy = add64 s.buy (mul64 v.volume (pos 100)) }
    else if eqb_ℤ v.status (pos 1)
    then record s { sell = add64 s.sell (mul64 v.volume (pos 100)) }
    else s

unfoldable pub volume2_loop : Sides → List Trade → Sides
volume2_loop s [] = s
volume2_loop s (v ∷ vs) = volume2_loop (side_round s v) vs

unfoldable pub volume2 : List Trade → Sides
unfolding volume2_loop
volume2 vs = volume2_loop (record { sell = pos 0; buy = pos 0 }) vs

-- `Trades.Kline`: `first` counts the priced trades so far.
abbrev pub add_trade : Kline → Trade → Kline
add_trade k v = record k {
  close = v.price;
  volume = add64 k.volume v.volume;
  order = add64 k.order v.number;
  amount = add64 k.amount (mul64 (mul64 v.price v.volume) (pos 100));
}

abbrev pub first_trade : Kline → Trade → Kline
first_trade k v =
    add_trade (record k { open_price = v.price; high = v.price; low = v.price; close = v.price }) v

module _ (select : Bool → ℤ → ℤ → ℤ) where
  abbrev pub later_trade : Kline → Trade → Kline
  later_trade k v =
      add_trade
        (record k {
          high = select (ltb_ℤ k.high v.price) v.price k.high;
          low = select (ltb_ℤ v.price k.low) v.price k.low;
        })
        v

  unfoldable pub trades_kline_loop : ℕ → Kline → List Trade → Kline
  trades_kline_loop first k [] = k
  trades_kline_loop first k (v ∷ vs) =
      let skipped = trades_kline_loop first k vs in
      let started = trades_kline_loop (first + 1) (first_trade k v) vs in
      let continued = trades_kline_loop (first + 1) (later_trade k v) vs in
      if not (ltb_ℤ (pos 0) v.price) then skipped else if first == 0 then started else continued

  unfoldable pub trades_kline : List Trade → ℤ → ℤ → Kline
  unfolding trades_kline_loop
  trades_kline vs t last = trades_kline_loop 0 (record (flat_kline t last) { last = last }) vs
