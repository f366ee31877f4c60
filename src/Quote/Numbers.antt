-- ===== src/Quote/Numbers.antt =====
-- The wire form of the numbers in a quote, and what the parts of the decoder read from it.
use tdx.Base.{◌*◌, ◌^◌, ◌<◌, ◌≡◌, refl, arith, true, false, List, [], ◌∷◌, ◌++◌, length, All}
use tdx.Base.Int.{
  ℤ, pos, pos_part, neg_part, ◌+ℤ◌, ◌*ℤ◌, ◌-ℤ◌, add64, mul64, wrap64_self, +ℤ_parts, parts_apart,
}
use tdx.Base.Text.{Bytes}
use tdx.Varint.Cut.{get_price, cut_int64}
use tdx.Varint.RoundTrip.{get_price-signed_wire}
use tdx.Trade.RoundTrip.{Signed, value, wire, cut_int-signed_wire}
use tdx.Kline.Defs.{Kline}
use tdx.Quote.Defs.{PriceLevel, decode_kline, level_loop}

abbrev pub Small : Signed → Type 0
Small s = s.magnitude < 2 ^ 31

pub get_price-wire :
    (s : Signed) (rest : Bytes) → Small s → get_price (wire s ++ rest) ≡ (rest, value s)
get_price-wire s rest h = get_price-signed_wire s.negative s.magnitude rest h

pub cut_int64-wire :
    (s : Signed) (rest : Bytes) → Small s → cut_int64 (wire s ++ rest) ≡ (rest, value s)
unfolding cut_int64 get_price
cut_int64-wire s rest h = get_price-signed_wire s.negative s.magnitude rest h

-- The five prices: the close, and the others as differences from it.
pub record Prices : Type 0 where
  pub close : Signed
  pub last : Signed
  pub open_step : Signed
  pub high : Signed
  pub low : Signed

pub record IsPrices (p : Prices) : Type 0 where
  pub close_fits : Small p.close
  pub last_fits : Small p.last
  pub open_fits : Small p.open_step
  pub high_fits : Small p.high
  pub low_fits : Small p.low

abbrev pub prices_wire : Prices → Bytes → Bytes
prices_wire p rest =
    wire p.close ++ (wire p.last ++ (wire p.open_step ++ (wire p.high ++ (wire p.low ++ rest))))

-- In tenths: a step and the close, exactly.
abbrev pub price_of : Signed → Signed → ℤ
price_of step close = (value step +ℤ value close) *ℤ pos 10

abbrev pub prices_kline : ℤ → Prices → Kline
prices_kline now p = record {
  last = price_of p.last p.close;
  open_price = price_of p.open_step p.close;
  high = price_of p.high p.close;
  low = price_of p.low p.close;
  close = value p.close *ℤ pos 10;
  order = pos 0;
  volume = pos 0;
  amount = pos 0;
  time = now;
  up_count = pos 0;
  down_count = pos 0;
}

value-Small : (s : Signed) → Small s → (pos_part (value s) < 2 ^ 31) × (neg_part (value s) < 2 ^ 31)
unfolding ◌-ℤ◌
value-Small s h = ground arith

times_ten :
    (z : ℤ)
    → (pos_part (z *ℤ pos 10) ≡ pos_part z * 10) × (neg_part (z *ℤ pos 10) ≡ neg_part z * 10)
unfolding ◌*ℤ◌
times_ten z = ground arith

scaled_exact :
    (s c : Signed) → Small s → Small c → mul64 (add64 (value s) (value c)) (pos 10) ≡ price_of s c
scaled_exact s c hs hc =
    let sum = value s +ℤ value c in
    let parts = +ℤ_parts (value s) (value c) in
    let apart = parts_apart sum in
    let a = value-Small s hs in
    let b = value-Small c hc in
    let ten = times_ten sum in
    rw (wrap64_self sum (omega arith)) (wrap64_self (sum *ℤ pos 10) (omega arith))

tenfold_exact : (c : Signed) → Small c → mul64 (value c) (pos 10) ≡ value c *ℤ pos 10
tenfold_exact c h =
    let a = value-Small c h in
    let ten = times_ten (value c) in wrap64_self (value c *ℤ pos 10) (omega arith)

pub decode_kline-prices_wire :
    (now : ℤ) (p : Prices) (rest : Bytes)
    → IsPrices p
    → decode_kline now (prices_wire p rest) ≡ (rest, prices_kline now p)
unfolding decode_kline
decode_kline-prices_wire now p rest good =
    let after_high = wire p.low ++ rest in
    let after_open = wire p.high ++ after_high in
    let after_last = wire p.open_step ++ after_open in
    rw
      (
        get_price-wire p.close (wire p.last ++ after_last) good.close_fits,
        get_price-wire p.last after_last good.last_fits,
        get_price-wire p.open_step after_open good.open_fits,
        get_price-wire p.high after_high good.high_fits,
        get_price-wire p.low rest good.low_fits,
        scaled_exact p.last p.close good.last_fits good.close_fits,
        scaled_exact p.open_step p.close good.open_fits good.close_fits,
        scaled_exact p.high p.close good.high_fits good.close_fits,
        scaled_exact p.low p.close good.low_fits good.close_fits,
        tenfold_exact p.close good.close_fits,
      )
      refl

-- One level of both sides.
pub record Level : Type 0 where
  pub buy_step : Signed
  pub sell_step : Signed
  pub buy_number : Signed
  pub sell_number : Signed

pub record IsLevel (l : Level) : Type 0 where
  pub buy_fits : Small l.buy_step
  pub sell_fits : Small l.sell_step
  pub buy_number_fits : Small l.buy_number
  pub sell_number_fits : Small l.sell_number

abbrev pub levels_wire : List Level → Bytes → Bytes
levels_wire [] rest = rest
levels_wire (l ∷ ls) rest =
    wire l.buy_step
    ++ (wire l.sell_step ++ (wire l.buy_number ++ (wire l.sell_number ++ levels_wire ls rest)))

abbrev pub level_price : Signed → Signed → ℤ
level_price step close = value step *ℤ pos 10 +ℤ value close *ℤ pos 10

abbrev pub buy_levels : Signed → List Level → List PriceLevel
buy_levels close [] = []
buy_levels close (l ∷ ls) =
    record { buy = true; price = level_price l.buy_step close; number = value l.buy_number }
    ∷ buy_levels close ls

abbrev pub sell_levels : Signed → List Level → List PriceLevel
sell_levels close [] = []
sell_levels close (l ∷ ls) =
    record { buy = false; price = level_price l.sell_step close; number = value l.sell_number }
    ∷ sell_levels close ls

level_exact :
    (s c : Signed)
    → Small s
    → Small c
    → add64 (mul64 (value s) (pos 10)) (value c *ℤ pos 10) ≡ level_price s c
level_exact s c hs hc =
    let x = value s *ℤ pos 10 in
    let y = value c *ℤ pos 10 in
    let parts = +ℤ_parts x y in
    let apart = parts_apart (x +ℤ y) in
    let a = value-Small s hs in
    let b = value-Small c hc in
    let ten = times_ten (value s) in
    let ten' = times_ten (value c) in rw (tenfold_exact s hs) (wrap64_self (x +ℤ y) (omega arith))

pub level_loop-levels_wire :
    (close : Signed) (ls : List Level) (rest : Bytes)
    → Small close
    → All IsLevel ls
    → level_loop (length ls) (value close *ℤ pos 10) (levels_wire ls rest)
      ≡ (rest, (buy_levels close ls, sell_levels close ls))
unfolding level_loop
level_loop-levels_wire close [] rest h good = refl
level_loop-levels_wire close (l ∷ ls) rest h good =
    let g = good.0 in
    let after = levels_wire ls rest in
    let after_buy = wire l.sell_number ++ after in
    let after_sell = wire l.buy_number ++ after_buy in
    rw
      (
        get_price-wire l.buy_step (wire l.sell_step ++ after_sell) g.buy_fits,
        get_price-wire l.sell_step after_sell g.sell_fits,
        cut_int-signed_wire l.buy_number after_buy g.buy_number_fits,
        cut_int-signed_wire l.sell_number after g.sell_number_fits,
        level_exact l.buy_step close g.buy_fits h,
        level_exact l.sell_step close g.sell_fits h,
        level_loop-levels_wire close ls rest h good.1,
      )
      refl
