-- ===== src/Candle/Bars.antt =====
-- The wire form of candles and what it means.
use tdx.Base.{
  ℕ, suc, ◌+◌, ◌^◌, ◌<◌, ◌≤◌, ◌≡◌, refl, arith, Bool, false, List, [], ◌∷◌, ◌++◌, if◌then◌else◌,
  ltb,
}
use tdx.Base.Int.{
  ℤ, pos, pos_part, neg_part, ◌+ℤ◌, add64, mul64, wrap64_self, +ℤ_parts, parts_apart,
}
use tdx.Base.Text.{Bytes}
use tdx.Wire.Endian.{uint32}
use tdx.Varint.RoundTrip.{get_price-signed_wire}
use tdx.Trade.RoundTrip.{Signed, value, wire}
use tdx.Intraday.History.{value_small}
use tdx.Kline.Defs.{Kline}
use tdx.Candle.Float.{float_int64}
use tdx.Candle.Defs.{KlineCache, normalize_kline_volume, Reader, get_time, Prices, read_prices, bar}

-- No further from zero than `m`.
abbrev pub Fits : ℕ → ℤ → Type 0
Fits m z = (pos_part z ≤ m) × (neg_part z ≤ m)

add_plain :
    (m n : ℕ) (a b : ℤ)
    → Fits m a
    → Fits n b
    → m + n ≤ 2 ^ 62
    → (add64 a b ≡ a +ℤ b) × Fits (m + n) (a +ℤ b)
add_plain m n a b ha hb h =
    let parts = +ℤ_parts a b in
    let apart = parts_apart (a +ℤ b) in
    (wrap64_self (a +ℤ b) (omega arith), (omega arith, omega arith))

value-Fits : (s : Signed) → s.magnitude < 2 ^ 31 → Fits (2 ^ 31) (value s)
value-Fits s h = let v = value_small s h in (omega arith, omega arith)

pub record Quad : Type 0 where
  pub b0 : ℕ
  pub b1 : ℕ
  pub b2 : ℕ
  pub b3 : ℕ

abbrev pub quad_bytes : Quad → Bytes → Bytes
quad_bytes q rest = q.b0 ∷ q.b1 ∷ q.b2 ∷ q.b3 ∷ rest

-- One candle on the wire; `counts` is sent for an index only.
pub record Bar : Type 0 where
  pub time : Quad
  pub open_step : Signed
  pub close_step : Signed
  pub high_step : Signed
  pub low_step : Signed
  pub volume : Quad
  pub amount : Quad
  pub counts : Quad

pub record IsBar (b : Bar) : Type 0 where
  pub open_fits : b.open_step.magnitude < 2 ^ 31
  pub close_fits : b.close_step.magnitude < 2 ^ 31
  pub high_fits : b.high_step.magnitude < 2 ^ 31
  pub low_fits : b.low_step.magnitude < 2 ^ 31

abbrev pub prices_wire : Bar → Bytes → Bytes
prices_wire b rest =
    wire b.open_step ++ (wire b.close_step ++ (wire b.high_step ++ (wire b.low_step ++ rest)))

-- Behind the prices.
abbrev pub tail_wire : Bool → Bar → Bytes → Bytes
tail_wire index b rest =
    quad_bytes b.volume (quad_bytes b.amount (if index then quad_bytes b.counts rest else rest))

abbrev pub bars_wire : Bool → List Bar → Bytes → Bytes
bars_wire index [] rest = rest
bars_wire index (b ∷ bs) rest =
    quad_bytes b.time (prices_wire b (tail_wire index b (bars_wire index bs rest)))

abbrev pub steps_of : Bar → Bytes → Prices
steps_of b after = record {
  open_step = value b.open_step;
  close_step = value b.close_step;
  high_step = value b.high_step;
  low_step = value b.low_step;
  after = after;
}

pub read_prices-prices_wire :
    (b : Bar) (rest : Bytes) → IsBar b → read_prices (prices_wire b rest) ≡ steps_of b rest
read_prices-prices_wire b rest good =
    let after_high = wire b.low_step ++ rest in
    let after_close = wire b.high_step ++ after_high in
    rw
      (
        get_price-signed_wire b.open_step.negative b.open_step.magnitude
            (wire b.close_step ++ after_close) good.open_fits,
        get_price-signed_wire b.close_step.negative b.close_step.magnitude after_close
            good.close_fits,
        get_price-signed_wire b.high_step.negative b.high_step.magnitude after_high good.high_fits,
        get_price-signed_wire b.low_step.negative b.low_step.magnitude rest good.low_fits,
      )
      refl

pub long_four : (n : ℕ) → ltb (suc (suc (suc (suc n)))) 4 ≡ false
long_four n = ground arith

pub long_eight : (n : ℕ) → ltb (suc (suc (suc (suc (suc (suc (suc (suc n)))))))) 8 ≡ false
long_eight n = ground arith

module _ (rd : Reader) (cache : KlineCache) where
  -- What a candle on the wire means, behind one that closed at `last`: exact sums.
  abbrev pub stock_kline : ℤ → Bar → Kline
  stock_kline last b = record {
    last = last;
    open_price = value b.open_step +ℤ last;
    close = last +ℤ value b.open_step +ℤ value b.close_step;
    high = value b.open_step +ℤ last +ℤ value b.high_step;
    low = value b.open_step +ℤ last +ℤ value b.low_step;
    order = pos 0;
    volume = normalize_kline_volume (float_int64 1 (uint32 rd.conv (quad_bytes b.volume []))) cache;
    amount = float_int64 1000 (uint32 rd.conv (quad_bytes b.amount []));
    time = get_time rd (quad_bytes b.time []) cache.kind;
    up_count = pos 0;
    down_count = pos 0;
  }

  abbrev pub bar_kline : Bool → ℤ → Bar → Kline
  bar_kline index last b =
      let k = stock_kline last b in
      if index
      then record k {
        volume = mul64 k.volume (pos 100);
        up_count = rd.counts (b.counts.b1 ∷ b.counts.b0 ∷ []);
        down_count = rd.counts (b.counts.b3 ∷ b.counts.b2 ∷ []);
      }
      else k

  abbrev pub bars_klines : Bool → ℤ → List Bar → List Kline
  bars_klines index last [] = []
  bars_klines index last (b ∷ bs) =
      bar_kline index last b
      ∷ bars_klines index (last +ℤ value b.open_step +ℤ value b.close_step) bs

  pub bar-steps_of :
      (m : ℕ) (last : ℤ) (b : Bar) (index : Bool) (rest : Bytes)
      → IsBar b
      → Fits m last
      → m + 2 ^ 32 ≤ 2 ^ 61
      → (bar rd cache last
            (get_time rd (quad_bytes b.time []) cache.kind)
            (steps_of b (tail_wire index b rest))
          ≡ stock_kline last b)
        × Fits (m + 2 ^ 32) (last +ℤ value b.open_step +ℤ value b.close_step)
  bar-steps_of m last b index rest good fits room =
      let o = value b.open_step in
      let (open_is, open_fits) =
        add_plain (2 ^ 31) m o last (value-Fits b.open_step good.open_fits) fits (omega arith) in
      let (last_is, last_fits) =
        add_plain m (2 ^ 31) last o fits (value-Fits b.open_step good.open_fits) (omega arith) in
      let (close_is, close_fits) =
        add_plain (m + 2 ^ 31) (2 ^ 31) (last +ℤ o) (value b.close_step) last_fits
          (value-Fits b.close_step good.close_fits) (omega arith) in
      let (high_is, high_fits) =
        add_plain (2 ^ 31 + m) (2 ^ 31) (o +ℤ last) (value b.high_step) open_fits
          (value-Fits b.high_step good.high_fits) (omega arith) in
      let (low_is, low_fits) =
        add_plain (2 ^ 31 + m) (2 ^ 31) (o +ℤ last) (value b.low_step) open_fits
          (value-Fits b.low_step good.low_fits) (omega arith) in
      (
        rw (open_is, last_is, close_is, high_is, low_is) refl,
        (omega (arith, close_fits), omega (arith, close_fits)),
      )
