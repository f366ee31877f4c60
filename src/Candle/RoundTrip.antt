-- ===== src/Candle/RoundTrip.antt =====
-- `kline.Decode` reads back the wire form of a list of candles.
use tdx.Base.{
  ℕ, suc, ◌+◌, ◌*◌, ◌/◌, ◌%◌, ◌^◌, ◌<◌, ◌≤◌, ◌≡◌, refl, ap, ◌∙◌, arith, Bool, true, false, List, [],
  ◌∷◌, ◌++◌, length, All, ltb,
}
use tdx.Base.Int.{ℤ, pos, ◌+ℤ◌}
use tdx.Base.Outcome.{ok}
use tdx.Base.Text.{Bytes, text, eqb_text}
use tdx.Wire.Endian.{IsBigEndian, uint16_lem, le_bytes16, le_bytes16_lem}
use tdx.Trade.RoundTrip.{value}
use tdx.Kline.Defs.{Kline}
use tdx.Candle.Defs.{
  KlineCache, Reader, get_time, bar, index_bar, with_prices, kline_round, kline_loop,
  fix_kline_time, kline_decode,
}
use tdx.Candle.Bars.{
  Fits, quad_bytes, Bar, IsBar, prices_wire, tail_wire, bars_wire, steps_of,
  read_prices-prices_wire, long_four, long_eight, stock_kline, bar_kline, bars_klines, bar-steps_of,
}

module _ (rd : Reader) (cache : KlineCache) where
  with_prices-stock :
      (last time : ℤ) (b : Bar) (k : Kline) (rest : Bytes)
      → eqb_text cache.series (text "index") ≡ false
      → bar rd cache last time (steps_of b (tail_wire false b rest)) ≡ k
      → with_prices rd cache last time (steps_of b (tail_wire false b rest)) ≡ ok (rest, k)
  with_prices-stock last time b k rest series e =
      rw (long_eight (length rest), series) (ap (λ (k : Kline). ok (rest, k)) e)

  with_prices-index :
      (last time : ℤ) (b : Bar) (k : Kline) (rest : Bytes)
      → eqb_text cache.series (text "index") ≡ true
      → bar rd cache last time (steps_of b (tail_wire true b rest)) ≡ k
      → with_prices rd cache last time (steps_of b (tail_wire true b rest))
        ≡ ok (rest, index_bar rd (quad_bytes b.counts rest) k)
  with_prices-index last time b k rest series e =
      rw (long_eight (length (quad_bytes b.counts rest)), series, long_four (length rest))
        (ap (λ (k : Kline). ok (rest, index_bar rd (quad_bytes b.counts rest) k)) e)

  with_prices_lem :
      (index : Bool) (b : Bar) (last time : ℤ) (rest : Bytes)
      → eqb_text cache.series (text "index") ≡ index
      → bar rd cache last time (steps_of b (tail_wire index b rest)) ≡ stock_kline rd cache last b
      → with_prices rd cache last time (steps_of b (tail_wire index b rest))
        ≡ ok (rest, bar_kline rd cache index last b)
  with_prices_lem false b last time rest series e =
      with_prices-stock last time b (stock_kline rd cache last b) rest series e
  with_prices_lem true b last time rest series e =
      with_prices-index last time b (stock_kline rd cache last b) rest series e

  kline_round_lem :
      (index : Bool) (m : ℕ) (last : ℤ) (b : Bar) (rest : Bytes)
      → eqb_text cache.series (text "index") ≡ index
      → IsBar b
      → Fits m last
      → m + 2 ^ 32 ≤ 2 ^ 61
      → kline_round rd cache last (quad_bytes b.time (prices_wire b (tail_wire index b rest)))
        ≡ ok (rest, bar_kline rd cache index last b)
  unfolding kline_round
  kline_round_lem index m last b rest series good fits room =
      let tail = tail_wire index b rest in
      let time = get_time rd (quad_bytes b.time []) cache.kind in
      let k = (bar-steps_of rd cache m last b index rest good fits room).0 in
      rw (long_four (length (prices_wire b tail))) (
        ap (with_prices rd cache last time) (read_prices-prices_wire b tail good)
        ∙ with_prices_lem index b last time rest series k)

  close_is :
      (index : Bool) (last : ℤ) (b : Bar)
      → (bar_kline rd cache index last b).close ≡ last +ℤ value b.open_step +ℤ value b.close_step
  close_is false last b = refl
  close_is true last b = refl

  kline_loop-bars_wire :
      (index : Bool) (bs : List Bar) (m : ℕ) (last : ℤ) (rest : Bytes)
      → eqb_text cache.series (text "index") ≡ index
      → All IsBar bs
      → Fits m last
      → m + length bs * 2 ^ 32 ≤ 2 ^ 61
      → kline_loop rd cache (length bs) last (bars_wire index bs rest)
        ≡ ok (bars_klines rd cache index last bs)
  unfolding kline_loop
  kline_loop-bars_wire index [] m last rest series good fits room = refl
  kline_loop-bars_wire index (b ∷ bs) m last rest series good fits room =
      let next = (bar-steps_of rd cache m last b index rest good.0 fits (omega arith)).1 in
      let close = last +ℤ value b.open_step +ℤ value b.close_step in
      rw
        (
          kline_round_lem index m last b (bars_wire index bs rest) series good.0 fits (omega arith),
          close_is index last b,
          kline_loop-bars_wire index bs (m + 2 ^ 32) close rest series good.1 next (omega arith),
        )
        refl

  not_short : (n : ℕ) → ltb (suc (suc n)) 2 ≡ false
  not_short n = ground arith

  -- Given the documented byte order of the conversions, Decode reads back up to 65535 candles, with
  -- 31 bits and a sign for each change of price, from their wire form, with the counts behind each
  -- candle of an index and without them for other securities: each price is the close before and
  -- the changes, summed without overflow, and the times are then mended by FixKlineTime.
  pub kline_decode-bars_wire :
      (noon node1 node2 : ℤ) (index : Bool) (bs : List Bar) (rest : Bytes)
      → IsBigEndian rd.conv
      → eqb_text cache.series (text "index") ≡ index
      → length bs < 2 ^ 16
      → All IsBar bs
      → kline_decode rd noon node1 node2 cache
          (le_bytes16 rd.conv (length bs) ++ bars_wire index bs rest)
        ≡ ok (record {
          count = length bs;
          list = fix_kline_time noon node1 node2 (bars_klines rd cache index (pos 0) bs);
        })
  unfolding kline_decode
  kline_decode-bars_wire noon node1 node2 index bs rest big series fits good =
      let whole : length bs / 256 * 256 + length bs % 256 ≡ length bs = omega arith in
      rw
        (
          le_bytes16_lem rd.conv big (length bs) fits,
          uint16_lem rd.conv big (length bs % 256) (length bs / 256) (omega arith) (omega arith),
          whole,
          not_short (length (bars_wire index bs rest)),
          kline_loop-bars_wire index bs 0 (pos 0) rest series good (omega arith, omega arith)
              (omega arith),
        )
        refl
