-- ===== src/Tests/Candle.antt =====
-- Runs of the candle messages.
use tdx.Base.{ℕ, ◌+◌, ◌*◌, ◌≡◌, refl, arith, true, false, List, [], ◌∷◌, ◌++◌, All, length}
use tdx.Base.Int.{pos, negsuc, quot}
use tdx.Base.Outcome.{ok}
use tdx.Base.Text.{text}
use tdx.Wire.Endian.{le_bytes16}
use tdx.Trade.RoundTrip.{Signed}
use tdx.Market.Kinds.{is_convertible_bond, sh_bond_number}
use tdx.Candle.Float.{float_int64}
use tdx.Candle.Defs.{KlineCache, Reader, kline_decode, fix_kline_time, normalize_kline_volume}
use tdx.Candle.Bars.{Quad, Bar, IsBar, bars_wire, bars_klines}
use tdx.Candle.RoundTrip.{kline_decode-bars_wire}
use tdx.Tests.Wire.{big_endian, big_endian-IsBigEndian, value_of}

-- 1.5 and -2 as 32-bit floats.
float_runs : (float_int64 1000 0x3fc00000 ≡ pos 1500) × (float_int64 1 0xc0000000 ≡ negsuc 1)
unfolding float_int64
float_runs = (refl, refl)

-- A minute's volume of a stock is in shares.
stock_volume :
    normalize_kline_volume
      (pos 43600)
      (record { kind = 7; series = text "stock"; code = text "sh600000" })
    ≡ pos 436
unfolding normalize_kline_volume quot is_convertible_bond sh_bond_number
stock_volume = refl

abbrev reader : Reader
reader = record {
  conv = big_endian;
  date = λ year month day hour minute.
      pos ((year * 10000 + month * 100 + day) * 1440 + hour * 60 + minute);
  counts = λ bs. pos (value_of 0 bs);
}

abbrev index_cache : KlineCache
index_cache = record { kind = 9; series = text "index"; code = text "sh000001" }

abbrev plus : ℕ → Signed
plus n = record { negative = false; magnitude = n }

abbrev quad : ℕ → Quad
quad n = record { b0 = n; b1 = 0; b2 = 192; b3 = 63 }

abbrev bars : List Bar
bars =
    record {
      time = record { b0 = 0x15; b1 = 0xd7; b2 = 0x34; b3 = 1 };
      open_step = plus 3000000;
      close_step = plus 1200;
      high_step = plus 1500;
      low_step = record { negative = true; magnitude = 200 };
      volume = quad 0;
      amount = quad 0;
      counts = record { b0 = 7; b1 = 1; b2 = 5; b3 = 0 };
    }
    ∷ []

bars-IsBar : All IsBar bars
bars-IsBar = (
  record {
    open_fits = omega arith;
    close_fits = omega arith;
    high_fits = omega arith;
    low_fits = omega arith;
  },
  tt,
)

kline_decode-bars_wire_example :
    kline_decode reader
      (pos 1)
      (pos 2)
      (pos 3)
      index_cache
      (le_bytes16 big_endian (length bars) ++ bars_wire true bars [])
    ≡ ok (record {
      count = 1;
      list =
          fix_kline_time (pos 1) (pos 2) (pos 3) (bars_klines reader index_cache true (pos 0) bars);
    })
kline_decode-bars_wire_example =
    kline_decode-bars_wire reader index_cache (pos 1) (pos 2) (pos 3) true bars []
      big_endian-IsBigEndian refl (omega arith) bars-IsBar
