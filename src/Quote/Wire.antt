-- ===== src/Quote/Wire.antt =====
-- The wire form of a quote and what it means.
use tdx.Base.{ℕ, ◌^◌, ◌<◌, ◌≡◌, List, [], ◌∷◌, ◌++◌, length, All}
use tdx.Base.Int.{ℤ, pos}
use tdx.Base.Text.{Bytes}
use tdx.Wire.Endian.{Conv, uint32}
use tdx.Trade.RoundTrip.{Signed, value, wire}
use tdx.Candle.Float.{float_int64}
use tdx.Candle.Bars.{Quad, quad_bytes}
use tdx.Block.Cells.{put_uint16}
use tdx.Quote.Defs.{Quote}
use tdx.Quote.Numbers.{
  Small, Prices, IsPrices, prices_wire, prices_kline, Level, IsLevel, levels_wire, buy_levels,
  sell_levels,
}

-- A quote on the wire.
pub record QuoteWire : Type 0 where
  pub market : ℕ
  pub code : Bytes
  pub active1 : ℕ
  pub prices : Prices
  pub reversed0 : Signed
  pub reversed1 : Signed
  pub volume : Signed
  pub intuition : Signed
  pub amount : Quad
  pub inside_dish : Signed
  pub outer_disc : Signed
  pub reversed2 : Signed
  pub reversed3 : Signed
  pub levels : List Level
  pub reversed4 : ℕ
  pub reversed5 : Signed
  pub reversed6 : Signed
  pub reversed7 : Signed
  pub reversed8 : Signed
  pub reversed9 : ℕ
  pub active2 : ℕ

pub record IsQuote (w : QuoteWire) : Type 0 where
  pub six : length w.code ≡ 6
  pub ascii : All (λ c. (0 < c) × (c < 128)) w.code
  pub five : length w.levels ≡ 5
  pub prices_fit : IsPrices w.prices
  pub levels_fit : All IsLevel w.levels
  pub reversed0_fits : Small w.reversed0
  pub reversed1_fits : Small w.reversed1
  pub volume_fits : Small w.volume
  pub intuition_fits : Small w.intuition
  pub inside_dish_fits : Small w.inside_dish
  pub outer_disc_fits : Small w.outer_disc
  pub reversed2_fits : Small w.reversed2
  pub reversed3_fits : Small w.reversed3
  pub reversed5_fits : Small w.reversed5
  pub reversed6_fits : Small w.reversed6
  pub reversed7_fits : Small w.reversed7
  pub reversed8_fits : Small w.reversed8
  pub active1_fits : w.active1 < 2 ^ 16
  pub reversed4_fits : w.reversed4 < 2 ^ 16
  pub reversed9_fits : w.reversed9 < 2 ^ 16
  pub active2_fits : w.active2 < 2 ^ 16

module _ (w : QuoteWire) where
  abbrev pub head_numbers : Bytes → Bytes
  head_numbers rest =
      wire w.reversed0 ++ (wire w.reversed1 ++ (wire w.volume ++ (wire w.intuition ++ rest)))

  abbrev pub head_wire : Bytes → Bytes
  head_wire rest =
      w.market ∷ (w.code ++ put_uint16 w.active1 (prices_wire w.prices (head_numbers rest)))

  abbrev pub levels_part : Bytes → Bytes
  levels_part rest = quad_bytes w.amount (
      wire w.inside_dish
      ++ (wire w.outer_disc
          ++ (wire w.reversed2 ++ (wire w.reversed3 ++ levels_wire w.levels rest))))

  abbrev pub tail_part : Bytes → Bytes
  tail_part rest =
      put_uint16 w.reversed4
        (wire w.reversed5 ++ (wire w.reversed6 ++ (wire w.reversed7 ++ (wire w.reversed8 ++ rest))))

  abbrev pub end_part : Bytes → Bytes
  end_part rest = put_uint16 w.reversed9 (put_uint16 w.active2 rest)

  abbrev pub quote_wire : Bytes → Bytes
  quote_wire rest = head_wire (levels_part (tail_part (end_part rest)))

  abbrev pub head_of : ℤ → Quote
  head_of now = record {
    market = w.market;
    code = w.code;
    active1 = w.active1;
    kline = record (prices_kline now w.prices) { volume = value w.volume };
    reversed0 = value w.reversed0;
    reversed1 = value w.reversed1;
    intuition = value w.intuition;
    inside_dish = pos 0;
    outer_disc = pos 0;
    reversed2 = pos 0;
    reversed3 = pos 0;
    buy_level = [];
    sell_level = [];
    reversed4 = 0;
    reversed5 = pos 0;
    reversed6 = pos 0;
    reversed7 = pos 0;
    reversed8 = pos 0;
    reversed9 = 0;
    active2 = 0;
  }

  abbrev pub levels_of : Conv → ℤ → Quote
  levels_of c now = record (head_of now) {
    kline = record (prices_kline now w.prices) {
      volume = value w.volume;
      amount = float_int64 1000 (uint32 c (quad_bytes w.amount []));
    };
    inside_dish = value w.inside_dish;
    outer_disc = value w.outer_disc;
    reversed2 = value w.reversed2;
    reversed3 = value w.reversed3;
    buy_level = buy_levels w.prices.close w.levels;
    sell_level = sell_levels w.prices.close w.levels;
  }

  abbrev pub tail_of : Conv → ℤ → Quote
  tail_of c now = record (levels_of c now) {
    reversed4 = w.reversed4;
    reversed5 = value w.reversed5;
    reversed6 = value w.reversed6;
    reversed7 = value w.reversed7;
    reversed8 = value w.reversed8;
  }

  -- What the wire form means: exact prices in thousandths, and the numbers as they are.
  abbrev pub quote_of : Conv → ℤ → Quote
  quote_of c now = record (tail_of c now) { reversed9 = w.reversed9; active2 = w.active2 }

abbrev pub quotes_wire : List QuoteWire → Bytes → Bytes
quotes_wire [] rest = rest
quotes_wire (w ∷ ws) rest = quote_wire w (quotes_wire ws rest)

abbrev pub quotes_of : Conv → ℤ → List QuoteWire → List Quote
quotes_of c now [] = []
quotes_of c now (w ∷ ws) = quote_of w c now ∷ quotes_of c now ws
