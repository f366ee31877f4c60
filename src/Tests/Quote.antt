-- ===== src/Tests/Quote.antt =====
-- Runs of the decoder of quotes.
use Prim.{tt}
use tdx.Base.{ℕ, ◌≡◌, refl, arith, true, false, [], ◌∷◌}
use tdx.Base.Int.{pos, ◌+ℤ◌, ◌*ℤ◌, ◌-ℤ◌}
use tdx.Base.Outcome.{ok}
use tdx.Base.Text.{text}
use tdx.Trade.RoundTrip.{Signed}
use tdx.Block.Cells.{put_uint16}
use tdx.Quote.Defs.{quote_decode}
use tdx.Quote.Numbers.{Level, IsLevel, price_of}
use tdx.Quote.Wire.{QuoteWire, IsQuote, quotes_wire, quotes_of}
use tdx.Quote.RoundTrip.{quote_decode-quotes_wire}
use tdx.Tests.Wire.{big_endian, big_endian-IsBigEndian}

abbrev up : ℕ → Signed
up n = record { negative = false; magnitude = n }

abbrev down : ℕ → Signed
down n = record { negative = true; magnitude = n }

abbrev one_level : Level
one_level = record {
  buy_step = down 1;
  sell_step = up 1;
  buy_number = up 300;
  sell_number = up 200;
}

one_level-IsLevel : IsLevel one_level
one_level-IsLevel = record {
  buy_fits = omega arith;
  sell_fits = omega arith;
  buy_number_fits = omega arith;
  sell_number_fits = omega arith;
}

abbrev bank : QuoteWire
bank = record {
  market = 0;
  code = text "000001";
  active1 = 2866;
  prices = record { close = up 1175; last = up 11; open_step = up 12; high = up 20; low = down 5 };
  reversed0 = up 14000000;
  reversed1 = down 1175;
  volume = up 100000;
  intuition = up 20;
  amount = record { b0 = 0; b1 = 0; b2 = 128; b3 = 63 };
  inside_dish = up 50000;
  outer_disc = up 50000;
  reversed2 = up 0;
  reversed3 = up 0;
  levels = one_level ∷ one_level ∷ one_level ∷ one_level ∷ one_level ∷ [];
  reversed4 = 1;
  reversed5 = up 0;
  reversed6 = up 0;
  reversed7 = up 0;
  reversed8 = up 0;
  reversed9 = 0;
  active2 = 2866;
}

bank-IsQuote : IsQuote bank
bank-IsQuote = record {
  six = refl;
  ascii = ground arith;
  five = refl;
  prices_fit = record {
    close_fits = omega arith;
    last_fits = omega arith;
    open_fits = omega arith;
    high_fits = omega arith;
    low_fits = omega arith;
  };
  levels_fit = (
    one_level-IsLevel,
    (one_level-IsLevel, (one_level-IsLevel, (one_level-IsLevel, (one_level-IsLevel, tt)))),
  );
  reversed0_fits = omega arith;
  reversed1_fits = omega arith;
  volume_fits = omega arith;
  intuition_fits = omega arith;
  inside_dish_fits = omega arith;
  outer_disc_fits = omega arith;
  reversed2_fits = omega arith;
  reversed3_fits = omega arith;
  reversed5_fits = omega arith;
  reversed6_fits = omega arith;
  reversed7_fits = omega arith;
  reversed8_fits = omega arith;
  active1_fits = omega arith;
  reversed4_fits = omega arith;
  reversed9_fits = omega arith;
  active2_fits = omega arith;
}

-- A low of 11.70 for a close of 11.75.
low_price : price_of (down 5) (up 1175) ≡ pos 11700
unfolding ◌+ℤ◌ ◌*ℤ◌ ◌-ℤ◌
low_price = refl

quote_decode-quotes_wire_example :
    quote_decode big_endian
      (λ s. s)
      (pos 0)
      (1 ∷ 54 ∷ put_uint16 2 (quotes_wire (bank ∷ bank ∷ []) (9 ∷ [])))
    ≡ ok (quotes_of big_endian (pos 0) (bank ∷ bank ∷ []))
quote_decode-quotes_wire_example =
    quote_decode-quotes_wire big_endian (λ s. s) (pos 0) big_endian-IsBigEndian (λ s h. refl)
      (bank ∷ bank ∷ []) 1 54 (9 ∷ []) (omega arith) (bank-IsQuote, (bank-IsQuote, tt))
