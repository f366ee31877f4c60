-- ===== src/Tests/Trade.antt =====
-- Runs of the trade functions.
use tdx.Base.{
  ℕ, ◌≡◌, refl, arith, Bool, true, false, List, [], ◌∷◌, ◌++◌, All, length, some, if◌then◌else◌,
}
use tdx.Base.Int.{ℤ, pos, negsuc, mul64}
use tdx.Base.Outcome.{ok}
use tdx.Base.Text.{text}
use tdx.Wire.Endian.{le_bytes16}
use tdx.Kline.Defs.{Kline}
use tdx.Kline.Modular.{total}
use tdx.Trade.Defs.{Trade, trades_kline}
use tdx.Trade.Minute.{klines_for_day, bucket_key}
use tdx.Trade.Bucket.{IsChoice, priced}
use tdx.Trade.Decode.{base_price, trade_decode}
use tdx.Trade.Conserve.{klines_for_day-total}
use tdx.Trade.Envelope.{IsCandle, Covers, trades_kline-IsCandle}
use tdx.Trade.RoundTrip.{Signed, Tick, IsTick, ticks_wire, tick_trades, trade_decode-ticks_wire}
use tdx.Tests.Wire.{big_endian, big_endian-IsBigEndian}

abbrev trade_at : ℕ → ℤ → ℕ → Trade
trade_at minute price volume = record {
  day = pos 0;
  minute = minute;
  price = price;
  volume = pos volume;
  status = pos 0;
  number = pos 1;
}

-- The auction, a trade without a price, one in the pause at noon, and the close.
abbrev trades : List Trade
trades =
    trade_at 565 (pos 10500) 30
    ∷ trade_at 571 (negsuc 0) 7
    ∷ trade_at 700 (pos 10700) 20
    ∷ trade_at 900 (pos 10400) 40
    ∷ []

abbrev choose {ℓ} : {A : Type ℓ} → Bool → A → A → A
choose b x y = if b then x else y

choose-IsChoice {ℓ} : {A : Type ℓ} → IsChoice (choose {A = A})
choose-IsChoice b x y = refl

auction_key : bucket_key choose 565 ≡ 570
unfolding bucket_key
auction_key = refl

noon_key : bucket_key choose 700 ≡ 690
unfolding bucket_key
noon_key = refl

klines_for_day-total_example :
    (length (klines_for_day choose choose (pos 0) trades) ≡ 241)
    × (total (λ (k : Kline). k.volume) (klines_for_day choose choose (pos 0) trades)
        ≡ total (priced (λ (v : Trade). v.volume)) trades)
    × (total (λ (k : Kline). k.order) (klines_for_day choose choose (pos 0) trades)
        ≡ total (priced (λ (v : Trade). v.number)) trades)
    × (total (λ (k : Kline). k.amount) (klines_for_day choose choose (pos 0) trades)
        ≡ total (priced (λ (v : Trade). mul64 (mul64 v.price v.volume) (pos 100))) trades)
klines_for_day-total_example = klines_for_day-total choose choose (pos 0) trades choose-IsChoice

trades_kline-IsCandle_example :
    IsCandle (trades_kline choose trades (pos 60) (pos 10000))
    × All (Covers (trades_kline choose trades (pos 60) (pos 10000))) trades
trades_kline-IsCandle_example =
    trades_kline-IsCandle choose choose-IsChoice trades (pos 60) (pos 10000)

abbrev plus : ℕ → Signed
plus n = record { negative = false; magnitude = n }

abbrev pub ticks : List Tick
ticks =
    record {
      minute = 570;
      step = plus 1050;
      volume = plus 300;
      number = plus 3;
      status = plus 0;
      extra = plus 0;
    }
    ∷ record {
      minute = 571;
      step = record { negative = true; magnitude = 2 };
      volume = plus 10;
      number = plus 1;
      status = plus 1;
      extra = plus 0;
    }
    ∷ []

pub ticks-IsTick : All IsTick ticks
ticks-IsTick = (
  record {
    in_day = omega arith;
    step_fits = omega arith;
    volume_fits = omega arith;
    number_fits = omega arith;
    status_fits = omega arith;
    extra_fits = omega arith;
  },
  (
    record {
      in_day = omega arith;
      step_fits = omega arith;
      volume_fits = omega arith;
      number_fits = omega arith;
      status_fits = omega arith;
      extra_fits = omega arith;
    },
    tt,
  ),
)

trade_decode-ticks_wire_example :
    trade_decode big_endian
      (record { date = some (pos 0); code = text "sz000001" })
      (le_bytes16 big_endian (length ticks)
        ++ ticks_wire big_endian big_endian-IsBigEndian ticks [])
    ≡ ok (record {
      count = 2;
      list = tick_trades (base_price (text "sz000001")) (pos 0) (pos 0) ticks;
    })
trade_decode-ticks_wire_example =
    trade_decode-ticks_wire big_endian big_endian-IsBigEndian ticks (text "sz000001") (pos 0) []
      (omega arith) ticks-IsTick
