-- ===== src/Tests/Kline.antt =====
-- Runs of the candle functions.
use tdx.Base.{
  ◌-◌, ◌^◌, ℕ, ◌≡◌, ◌≤◌, ◌*◌, ◌+◌, ◌/◌, refl, arith, List, [], ◌∷◌, All, length, if◌then◌else◌,
  Bool,
}
use tdx.Base.Int.{ℤ, pos, wrap64, quot, ◌*ℤ◌, ◌+ℤ◌, ◌-ℤ◌}
use tdx.Kline.Defs.{Kline}
use tdx.Kline.Indicator.{i64_sqrt, ema, macd, root_up, root_down, ma}
use tdx.Base.Outcome.{ok, panic}
use tdx.Kline.Merge.{merge, merge_kline, later_rounds}
use tdx.Kline.Modular.{total}
use tdx.Kline.Root.{IsRoot, i64_sqrt-IsRoot}
use tdx.Kline.Conserve.{IsSelect, merge-total}
use tdx.Kline.Smooth.{Within, ema-Within}
use tdx.Kline.Macd.{IsSteady, macd-IsSteady}
use tdx.Kline.Envelope.{Spans, merge_kline-Spans}
use tdx.Kline.Window.{window}
use tdx.Kline.Oscillator.{rsi, atr}
use tdx.Kline.Rsi.{rsi-quotient}
use tdx.Kline.Strength.{rise, fall}
use tdx.Kline.Atr.{IsBounded, range_of, atr-window}

abbrev candle : ℕ → ℕ → ℕ → ℕ → Kline
candle close high low volume = record {
  last = pos 0;
  open_price = pos close;
  high = pos high;
  low = pos low;
  close = pos close;
  order = pos 0;
  volume = pos volume;
  amount = pos (close * volume);
  time = pos 60;
  up_count = pos 0;
  down_count = pos 0;
}

abbrev candles : List Kline
candles = candle 10 12 8 100 ∷ candle 12 15 9 50 ∷ candle 11 13 10 70 ∷ []

abbrev choose : Bool → ℤ → ℤ → ℤ
choose b x y = if b then x else y

merge_three : length (merge choose candles (pos 2)) ≡ 2
unfolding merge
merge_three = refl

merge_high : (merge_kline choose candles (pos 0) (pos 0)).high ≡ pos 15
unfolding merge_kline later_rounds
merge_high = refl

root_of_ten : i64_sqrt (pos 7) (pos 10) ≡ pos 3
unfolding i64_sqrt root_up root_down wrap64 ◌*ℤ◌ ◌+ℤ◌ ◌-ℤ◌
root_of_ten = refl

-- `ma` sums the last two, 12 and 11.
ma_two : ma candles (pos 2) ≡ ok (pos 11)
unfolding ma wrap64 quot ◌+ℤ◌
ma_two = refl

i64_sqrt-IsRoot_example : IsRoot 10 (i64_sqrt (pos 7) (pos 10))
i64_sqrt-IsRoot_example = i64_sqrt-IsRoot 7 10 (omega arith) (omega arith)

merge-total_example :
    (total (λ (k : Kline). k.volume) (merge choose candles (pos 2))
      ≡ total (λ (k : Kline). k.volume) candles)
    × (total (λ (k : Kline). k.amount) (merge choose candles (pos 2))
        ≡ total (λ (k : Kline). k.amount) candles)
merge-total_example = merge-total choose candles (pos 2)

-- Every closing price of the test data lies between 10 and 12.
within : (n : ℕ) → 10 ≤ n → n ≤ 12 → Within 10 12 (pos n)
within n a b = (n, refl, a, b)

candles-Within : All (λ (c : Kline). Within 10 12 c.close) candles
candles-Within = (
  within 10 (omega arith) (omega arith),
  (within 12 (omega arith) (omega arith), (within 11 (omega arith) (omega arith), tt)),
)

ema-Within_example : Within 10 12 (ema candles (pos 5))
ema-Within_example =
    ema-Within 10 12 5 (candle 10 12 8 100) (candle 12 15 9 50 ∷ candle 11 13 10 70 ∷ [])
      (omega arith) (omega arith) (omega arith) candles-Within

macd-IsSteady_example : IsSteady 10 12 (macd candles)
macd-IsSteady_example =
    macd-IsSteady 10 12 (candle 10 12 8 100) (candle 12 15 9 50 ∷ candle 11 13 10 70 ∷ [])
      (omega arith) candles-Within

choose-IsSelect : IsSelect choose
choose-IsSelect b x y = refl

merge_kline-Spans_example : All (Spans (merge_kline choose candles (pos 0) (pos 0))) candles
merge_kline-Spans_example = merge_kline-Spans choose choose-IsSelect candles (pos 0) (pos 0)

low_price : (n : ℕ) → n ≤ 20 → Within 0 20 (pos n)
low_price n h = (n, refl, omega arith, h)

candles-low : All (λ (c : Kline). Within 0 20 c.close) candles
candles-low =
    (low_price 10 (omega arith), (low_price 12 (omega arith), (low_price 11 (omega arith), tt)))

candles-IsBounded : All (IsBounded 20) candles
candles-IsBounded = (
  (low_price 12 (omega arith), low_price 8 (omega arith), low_price 10 (omega arith)),
  (
    (low_price 15 (omega arith), low_price 9 (omega arith), low_price 12 (omega arith)),
    ((low_price 13 (omega arith), low_price 10 (omega arith), low_price 11 (omega arith)), tt),
  ),
)

-- The greatest period: `n + 1` wraps around.
greatest_period : rsi candles (pos (2 ^ 63 - 1)) ≡ panic
unfolding rsi wrap64 ◌+ℤ◌
greatest_period = refl

rsi-quotient_example :
    rsi candles (pos 2)
    ≡ ok (
        pos (
          100
          * window (rise candles 20) 2 2
          / (window (rise candles 20) 2 2 + window (fall candles 20) 2 2)))
rsi-quotient_example =
    rsi-quotient candles 20 2 (omega arith) (omega arith) (omega arith) candles-low (omega arith)

atr-window_example : atr candles (pos 2) ≡ pos (window (range_of candles) 1 2 / 2)
atr-window_example =
    atr-window candles 20 2 (omega arith) (omega arith) (omega arith) candles-IsBounded
