-- ===== src/Kline/Oscillator.antt =====
-- protocol/model_kline.go: `RSI` and `ATR`, two loops over the indices of the candles.
use tdx.Base.{ℕ, zero, suc, ◌+◌, ◌-◌, if◌then◌else◌, ltb, leb, ◌&&◌, List, length, get_or}
use tdx.Base.Int.{ℤ, pos, negsuc, add64, sub64, mul64, div64, ltb_ℤ}
use tdx.Base.Outcome.{Outcome, ok, panic}
use tdx.Kline.Defs.{Kline, abs_price}
use tdx.Kline.Merge.{flat_kline}

-- `ks[i]`, for indices in range.
abbrev pub kline_at : List Kline → ℕ → Kline
kline_at ks i = get_or ks i (flat_kline (pos 0) (pos 0))

-- `ks[i].Close - ks[i-1].Close`
abbrev pub close_diff : List Kline → ℕ → ℤ
close_diff ks i = sub64 (kline_at ks i).close (kline_at ks (i - 1)).close

pub record Rsi : Type 0 where
  pub gain : ℤ
  pub loss : ℤ
  pub rsi : ℤ

abbrev pub rsi_enter : ℤ → Rsi → Rsi
rsi_enter diff s =
    if ltb_ℤ (pos 0) diff
    then record s { gain = add64 s.gain diff }
    else record s { loss = sub64 s.loss diff }

abbrev pub rsi_leave : ℤ → Rsi → Rsi
rsi_leave prev s =
    if ltb_ℤ (pos 0) prev
    then record s { gain = sub64 s.gain prev }
    else record s { loss = add64 s.loss prev }

-- The change at `i` enters the two sums, and the one that the window leaves behind goes. `n + 1`
-- does not wrap around here: `rsi` has the case where it does.
abbrev pub rsi_move : List Kline → ℕ → ℕ → Rsi → Rsi
rsi_move ks n i s =
    let a = rsi_enter (close_diff ks i) s in
    if leb (n + 1) i then rsi_leave (close_diff ks (i - n)) a else a

abbrev pub rsi_result : ℕ → ℕ → Rsi → Rsi
rsi_result n i s = record s {
  rsi =
      if leb n i && ltb_ℤ (pos 0) s.loss
      then div64 (mul64 (pos 100) s.gain) (add64 s.gain s.loss)
      else s.rsi;
}

-- One round of the loop of `RSI`.
unfoldable pub rsi_round : List Kline → ℕ → ℕ → Rsi → Rsi
rsi_round ks n i s = rsi_result n i (rsi_move ks n i s)

-- The rounds `i`, `i + 1` and on.
unfoldable pub rsi_loop : List Kline → ℕ → ℕ → ℕ → Rsi → Rsi
rsi_loop ks n zero i s = s
rsi_loop ks n (suc rounds) i s = rsi_loop ks n rounds (i + 1) (rsi_round ks n i s)

-- Only for the greatest int does `n + 1` wrap around, to the least one: the first round then takes
-- the window for full and asks for a candle before the first.
unfoldable pub rsi : List Kline → ℤ → Outcome ℤ
rsi ks (negsuc n) = ok (pos 0)
rsi ks (pos zero) = ok (pos 0)
rsi ks (pos (suc n)) =
    let s =
      rsi_loop ks (suc n) (length ks - 1) 1 (record { gain = pos 0; loss = pos 0; rsi = pos 0 }) in
    if ltb_ℤ (add64 (pos (suc n)) (pos 1)) (pos 0) && ltb 1 (length ks) then panic else ok s.rsi

abbrev pub max_ℤ : ℤ → ℤ → ℤ
max_ℤ a b = if ltb_ℤ a b then b else a

-- The true range of candle `i`: its own, or as far as it goes from the close before it.
unfoldable pub true_range : List Kline → ℕ → ℤ
unfolding abs_price
true_range ks i =
    let k = kline_at ks i in
    let close = (kline_at ks (i - 1)).close in
    max_ℤ (sub64 k.high k.low)
      (max_ℤ (abs_price (sub64 k.high close)) (abs_price (sub64 k.low close)))

pub record Atr : Type 0 where
  pub sum : ℤ
  pub atr : ℤ

-- One round of the loop of `ATR`.
unfoldable pub atr_round : List Kline → ℕ → ℕ → Atr → Atr
unfolding true_range
atr_round ks n i s =
    let entered = add64 s.sum (true_range ks i) in
    let left = sub64 entered (true_range ks (i - n + 1)) in
    if leb n i
    then record { sum = left; atr = div64 left (pos n) }
    else record { sum = entered; atr = s.atr }

unfoldable pub atr_loop : List Kline → ℕ → ℕ → ℕ → Atr → Atr
atr_loop ks n zero i s = s
atr_loop ks n (suc rounds) i s = atr_loop ks n rounds (i + 1) (atr_round ks n i s)

unfoldable pub atr : List Kline → ℤ → ℤ
atr ks (negsuc n) = pos 0
atr ks (pos zero) = pos 0
atr ks (pos (suc n)) =
    (atr_loop ks (suc n) (length ks - 1) 1 (record { sum = pos 0; atr = pos 0 })).atr
