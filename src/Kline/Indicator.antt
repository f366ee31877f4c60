-- ===== src/Kline/Indicator.antt =====
-- protocol/model_kline.go: `MA`, `EMA`, `MACD`, `BOLL` and `VWAP`, and `I64Sqrt` of protocol/unit.go.
use tdx.Base.{ℕ, zero, suc, ◌+◌, ◌-◌, if◌then◌else◌, ltb, List, [], ◌∷◌, length, drop}
use tdx.Base.Int.{ℤ, pos, negsuc, pos_part, add64, sub64, mul64, div64, ltb_ℤ}
use tdx.Base.Outcome.{Outcome, ok, panic, ◌>>=◌}
use tdx.Kline.Defs.{Kline}

-- `ks[len(ks)-n:]` for n up to the length.
abbrev pub last_n : ℕ → List Kline → List Kline
last_n n ks = drop (length ks - n) ks

-- `for _, k := range ks { sum += k.Close }`
unfoldable pub sum_close : ℤ → List Kline → ℤ
sum_close sum [] = sum
sum_close sum (k ∷ ks) = sum_close (add64 sum k.close) ks

-- A zero n divides by zero, and a negative one cuts behind the end.
unfoldable pub ma : List Kline → ℤ → Outcome ℤ
unfolding sum_close
ma ks (negsuc n) = panic
ma ks (pos zero) = panic
ma ks (pos (suc n)) =
    if ltb (length ks) (suc n)
    then ok (pos 0)
    else ok (div64 (sum_close (pos 0) (last_n (suc n) ks)) (pos (suc n)))

-- `(close*2 + ema*(den-2)) / den`
unfoldable pub smooth : ℤ → ℤ → ℤ → ℤ
smooth den value ema = div64 (add64 (mul64 value (pos 2)) (mul64 ema (sub64 den (pos 2)))) den

unfoldable pub ema_loop : ℤ → ℤ → List Kline → ℤ
ema_loop den ema [] = ema
ema_loop den ema (k ∷ ks) = ema_loop den (smooth den k.close ema) ks

unfoldable pub ema : List Kline → ℤ → ℤ
ema [] n = pos 0
ema (k ∷ ks) (negsuc n) = pos 0
ema (k ∷ ks) (pos zero) = pos 0
ema (k ∷ ks) (pos (suc n)) = ema_loop (add64 (pos (suc n)) (pos 1)) k.close ks

pub record Macd : Type 0 where
  pub ema12 : ℤ
  pub ema26 : ℤ
  pub dif : ℤ
  pub dea : ℤ
  pub hist : ℤ

-- One round of the loop of `MACD`.
unfoldable pub macd_step : Macd → ℤ → Macd
macd_step m close =
    let e12 = smooth (pos 13) close m.ema12 in
    let e26 = smooth (pos 27) close m.ema26 in
    let dif = sub64 e12 e26 in
    let dea = smooth (pos 10) dif m.dea in
    record { ema12 = e12; ema26 = e26; dif = dif; dea = dea; hist = mul64 (sub64 dif dea) (pos 2) }

unfoldable pub macd_loop : Macd → List Kline → Macd
macd_loop m [] = m
macd_loop m (k ∷ ks) = macd_loop (macd_step m k.close) ks

abbrev pub macd_start : ℤ → Macd
macd_start close = record { ema12 = close; ema26 = close; dif = pos 0; dea = pos 0; hist = pos 0 }

-- The three results are the last three fields.
unfoldable pub macd : List Kline → Macd
unfolding macd_loop
macd [] = macd_start (pos 0)
macd (k ∷ ks) = macd_loop (macd_start k.close) ks

-- The two loops of `I64Sqrt`; each has its fuel.
unfoldable pub root_up : ℕ → ℤ → ℤ → ℤ
root_up zero x r = r
root_up (suc fuel) x r =
    let next = root_up fuel x (add64 r (pos 1)) in
    if ltb_ℤ x (mul64 (add64 r (pos 1)) (add64 r (pos 1))) then r else next

unfoldable pub root_down : ℕ → ℤ → ℤ → ℤ
root_down zero x r = r
root_down (suc fuel) x r =
    let next = root_down fuel x (sub64 r (pos 1)) in if ltb_ℤ x (mul64 r r) then next else r

-- `guess` stands for `int64(math.Sqrt(float64(x)))`; the loops mend whatever it is. From a guess
-- that is not negative the first loop stops at x at the latest, and the second one at 0.
unfoldable pub i64_sqrt : ℤ → ℤ → ℤ
i64_sqrt guess x = let up = root_up (pos_part x + 1) x guess in root_down (pos_part up + 1) x up

-- The sum of the squared distances from `mid`.
unfoldable pub sum_squares : ℤ → ℤ → List Kline → ℤ
sum_squares mid sum [] = sum
sum_squares mid sum (k ∷ ks) =
    let d = sub64 k.close mid in sum_squares mid (add64 sum (mul64 d d)) ks

pub record Band : Type 0 where
  pub upper : ℤ
  pub mid : ℤ
  pub lower : ℤ

-- `sqrt` is the integer root of the source at the fuel that the caller gives.
abbrev band : (ℤ → ℤ) → List Kline → ℕ → ℤ → Outcome Band
band sqrt ks n mid =
    let std = sqrt (div64 (sum_squares mid (pos 0) (last_n n ks)) (pos n)) in
    ok (record {
      upper = add64 mid (mul64 std (pos 2));
      mid = mid;
      lower = sub64 mid (mul64 std (pos 2));
    })

abbrev no_band : Band
no_band = record { upper = pos 0; mid = pos 0; lower = pos 0 }

unfoldable pub boll : (ℤ → ℤ) → List Kline → ℤ → Outcome Band
boll sqrt ks (negsuc n) = ok no_band
boll sqrt ks (pos zero) = ok no_band
boll sqrt ks (pos (suc n)) =
    if ltb (length ks) (suc n) then ok no_band else (ma ks (pos (suc n)) >>= band sqrt ks (suc n))

pub record Vwap : Type 0 where
  pub vol_sum : ℤ
  pub amt_sum : ℤ
  pub vwap : ℤ

unfoldable pub vwap_step : Vwap → Kline → Vwap
vwap_step s k =
    let vol = add64 s.vol_sum k.volume in
    let amt = add64 s.amt_sum k.amount in
    record {
      vol_sum = vol;
      amt_sum = amt;
      vwap = if ltb_ℤ (pos 0) vol then div64 amt vol else s.vwap;
    }

unfoldable pub vwap_loop : Vwap → List Kline → Vwap
vwap_loop s [] = s
vwap_loop s (k ∷ ks) = vwap_loop (vwap_step s k) ks

unfoldable pub vwap : List Kline → ℤ
vwap ks = (vwap_loop (record { vol_sum = pos 0; amt_sum = pos 0; vwap = pos 0 }) ks).vwap
