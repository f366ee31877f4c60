-- ===== src/Trade/Decode.antt =====
-- `trade.Frame` and `trade.Decode`.
use tdx.Base.{
  ℕ, zero, suc, ◌/◌, if◌then◌else◌, ltb, List, [], ◌∷◌, ◌++◌, length, take, drop, Option, none,
  some,
}
use tdx.Base.Int.{ℤ, pos, add64, mul64, div64}
use tdx.Base.Outcome.{Outcome, ok, err, panic, ◌>>=◌, bad_time, short_data}
use tdx.Base.Text.{Bytes}
use tdx.Wire.Endian.{Conv, uint16, le_bytes16}
use tdx.Wire.Frame.{Frame, control01}
use tdx.Varint.Cut.{get_price, cut_int}
use tdx.Market.Kinds.{is_etf}
use tdx.Market.Decode.{decode_code}
use tdx.Trade.Defs.{Trade}

-- `basePrice`: all its cases but the first give 1.
unfoldable pub base_price : Bytes → ℤ
base_price code = if is_etf code then pos 10 else pos 1

-- The date of the cache is its midnight, in Unix seconds, where it is eight digits that name a day.
pub record TradeCache : Type 0 where
  pub date : Option ℤ
  pub code : Bytes

-- `GetHourMinute` and `time.Parse` of the date and the minutes `n`: an hour from 24 on is refused.
unfoldable pub trade_time : Option ℤ → ℕ → Outcome ℤ
trade_time none n = err bad_time
trade_time (some day) n = if ltb (n / 60) 24 then ok day else err bad_time

-- The numbers of one trade: the price and four counts, the last of which is dropped.
abbrev pub read_trade : ℤ → ℤ → ℕ → ℤ → Bytes → Bytes × (ℤ × Trade)
read_trade base day minute last bs =
    let p = get_price bs in
    let sum = add64 last (mul64 p.1 (pos 10)) in
    let v = cut_int p.0 in
    let n = cut_int v.0 in
    let s = cut_int n.0 in
    let z = cut_int s.0 in
    (
      z.0,
      (
        sum,
        record {
          day = day;
          minute = minute;
          price = div64 sum base;
          volume = v.1;
          status = s.1;
          number = n.1;
        },
      ),
    )

pub record TradeResp : Type 0 where
  pub count : ℕ
  pub list : List Trade

module _ (c : Conv) where
  -- One round: what is left of the data, the running price, and the trade.
  unfoldable pub trade_round : TradeCache → ℤ → Bytes → Outcome (Bytes × (ℤ × Trade))
  trade_round cache last bs =
      let n = uint16 c (take 2 bs) in
      if ltb (length bs) 2
      then panic
      else (trade_time cache.date n >>= λ day.
          ok (read_trade (base_price cache.code) day n last (drop 2 bs)))

  -- `i` rounds are left.
  unfoldable pub trade_loop : TradeCache → ℕ → ℤ → Bytes → Outcome (List Trade)
  trade_loop cache zero last bs = ok []
  trade_loop cache (suc i) last bs =
      trade_round cache last bs >>= λ r. trade_loop cache i r.1.0 r.0 >>= λ vs. ok (r.1.1 ∷ vs)

  unfoldable pub trade_decode : TradeCache → Bytes → Outcome TradeResp
  trade_decode cache bs =
      let count = uint16 c (take 2 bs) in
      if ltb (length bs) 2
      then err short_data
      else (trade_loop cache count (pos 0) (drop 2 bs) >>= λ vs.
          ok (record { count = count; list = vs }))

  -- `trade.Frame`; `exchange.Uint8` is the number of the market.
  unfoldable pub trade_frame : Bytes → ℕ → ℕ → Outcome Frame
  trade_frame code start count = decode_code code >>= λ r. ok (record {
    prefix = 0;
    msg_id = 0;
    control = control01;
    kind = 0x0fc5;
    body = r.0 ∷ 0 ∷ (r.1 ++ (le_bytes16 c start ++ le_bytes16 c count));
  })
