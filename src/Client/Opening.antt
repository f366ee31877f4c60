-- ===== src/Client/Opening.antt =====
-- `GetKlineMinute241Until` of client.go: the call auction gets a candle of its own. `zone` is the
-- local zone's distance in seconds; `trades_of` reads the trades of a candle's day, those of today
-- by another request.
use tdx.Base.{◌%◌, ◌==◌, ltb, if◌then◌else◌, List, [], ◌∷◌, ◌++◌, length, ◌^◌, Option, none, some}
use tdx.Base.Int.{ℤ, pos, ◌+ℤ◌, ◌-ℤ◌, residue, sub64, ltb_ℤ}
use tdx.Base.Outcome.{Outcome, ok, ◌>>=◌}
use tdx.Kline.Defs.{Kline}
use tdx.Trade.Defs.{Trade, trade_amount}
use tdx.Client.Paging.{Page}

abbrev pub no_trade : Trade
no_trade = record {
  day = pos 0;
  minute = 0;
  price = pos 0;
  volume = pos 0;
  status = pos 0;
  number = pos 0;
}

-- The first trade, where it is before 9:30.
abbrev pub auction_trade : List Trade → Trade
auction_trade [] = no_trade
auction_trade (v ∷ vs) = if ltb v.minute 570 then v else no_trade

-- A difference that is not below zero.
abbrev pub less_or_zero : ℤ → ℤ → ℤ
less_or_zero a b = if ltb_ℤ (sub64 a b) (pos 0) then pos 0 else sub64 a b

-- The candle of 9:30, a minute before `v`.
unfoldable pub auction_kline : Trade → Kline → Kline
auction_kline a v = record {
  last = v.last;
  open_price = a.price;
  high = a.price;
  low = a.price;
  close = a.price;
  order = a.number;
  volume = a.volume;
  amount = trade_amount a;
  time = v.time -ℤ pos 60;
  up_count = pos 0;
  down_count = pos 0;
}

unfoldable pub without_auction : Trade → Kline → Kline
without_auction a v = record v {
  last = a.price;
  volume = less_or_zero v.volume a.volume;
  amount = less_or_zero v.amount (trade_amount a);
  order = less_or_zero v.order a.number;
}

module _ (zone : ℤ) (trades_of : Kline → Outcome (List Trade)) where
  unfoldable pub opening_loop : List Kline → Outcome (List Kline)
  opening_loop [] = ok []
  opening_loop (v ∷ vs) =
      (if residue 86400 (v.time +ℤ zone) == 34260
        then (trades_of v >>= λ ts.
            let a = auction_trade ts in ok (auction_kline a v ∷ without_auction a v ∷ []))
        else ok (v ∷ []))
      >>= λ here. opening_loop vs >>= λ rest. ok (here ++ rest)

  unfoldable pub get_kline_minute_241 :
      Option (Outcome (Page Kline)) → Option (Outcome (Page Kline))
  get_kline_minute_241 none = none
  get_kline_minute_241 (some pages) = some (
      pages >>= λ resp. elim resp.list [
        | [] ↦ ok resp
        | k ∷ ks ↦ opening_loop (k ∷ ks) >>= λ list.
            ok (record { count = length list % 2 ^ 16; list = list })
      ])
