-- ===== src/Pull/Candles.antt =====
-- extend/pull/store.go: `KlineDay` and `KlineMinute`. extend/pull/merge.go: `toProtocol`,
-- `fromProtocol`, `DayToPeriod` and `MinuteToPeriod`. The numbers of float64 are a parameter `F`
-- with the operations that the source uses.
use tdx.Base.{ℕ, leb, Bool, if◌then◌else◌, List, [], ◌∷◌, take, drop}
use tdx.Base.Int.{ℤ, pos}
use tdx.Base.Outcome.{Outcome, ok, panic, ◌>>=◌}
use tdx.Base.Text.{Bytes}
use tdx.Block.Lines.{is_blank}
use tdx.Kline.Defs.{Kline}
use tdx.Kline.Merge.{merge}

pub record Floats (F : Type 0) : Type 0 where
  -- `protocol.Price(f*1000 + 0.5)`
  pub yuan : F → ℤ
  -- `Price.Float64`
  pub float64 : ℤ → F
  pub add : F → F → F
  pub larger : F → F → F
  pub smaller : F → F → F
  pub none_yet : F

pub record KlineDay (F : Type 0) : Type 0 where
  pub unix : ℤ
  pub open_price : F
  pub high : F
  pub low : F
  pub close : F
  pub volume : ℤ
  pub amount : F
  pub turnover : F
  pub float_stock : F
  pub total_stock : F

pub record KlineMinute (F : Type 0) : Type 0 where
  pub unix : ℤ
  pub open_price : F
  pub high : F
  pub low : F
  pub close : F
  pub volume : ℤ
  pub amount : F
  pub source : Bytes

module _ {F : Type 0} (fl : Floats F) where
  unfoldable pub to_protocol : List (KlineDay F) → List Kline
  to_protocol [] = []
  to_protocol (k ∷ ks) =
      record {
        last = pos 0;
        open_price = fl.yuan k.open_price;
        high = fl.yuan k.high;
        low = fl.yuan k.low;
        close = fl.yuan k.close;
        order = pos 0;
        volume = k.volume;
        amount = fl.yuan k.amount;
        time = k.unix;
        up_count = pos 0;
        down_count = pos 0;
      }
      ∷ to_protocol ks

  abbrev pub day_kline : Kline → KlineDay F
  day_kline k = record {
    unix = k.time;
    open_price = fl.float64 k.open_price;
    high = fl.float64 k.high;
    low = fl.float64 k.low;
    close = fl.float64 k.close;
    volume = k.volume;
    amount = fl.float64 k.amount;
    turnover = fl.none_yet;
    float_stock = fl.none_yet;
    total_stock = fl.none_yet;
  }

  unfoldable pub from_protocol : List Kline → List (KlineDay F)
  from_protocol [] = []
  from_protocol (k ∷ ks) = day_kline k ∷ from_protocol ks

  abbrev pub sum_turnover : F → List (KlineDay F) → F
  sum_turnover t [] = t
  sum_turnover t (k ∷ ks) = sum_turnover (fl.add t k.turnover) ks

  -- The stock of the last day of a chunk, and the sum of its turnovers.
  abbrev pub with_stock :
      KlineDay F → List (KlineDay F) → KlineDay F → List (KlineDay F) → KlineDay F
  with_stock k chunk last [] = record k {
    float_stock = last.float_stock;
    total_stock = last.total_stock;
    turnover = sum_turnover k.turnover chunk;
  }
  with_stock k chunk last (l ∷ ls) = with_stock k chunk l ls

  -- `ks` begins with the chunk of the first candle of `out`; a candle without a chunk is out of
  -- range.
  unfoldable pub with_stocks :
      ℕ → List (KlineDay F) → List (KlineDay F) → Outcome (List (KlineDay F))
  with_stocks n [] ks = ok []
  with_stocks n (k ∷ out) ks = elim (take n ks) [
    | [] ↦ panic
    | l ∷ ls ↦ with_stocks n out (drop n ks) >>= λ rest. ok (with_stock k (l ∷ ls) l ls ∷ rest)
  ]

  module _ (select : Bool → ℤ → ℤ → ℤ) where
    -- An n of 1 or less gives the candles as they are.
    unfoldable pub day_to_period : List (KlineDay F) → ℕ → Outcome (List (KlineDay F))
    unfolding with_stocks
    day_to_period ks n =
        if leb n 1
        then ok ks
        else with_stocks n (from_protocol (merge select (to_protocol ks) (pos n))) ks

  unfoldable pub minutes_to_protocol : List (KlineMinute F) → List Kline
  minutes_to_protocol [] = []
  minutes_to_protocol (k ∷ ks) =
      record {
        last = pos 0;
        open_price = fl.yuan k.open_price;
        high = fl.yuan k.high;
        low = fl.yuan k.low;
        close = fl.yuan k.close;
        order = pos 0;
        volume = k.volume;
        amount = fl.yuan k.amount;
        time = k.unix;
        up_count = pos 0;
        down_count = pos 0;
      }
      ∷ minutes_to_protocol ks

  -- The last source of a chunk that is not empty.
  abbrev pub last_source : Bytes → List (KlineMinute F) → Bytes
  last_source source [] = source
  last_source source (k ∷ ks) = last_source (if is_blank k.source then source else k.source) ks

  -- `ks` begins with the chunk of the first merged candle.
  unfoldable pub with_sources : ℕ → List Kline → List (KlineMinute F) → List (KlineMinute F)
  with_sources n [] ks = []
  with_sources n (k ∷ merged) ks =
      record {
        unix = k.time;
        open_price = fl.float64 k.open_price;
        high = fl.float64 k.high;
        low = fl.float64 k.low;
        close = fl.float64 k.close;
        volume = k.volume;
        amount = fl.float64 k.amount;
        source = last_source [] (take n ks);
      }
      ∷ with_sources n merged (drop n ks)

  unfoldable pub minute_to_period :
      (Bool → ℤ → ℤ → ℤ) → List (KlineMinute F) → ℕ → List (KlineMinute F)
  minute_to_period select ks n =
      if leb n 1 then ks else with_sources n (merge select (minutes_to_protocol ks) (pos n)) ks
