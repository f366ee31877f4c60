-- ===== src/Client/Requests.antt =====
-- client.go: the operations that send one frame and wait for its answer. `ask` is `SendFrame` as its
-- caller sees it; the answer of another message is a panic, as the assertion of its type is.
use tdx.Base.{List, ℕ, Bool, Option, none, some}
use tdx.Base.Int.{ℤ}
use tdx.Base.Outcome.{Outcome, ok, panic, ◌>>=◌}
use tdx.Base.Text.{Bytes, text}
use tdx.Wire.Endian.{Conv}
use tdx.Wire.Frame.{Frame}
use tdx.Market.Kinds.{add_prefix}
use tdx.Message.Basic.{CodeInfo, count_frame, code_frame}
use tdx.Message.Auction.{CallAuction, auction_frame}
use tdx.Message.PastTrade.{past_trade_frame}
use tdx.Message.Gbbq.{GbbqResp, gbbq_frame}
use tdx.Message.Company.{CompanyCategory, company_cat_frame, company_content_frame}
use tdx.Intraday.Defs.{MinuteResp, history_minute_frame}
use tdx.Kline.Defs.{Kline}
use tdx.Trade.Defs.{Trade}
use tdx.Trade.Decode.{trade_frame}
use tdx.Candle.Defs.{kline_frame}
use tdx.Client.Paging.{Page, get_minute_trade_all, get_history_trade_day}
use tdx.Client.Until.{get_kline_until, get_index_until}
use tdx.Client.Session.{
  Cache, trade_cache, kline_cache, Answer, count_answer, code_answer, minute_answer, auction_answer,
  trade_answer, kline_answer, gbbq_answer, category_answer, content_answer,
}

abbrev pub as_count : Answer → Outcome ℕ
as_count a = elim a [ count_answer n ↦ ok n | _ ↦ panic ]

abbrev pub as_codes : Answer → Outcome (Page CodeInfo)
as_codes a = elim a [ code_answer n cs ↦ ok (record { count = n; list = cs }) | _ ↦ panic ]

abbrev pub as_minutes : Answer → Outcome MinuteResp
as_minutes a = elim a [ minute_answer r ↦ ok r | _ ↦ panic ]

abbrev pub as_auction : Answer → Outcome (Page CallAuction)
as_auction a = elim a [ auction_answer n xs ↦ ok (record { count = n; list = xs }) | _ ↦ panic ]

abbrev pub as_trades : Answer → Outcome (Page Trade)
as_trades a = elim a [ trade_answer r ↦ ok (record { count = r.count; list = r.list }) | _ ↦ panic ]

abbrev pub as_klines : Answer → Outcome (Page Kline)
as_klines a = elim a [ kline_answer r ↦ ok (record { count = r.count; list = r.list }) | _ ↦ panic ]

abbrev pub as_categories : Answer → Outcome (List CompanyCategory)
as_categories a = elim a [ category_answer cs ↦ ok cs | _ ↦ panic ]

abbrev pub as_content : Answer → Outcome Bytes
as_content a = elim a [ content_answer b ↦ ok b | _ ↦ panic ]

abbrev pub as_gbbq : Answer → Outcome GbbqResp
as_gbbq a = elim a [ gbbq_answer r ↦ ok r | _ ↦ panic ]

module _ (c : Conv) (ask : Frame → Option Cache → Outcome Answer) where
  unfoldable pub get_count : ℕ → Outcome ℕ
  get_count exchange = ask (count_frame exchange) none >>= as_count

  unfoldable pub get_code : ℕ → ℕ → Outcome (Page CodeInfo)
  get_code exchange start = ask (code_frame exchange start) none >>= as_codes

  unfoldable pub get_call_auction : Bytes → Outcome (Page CallAuction)
  get_call_auction code = auction_frame code >>= λ f. ask f none >>= as_auction

  unfoldable pub get_gbbq : Bytes → Outcome GbbqResp
  get_gbbq code = gbbq_frame (add_prefix code) >>= λ f. ask f none >>= as_gbbq

  unfoldable pub get_company_category : ℕ → Bytes → Outcome (List CompanyCategory)
  get_company_category exchange code = ask (company_cat_frame exchange code) none >>= as_categories

  unfoldable pub get_company_content : ℕ → Bytes → Bytes → ℕ → ℕ → Outcome Bytes
  get_company_content exchange code filename start length =
      ask (company_content_frame exchange code filename start length) none >>= as_content

  -- `number` is `conv.Uint32` of the date, and `date` the midnight that it names.
  unfoldable pub get_history_minute : ℕ → Bytes → Outcome MinuteResp
  get_history_minute number code =
      history_minute_frame c number code >>= λ f. ask f none >>= as_minutes

  unfoldable pub get_minute_trade : Option ℤ → Bytes → ℕ → ℕ → Outcome (Page Trade)
  get_minute_trade today code start count =
      let code' = add_prefix code in
      trade_frame c code' start count >>= λ f.
      ask f (some (trade_cache (record { date = today; code = code' }))) >>= as_trades

  unfoldable pub get_history_minute_trade : ℕ → Option ℤ → Bytes → ℕ → ℕ → Outcome (Page Trade)
  get_history_minute_trade number date code start count =
      let code' = add_prefix code in
      past_trade_frame c number code' start count >>= λ f.
      ask f (some (trade_cache (record { date = date; code = code' }))) >>= as_trades

  -- `GetKline` and `GetIndex`: `series` is `KindStock` or `KindIndex`.
  unfoldable pub get_series : Bytes → ℕ → Bytes → ℕ → ℕ → Outcome (Page Kline)
  get_series series kind code start count =
      let code' = add_prefix code in
      kline_frame c kind code' start count >>= λ f.
      ask f (some (kline_cache (record { kind = kind; series = series; code = code' })))
      >>= as_klines

  unfoldable pub get_kline : ℕ → Bytes → ℕ → ℕ → Outcome (Page Kline)
  get_kline = get_series (text "stock")

  unfoldable pub get_index : ℕ → Bytes → ℕ → ℕ → Outcome (Page Kline)
  get_index = get_series (text "index")

  -- The pages of one code, as the loops ask for them.
  unfoldable pub get_minute_trades : Option ℤ → Bytes → ℕ → Option (Outcome (Page Trade))
  get_minute_trades today code = get_minute_trade_all (get_minute_trade today code)

  unfoldable pub get_history_trades : ℕ → Option ℤ → Bytes → ℕ → Option (Outcome (Page Trade))
  get_history_trades number date code =
      get_history_trade_day (get_history_minute_trade number date code)

  unfoldable pub get_klines_until : ℕ → Bytes → (Kline → Bool) → ℕ → Option (Outcome (Page Kline))
  get_klines_until kind code f = get_kline_until f (λ start. get_kline kind code start 800)

  unfoldable pub get_indexes_until : ℕ → Bytes → (Kline → Bool) → ℕ → Option (Outcome (Page Kline))
  get_indexes_until kind code f = get_index_until f (λ start. get_index kind code start 800)
