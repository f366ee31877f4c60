-- ===== src/Client/Session.antt =====
-- client.go: `SendFrame` and `handlerDealMessage`, over what a client keeps: the last message id, the
-- caches of the requests that wait, and the answers that were handed to those who wait.
use tdx.Base.{ℕ, ◌+◌, ◌%◌, ◌^◌, ◌==◌, if◌then◌else◌, List, [], ◌∷◌, Option, none, some}
use tdx.Base.Int.{ℤ}
use tdx.Base.Outcome.{Outcome, ok, err, panic, ◌>>=◌}
use tdx.Base.Text.{Bytes}
use tdx.Wire.Frame.{Frame, Response, frame_bytes, decode_response}
use tdx.Message.Basic.{CodeInfo, count_decode, code_decode}
use tdx.Message.Auction.{CallAuction, auction_decode}
use tdx.Message.PastTrade.{past_trade_decode}
use tdx.Message.Gbbq.{GbbqResp, gbbq_decode}
use tdx.Message.Company.{CompanyCategory, company_cat_decode, company_content_decode}
use tdx.Block.Lines.{utf8_to_gbk}
use tdx.Quote.Defs.{Quote, quote_decode}
use tdx.Intraday.Defs.{MinuteResp, minute_decode, history_minute_decode}
use tdx.Trade.Decode.{TradeCache, TradeResp, trade_decode}
use tdx.Candle.Defs.{Reader, KlineCache, KlineResp, kline_decode}
use tdx.Block.Messages.{block_meta_decode, block_info_decode}

-- What a request leaves for the decoding of its answer.
pub data Cache : Type 0 where
  trade_cache : TradeCache → Cache
  kline_cache : KlineCache → Cache

-- The decoded answers; `no_answer` is a nil.
pub data Answer : Type 0 where
  no_answer : Answer
  count_answer : ℕ → Answer
  code_answer : ℕ → List CodeInfo → Answer
  quote_answer : List Quote → Answer
  minute_answer : MinuteResp → Answer
  auction_answer : ℕ → List CallAuction → Answer
  trade_answer : TradeResp → Answer
  kline_answer : KlineResp → Answer
  gbbq_answer : GbbqResp → Answer
  meta_answer : ℕ → Answer
  info_answer : Bytes → Answer
  category_answer : List CompanyCategory → Answer
  content_answer : Bytes → Answer

pub record Session : Type 0 where
  pub msg_id : ℕ
  pub cached : List (ℕ × Cache)
  pub answered : List (ℕ × Answer)

-- What the decoders read besides the bytes: `noon` and the two nodes of `FixKlineTime`, the moment
-- of a quote, and the decoding of GBK. `others` stands for the message of finance and for those
-- of the extended markets.
pub record Decoders : Type 0 where
  pub reader : Reader
  pub gbk : Bytes → Bytes
  pub inflate : Bytes → Outcome Bytes
  pub noon : ℤ
  pub node1 : ℤ
  pub node2 : ℤ
  pub now : ℤ
  pub others : ℕ → Option Cache → Bytes → Outcome Answer

abbrev pub find_cache : ℕ → List (ℕ × Cache) → Option Cache
find_cache id [] = none
find_cache id (e ∷ es) = if e.0 == id then some e.1 else find_cache id es

abbrev pub without_cache : ℕ → List (ℕ × Cache) → List (ℕ × Cache)
without_cache id [] = []
without_cache id (e ∷ es) = let rest = without_cache id es in if e.0 == id then rest else e ∷ rest

abbrev pub keep_cache : ℕ → Option Cache → List (ℕ × Cache) → List (ℕ × Cache)
keep_cache id none es = es
keep_cache id (some val) es = (id, val) ∷ without_cache id es

-- `val.(protocol.TradeCache)` and `val.(protocol.KlineCache)`.
abbrev pub as_trade_cache : Option Cache → Outcome TradeCache
as_trade_cache (some (trade_cache t)) = ok t
as_trade_cache (some (kline_cache k)) = panic
as_trade_cache none = panic

abbrev pub as_kline_cache : Option Cache → Outcome KlineCache
as_kline_cache (some (kline_cache k)) = ok k
as_kline_cache (some (trade_cache t)) = panic
as_kline_cache none = panic

-- An error and a panic both end the handling: nobody is told.
abbrev pub told : Session → ℕ → Outcome Answer → Session
told s id (ok a) = record s { answered = (id, a) ∷ s.answered }
told s id (err e) = s
told s id panic = s

module _ (d : Decoders) where
  -- The `switch` over the type of a message.
  unfoldable pub decode_answer : ℕ → Option Cache → Bytes → Outcome Answer
  decode_answer kind val bs =
      let c = d.reader.conv in
      if (kind == 0x000d)
      then ok no_answer
      else if kind == 0x0004
      then ok no_answer
      else if kind == 0x044e
      then (count_decode c bs >>= λ n. ok (count_answer n))
      else if kind == 0x0450
      then (code_decode c (utf8_to_gbk d.gbk) bs >>= λ r. ok (code_answer r.count r.list))
      else if kind == 0x053e
      then (quote_decode c d.gbk d.now bs >>= λ qs. ok (quote_answer qs))
      else if kind == 0x051d
      then (minute_decode c bs >>= λ r. ok (minute_answer r))
      else if kind == 0x0fb4
      then (history_minute_decode c bs >>= λ r. ok (minute_answer r))
      else if kind == 0x056a
      then (auction_decode c bs >>= λ r. ok (auction_answer r.0 r.1))
      else if kind == 0x0fc5
      then (as_trade_cache val >>= λ t. trade_decode c t bs >>= λ r. ok (trade_answer r))
      else if kind == 0x0fb5
      then (as_trade_cache val >>= λ t. past_trade_decode c t bs >>= λ r. ok (trade_answer r))
      else if kind == 0x052d
      then (as_kline_cache val >>= λ k.
          kline_decode d.reader d.noon d.node1 d.node2 k bs >>= λ r. ok (kline_answer r))
      else if kind == 0x000f
      then (gbbq_decode d.reader bs >>= λ r. ok (gbbq_answer r))
      else if kind == 0x02c5
      then (block_meta_decode c bs >>= λ n. ok (meta_answer n))
      else if kind == 0x06b9
      then (block_info_decode bs >>= λ b. ok (info_answer b))
      else if kind == 0x02cf
      then ok (category_answer (company_cat_decode c d.gbk bs))
      else if kind == 0x02d0
      then ok (content_answer (company_content_decode c d.gbk bs))
      else d.others kind val bs

  unfoldable pub handle_response : Session → Outcome Response → Session
  handle_response s (ok f) =
      told (record s { cached = without_cache f.msg_id s.cached }) f.msg_id
        (decode_answer f.kind (find_cache f.msg_id s.cached) f.body)
  handle_response s (err e) = s
  handle_response s panic = s

  unfoldable pub handle_message : Session → Bytes → Session
  handle_message s payload = handle_response s (decode_response d.reader.conv d.inflate payload)

  -- The state once the frame is written, the id to wait for, and the bytes.
  unfoldable pub send_frame : Session → Frame → Option Cache → Session × (ℕ × Bytes)
  send_frame s f cache =
      let id = (s.msg_id + 1) % 2 ^ 32 in
      (
        record s { msg_id = id; cached = keep_cache id cache s.cached },
        (id, frame_bytes d.reader.conv (record f { msg_id = id })),
      )
