-- ===== src/Candle/Defs.antt =====
-- `KlineReq.Bytes`, `kline.Frame`, `kline.Decode`, and `GetTime` of protocol/unit.go.
use tdx.Base.{
  ℕ, zero, suc, ◌+◌, ◌-◌, ◌/◌, ◌%◌, ◌==◌, ◌&&◌, ◌||◌, not, Bool, if◌then◌else◌, ltb, List, [], ◌∷◌,
  ◌++◌, length, take, drop, map, get_or,
}
use tdx.Base.Int.{ℤ, pos, add64, mul64, quot, ltb_ℤ, eqb_ℤ}
use tdx.Base.Outcome.{Outcome, ok, err, panic, ◌>>=◌, short_data, too_many, bad_code_length}
use tdx.Base.Text.{Bytes, text, eqb_text}
use tdx.Wire.Endian.{Conv, uint16, uint32, le_bytes16}
use tdx.Wire.Frame.{Frame, control01}
use tdx.Varint.Cut.{get_price}
use tdx.Market.Kinds.{is_convertible_bond}
use tdx.Market.Decode.{decode_code}
use tdx.Kline.Defs.{Kline}
use tdx.Kline.Merge.{last_time}
use tdx.Candle.Float.{float_int64}

pub record KlineCache : Type 0 where
  pub kind : ℕ
  pub series : Bytes
  pub code : Bytes

-- The types of candles of 5, 15, 30 and 60 minutes, and the two of one minute.
unfoldable pub is_minute_kind : ℕ → Bool
is_minute_kind t = ltb t 4 || t == 7 || t == 8

-- The volume is in shares for these types and for the second type of a day, save for convertible
-- bonds.
unfoldable pub normalize_kline_volume : ℤ → KlineCache → ℤ
unfolding is_minute_kind
normalize_kline_volume volume cache =
    if (is_minute_kind cache.kind || cache.kind == 4) && not (is_convertible_bond cache.code)
    then quot volume (pos 100)
    else volume

abbrev pub request_data : Conv → ℕ → Bytes → ℕ → ℕ → ℕ → Bytes
request_data c exchange code kind start count =
    exchange
    ∷ 0
    ∷ (code
        ++ (kind
            ∷ 0
            ∷ 1
            ∷ 0
            ∷ (le_bytes16 c start
                ++ (le_bytes16 c count ++ (0 ∷ 0 ∷ 0 ∷ 0 ∷ 0 ∷ 0 ∷ 0 ∷ 0 ∷ 0 ∷ 0 ∷ [])))))

-- `KlineReq.Bytes`.
unfoldable pub kline_req_bytes : Conv → ℕ → Bytes → ℕ → ℕ → ℕ → Outcome Bytes
kline_req_bytes c exchange code kind start count =
    if ltb 800 count
    then err too_many
    else if not (length code == 6)
    then err bad_code_length
    else ok (request_data c exchange code kind start count)

unfoldable pub kline_frame : Conv → ℕ → Bytes → ℕ → ℕ → Outcome Frame
kline_frame c kind code start count =
    if ltb 800 count
    then err too_many
    else (decode_code code >>= λ r. ok (record {
      prefix = 0;
      msg_id = 0;
      control = control01;
      kind = 0x052d;
      body = request_data c r.0 r.1 kind start count;
    }))

-- `date` is `time.Date` in the local zone, as Unix seconds: year, month, day, hour, minute.
-- `counts` is `conv.Int` of two bytes.
pub record Reader : Type 0 where
  pub conv : Conv
  pub date : ℕ → ℕ → ℕ → ℕ → ℕ → ℤ
  pub counts : Bytes → ℤ

-- `GetTime` of four bytes.
unfoldable pub get_time : Reader → Bytes → ℕ → ℤ
unfolding is_minute_kind
get_time rd bs kind =
    let ymd = uint16 rd.conv (take 2 bs) in
    let hm = uint16 rd.conv (drop 2 bs) in
    let day = uint32 rd.conv bs in
    if is_minute_kind kind
    then rd.date (ymd / 2048 + 2004) (ymd % 2048 / 100) (ymd % 2048 % 100) (hm / 60) (hm % 60)
    else rd.date (day / 10000) (day % 10000 / 100) (day % 100) 15 0

-- The four prices behind the time: each is a change against the close before.
pub record Prices : Type 0 where
  pub open_step : ℤ
  pub close_step : ℤ
  pub high_step : ℤ
  pub low_step : ℤ
  pub after : Bytes

abbrev pub read_prices : Bytes → Prices
read_prices bs =
    let o = get_price bs in
    let c = get_price o.0 in
    let h = get_price c.0 in
    let l = get_price h.0 in
    record { open_step = o.1; close_step = c.1; high_step = h.1; low_step = l.1; after = l.0 }

abbrev pub bar : Reader → KlineCache → ℤ → ℤ → Prices → Kline
bar rd cache last time p = record {
  last = last;
  open_price = add64 p.open_step last;
  close = add64 (add64 last p.open_step) p.close_step;
  high = add64 (add64 p.open_step last) p.high_step;
  low = add64 (add64 p.open_step last) p.low_step;
  order = pos 0;
  volume = normalize_kline_volume (float_int64 1 (uint32 rd.conv (take 4 p.after))) cache;
  amount = float_int64 1000 (uint32 rd.conv (take 4 (drop 4 p.after)));
  time = time;
  up_count = pos 0;
  down_count = pos 0;
}

-- An index has two counts of two bytes more.
abbrev pub index_bar : Reader → Bytes → Kline → Kline
index_bar rd bs k = record k {
  volume = mul64 k.volume (pos 100);
  up_count = rd.counts (get_or bs 1 0 ∷ get_or bs 0 0 ∷ []);
  down_count = rd.counts (get_or bs 3 0 ∷ get_or bs 2 0 ∷ []);
}

module _ (rd : Reader) where
  -- A round behind its prices: two more numbers, and the counts of an index.
  abbrev pub with_prices : KlineCache → ℤ → ℤ → Prices → Outcome (Bytes × Kline)
  with_prices cache last time p =
      let k = bar rd cache last time p in
      let rest = drop 8 p.after in
      if ltb (length p.after) 8
      then panic
      else if not (eqb_text cache.series (text "index"))
      then ok (rest, k)
      else if ltb (length rest) 4
      then panic
      else ok (drop 4 rest, index_bar rd rest k)

  -- One round: the bytes left, and the candle.
  unfoldable pub kline_round : KlineCache → ℤ → Bytes → Outcome (Bytes × Kline)
  unfolding get_time
  kline_round cache last bs =
      let time = get_time rd (take 4 bs) cache.kind in
      if ltb (length bs) 4 then panic else with_prices cache last time (read_prices (drop 4 bs))

  unfoldable pub kline_loop : KlineCache → ℕ → ℤ → Bytes → Outcome (List Kline)
  unfolding kline_round
  kline_loop cache zero last bs = ok []
  kline_loop cache (suc i) last bs =
      kline_round cache last bs >>= λ r. kline_loop cache i r.1.close r.0 >>= λ ks. ok (r.1 ∷ ks)

-- `FixKlineTime`, at a day whose 11:30, 13:00 and 15:00 are given: the last candle is from 13:00 to
-- 15:00 of the day, and the time 13:00 of the last 120 candles becomes 11:30.
abbrev pub fix_one : ℤ → ℤ → Kline → Kline
fix_one noon node1 k = if eqb_ℤ k.time node1 then record k { time = noon } else k

unfoldable pub fix_kline_time : ℤ → ℤ → ℤ → List Kline → List Kline
fix_kline_time noon node1 node2 ks =
    let skipped = length ks - 120 in
    if length ks == 0 || ltb_ℤ (last_time ks) node1 || ltb_ℤ node2 (last_time ks)
    then ks
    else take skipped ks ++ map (fix_one noon node1) (drop skipped ks)

pub record KlineResp : Type 0 where
  pub count : ℕ
  pub list : List Kline

unfoldable pub kline_decode : Reader → ℤ → ℤ → ℤ → KlineCache → Bytes → Outcome KlineResp
unfolding kline_loop fix_kline_time
kline_decode rd noon node1 node2 cache bs =
    let count = uint16 rd.conv (take 2 bs) in
    if ltb (length bs) 2
    then err short_data
    else (kline_loop rd cache count (pos 0) (drop 2 bs) >>= λ ks.
        ok (record { count = count; list = fix_kline_time noon node1 node2 ks }))
