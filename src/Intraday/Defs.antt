-- ===== src/Intraday/Defs.antt =====
-- `minute` and `historyMinute`: frames and decoding. The time of a point is the minute of the day
-- that its "15:04" form shows.
use tdx.Base.{
  ℕ, zero, suc, ◌+◌, ◌%◌, ◌==◌, if◌then◌else◌, ltb, List, [], ◌∷◌, ◌++◌, length, take, drop,
}
use tdx.Base.Int.{ℤ, pos, add64, mul64}
use tdx.Base.Outcome.{Outcome, ok, err, ◌>>=◌, short_data}
use tdx.Base.Text.{Bytes}
use tdx.Wire.Endian.{Conv, uint16, le_bytes32}
use tdx.Wire.Frame.{Frame, control01}
use tdx.Varint.Cut.{get_price, cut_int}
use tdx.Market.Decode.{decode_code}

pub record PriceNumber : Type 0 where
  pub clock : ℕ
  pub price : ℤ
  pub number : ℤ

pub record MinuteResp : Type 0 where
  pub count : ℕ
  pub list : List PriceNumber

-- The rounds of `minute.Decode` from index `i` on; `t` is the minute that the labels count from.
unfoldable pub minute_loop : ℕ → ℕ → ℕ → Bytes → List PriceNumber
minute_loop zero i t bs = []
minute_loop (suc rounds) i t bs =
    let p = get_price bs in
    let x = cut_int p.0 in
    let n = cut_int x.0 in
    let t' = if i == 120 then t + 120 else t in
    record { clock = (t' + i) % 1440; price = p.1; number = n.1 }
    ∷ minute_loop rounds (i + 1) t' n.0

-- The rounds of `historyMinute.Decode`; `last` is the running price.
unfoldable pub history_minute_loop : ℕ → ℕ → ℕ → ℤ → Bytes → List PriceNumber
history_minute_loop zero i t last bs = []
history_minute_loop (suc rounds) i t last bs =
    let p = get_price bs in
    let x = get_price p.0 in
    let last' = add64 last p.1 in
    let n = cut_int x.0 in
    let t' = if i == 120 then t + 90 else t in
    record { clock = (t' + (i + 1)) % 1440; price = mul64 last' (pos 10); number = n.1 }
    ∷ history_minute_loop rounds (i + 1) t' last' n.0

module _ (c : Conv) where
  unfoldable pub minute_decode : Bytes → Outcome MinuteResp
  unfolding minute_loop
  minute_decode bs =
      let count = uint16 c (take 2 bs) in
      if ltb (length bs) 6
      then err short_data
      else ok (record { count = count; list = minute_loop count 0 540 (drop 6 bs) })

  unfoldable pub history_minute_decode : Bytes → Outcome MinuteResp
  unfolding history_minute_loop
  history_minute_decode bs =
      let count = uint16 c (take 2 bs) in
      if ltb (length bs) 6
      then err short_data
      else ok (record { count = count; list = history_minute_loop count 0 570 (pos 0) (drop 6 bs) })

  unfoldable pub minute_frame : Bytes → Outcome Frame
  minute_frame code = decode_code code >>= λ r. ok (record {
    prefix = 0;
    msg_id = 0;
    control = control01;
    kind = 0x051d;
    body = r.0 ∷ 0 ∷ (r.1 ++ (0 ∷ 0 ∷ 0 ∷ 0 ∷ []));
  })

  -- `date` is `conv.Uint32` of the date's text.
  unfoldable pub history_minute_frame : ℕ → Bytes → Outcome Frame
  history_minute_frame date code = decode_code code >>= λ r. ok (record {
    prefix = 0;
    msg_id = 0;
    control = control01;
    kind = 0x0fb4;
    body = le_bytes32 c date ++ (r.0 ∷ r.1);
  })
