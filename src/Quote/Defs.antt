-- ===== src/Quote/Defs.antt =====
-- `quote.Frame`, `quote.Decode` and `DecodeKline`. `now` is the current time. The text of
-- `ServerTime` is kept as the number that it writes, and `Rate` as its hundredths.
use tdx.Base.{
  ℕ, zero, suc, ◌%◌, ◌^◌, ltb, Bool, true, false, if◌then◌else◌, List, [], ◌∷◌, ◌++◌, length, take,
  drop, get_or,
}
use tdx.Base.Int.{ℤ, pos, add64, mul64}
use tdx.Base.Outcome.{Outcome, ok, panic, ◌>>=◌}
use tdx.Base.Text.{Bytes}
use tdx.Wire.Endian.{Conv, uint16, uint32, le_bytes16}
use tdx.Wire.Frame.{Frame, control01}
use tdx.Varint.Cut.{get_price, cut_int, cut_int64}
use tdx.Market.Decode.{decode_code}
use tdx.Kline.Defs.{Kline}
use tdx.Candle.Float.{float_int64}
use tdx.Block.Lines.{utf8_to_gbk}

pub record PriceLevel : Type 0 where
  pub buy : Bool
  pub price : ℤ
  pub number : ℤ

pub record Quote : Type 0 where
  pub market : ℕ
  pub code : Bytes
  pub active1 : ℕ
  pub kline : Kline
  pub reversed0 : ℤ
  pub reversed1 : ℤ
  pub intuition : ℤ
  pub inside_dish : ℤ
  pub outer_disc : ℤ
  pub reversed2 : ℤ
  pub reversed3 : ℤ
  pub buy_level : List PriceLevel
  pub sell_level : List PriceLevel
  pub reversed4 : ℕ
  pub reversed5 : ℤ
  pub reversed6 : ℤ
  pub reversed7 : ℤ
  pub reversed8 : ℤ
  pub reversed9 : ℕ
  pub active2 : ℕ

-- The codes behind the number of codes.
unfoldable pub quote_codes : List Bytes → Outcome Bytes
quote_codes [] = ok []
quote_codes (v ∷ codes) =
    decode_code v >>= λ r. quote_codes codes >>= λ rest. ok (r.0 ∷ (r.1 ++ rest))

unfoldable pub quote_frame : Conv → List Bytes → Outcome Frame
unfolding quote_codes
quote_frame c codes = quote_codes codes >>= λ payload. ok (record {
  prefix = 0;
  msg_id = 0;
  control = control01;
  kind = 0x053e;
  body = 5 ∷ 0 ∷ 0 ∷ 0 ∷ 0 ∷ 0 ∷ 0 ∷ 0 ∷ (le_bytes16 c (length codes % 2 ^ 16) ++ payload);
})

-- `DecodeKline`: the close, and the others as differences from it.
unfoldable pub decode_kline : ℤ → Bytes → Bytes × Kline
decode_kline now bs =
    let c = get_price bs in
    let l = get_price c.0 in
    let o = get_price l.0 in
    let h = get_price o.0 in
    let w = get_price h.0 in
    (
      w.0,
      record {
        last = mul64 (add64 l.1 c.1) (pos 10);
        open_price = mul64 (add64 o.1 c.1) (pos 10);
        high = mul64 (add64 h.1 c.1) (pos 10);
        low = mul64 (add64 w.1 c.1) (pos 10);
        close = mul64 c.1 (pos 10);
        order = pos 0;
        volume = pos 0;
        amount = pos 0;
        time = now;
        up_count = pos 0;
        down_count = pos 0;
      },
    )

-- `n` more levels of the two sides.
unfoldable pub level_loop : ℕ → ℤ → Bytes → Bytes × (List PriceLevel × List PriceLevel)
level_loop zero close bs = (bs, ([], []))
level_loop (suc n) close bs =
    let b = get_price bs in
    let s = get_price b.0 in
    let bn = cut_int s.0 in
    let sn = cut_int bn.0 in
    let rest = level_loop n close sn.0 in
    (
      rest.0,
      (
        record { buy = true; price = add64 (mul64 b.1 (pos 10)) close; number = bn.1 } ∷ rest.1.0,
        record { buy = false; price = add64 (mul64 s.1 (pos 10)) close; number = sn.1 } ∷ rest.1.1,
      ),
    )

-- A part that begins with `n` bytes, which must be there.
unfoldable pub needing {ℓ} : {A : Type ℓ} → ℕ → (Bytes → A) → Bytes → Outcome A
needing n part bs = if ltb (length bs) n then panic else ok (part bs)

module _ (c : Conv) (decode : Bytes → Bytes) (now : ℤ) where
  -- Up to the current volume.
  unfoldable pub quote_head : Bytes → Bytes × Quote
  quote_head bs =
      let k = decode_kline now (drop 9 bs) in
      let r0 = cut_int k.0 in
      let r1 = cut_int r0.0 in
      let v = cut_int64 r1.0 in
      let i = cut_int v.0 in
      (
        i.0,
        record {
          market = get_or bs 0 0;
          code = utf8_to_gbk decode (take 6 (drop 1 bs));
          active1 = uint16 c (take 2 (drop 7 bs));
          kline = record k.1 { volume = v.1 };
          reversed0 = r0.1;
          reversed1 = r1.1;
          intuition = i.1;
          inside_dish = pos 0;
          outer_disc = pos 0;
          reversed2 = pos 0;
          reversed3 = pos 0;
          buy_level = [];
          sell_level = [];
          reversed4 = 0;
          reversed5 = pos 0;
          reversed6 = pos 0;
          reversed7 = pos 0;
          reversed8 = pos 0;
          reversed9 = 0;
          active2 = 0;
        },
      )

  -- The amount, the two dishes and the levels.
  unfoldable pub quote_levels : Quote → Bytes → Bytes × Quote
  quote_levels q bs =
      let a = cut_int (drop 4 bs) in
      let b = cut_int a.0 in
      let r2 = cut_int b.0 in
      let r3 = cut_int r2.0 in
      let ls = level_loop 5 q.kline.close r3.0 in
      (
        ls.0,
        record q {
          kline = record q.kline { amount = float_int64 1000 (uint32 c (take 4 bs)) };
          inside_dish = a.1;
          outer_disc = b.1;
          reversed2 = r2.1;
          reversed3 = r3.1;
          buy_level = ls.1.0;
          sell_level = ls.1.1;
        },
      )

  unfoldable pub quote_tail : Quote → Bytes → Bytes × Quote
  quote_tail q bs =
      let r5 = cut_int (drop 2 bs) in
      let r6 = cut_int r5.0 in
      let r7 = cut_int r6.0 in
      let r8 = cut_int r7.0 in
      (
        r8.0,
        record q {
          reversed4 = uint16 c (take 2 bs);
          reversed5 = r5.1;
          reversed6 = r6.1;
          reversed7 = r7.1;
          reversed8 = r8.1;
        },
      )

  unfoldable pub quote_end : Quote → Bytes → Bytes × Quote
  quote_end q bs = (
    drop 4 bs,
    record q { reversed9 = uint16 c (take 2 bs); active2 = uint16 c (take 2 (drop 2 bs)) },
  )

  unfoldable pub quote_round : Bytes → Outcome (Bytes × Quote)
  quote_round bs = needing 9 quote_head bs >>= λ h. needing 4 (quote_levels h.1) h.0 >>= λ l.
      needing 2 (quote_tail l.1) l.0 >>= λ t. needing 4 (quote_end t.1) t.0

  unfoldable pub quote_loop : ℕ → Bytes → Outcome (List Quote)
  quote_loop zero bs = ok []
  quote_loop (suc n) bs = quote_round bs >>= λ r. quote_loop n r.0 >>= λ rest. ok (r.1 ∷ rest)

  unfoldable pub quote_decode : Bytes → Outcome (List Quote)
  quote_decode bs =
      if ltb (length bs) 4 then panic else quote_loop (uint16 c (take 2 (drop 2 bs))) (drop 4 bs)
