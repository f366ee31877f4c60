-- ===== src/Message/Gbbq.antt =====
-- protocol/model_gbbq.go: `gbbq.Frame`, `gbbq.Decode` and the kinds of an entry. The four numbers of
-- an entry are float64 made of four bytes each; they are kept as those bits and what is done to
-- them.
use tdx.Base.{
  ℕ, zero, suc, ◌+◌, ◌*◌, ◌^◌, ltb, leb, ◌==◌, ◌||◌, ◌&&◌, Bool, true, false, if◌then◌else◌, List,
  [], ◌∷◌, ◌++◌, length, take, drop, get_or,
}
use tdx.Base.Int.{ℤ}
use tdx.Base.Outcome.{Outcome, ok, err, panic, ◌>>=◌, short_data}
use tdx.Base.Text.{Bytes}
use tdx.Wire.Endian.{uint16, uint32}
use tdx.Wire.Frame.{Frame, control01}
use tdx.Market.Exchange.{exchange_string}
use tdx.Market.Decode.{decode_code}
use tdx.Candle.Defs.{Reader, get_time}

-- `float32_of`: `math.Float32frombits`. `shares_of`: `getVolume` of the bits, times 1e4.
pub data Number : Type 0 where
  unset : Number
  float32_of shares_of : ℕ → Number

pub record Gbbq : Type 0 where
  pub code : Bytes
  pub time : ℤ
  pub category : ℕ
  pub c1 : Number
  pub c2 : Number
  pub c3 : Number
  pub c4 : Number

pub record GbbqResp : Type 0 where
  pub count : ℕ
  pub list : List Gbbq

unfoldable pub gbbq_frame : Bytes → Outcome Frame
gbbq_frame code = decode_code code >>= λ r. ok (record {
  prefix = 0;
  msg_id = 0;
  control = control01;
  kind = 0x000f;
  body = 1 ∷ 0 ∷ r.0 ∷ r.1;
})

-- `binary.LittleEndian.Uint32`, for four bytes at least.
abbrev pub little_endian : Bytes → ℕ
little_endian bs =
    get_or bs 0 0 + get_or bs 1 0 * 2 ^ 8 + get_or bs 2 0 * 2 ^ 16 + get_or bs 3 0 * 2 ^ 24

module _ (rd : Reader) where
  -- The 16 bytes of the numbers, by the category.
  unfoldable pub gbbq_numbers : Gbbq → Bytes → Gbbq
  gbbq_numbers g bs =
      let f : ℕ → Number = λ i. float32_of (little_endian (drop i bs)) in
      let v : ℕ → Number = λ i. shares_of (uint32 rd.conv (take 4 (drop i bs))) in
      if g.category == 1
      then record g { c1 = f 0; c2 = f 4; c3 = f 8; c4 = f 12 }
      else if (g.category == 11) || (g.category == 12)
      then record g { c3 = f 8 }
      else if (g.category == 13) || (g.category == 14)
      then record g { c1 = f 0; c3 = f 8 }
      else record g { c1 = v 0; c2 = v 4; c3 = v 8; c4 = v 12 }

  unfoldable pub gbbq_head : Bytes → Gbbq
  gbbq_head bs = record {
    code = exchange_string (get_or bs 0 0) ++ take 6 (drop 1 bs);
    time = get_time rd (take 4 (drop 8 bs)) 100;
    category = get_or bs 12 0;
    c1 = unset;
    c2 = unset;
    c3 = unset;
    c4 = unset;
  }

  -- How many of the 16 bytes the category reads; the cut behind them needs all.
  unfoldable pub gbbq_loop : ℕ → Bytes → Outcome (List Gbbq)
  gbbq_loop zero bs = ok []
  gbbq_loop (suc n) bs = elim (ltb (length bs) 29) [
    | true ↦ panic
    | false ↦ gbbq_loop n (drop 29 bs) >>= λ rest.
        ok (gbbq_numbers (gbbq_head bs) (take 16 (drop 13 bs)) ∷ rest)
  ]

  unfoldable pub gbbq_decode : Bytes → Outcome GbbqResp
  gbbq_decode bs =
      let count = uint16 rd.conv (take 2 (drop 9 bs)) in
      if ltb (length bs) 11
      then err short_data
      else (gbbq_loop count (drop 11 bs) >>= λ gs. ok (record { count = count; list = gs }))

unfoldable pub is_equity : Gbbq → Bool
is_equity g =
    (g.category == 2)
    || (g.category == 3)
    || (g.category == 5)
    || (leb 7 g.category && leb g.category 10)

unfoldable pub is_xrxd : Gbbq → Bool
is_xrxd g = g.category == 1
