-- ===== src/Message/Basic.antt =====
-- Connecting, the heartbeat, the number of securities and the list of their codes.
use tdx.Base.{ℕ, zero, suc, ◌/◌, ◌%◌, if◌then◌else◌, ltb, List, [], ◌∷◌, length, take, drop, get_or}
use tdx.Base.Int.{ℤ, signed}
use tdx.Base.Outcome.{Outcome, ok, err, panic, ◌>>=◌, short_data}
use tdx.Base.Text.{Bytes}
use tdx.Wire.Endian.{Conv, uint16, uint32}
use tdx.Wire.Frame.{Frame, control01}

abbrev pub request : ℕ → Bytes → Frame
request kind body = record { prefix = 0; msg_id = 0; control = control01; kind = kind; body = body }

unfoldable pub connect_frame : Frame
connect_frame = request 0x000d (1 ∷ [])

unfoldable pub heart_frame : Frame
heart_frame = request 0x0004 []

unfoldable pub count_frame : ℕ → Frame
count_frame exchange = request 0x044e (exchange ∷ 0 ∷ 0x75 ∷ 0xc7 ∷ 0x33 ∷ 1 ∷ [])

unfoldable pub code_frame : ℕ → ℕ → Frame
code_frame exchange start = request 0x0450 (exchange ∷ 0 ∷ start % 256 ∷ start / 256 % 256 ∷ [])

-- `gbk` turns the bytes of a name into those of a string.
unfoldable pub connect_decode : (Bytes → Bytes) → Bytes → Outcome Bytes
connect_decode gbk bs = if ltb (length bs) 68 then err short_data else ok (gbk (drop 68 bs))

unfoldable pub count_decode : Conv → Bytes → Outcome ℕ
count_decode c bs = if ltb (length bs) 2 then err short_data else ok (uint16 c bs)

-- The last price is the float of these bits.
pub record CodeInfo : Type 0 where
  pub name : Bytes
  pub code : Bytes
  pub multiple : ℕ
  pub decimal : ℤ
  pub price_bits : ℕ

module _ (c : Conv) (gbk : Bytes → Bytes) where
  -- One record of 29 bytes.
  unfoldable pub code_info : Bytes → CodeInfo
  code_info bs = record {
    name = gbk (take 8 (drop 8 bs));
    code = take 6 bs;
    multiple = uint16 c (take 2 (drop 6 bs));
    decimal = signed 256 (get_or bs 20 0);
    price_bits = uint32 c (take 4 (drop 21 bs));
  }

  unfoldable pub code_loop : ℕ → Bytes → Outcome (List CodeInfo)
  unfolding code_info
  code_loop zero bs = ok []
  code_loop (suc i) bs =
      let rest = code_loop i (drop 29 bs) in
      if ltb (length bs) 29 then panic else (rest >>= λ cs. ok (code_info bs ∷ cs))

  pub record CodeResp : Type 0 where
    pub count : ℕ
    pub list : List CodeInfo

  unfoldable pub code_decode : Bytes → Outcome CodeResp
  unfolding code_loop
  code_decode bs =
      let count = uint16 c (take 2 bs) in
      if ltb (length bs) 2
      then err short_data
      else (code_loop count (drop 2 bs) >>= λ cs. ok (record { count = count; list = cs }))
