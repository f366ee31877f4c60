-- ===== src/Block/Messages.antt =====
-- `block.FrameMeta`, `FrameInfo`, `DecodeMeta` and `DecodeInfo`.
use tdx.Base.{
  ℕ, ◌-◌, ◌/◌, ◌%◌, ◌^◌, ltb, if◌then◌else◌, [], ◌∷◌, ◌++◌, length, take, drop, replicate,
}
use tdx.Base.Outcome.{Outcome, ok, err, short_data}
use tdx.Base.Text.{Bytes}
use tdx.Wire.Endian.{Conv, uint32}
use tdx.Wire.Frame.{Frame, control01}

-- `copy(data, file)` into a slice of `n` zero bytes.
abbrev pub copied : ℕ → Bytes → Bytes
copied n file = take n (file ++ replicate (n - length file) 0)

unfoldable pub block_meta_frame : Bytes → Frame
block_meta_frame file = record {
  prefix = 0;
  msg_id = 0;
  control = control01;
  kind = 0x02c5;
  body = copied 40 file;
}

-- `binary.LittleEndian.PutUint32`.
abbrev pub put_uint32 : ℕ → Bytes
put_uint32 n = n % 256 ∷ n / 2 ^ 8 % 256 ∷ n / 2 ^ 16 % 256 ∷ n / 2 ^ 24 % 256 ∷ []

unfoldable pub block_info_frame : ℕ → ℕ → Bytes → Frame
block_info_frame start size file = record {
  prefix = 0;
  msg_id = 0;
  control = control01;
  kind = 0x06b9;
  body = put_uint32 start ++ (put_uint32 size ++ copied 100 file);
}

unfoldable pub block_meta_decode : Conv → Bytes → Outcome ℕ
block_meta_decode c bs = if ltb (length bs) 4 then err short_data else ok (uint32 c (take 4 bs))

unfoldable pub block_info_decode : Bytes → Outcome Bytes
block_info_decode bs = if ltb (length bs) 4 then ok [] else ok (drop 4 bs)
