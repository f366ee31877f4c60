-- ===== src/Wire/Frame.antt =====
-- protocol/frame.go: `Frame` and `Frame.Bytes`, `Response` and `Decode`.
use tdx.Base.{ℕ, ◌+◌, ◌%◌, ◌^◌, if◌then◌else◌, not, ltb, ◌==◌}
use tdx.Base.{◌∷◌, ◌++◌, length, take, drop, get_or}
use tdx.Base.Outcome.{Outcome, ok, err, ◌>>=◌, short_data, bad_zip_length, bad_length}
use tdx.Base.Text.{Bytes}
use tdx.Wire.Endian.{Conv, le_bytes16, le_bytes32, uint16, uint32}

abbrev pub frame_prefix : ℕ
frame_prefix = 0x0c

-- `PrefixResp`, as the four bytes in the order of the wire.
abbrev pub prefix_resp : ℕ
prefix_resp = 0xb1cb7400

abbrev pub control01 : ℕ
control01 = 1

pub record Frame : Type 0 where
  pub msg_id : ℕ
  pub control : ℕ
  pub kind : ℕ
  pub body : Bytes
  pub prefix : ℕ

pub record Response : Type 0 where
  pub prefix : ℕ
  pub control : ℕ
  pub msg_id : ℕ
  pub unknown : ℕ
  pub kind : ℕ
  pub zip_length : ℕ
  pub length : ℕ
  pub body : Bytes

abbrev inflated : (Bytes → Outcome Bytes) → Response → Outcome Bytes
inflated inflate r = if not (r.zip_length == r.length) then inflate r.body else ok r.body

abbrev with_body : Response → Bytes → Outcome Response
with_body r body =
    if not (r.length == length body) then err bad_length else ok (record r { body = body })

module _ (c : Conv) where
  -- The 12 bytes of the header are written field by field; each `copy` fills its field exactly,
  -- since `Bytes` of a uint32 has four bytes and of a uint16 two.
  unfoldable pub frame_bytes : Frame → Bytes
  frame_bytes f =
      let len = (length f.body + 2) % 2 ^ 16 in
      (if f.prefix == 0 then frame_prefix else f.prefix)
      ∷ (le_bytes32 c f.msg_id
          ++ (f.control
              ∷ (le_bytes16 c len ++ (le_bytes16 c len ++ (le_bytes16 c f.kind ++ f.body)))))

  -- The fields of the header, for a slice of 16 bytes at least.
  unfoldable pub response_header : Bytes → Response
  response_header bs = record {
    prefix = uint32 c (take 4 bs);
    control = get_or bs 4 0;
    msg_id = uint32 c (take 4 (drop 5 bs));
    unknown = get_or bs 9 0;
    kind = uint16 c (take 2 (drop 10 bs));
    zip_length = uint16 c (take 2 (drop 12 bs));
    length = uint16 c (take 2 (drop 14 bs));
    body = drop 16 bs;
  }

  -- `inflate` reads a whole zlib stream, `zlib.NewReader` and `io.ReadAll` in one. The branch on
  -- the control code has an empty body in the source.
  unfoldable pub decode_response : (Bytes → Outcome Bytes) → Bytes → Outcome Response
  decode_response inflate bs =
      let r = response_header bs in
      if ltb (length bs) 16
      then err short_data
      else if not (r.zip_length == length (drop 16 bs))
      then err bad_zip_length
      else (inflated inflate r >>= with_body r)
