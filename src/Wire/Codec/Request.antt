-- ===== src/Wire/Codec/Request.antt =====
-- `Frame.Bytes` read back: the layout that the server parses, written as a parser of its own.
use tdx.Base.{◌+◌, ◌*◌, ◌%◌, ◌^◌, ◌<◌, ◌≡◌, arith, if◌then◌else◌, ◌==◌}
use tdx.Base.{◌∷◌, length, Option, none, some}
use tdx.Base.Text.{Bytes, IsByte}
use tdx.Wire.Endian.{Conv, IsBigEndian, le_bytes16_lem, le_bytes32_lem}
use tdx.Wire.Frame.{Frame, frame_bytes, frame_prefix}

-- The fields of a frame fit their widths, and so does its length.
pub record IsSendable (f : Frame) : Type 0 where
  pub msg_id_fits : f.msg_id < 2 ^ 32
  pub control_fits : IsByte f.control
  pub kind_fits : f.kind < 2 ^ 16
  pub body_fits : length f.body + 2 < 2 ^ 16

-- The server's view: prefix, message number, control, the length twice, the type, the data.
abbrev pub parse_frame : Bytes → Option Frame
parse_frame (p ∷ m0 ∷ m1 ∷ m2 ∷ m3 ∷ k ∷ a0 ∷ a1 ∷ b0 ∷ b1 ∷ t0 ∷ t1 ∷ body) =
    if a0 + a1 * 256 == length body + 2
    then if b0 + b1 * 256 == length body + 2
      then some (record {
        msg_id = m0 + m1 * 256 + m2 * 2 ^ 16 + m3 * 2 ^ 24;
        control = k;
        kind = t0 + t1 * 256;
        body = body;
        prefix = p;
      })
      else none
    else none
parse_frame _ = none

-- A frame whose fields fit is sent as the server parses it, with the standard prefix for 0.
pub parse_frame-frame_bytes :
    (c : Conv) (f : Frame)
    → IsBigEndian c
    → IsSendable f
    → parse_frame (frame_bytes c f)
      ≡ some (record f { prefix = if f.prefix == 0 then frame_prefix else f.prefix })
unfolding frame_bytes
parse_frame-frame_bytes c f big s =
    rw
      (
        le_bytes32_lem c big f.msg_id s.msg_id_fits,
        le_bytes16_lem c big f.kind s.kind_fits,
        le_bytes16_lem c big ((length f.body + 2) % 2 ^ 16) (omega arith),
      )
      (ground arith)
