-- ===== src/Tests/Wire.antt =====
-- Runs of the wire's readers and writers.
use tdx.Base.{ℕ, ◌+◌, ◌*◌, ◌/◌, ◌%◌, ◌^◌, ◌≢◌, ◌≡◌, refl, arith, true, [], ◌∷◌, ◌++◌, some}
use tdx.Base.Int.{negsuc, ◌-ℤ◌, ◌+ℤ◌, wrap32}
use tdx.Base.Outcome.{Outcome, ok, err, short_data, bad_zip_length, bad_length}
use tdx.Base.Text.{Bytes}
use tdx.Wire.Endian.{Conv, IsBigEndian}
use tdx.Wire.Frame.{Frame, Response, frame_bytes, decode_response}
use tdx.Wire.Stream.{read_from}
use tdx.Wire.Codec.Request.{parse_frame, parse_frame-frame_bytes}
use tdx.Wire.Codec.Response.{response_wire, IsSent, decode_response-wire, decode_response-IsPacket}
use tdx.Wire.Codec.Reader.{IsPacket, ReadResult, read_from-noise, read_from_ok}
use tdx.Varint.Cut.{group, get_data_loop, get_data, end_index, cut_at, get_price}
use tdx.Varint.RoundTrip.{signed_wire, signed_value, get_price-signed_wire}

abbrev pub value_of : ℕ → Bytes → ℕ
value_of acc [] = acc
value_of acc (b ∷ bs) = value_of (acc * 256 + b) bs

abbrev pub big_endian : Conv
big_endian = record {
  bytes16 = λ n. n / 256 ∷ n % 256 ∷ [];
  bytes32 = λ n. n / 2 ^ 24 ∷ n / 2 ^ 16 % 256 ∷ n / 2 ^ 8 % 256 ∷ n % 256 ∷ [];
  uint16 = value_of 0;
  uint32 = value_of 0;
}

pub big_endian-IsBigEndian : IsBigEndian big_endian
big_endian-IsBigEndian = record {
  of_u16 = λ n h. refl;
  of_u32 = λ n h. refl;
  to_u16 = λ h l p q. omega arith;
  to_u32 = λ a b d e p q r s. omega arith;
}

-- The heartbeat's frame, number 2.
abbrev heart_frame : Frame
heart_frame = record { msg_id = 2; control = 1; kind = 4; body = []; prefix = 0 }

heart_bytes :
    frame_bytes big_endian heart_frame ≡ 0x0c ∷ 2 ∷ 0 ∷ 0 ∷ 0 ∷ 1 ∷ 2 ∷ 0 ∷ 2 ∷ 0 ∷ 4 ∷ 0 ∷ []
unfolding frame_bytes tdx.Wire.Endian.le_bytes16 tdx.Wire.Endian.le_bytes32
heart_bytes = refl

parse_frame-frame_bytes_example :
    parse_frame (frame_bytes big_endian heart_frame) ≡ some (record heart_frame { prefix = 0x0c })
parse_frame-frame_bytes_example =
    parse_frame-frame_bytes big_endian heart_frame big_endian-IsBigEndian (omega arith)

-- An answer of two bytes, sent as it is.
abbrev answer : Response
answer = record {
  prefix = 0xb1cb7400;
  control = 0x1c;
  msg_id = 2;
  unknown = 0;
  kind = 0x44e;
  zip_length = 2;
  length = 2;
  body = 7 ∷ 1 ∷ [];
}

answer-IsSent : IsSent answer (7 ∷ 1 ∷ [])
answer-IsSent = omega arith

no_inflate : Bytes → Outcome Bytes
no_inflate bs = err bad_length

decode_response-wire_example :
    decode_response big_endian no_inflate (response_wire answer (7 ∷ 1 ∷ [])) ≡ ok answer
decode_response-wire_example =
    decode_response-wire big_endian big_endian-IsBigEndian no_inflate answer (7 ∷ 1 ∷ [])
      answer-IsSent (λ _. refl) (λ ne. absurd (ne refl))

-- The same answer on the stream, whose prefix stands in the order of its bytes.
abbrev packet : Bytes
packet = 0xb1 ∷ 0xcb ∷ 0x74 ∷ 0 ∷ 0x1c ∷ 2 ∷ 0 ∷ 0 ∷ 0 ∷ 0 ∷ 0x4e ∷ 4 ∷ 2 ∷ 0 ∷ 2 ∷ 0 ∷ 7 ∷ 1 ∷ []

packet-IsPacket : IsPacket big_endian packet
packet-IsPacket = record { has_prefix = refl; has_length = refl }

decode_response-IsPacket_example :
    (decode_response big_endian no_inflate packet ≢ err short_data)
    × (decode_response big_endian no_inflate packet ≢ err bad_zip_length)
unfolding no_inflate
decode_response-IsPacket_example =
    decode_response-IsPacket big_endian no_inflate packet big_endian-IsBigEndian (omega arith)
      packet-IsPacket (λ z. (λ e. cc, λ e. cc))

abbrev stray : Bytes
stray = 1 ∷ 2 ∷ 3 ∷ 4 ∷ []

read_from-noise_example : read_from big_endian (stray ++ (packet ++ (9 ∷ []))) ≡ ok (packet, 9 ∷ [])
read_from-noise_example =
    read_from-noise big_endian (stray ∷ []) packet (9 ∷ []) ((refl, omega arith), tt)
      packet-IsPacket

read_from_ok_example : ReadResult big_endian (stray ++ (packet ++ (9 ∷ []))) packet (9 ∷ [])
read_from_ok_example =
    read_from_ok big_endian (stray ++ (packet ++ (9 ∷ []))) packet (9 ∷ []) read_from-noise_example

get_price_pair : get_price (0x41 ∷ 0xa4 ∷ 0x01 ∷ []) ≡ (0xa4 ∷ 0x01 ∷ [], negsuc 0)
unfolding get_price cut_at end_index get_data get_data_loop group wrap32 ◌-ℤ◌ ◌+ℤ◌
get_price_pair = refl

get_price-signed_wire_example :
    get_price (signed_wire true 12345 ++ (9 ∷ [])) ≡ (9 ∷ [], signed_value true 12345)
get_price-signed_wire_example = get_price-signed_wire true 12345 (9 ∷ []) (omega arith)
