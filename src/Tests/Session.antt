-- ===== src/Tests/Session.antt =====
-- A client with two requests that wait, of which the second is answered first.
use tdx.Base.{ℕ, ◌+◌, ◌*◌, ◌≡◌, refl, arith, [], ◌∷◌, length, none, some}
use tdx.Base.Int.{pos}
use tdx.Base.Outcome.{ok, err, panic, inflate_failed}
use tdx.Base.Text.{Bytes, text}
use tdx.Wire.Endian.{uint16, uint32}
use tdx.Wire.Frame.{Frame, Response, decode_response, response_header}
use tdx.Message.Basic.{count_frame}
use tdx.Client.Session.{
  Cache, trade_cache, Session, Decoders, find_cache, without_cache, told, decode_answer, send_frame,
  handle_message,
}
use tdx.Client.Own.{Between, nothing, sending, handling, NotFor, handle_message_own}
use tdx.Tests.Wire.{big_endian, value_of}

abbrev decoders : Decoders
decoders = record {
  reader = record {
    conv = big_endian;
    date = λ year month day hour minute. pos (year + day);
    counts = λ bs. pos (value_of 0 bs);
  };
  gbk = λ bs. bs;
  inflate = λ bs. err inflate_failed;
  noon = pos 0;
  node1 = pos 0;
  node2 = pos 0;
  now = pos 0;
  others = λ kind val bs. panic;
}

abbrev response : ℕ → ℕ → ℕ → Bytes → Response
response id low high body = record {
  prefix = 0x0074cbb1;
  control = 28;
  msg_id = id;
  unknown = 0;
  kind = low + high * 256;
  zip_length = length body;
  length = length body;
  body = body;
}

abbrev response_bytes : ℕ → ℕ → ℕ → Bytes → Bytes
response_bytes id low high body =
    0xb1
    ∷ 0xcb
    ∷ 0x74
    ∷ 0
    ∷ 28
    ∷ id
    ∷ 0
    ∷ 0
    ∷ 0
    ∷ 0
    ∷ low
    ∷ high
    ∷ length body
    ∷ 0
    ∷ length body
    ∷ 0
    ∷ body

-- The answer to the request for a number of codes, and one without trades.
abbrev count_bytes : Bytes
count_bytes = response_bytes 2 0x4e 0x04 (7 ∷ 1 ∷ [])

abbrev trade_bytes : Bytes
trade_bytes = response_bytes 1 0xc5 0x0f (0 ∷ 0 ∷ [])

count_bytes_read :
    decode_response big_endian decoders.inflate count_bytes ≡ ok (response 2 0x4e 0x04 (7 ∷ 1 ∷ []))
unfolding decode_response response_header uint16 uint32
count_bytes_read = refl

trade_bytes_read :
    decode_response big_endian decoders.inflate trade_bytes ≡ ok (response 1 0xc5 0x0f (0 ∷ 0 ∷ []))
unfolding decode_response response_header uint16 uint32
trade_bytes_read = refl

abbrev fresh : Session
fresh = record { msg_id = 0; cached = []; answered = [] }

abbrev trades_today : Cache
trades_today = trade_cache (record { date = some (pos 0); code = text "sh600000" })

abbrev any_frame : Frame
any_frame = record { prefix = 0; msg_id = 0; control = 1; kind = 0x0fc5; body = [] }

abbrev asked : Session
asked = (send_frame decoders fresh any_frame (some trades_today)).0

abbrev asked_again : Session
asked_again = (send_frame decoders asked (count_frame 1) none).0

count_bytes-NotFor : NotFor decoders 1 count_bytes
count_bytes-NotFor r e same =
    let read = count_bytes_read in let two : 2 ≡ r.msg_id = cc in omega (arith, two, same)

abbrev counted : Session
counted = handle_message decoders asked_again count_bytes

meanwhile : Between decoders 1 asked 1 counted
meanwhile = handling count_bytes count_bytes-NotFor (sending (count_frame 1) none nothing)

-- The first request is answered with its own cache.
handle_message_own_example :
    (handle_message decoders counted trade_bytes
      ≡ told
          (record counted { cached = without_cache 1 counted.cached })
          1
          (decode_answer decoders 0x0fc5 (some trades_today) (0 ∷ 0 ∷ [])))
    × (find_cache 1 (handle_message decoders counted trade_bytes).cached ≡ none)
unfolding send_frame
handle_message_own_example =
    handle_message_own decoders fresh any_frame trades_today 1 counted trade_bytes
      (response 1 0xc5 0x0f (0 ∷ 0 ∷ [])) (omega arith) meanwhile trade_bytes_read refl
