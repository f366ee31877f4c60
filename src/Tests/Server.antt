-- ===== src/Tests/Server.antt =====
-- Runs of the framing of the server over TCP.
use Prim.{tt}
use tdx.Base.{◌≡◌, refl, arith, List, [], ◌∷◌, ◌++◌}
use tdx.Base.Outcome.{ok, err, bad_frame}
use tdx.Base.Text.{Bytes, text}
use tdx.Server.Framing.{default_max_frame, read_frame, write_frame, write_frames, read_frames}
use tdx.Server.Messages.{read_frames-write_frames}

abbrev requests : List Bytes
requests = text "{\"id\":\"1\"}" ∷ text "{}" ∷ []

read_frames-write_frames_example :
    (stream : Bytes) × (write_frames [] requests default_max_frame ≡ ok stream)
    × (read_frames default_max_frame 2 (stream ++ 9 ∷ []) ≡ ok (requests, 9 ∷ []))
read_frames-write_frames_example =
    read_frames-write_frames default_max_frame (omega arith) requests (9 ∷ [])
      ((omega arith, omega arith), ((omega arith, omega arith), tt))

-- A message above the limit is not written, and a frame above it is not read.
too_long : write_frame [] (ok (text "ping")) 3 ≡ err bad_frame
unfolding write_frame
too_long = refl

too_long_read : read_frame 2 (0 ∷ 0 ∷ 0 ∷ 3 ∷ 1 ∷ 2 ∷ 3 ∷ []) ≡ err bad_frame
unfolding read_frame
too_long_read = refl
