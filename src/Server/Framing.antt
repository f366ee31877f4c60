-- ===== src/Server/Framing.antt =====
-- `readFrame` and `writeFrame`. A reader is the list of the bytes that it will still give, and a
-- writer adds to a list. `max` is not negative.
use tdx.Base.{
  ℕ, zero, suc, ◌+◌, ◌*◌, ◌/◌, ◌%◌, ◌^◌, ltb, ◌==◌, ◌||◌, if◌then◌else◌, List, [], ◌∷◌, ◌++◌,
  length, get_or,
}
use tdx.Base.Outcome.{Outcome, ok, err, ◌>>=◌, bad_frame}
use tdx.Base.Text.{Bytes}
use tdx.Wire.Stream.{read_full}

abbrev pub default_max_frame : ℕ
default_max_frame = 16 * 2 ^ 20

-- `binary.BigEndian.Uint32` and `PutUint32`.
abbrev pub frame_size : Bytes → ℕ
frame_size bs =
    get_or bs 0 0 * 2 ^ 24 + get_or bs 1 0 * 2 ^ 16 + get_or bs 2 0 * 2 ^ 8 + get_or bs 3 0

abbrev pub size_bytes : ℕ → Bytes
size_bytes n = n / 2 ^ 24 % 256 ∷ n / 2 ^ 16 % 256 ∷ n / 2 ^ 8 % 256 ∷ n % 256 ∷ []

unfoldable pub read_frame : ℕ → Bytes → Outcome (Bytes × Bytes)
read_frame max r = do
  (header, rest) ← read_full 4 r
  let n = frame_size header
  if (n == 0) || ltb max n then err bad_frame else read_full n rest

-- `marshaled` is the outcome of `json.Marshal` of the message.
unfoldable pub write_frame : Bytes → Outcome Bytes → ℕ → Outcome Bytes
write_frame w marshaled max = marshaled >>= λ b.
    if (length b == 0) || ltb max (length b)
    then err bad_frame
    else ok (w ++ (size_bytes (length b % 2 ^ 32) ++ b))

-- Messages that are written one after another, and as many frames that are read.
unfoldable pub write_frames : Bytes → List Bytes → ℕ → Outcome Bytes
write_frames w [] max = ok w
write_frames w (b ∷ bs) max = write_frame w (ok b) max >>= λ more. write_frames more bs max

unfoldable pub read_frames : ℕ → ℕ → Bytes → Outcome (List Bytes × Bytes)
read_frames max zero r = ok ([], r)
read_frames max (suc n) r =
    read_frame max r >>= λ f. read_frames max n f.1 >>= λ fs. ok (f.0 ∷ fs.0, fs.1)
