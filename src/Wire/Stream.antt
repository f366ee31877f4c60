-- ===== src/Wire/Stream.antt =====
-- protocol/frame.go: `ReadFrom`. The reader is the list of the bytes that it will still give; a
-- short read by `io.ReadFull` is an error at the end of the input.
use tdx.Base.{ℕ, zero, suc, ◌+◌, ◌*◌, ◌%◌, ◌^◌, if◌then◌else◌, ltb, ◌==◌}
use tdx.Base.{◌++◌, length, take, drop, get_or}
use tdx.Base.Outcome.{Outcome, ok, err, ◌>>=◌, end_of_input}
use tdx.Base.Text.{Bytes}
use tdx.Wire.Endian.{Conv}
use tdx.Wire.Frame.{prefix_resp}

-- `io.ReadFull` of `n` bytes: those bytes and what the reader still holds.
abbrev pub read_full : ℕ → Bytes → Outcome (Bytes × Bytes)
read_full n s = if ltb (length s) n then err end_of_input else ok (take n s, drop n s)

-- `uint16(result[13])<<8 + uint16(result[12])`
abbrev pub length_field : Bytes → ℕ
length_field result = (get_or result 13 0 * 256 + get_or result 12 0) % 2 ^ 16

-- What follows a prefix that fits: 12 bytes more, and the number of bytes that those announce.
unfoldable pub read_rest : Bytes → Bytes → Outcome (Bytes × Bytes)
read_rest prefix s = do
  (header, s1) ← read_full 12 s
  let result = prefix ++ header
  (payload, s2) ← read_full (length_field result) s1
  ok (result ++ payload, s2)

module _ (c : Conv) where
  -- One round for each prefix of four bytes; the fuel bounds the rounds.
  unfoldable pub read_from_loop : ℕ → Bytes → Outcome (Bytes × Bytes)
  unfolding read_rest
  read_from_loop zero s = err end_of_input
  read_from_loop (suc fuel) s = do
    (prefix, rest) ← read_full 4 s
    let again = read_from_loop fuel rest
    if c.uint32 prefix == prefix_resp then read_rest prefix rest else again

  -- A round takes four bytes, so with `length s + 1` rounds the input ends before the fuel does.
  unfoldable pub read_from : Bytes → Outcome (Bytes × Bytes)
  unfolding read_from_loop
  read_from s = read_from_loop (length s + 1) s
