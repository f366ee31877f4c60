-- ===== src/Varint/Cut.antt =====
-- `getData`, `GetPrice`, `CutInt` and `CutInt64`. Prices, and ints on a 64-bit machine, are int64.
use tdx.Base.{ℕ, zero, suc, ◌+◌, ◌*◌, ◌%◌, ◌^◌, ◌==◌, ltb, if◌then◌else◌, bit_and}
use tdx.Base.{[], ◌∷◌, take, drop, Option, none, some}
use tdx.Base.Int.{ℤ, pos, ◌+ℤ◌, ◌-ℤ◌, wrap32}
use tdx.Base.Text.{Bytes}

-- What round `i` adds: six bits of the first byte, then seven bits a byte,
-- `int32(bs[i]&0x7F) << uint8(6+(i-1)*7)`.
unfoldable pub group : ℕ → ℕ → ℤ
group zero b = pos (bit_and b 0x3f)
group (suc j) b = wrap32 (pos (bit_and b 0x7f * 2 ^ ((6 + j * 7) % 256)))

-- The loop of `getData` from round `i` on; it breaks behind a byte with the top bit clear.
unfoldable pub get_data_loop : Bytes → ℕ → ℤ → ℤ
get_data_loop [] i acc = acc
get_data_loop (b ∷ bs) i acc =
    let acc' = wrap32 (acc +ℤ group i b) in
    let rest = get_data_loop bs (i + 1) acc' in if bit_and b 0x80 == 0 then acc' else rest

-- The second bit of the first byte is the sign.
unfoldable pub get_data : Bytes → ℤ
get_data [] = pos 0
get_data (b ∷ bs) =
    let value = get_data_loop (b ∷ bs) 0 (pos 0) in
    if ltb 0 (bit_and b 0x40) then wrap32 (pos 0 -ℤ value) else value

-- The first index whose byte has the top bit clear.
unfoldable pub end_index : Bytes → ℕ → Option ℕ
end_index [] i = none
end_index (b ∷ bs) i = if bit_and b 0x80 == 0 then some i else end_index bs (i + 1)

unfoldable pub cut_at : Option ℕ → Bytes → Bytes × ℤ
cut_at none bs = (bs, pos 0)
cut_at (some i) bs = (drop (i + 1) bs, get_data (take (i + 1) bs))

-- The three functions of the source differ in the type of the result only, and each of those types
-- holds every int32.
unfoldable pub get_price : Bytes → Bytes × ℤ
get_price bs = cut_at (end_index bs 0) bs

unfoldable pub cut_int : Bytes → Bytes × ℤ
cut_int bs = cut_at (end_index bs 0) bs

unfoldable pub cut_int64 : Bytes → Bytes × ℤ
cut_int64 bs = cut_at (end_index bs 0) bs
