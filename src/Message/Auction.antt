-- ===== src/Message/Auction.antt =====
-- `callAuction.Frame` and `callAuction.Decode`. The time of an entry is its hour, minute and second
-- in the current day; its price is the float32 of the bits, times 1000.
use tdx.Base.{
  ℕ, zero, suc, ◌-◌, ◌/◌, ◌%◌, ◌^◌, ◌<◌, ◌≡◌, refl, arith, Bool, true, false, inl, inr,
  if◌then◌else◌, ltb, List, [], ◌∷◌, ◌++◌, length, take, drop, get_or, map, All, Bool-cases,
}
use tdx.Base.Int.{
  ℤ, pos, negsuc, signed, ltb_ℤ, sub64, wrap64_self, ◌-ℤ◌, -ℤ_parts, parts_apart, eq_of_parts,
}
use tdx.Base.Outcome.{Outcome, ok, err, panic, ◌>>=◌, short_data}
use tdx.Base.Text.{Bytes}
use tdx.Wire.Endian.{
  Conv, IsBigEndian, uint16, uint32, le_bytes16, le_bytes32, le_bytes16_lem, le_bytes32_lem,
  uint16-le_bytes16, uint32-le_bytes32,
}
use tdx.Wire.Frame.{Frame, control01}
use tdx.Market.Decode.{decode_code}

pub record CallAuction : Type 0 where
  pub hour : ℕ
  pub minute : ℕ
  pub second : ℕ
  pub price_bits : ℕ
  pub matched : ℕ
  pub unmatched : ℤ
  pub flag : ℤ

unfoldable pub auction_frame : Bytes → Outcome Frame
auction_frame code = decode_code code >>= λ r. ok (record {
  prefix = 0;
  msg_id = 0;
  control = control01;
  kind = 0x056a;
  body =
      r.0
      ∷ 0
      ∷ (r.1
          ++ (0 ∷ 0 ∷ 0 ∷ 0 ∷ 3 ∷ 0 ∷ 0 ∷ 0 ∷ 0 ∷ 0 ∷ 0 ∷ 0 ∷ 0 ∷ 0 ∷ 0 ∷ 0 ∷ 0xf4 ∷ 1 ∷ 0 ∷ 0
              ∷ []));
})

-- A negative number that waits is one of sellers.
unfoldable pub with_flag : ℤ → CallAuction → CallAuction
with_flag u a =
    if ltb_ℤ u (pos 0)
    then record a { unmatched = sub64 (pos 0) u; flag = negsuc 0 }
    else record a { unmatched = u; flag = pos 1 }

module _ (c : Conv) where
  -- One entry of 16 bytes.
  unfoldable pub auction_entry : Bytes → CallAuction
  auction_entry bs =
      let n = uint16 c (take 2 bs) in
      with_flag (signed (2 ^ 32) (uint32 c (take 4 (drop 10 bs)))) (record {
        hour = n / 60;
        minute = n % 60;
        second = get_or bs 15 0;
        price_bits = uint32 c (take 4 (drop 2 bs));
        matched = uint32 c (take 4 (drop 6 bs));
        unmatched = pos 0;
        flag = pos 1;
      })

  unfoldable pub auction_loop : ℕ → Bytes → Outcome (List CallAuction)
  unfolding auction_entry
  auction_loop zero bs = ok []
  auction_loop (suc i) bs =
      let rest = auction_loop i (drop 16 bs) in
      if ltb (length bs) 16 then panic else (rest >>= λ xs. ok (auction_entry bs ∷ xs))

  unfoldable pub auction_decode : Bytes → Outcome (ℕ × List CallAuction)
  unfolding auction_loop
  auction_decode bs =
      let count = uint16 c (take 2 bs) in
      if ltb (length bs) 2
      then err short_data
      else (auction_loop count (drop 2 bs) >>= λ xs. ok (count, xs))

-- An entry on the wire: buyers or sellers wait for `waiting`, and `unknown` is a byte of no use.
pub record Entry : Type 0 where
  pub minutes : ℕ
  pub second : ℕ
  pub price : ℕ
  pub matched : ℕ
  pub sellers : Bool
  pub waiting : ℕ
  pub unknown : ℕ

pub record IsEntry (e : Entry) : Type 0 where
  pub minutes_fit : e.minutes < 2 ^ 16
  pub price_fits : e.price < 2 ^ 32
  pub matched_fits : e.matched < 2 ^ 32
  pub waiting_fits : e.waiting < 2 ^ 31
  pub sellers_wait : e.sellers ≡ true → 0 < e.waiting

-- The two's complement of what waits.
abbrev pub unmatched_bits : Entry → ℕ
unmatched_bits e = if e.sellers then 2 ^ 32 - e.waiting else e.waiting

abbrev pub entry_meaning : Entry → CallAuction
entry_meaning e = record {
  hour = e.minutes / 60;
  minute = e.minutes % 60;
  second = e.second;
  price_bits = e.price;
  matched = e.matched;
  unmatched = pos e.waiting;
  flag = if e.sellers then negsuc 0 else pos 1;
}

-- An entry before its flag is set.
abbrev blank : Entry → CallAuction
blank e = record (entry_meaning e) { unmatched = pos 0; flag = pos 1 }

not_short : (n : ℕ) → ltb (suc (suc n)) 2 ≡ false
not_short n = ground arith

long_lem :
    (n : ℕ)
    → ltb
        (suc (
          suc
            (suc (suc (suc (suc (suc (suc (suc (suc (suc (suc (suc (suc (suc (suc n))))))))))))))))
        16
      ≡ false
long_lem n = ground arith

bits_small : (e : Entry) → IsEntry e → unmatched_bits e < 2 ^ 32
bits_small e good = elim (Bool-cases e.sellers) [
  | inl sells ↦ let h = good.sellers_wait sells in rw sells (omega arith)
  | inr buys ↦ rw buys (omega (arith, good.waiting_fits))
]

with_flag_lem :
    (e : Entry) (a : CallAuction)
    → IsEntry e
    → with_flag (signed (2 ^ 32) (unmatched_bits e)) a
      ≡ record a { unmatched = pos e.waiting; flag = if e.sellers then negsuc 0 else pos 1 }
unfolding with_flag
with_flag_lem e a good = elim (Bool-cases e.sellers) [
  | inl sells ↦
      let some = good.sellers_wait sells in
      let w = good.waiting_fits in
      let s : signed (2 ^ 32) (2 ^ 32 - e.waiting) ≡ negsuc (e.waiting - 1) = ground arith in
      let below : ltb_ℤ (negsuc (e.waiting - 1)) (pos 0) ≡ true = ground arith in
      let parts = -ℤ_parts (pos 0) (negsuc (e.waiting - 1)) in
      let apart = parts_apart (pos 0 -ℤ negsuc (e.waiting - 1)) in
      let flip : pos 0 -ℤ negsuc (e.waiting - 1) ≡ pos e.waiting =
        eq_of_parts (pos 0 -ℤ negsuc (e.waiting - 1)) (pos e.waiting) (omega arith) in
      rw (sells, s, below, wrap64_self (pos 0 -ℤ negsuc (e.waiting - 1)) (omega arith), flip) refl
  | inr buys ↦
      let w = good.waiting_fits in
      let s : signed (2 ^ 32) e.waiting ≡ pos e.waiting = ground arith in
      let above : ltb_ℤ (pos e.waiting) (pos 0) ≡ false = ground arith in rw (buys, s, above) refl
]

module _ (c : Conv) (big : IsBigEndian c) where
  abbrev pub entries_wire : List Entry → Bytes → Bytes
  entries_wire [] rest = rest
  entries_wire (e ∷ es) rest =
      le_bytes16 c e.minutes
      ++ (le_bytes32 c e.price
          ++ (le_bytes32 c e.matched
              ++ (le_bytes32 c (unmatched_bits e)
                  ++ (e.unknown ∷ e.second ∷ entries_wire es rest))))

  two : (n : ℕ) → n < 2 ^ 16 → uint16 c (n % 256 ∷ n / 256 ∷ []) ≡ n
  two n h = let e = uint16-le_bytes16 c big n h in rw (le_bytes16_lem c big n h) at e

  four :
      (n : ℕ)
      → n < 2 ^ 32
      → uint32 c (n % 256 ∷ n / 2 ^ 8 % 256 ∷ n / 2 ^ 16 % 256 ∷ n / 2 ^ 24 ∷ []) ≡ n
  four n h = let e = uint32-le_bytes32 c big n h in rw (le_bytes32_lem c big n h) at e

  auction_loop-entries_wire :
      (es : List Entry) (rest : Bytes)
      → All IsEntry es
      → auction_loop c (length es) (entries_wire es rest) ≡ ok (map entry_meaning es)
  unfolding auction_loop auction_entry
  auction_loop-entries_wire [] rest good = refl
  auction_loop-entries_wire (e ∷ es) rest (g, good) =
      let bits = bits_small e g in
      rw
        (
          le_bytes16_lem c big e.minutes g.minutes_fit,
          le_bytes32_lem c big e.price g.price_fits,
          le_bytes32_lem c big e.matched g.matched_fits,
          le_bytes32_lem c big (unmatched_bits e) bits,
          two e.minutes g.minutes_fit,
          four e.price g.price_fits,
          four e.matched g.matched_fits,
          four (unmatched_bits e) bits,
          long_lem (length (entries_wire es rest)),
          with_flag_lem e (blank e) g,
          auction_loop-entries_wire es rest good,
        )
        refl

  -- Given the documented byte order of the conversions, Decode reads back every list of up to 65535
  -- entries from its wire form, what waits in four bytes of two's complement: the amount without
  -- its sign, and the flag 1 for buyers and -1 for sellers.
  pub auction_decode-entries_wire :
      (es : List Entry) (rest : Bytes)
      → length es < 2 ^ 16
      → All IsEntry es
      → auction_decode c (le_bytes16 c (length es) ++ entries_wire es rest)
        ≡ ok (length es, map entry_meaning es)
  unfolding auction_decode
  auction_decode-entries_wire es rest fits good =
      rw
        (
          le_bytes16_lem c big (length es) fits,
          two (length es) fits,
          not_short (length (entries_wire es rest)),
          auction_loop-entries_wire es rest good,
        )
        refl
