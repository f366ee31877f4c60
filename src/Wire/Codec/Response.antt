-- ===== src/Wire/Codec/Response.antt =====
-- `Decode` on what a server sends: the wire form of a response, written independently of the code.
use tdx.Base.{ℕ, zero, suc, ◌/◌, ◌%◌, ◌^◌, ◌≤◌, ◌<◌, ◌≡◌, ◌≢◌, refl, arith}
use tdx.Base.{
  [], ◌∷◌, length, ◌==◌, Bool-cases, inl, inr, get_or, drop, take, All, length-drop, ◌∙◌,
}
use tdx.Base.Outcome.{Outcome, ok, err, short_data, bad_zip_length}
use tdx.Base.Text.{Bytes, IsByte}
use tdx.Wire.Endian.{Conv, IsBigEndian, uint16_lem, uint32_lem, uint16}
use tdx.Wire.Frame.{Response, response_header, decode_response}
use tdx.Wire.Codec.Reader.{IsPacket}

-- The 16 bytes of the header, then the data as they are sent.
abbrev pub response_wire : Response → Bytes → Bytes
response_wire r sent =
    r.prefix % 256
    ∷ r.prefix / 2 ^ 8 % 256
    ∷ r.prefix / 2 ^ 16 % 256
    ∷ r.prefix / 2 ^ 24
    ∷ r.control
    ∷ r.msg_id % 256
    ∷ r.msg_id / 2 ^ 8 % 256
    ∷ r.msg_id / 2 ^ 16 % 256
    ∷ r.msg_id / 2 ^ 24
    ∷ r.unknown
    ∷ r.kind % 256
    ∷ r.kind / 256
    ∷ r.zip_length % 256
    ∷ r.zip_length / 256
    ∷ r.length % 256
    ∷ r.length / 256
    ∷ sent

pub record IsSent (r : Response) (sent : Bytes) : Type 0 where
  pub prefix_fits : r.prefix < 2 ^ 32
  pub msg_id_fits : r.msg_id < 2 ^ 32
  pub kind_fits : r.kind < 2 ^ 16
  pub zip_fits : r.zip_length < 2 ^ 16
  pub length_fits : r.length < 2 ^ 16
  pub zip_is : r.zip_length ≡ length sent
  pub length_is : r.length ≡ length r.body

module _ (c : Conv) (big : IsBigEndian c) where
  pub response_header-wire :
      (r : Response) (sent : Bytes)
      → IsSent r sent
      → response_header c (response_wire r sent) ≡ record r { body = sent }
  unfolding response_header
  response_header-wire r sent s = ground (
    arith,
    uint32_lem c big (r.prefix % 256) (r.prefix / 2 ^ 8 % 256) (r.prefix / 2 ^ 16 % 256)
        (r.prefix / 2 ^ 24),
    uint32_lem c big (r.msg_id % 256) (r.msg_id / 2 ^ 8 % 256) (r.msg_id / 2 ^ 16 % 256)
        (r.msg_id / 2 ^ 24),
    uint16_lem c big (r.kind % 256) (r.kind / 256),
    uint16_lem c big (r.zip_length % 256) (r.zip_length / 256),
    uint16_lem c big (r.length % 256) (r.length / 256),
  )

  -- `Decode` returns the response that was sent: its data as they are when the two lengths agree,
  -- and else what `inflate` makes of them.
  pub decode_response-wire :
      (inflate : Bytes → Outcome Bytes) (r : Response) (sent : Bytes)
      → IsSent r sent
      → (r.zip_length ≡ r.length → sent ≡ r.body)
      → (r.zip_length ≢ r.length → inflate sent ≡ ok r.body)
      → decode_response c inflate (response_wire r sent) ≡ ok r
  unfolding decode_response
  decode_response-wire inflate r sent s stored zipped =
      rw (response_header-wire r sent s) (elim (Bool-cases (r.zip_length == r.length)) [
        | inl same ↦ rw same (ground (arith, stored (ground arith)))
        | inr differ ↦ rw (differ, zipped (ground arith)) (ground arith)
      ])

take_two :
    (p : Bytes) (i : ℕ)
    → suc (suc i) ≤ length p
    → take 2 (drop i p) ≡ get_or p i 0 ∷ get_or p (suc i) 0 ∷ []
take_two [] i h = absurd (omega arith)
take_two (x ∷ []) i h = absurd (omega arith)
take_two (x ∷ y ∷ p) zero h = refl
take_two (x ∷ y ∷ p) (suc i) h = take_two (y ∷ p) i (omega arith)

get_or-IsByte : (p : Bytes) (i : ℕ) → All IsByte p → IsByte (get_or p i 0)
get_or-IsByte [] i h = omega arith
get_or-IsByte (x ∷ p) zero h = h.0
get_or-IsByte (x ∷ p) (suc i) h = get_or-IsByte p i h.1

-- On a whole packet, as `ReadFrom` returns it, `Decode` never reports that data are missing or that
-- the announced length is wrong, unless zlib's reader gives such an error itself.
pub decode_response-IsPacket :
    (c : Conv) (inflate : Bytes → Outcome Bytes) (p : Bytes)
    → IsBigEndian c
    → All IsByte p
    → IsPacket c p
    → ((z : Bytes) → (inflate z ≢ err short_data) × (inflate z ≢ err bad_zip_length))
    → (decode_response c inflate p ≢ err short_data)
      × (decode_response c inflate p ≢ err bad_zip_length)
unfolding decode_response response_header
decode_response-IsPacket c inflate p big bytes k clean =
    let two = take_two p 12 (omega (arith, k.has_length)) in
    let u =
      uint16_lem c big (get_or p 12 0) (get_or p 13 0) (get_or-IsByte p 12 bytes)
        (get_or-IsByte p 13 bytes) in
    let b12 = get_or-IsByte p 12 bytes in
    let b13 = get_or-IsByte p 13 bytes in
    let l = length-drop 16 p in
    let zip : uint16 c (take 2 (drop 12 p)) ≡ length (drop 16 p) =
      rw two (u ∙ omega (arith, k.has_length)) in
    let c1 = clean (drop 16 p) in (ground (arith, k.has_length), ground (arith, k.has_length))
