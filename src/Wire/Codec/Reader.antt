-- ===== src/Wire/Codec/Reader.antt =====
-- `ReadFrom` against the packets of the stream: which bytes it skips, and what it returns.
use tdx.Base.{ℕ, zero, suc, ◌+◌, ◌*◌, ◌≤◌, ◌<◌, ◌≡◌, ◌≢◌, refl, sym, ap, ◌∙◌, arith, subst}
use tdx.Base.{
  List, [], ◌∷◌, ◌++◌, length, length-append, length-take, length-drop, take-append-drop,
}
use tdx.Base.{◌==◌, ==_iff, Bool-cases, inl, inr, get_or, drop, take, All, append_assoc}
use tdx.Base.{take-append_self, drop-append_self}
use tdx.Base.Outcome.{Outcome, ok, >>=-eq_ok}
use tdx.Base.Text.{Bytes}
use native.Mathlib.Numerals.{add-one}
use tdx.Wire.Endian.{Conv}
use tdx.Wire.Frame.{prefix_resp}
use tdx.Wire.Stream.{read_full, length_field, read_rest, read_from_loop, read_from}

-- A packet: the prefix of a response, and as many bytes as its header announces.
pub record IsPacket (c : Conv) (p : Bytes) : Type 0 where
  pub has_prefix : c.uint32 (take 4 p) ≡ prefix_resp
  pub has_length : length p ≡ length_field p + 16

read_full_ok :
    (n : ℕ) (s : Bytes) {p rest : Bytes}
    → read_full n s ≡ ok (p, rest)
    → (length p ≡ n) × (p ++ rest ≡ s) × (p ≡ take n s)
read_full_ok n s h = ground (arith, length-take n s, take-append-drop n s)

read_full-append : (p rest : Bytes) (n : ℕ) → length p ≡ n → read_full n (p ++ rest) ≡ ok (p, rest)
read_full-append p rest n h =
    rw (← h)
      (ground (arith, length-append p rest, take-append_self p rest, drop-append_self p rest))

get_or-append : (xs ys : Bytes) (i : ℕ) → i < length xs → get_or (xs ++ ys) i 0 ≡ get_or xs i 0
get_or-append [] ys i h = absurd (omega arith)
get_or-append (x ∷ xs) ys zero h = refl
get_or-append (x ∷ xs) ys (suc i) h = get_or-append xs ys i (omega arith)

length_field-append : (xs ys : Bytes) → length xs ≡ 16 → length_field (xs ++ ys) ≡ length_field xs
length_field-append xs ys h =
    rw (get_or-append xs ys 12 (omega arith), get_or-append xs ys 13 (omega arith))

-- A packet put together from what the three reads give.
module _ (prefix header payload : Bytes) (four : length prefix ≡ 4) (twelve : length header ≡ 12)
    (announced : length payload ≡ length_field (prefix ++ header)) where
  take-packet : take 4 ((prefix ++ header) ++ payload) ≡ prefix
  take-packet = rw (append_assoc, ← four) (take-append_self prefix (header ++ payload))

  length-packet :
      length ((prefix ++ header) ++ payload) ≡ length_field ((prefix ++ header) ++ payload) + 16
  length-packet = omega (
    arith,
    length-append (prefix ++ header) payload,
    length-append prefix header,
    length_field-append (prefix ++ header) payload (omega (arith, length-append prefix header)),
  )

  read_rest-append :
      (rest : Bytes)
      → read_rest prefix (header ++ (payload ++ rest)) ≡ ok ((prefix ++ header) ++ payload, rest)
  unfolding read_rest
  read_rest-append rest = rw (
    read_full-append header (payload ++ rest) 12 twelve,
    read_full-append payload rest (length_field (prefix ++ header)) announced,
  )

  packet_split :
      (s s1 s2 : Bytes)
      → header ++ s1 ≡ s
      → payload ++ s2 ≡ s1
      → ((prefix ++ header) ++ payload) ++ s2 ≡ prefix ++ s
  packet_split s s1 s2 h k = simp append_assoc (rw (k, h))

  packet_done :
      (s s1 s2 p rest : Bytes)
      → header ++ s1 ≡ s
      → payload ++ s2 ≡ s1
      → ◌≡◌ {A = Outcome (Bytes × Bytes)} (ok ((prefix ++ header) ++ payload, s2)) (ok (p, rest))
      → (p ++ rest ≡ prefix ++ s) × (take 4 p ≡ prefix) × (length p ≡ length_field p + 16)
  packet_done s s1 s2 p rest h k e =
      let pe : p ≡ (prefix ++ header) ++ payload = cc in
      let re : rest ≡ s2 = cc in rw (pe, re) (packet_split s s1 s2 h k, take-packet, length-packet)

-- The part of the loop behind a prefix that fits.
read_rest_ok :
    (prefix s p rest : Bytes)
    → length prefix ≡ 4
    → read_rest prefix s ≡ ok (p, rest)
    → (p ++ rest ≡ prefix ++ s) × (take 4 p ≡ prefix) × (length p ≡ length_field p + 16)
unfolding read_rest
read_rest_ok prefix s p rest h e =
    let (hd, eh, k1) = >>=-eq_ok (read_full 12 s) _ e in
    let (pl, ep, k2) = >>=-eq_ok (read_full (length_field (prefix ++ hd.0)) hd.1) _ k1 in
    let rh = read_full_ok 12 s eh in
    let rp = read_full_ok (length_field (prefix ++ hd.0)) hd.1 ep in
    packet_done prefix hd.0 pl.0 h rh.0 rp.0 s hd.1 pl.1 p rest rh.1 rp.1 k2

-- What `ReadFrom` returns, and what it has taken from the stream.
pub record ReadResult (c : Conv) (s p rest : Bytes) : Type 0 where
  pub skipped : Bytes
  pub rounds : ℕ
  pub splits : skipped ++ (p ++ rest) ≡ s
  pub aligned : length skipped ≡ 4 * rounds
  pub packet : IsPacket c p

module _ (c : Conv) where
  ReadResult-here :
      (prefix more s p rest : Bytes)
      → length prefix ≡ 4
      → prefix ++ more ≡ s
      → c.uint32 prefix ≡ prefix_resp
      → read_rest prefix more ≡ ok (p, rest)
      → ReadResult c s p rest
  ReadResult-here prefix more s p rest h joined same e =
      let (join, tk, len) = read_rest_ok prefix more p rest h e in
      record {
        skipped = [];
        rounds = 0;
        splits = join ∙ joined;
        aligned = refl;
        packet = record { has_prefix = rw tk same; has_length = len };
      }

  ReadResult-later :
      (prefix more s p rest : Bytes)
      → length prefix ≡ 4
      → prefix ++ more ≡ s
      → ReadResult c more p rest
      → ReadResult c s p rest
  ReadResult-later prefix more s p rest h joined r = record {
    skipped = prefix ++ r.skipped;
    rounds = suc r.rounds;
    splits = append_assoc prefix r.skipped (p ++ rest) ∙ ap (◌++◌ prefix) r.splits ∙ joined;
    aligned = omega (arith, length-append prefix r.skipped, r.aligned);
    packet = r.packet;
  }

  read_from_loop_ok :
      (fuel : ℕ) (s p rest : Bytes) → read_from_loop c fuel s ≡ ok (p, rest) → ReadResult c s p rest
  unfolding read_from_loop
  read_from_loop_ok zero s p rest e = cc
  read_from_loop_ok (suc fuel) s p rest e =
      let (w, ew, k) = >>=-eq_ok (read_full 4 s) _ e in
      let r4 = read_full_ok 4 s ew in
      elim (Bool-cases (c.uint32 w.0 == prefix_resp)) [
        | inl same ↦ ReadResult-here w.0 w.1 s p rest r4.0 r4.1 ((==_iff _ _).0 same) (rw same at k)
        | inr other ↦
            ReadResult-later w.0 w.1 s p rest r4.0 r4.1
              (read_from_loop_ok fuel w.1 p rest (rw other at k))
      ]

  read_from_loop-append :
      (fuel : ℕ) (w s : Bytes)
      → length w ≡ 4
      → c.uint32 w ≢ prefix_resp
      → read_from_loop c (suc fuel) (w ++ s) ≡ read_from_loop c fuel s
  unfolding read_from_loop
  read_from_loop-append fuel w s h ne = rw (read_full-append w s 4 h) (ground arith)

  read_from_loop-parts :
      (fuel : ℕ) (w header payload rest : Bytes)
      → length w ≡ 4
      → length header ≡ 12
      → length payload ≡ length_field (w ++ header)
      → c.uint32 w ≡ prefix_resp
      → read_from_loop c (suc fuel) (((w ++ header) ++ payload) ++ rest)
        ≡ ok ((w ++ header) ++ payload, rest)
  unfolding read_from_loop
  read_from_loop-parts fuel w header payload rest four twelve announced same =
      rw
        (
          append_assoc (w ++ header) payload rest,
          append_assoc w header (payload ++ rest),
          read_full-append w (header ++ (payload ++ rest)) 4 four,
          (==_iff (c.uint32 w) prefix_resp).1 same,
        )
        (read_rest-append w header payload four twelve announced rest)

  -- A packet at the front is returned whole, and the stream is left behind it.
  read_from_loop-packet :
      (fuel : ℕ) (p rest : Bytes)
      → IsPacket c p
      → read_from_loop c (suc fuel) (p ++ rest) ≡ ok (p, rest)
  read_from_loop-packet fuel p rest k =
      let w : Bytes = take 4 p in
      let header : Bytes = take 12 (drop 4 p) in
      let payload : Bytes = drop 12 (drop 4 p) in
      let l4 = length-take 4 p in
      let l12 = length-take 12 (drop 4 p) in
      let d4 = length-drop 4 p in
      let d12 = length-drop 12 (drop 4 p) in
      let whole : (w ++ header) ++ payload ≡ p =
        append_assoc w header payload
        ∙ ap (◌++◌ w) (take-append-drop 12 (drop 4 p))
        ∙ take-append-drop 4 p in
      let field : length_field p ≡ length_field (w ++ header) =
        ap length_field (sym whole)
        ∙ length_field-append (w ++ header) payload
            (omega (arith, length-append w header, k.has_length)) in
      subst (λ (q : Bytes). read_from_loop c (suc fuel) (q ++ rest) ≡ ok (q, rest)) whole
        (read_from_loop-parts fuel w header payload rest (omega (arith, k.has_length))
          (omega (arith, k.has_length)) (omega (arith, k.has_length)) k.has_prefix)

  -- Words of four bytes that are no prefix of a response.
  abbrev pub IsNoise : Bytes → Type 0
  IsNoise w = (length w ≡ 4) × (c.uint32 w ≢ prefix_resp)

  abbrev pub noise : List Bytes → Bytes → Bytes
  noise [] s = s
  noise (w ∷ ws) s = w ++ noise ws s

  length-noise : (ws : List Bytes) (s : Bytes) → length s ≤ length (noise ws s)
  length-noise [] s = omega arith
  length-noise (w ∷ ws) s = omega (arith, length-noise ws s, length-append w (noise ws s))

  read_from_loop-noise :
      (ws : List Bytes) (fuel : ℕ) (p rest : Bytes)
      → All IsNoise ws
      → IsPacket c p
      → length (noise ws (p ++ rest)) ≤ fuel
      → read_from_loop c (suc fuel) (noise ws (p ++ rest)) ≡ ok (p, rest)
  read_from_loop-noise [] fuel p rest h k enough = read_from_loop-packet fuel p rest k
  read_from_loop-noise (w ∷ ws) zero p rest h k enough =
      absurd (omega (arith, h.0.0, length-append w (noise ws (p ++ rest))))
  read_from_loop-noise (w ∷ ws) (suc fuel) p rest h k enough =
      read_from_loop-append (suc fuel) w (noise ws (p ++ rest)) h.0.0 h.0.1
      ∙ read_from_loop-noise ws fuel p rest h.1 k
          (omega (arith, h.0.0, length-append w (noise ws (p ++ rest))))

  -- `ReadFrom` skips any number of aligned words that are no prefix, returns the packet that
  -- follows them whole, and leaves the reader right behind it.
  pub read_from-noise :
      (ws : List Bytes) (p rest : Bytes)
      → All IsNoise ws
      → IsPacket c p
      → read_from c (noise ws (p ++ rest)) ≡ ok (p, rest)
  unfolding read_from
  read_from-noise ws p rest h k =
      rw add-one (read_from_loop-noise ws (length (noise ws (p ++ rest))) p rest h k (omega arith))

  -- Whatever `ReadFrom` returns is a packet of the stream: it stands behind a whole number of
  -- words of four bytes, and what the reader still holds follows it.
  pub read_from_ok : (s p rest : Bytes) → read_from c s ≡ ok (p, rest) → ReadResult c s p rest
  unfolding read_from
  read_from_ok s p rest e = read_from_loop_ok (length s + 1) s p rest e
