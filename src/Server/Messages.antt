-- ===== src/Server/Messages.antt =====
-- Messages that are written as frames are read back, one by one.
use tdx.Base.{
  ℕ, suc, ◌%◌, ◌^◌, ◌<◌, ◌≤◌, ◌≡◌, refl, sym, ap, ◌∙◌, ltb, ltb-below, ◌==◌, ◌||◌, false, List, [],
  ◌∷◌, ◌++◌, length, All, arith, append_assoc, append-nil, length-append, take-append_self,
  drop-append_self,
}
use tdx.Base.Outcome.{ok}
use tdx.Base.Text.{Bytes}
use tdx.Wire.Stream.{read_full}
use tdx.Server.Framing.{frame_size, size_bytes, read_frame, write_frame, write_frames, read_frames}

abbrev pub Fits : ℕ → Bytes → Type 0
Fits max b = (0 < length b) × (length b ≤ max)

abbrev frame_of : Bytes → Bytes
frame_of b = size_bytes (length b) ++ b

abbrev frames_of : List Bytes → Bytes
frames_of [] = []
frames_of (b ∷ bs) = frame_of b ++ frames_of bs

size_exact : (n : ℕ) → n < 2 ^ 32 → frame_size (size_bytes n) ≡ n
size_exact n h = omega arith

in_bounds : (n max : ℕ) → 0 < n → n ≤ max → ((n == 0) || ltb max n) ≡ false
in_bounds n max h k = ground arith

read_full-append : (b rest : Bytes) → read_full (length b) (b ++ rest) ≡ ok (b, rest)
read_full-append b rest =
    rw
      (
        ltb-below (length (b ++ rest)) (length b) (omega (arith, length-append b rest)),
        take-append_self b rest,
        drop-append_self b rest,
      )
      refl

module _ (max : ℕ) (small : max < 2 ^ 32) where
  read_frame-frame_of :
      (b rest : Bytes) → Fits max b → read_frame max (frame_of b ++ rest) ≡ ok (b, rest)
  unfolding read_frame
  read_frame-frame_of b rest h =
      let header : read_full 4 (frame_of b ++ rest) ≡ ok (size_bytes (length b), b ++ rest) =
        read_full-append (size_bytes (length b)) (b ++ rest) in
      rw
        (
          read_frame,
          header,
          size_exact (length b) (omega arith),
          in_bounds (length b) max h.0 h.1,
          read_full-append b rest,
        )
        refl

  write_frame-frame_of :
      (w b : Bytes) → Fits max b → write_frame w (ok b) max ≡ ok (w ++ frame_of b)
  unfolding write_frame
  write_frame-frame_of w b h =
      let whole : length b % 2 ^ 32 ≡ length b = omega arith in
      rw (write_frame, in_bounds (length b) max h.0 h.1, whole) refl

  write_frames-frames_of :
      (w : Bytes) (bs : List Bytes)
      → All (Fits max) bs
      → write_frames w bs max ≡ ok (w ++ frames_of bs)
  unfolding write_frames
  write_frames-frames_of w [] h = ap (λ t. ok t) (sym (append-nil w))
  write_frames-frames_of w (b ∷ bs) h = rw (write_frame-frame_of w b h.0) (
      write_frames-frames_of (w ++ frame_of b) bs h.1
      ∙ ap (λ t. ok t) (append_assoc w (frame_of b) (frames_of bs)))

  read_frames-frames_of :
      (bs : List Bytes) (rest : Bytes)
      → All (Fits max) bs
      → read_frames max (length bs) (frames_of bs ++ rest) ≡ ok (bs, rest)
  unfolding read_frames
  read_frames-frames_of [] rest h = refl
  read_frames-frames_of (b ∷ bs) rest h =
      ap (read_frames max (suc (length bs))) (append_assoc (frame_of b) (frames_of bs) rest)
      ∙ rw
          (
            read_frames,
            read_frame-frame_of b (frames_of bs ++ rest) h.0,
            read_frames-frames_of bs rest h.1,
          )
          refl

  -- With a limit below 2 ^ 32 and messages of at least one byte that keep to it: `writeFrame` takes
  -- them all, and from the stream that it wrote, with anything behind, `readFrame` gives them back
  -- one by one, in order and whole, and leaves what stood behind.
  pub read_frames-write_frames :
      (bs : List Bytes) (rest : Bytes)
      → All (Fits max) bs
      → (stream : Bytes) × (write_frames [] bs max ≡ ok stream)
        × (read_frames max (length bs) (stream ++ rest) ≡ ok (bs, rest))
  read_frames-write_frames bs rest h =
      (frames_of bs, write_frames-frames_of [] bs h, read_frames-frames_of bs rest h)
