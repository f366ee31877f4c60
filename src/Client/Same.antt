-- ===== src/Client/Same.antt =====
-- The two ways of downloading a file: by chunks until a short one, and by chunks up to its size.
use tdx.Base.{
  ℕ, zero, suc, ◌+◌, ◌-◌, ◌*◌, ◌%◌, ◌^◌, ◌≤◌, ◌<◌, ◌≡◌, refl, sym, ap, ◌∙◌, [], ◌∷◌, ◌++◌, length,
  take, drop, Option, some, min, arith, append-nil, append_assoc, length-append, length-take,
  length-drop, take-append-drop, take_all,
}
use native.Mathlib.Decide.{dec_lt}
use tdx.Base.Outcome.{Outcome, ok}
use tdx.Base.Text.{Bytes}
use tdx.Client.Files.{chunk_size, report_loop, get_report_file, block_loop, get_block_file_raw}
use tdx.Client.Download.{ServesFile, block_loop_done, block_loop_next}

module _ (chunk : ℕ → ℕ → Outcome (Option Bytes)) where
  module _ (fuel start : ℕ) (buf got : Bytes) (e : chunk start chunk_size ≡ ok (some got)) where
    report_loop_empty : length got ≡ 0 → report_loop chunk (suc fuel) start buf ≡ some (ok buf)
    unfolding report_loop
    report_loop_empty h = rw (report_loop, e) (ground arith)

    report_loop_last :
        0 < length got
        → length got < chunk_size
        → report_loop chunk (suc fuel) start buf ≡ some (ok (buf ++ got))
    unfolding report_loop
    report_loop_last h k = rw (report_loop, e) (ground arith)

    report_loop_next :
        length got ≡ chunk_size
        → report_loop chunk (suc fuel) start buf
          ≡ report_loop chunk fuel ((start + length got) % 2 ^ 32) (buf ++ got)
    unfolding report_loop
    report_loop_next h = rw (report_loop, e) (ground arith)

module _ (chunk : ℕ → ℕ → Outcome (Option Bytes)) (file : Bytes)
    (serves : ServesFile chunk file) where
  report_loop_lem :
      (fuel : ℕ) (front rest : Bytes)
      → file ≡ front ++ rest
      → length file < 2 ^ 32
      → length rest < fuel * chunk_size
      → report_loop chunk fuel (length front) front ≡ some (ok file)
  report_loop_lem zero front rest e small h = absurd (omega arith)
  report_loop_lem (suc fuel) front [] e small h =
      report_loop_empty chunk fuel (length front) front [] (serves front [] chunk_size e) refl
      ∙ ap (λ bs. some (ok bs)) (sym (e ∙ append-nil front))
  report_loop_lem (suc fuel) front (b ∷ bs) e small h =
      let rest = b ∷ bs in
      let got = take chunk_size rest in
      let answer = serves front rest chunk_size e in
      let one = length-take chunk_size rest in
      let both = ap length e ∙ length-append front rest in
      elim (dec_lt (length rest) chunk_size) [
        | yes short ↦
            report_loop_last chunk fuel (length front) front got answer (omega (arith, one))
              (omega (arith, one))
            ∙ ap (λ t. some (ok (front ++ t))) (take_all chunk_size rest (omega arith))
            ∙ ap (λ t. some (ok t)) (sym e)
        | no long ↦
            let moved : (length front + length got) % 2 ^ 32 ≡ length (front ++ got) =
              omega (arith, one, both, length-append front got) in
            report_loop_next chunk fuel (length front) front got answer (omega (arith, one))
            ∙ ap (λ n. report_loop chunk fuel n (front ++ got)) moved
            ∙ report_loop_lem fuel (front ++ got) (drop chunk_size rest)
                (e
                  ∙ ap (λ bs. front ++ bs) (sym (take-append-drop chunk_size rest))
                  ∙ sym (append_assoc front got (drop chunk_size rest)))
                small (omega (arith, length-drop chunk_size rest))
      ]

  block_loop_lem :
      (fuel : ℕ) (front rest : Bytes)
      → file ≡ front ++ rest
      → length file < 2 ^ 32
      → length rest ≤ fuel * chunk_size
      → block_loop chunk fuel (length file) (length front) front ≡ some (ok file)
  block_loop_lem zero front (b ∷ bs) e small h = absurd (omega arith)
  block_loop_lem fuel front [] e small h =
      block_loop_done chunk fuel (length file) (length front) front
        (omega (arith, ap length (e ∙ append-nil front)))
      ∙ ap (λ bs. some (ok bs)) (sym (e ∙ append-nil front))
  block_loop_lem (suc fuel) front (b ∷ bs) e small h =
      let rest = b ∷ bs in
      let both = ap length e ∙ length-append front rest in
      let asked = min chunk_size (length file - length front) in
      let got = take asked rest in
      let answer = serves front rest asked e in
      let one = length-take asked rest in
      let moved : (length front + length got) % 2 ^ 32 ≡ length (front ++ got) =
        omega (arith, one, both, length-append front got) in
      block_loop_next chunk fuel (length file) (length front) front (omega (arith, both)) (some got)
        answer (omega (arith, one, both))
      ∙ ap (λ n. block_loop chunk fuel (length file) n (front ++ got)) moved
      ∙ block_loop_lem fuel (front ++ got) (drop asked rest)
          (e
            ∙ ap (λ t. front ++ t) (sym (take-append-drop asked rest))
            ∙ sym (append_assoc front got (drop asked rest)))
          small (omega (arith, one, both, length-drop asked rest))

  -- For a file of at least one byte and fewer than 2 ^ 32, on a server that answers with the bytes
  -- that were asked for as far as the file has them, `GetReportFile`, which does not know the size,
  -- and `GetBlockFileRaw`, which does, both end and return the file.
  pub get_report_file-same :
      0 < length file
      → length file < 2 ^ 32
      → (fuel : ℕ) → length file < fuel * chunk_size
      → (get_report_file chunk fuel ≡ some (ok file))
        × (get_block_file_raw chunk (ok (some (length file))) fuel ≡ some (ok file))
  unfolding get_report_file get_block_file_raw
  get_report_file-same some_byte small fuel enough = (
    report_loop_lem fuel [] file refl small enough,
    let loop = block_loop_lem fuel [] file refl small (omega arith) in ground (arith, loop),
  )
