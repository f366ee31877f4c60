-- ===== src/Client/Download.antt =====
-- Client/Files.antt against a server that holds a file, and the end of its loops.
use tdx.Base.{
  ℕ, zero, suc, ◌+◌, ◌-◌, ◌%◌, ◌^◌, ◌≤◌, ◌<◌, ◌≡◌, refl, ◌∙◌, ltb, true, [], ◌++◌, length,
  length-append, ap, take, Option, none, some, min, arith,
}
use native.Mathlib.Decide.{dec_lt}
use tdx.Base.Outcome.{Outcome, Error, ok, err, panic, no_file}
use tdx.Base.Text.{Bytes}
use tdx.Client.Files.{chunk_size, chunk_data, block_loop, get_block_file_raw}

-- The documented answer: the bytes that were asked for, as far as the file has them.
abbrev pub ServesFile : (ℕ → ℕ → Outcome (Option Bytes)) → Bytes → Type 0
ServesFile chunk file =
    (front rest : Bytes) (n : ℕ)
    → file ≡ front ++ rest
    → chunk (length front) n ≡ ok (some (take n rest))

-- An answer has less than 2 ^ 16 bytes, the range of the length in its frame.
abbrev pub Framed : (ℕ → ℕ → Outcome (Option Bytes)) → Type 0
Framed chunk =
    (start n : ℕ) (info : Option Bytes)
    → chunk start n ≡ ok info
    → length (chunk_data info) < 2 ^ 16

module _ (chunk : ℕ → ℕ → Outcome (Option Bytes)) where
  -- The pieces of a file: what the server answered to requests for more, each at the offset where
  -- the one before ended, and none of them empty.
  pub data Pieces (size : ℕ) : Bytes → Type 0 where
    no_piece : Pieces size []
    next_piece :
        {file : Bytes} (info : Option Bytes)
        → Pieces size file
        → length file < size
        → chunk (length file) (min chunk_size (size - length file)) ≡ ok info
        → 0 < length (chunk_data info)
        → Pieces size (file ++ chunk_data info)

  -- No more is asked for: the file is as long as the server said, or the last answer had no data.
  pub data IsOver (size : ℕ) (file : Bytes) : Type 0 where
    complete : size ≤ length file → IsOver size file
    cut_short :
        (info : Option Bytes)
        → length file < size
        → chunk (length file) (min chunk_size (size - length file)) ≡ ok info
        → length (chunk_data info) ≡ 0
        → IsOver size file

  -- The outcome of a download from a file of `size` bytes: the pieces that the server sent, or its
  -- failure at the offset that they reach.
  pub data Told (size : ℕ) : Outcome Bytes → Type 0 where
    told_file : (file : Bytes) → Pieces size file → IsOver size file → Told size (ok file)
    told_error :
        (file : Bytes) (why : Error)
        → Pieces size file
        → length file < size
        → chunk (length file) (min chunk_size (size - length file)) ≡ err why
        → Told size (err why)
    told_panic :
        (file : Bytes)
        → Pieces size file
        → length file < size
        → chunk (length file) (min chunk_size (size - length file)) ≡ panic
        → Told size panic

  -- What `GetBlockFileRaw` returns, by the outcome of asking for the size.
  pub data Answers : Outcome (Option ℕ) → Outcome Bytes → Type 0 where
    answer_file :
        (size : ℕ) (o : Outcome Bytes) → 0 < size → Told size o → Answers (ok (some size)) o
    answer_empty : Answers (ok (some 0)) (err no_file)
    answer_none : Answers (ok none) (err no_file)
    answer_error : (why : Error) → Answers (err why) (err why)
    answer_panic : Answers panic panic

  -- A loop that has ended with an outcome that is told.
  abbrev pub LoopEnds : ℕ → Option (Outcome Bytes) → Type 0
  LoopEnds size r = (o : Outcome Bytes) × (r ≡ some o) × Told size o

  abbrev pub Ends : Outcome (Option ℕ) → Option (Outcome Bytes) → Type 0
  Ends meta r = (o : Outcome Bytes) × (r ≡ some o) × Answers meta o

module _ (chunk : ℕ → ℕ → Outcome (Option Bytes)) where
  pub block_loop_done :
      (fuel size start : ℕ) (buf : Bytes)
      → size ≤ start
      → block_loop chunk fuel size start buf ≡ some (ok buf)
  unfolding block_loop
  block_loop_done zero size start buf h = ground arith
  block_loop_done (suc fuel) size start buf h = ground arith

  module _ (fuel size start : ℕ) (buf : Bytes) (inside : start < size) where
    block_test : ltb start size ≡ true
    block_test = ground arith

    block_loop_fails :
        (why : Error)
        → chunk start (min chunk_size (size - start)) ≡ err why
        → block_loop chunk (suc fuel) size start buf ≡ some (err why)
    unfolding block_loop
    block_loop_fails why e = rw (block_loop, block_test, e) (ground arith)

    block_loop_panics :
        chunk start (min chunk_size (size - start)) ≡ panic
        → block_loop chunk (suc fuel) size start buf ≡ some panic
    unfolding block_loop
    block_loop_panics e = rw (block_loop, block_test, e) (ground arith)

    module _ (info : Option Bytes) (e : chunk start (min chunk_size (size - start)) ≡ ok info) where
      pub block_loop_empty :
          length (chunk_data info) ≡ 0 → block_loop chunk (suc fuel) size start buf ≡ some (ok buf)
      unfolding block_loop
      block_loop_empty h = rw (block_loop, block_test, e) (ground arith)

      pub block_loop_next :
          0 < length (chunk_data info)
          → block_loop chunk (suc fuel) size start buf
            ≡ block_loop chunk fuel size
                ((start + length (chunk_data info)) % 2 ^ 32)
                (buf ++ chunk_data info)
      unfolding block_loop
      block_loop_next h = rw (block_loop, block_test, e) (ground arith)

module _ (chunk : ℕ → ℕ → Outcome (Option Bytes)) (framed : Framed chunk) where
  -- Each round that goes on has moved the offset by a byte or more.
  block_round-LoopEnds :
      (fuel size : ℕ) (buf : Bytes)
      → size + 2 ^ 16 ≤ 2 ^ 32
      → size ≤ length buf + suc fuel
      → length buf < size
      → Pieces chunk size buf
      → ((more : Bytes)
          → size ≤ length more + fuel
          → Pieces chunk size more
          → LoopEnds chunk size (block_loop chunk fuel size (length more) more))
      → (o : Outcome (Option Bytes)) → chunk (length buf) (min chunk_size (size - length buf)) ≡ o
      → LoopEnds chunk size (block_loop chunk (suc fuel) size (length buf) buf)
  block_round-LoopEnds fuel size buf small h inside pieces again (ok info) e =
      elim (dec_lt 0 (length (chunk_data info))) [
        | yes more ↦
            let below = framed (length buf) (min chunk_size (size - length buf)) info e in
            let longer = length-append buf (chunk_data info) in
            let (o, ended, told) =
              again (buf ++ chunk_data info) (omega (arith, longer))
                (next_piece info pieces inside e more) in
            let offset : (length buf + length (chunk_data info)) % 2 ^ 32
                ≡ length (buf ++ chunk_data info) =
              omega (arith, longer) in
            (
              o,
              block_loop_next chunk fuel size (length buf) buf inside info e more
                  ∙ (ap (λ n. block_loop chunk fuel size n (buf ++ chunk_data info)) offset
                      ∙ ended),
              told,
            )
        | no none_left ↦ (
          ok buf,
          block_loop_empty chunk fuel size (length buf) buf inside info e (omega arith),
          told_file buf pieces (cut_short info inside e (omega arith)),
        )
      ]
  block_round-LoopEnds fuel size buf small h inside pieces again (err why) e = (
    err why,
    block_loop_fails chunk fuel size (length buf) buf inside why e,
    told_error buf why pieces inside e,
  )
  block_round-LoopEnds fuel size buf small h inside pieces again panic e = (
    panic,
    block_loop_panics chunk fuel size (length buf) buf inside e,
    told_panic buf pieces inside e,
  )

  block_loop-LoopEnds :
      (fuel size : ℕ) (buf : Bytes)
      → size + 2 ^ 16 ≤ 2 ^ 32
      → size ≤ length buf + fuel
      → Pieces chunk size buf
      → LoopEnds chunk size (block_loop chunk fuel size (length buf) buf)
  block_loop-LoopEnds zero size buf small h pieces = (
    ok buf,
    block_loop_done chunk zero size (length buf) buf (omega arith),
    told_file buf pieces (complete (omega arith)),
  )
  block_loop-LoopEnds (suc fuel) size buf small h pieces = elim (dec_lt (length buf) size) [
    | yes inside ↦
        block_round-LoopEnds fuel size buf small h inside pieces
          (λ more room pieces'. block_loop-LoopEnds fuel size more small room pieces') _ refl
    | no past ↦ (
      ok buf,
      block_loop_done chunk (suc fuel) size (length buf) buf (omega arith),
      told_file buf pieces (complete (omega arith)),
    )
  ]

  -- Where each answer has fewer than 2 ^ 16 bytes and the size that the server tells is at most
  -- 2 ^ 32 - 2 ^ 16, `GetBlockFileRaw` ends whatever the server sends, within as many rounds as the
  -- file has bytes. It returns the answers to its requests, one behind the other, which are as long
  -- as the server said or end with an answer without data; or the failure of the request behind
  -- them; or that of the request for the size; or its own error where there is no size or the size
  -- is 0.
  pub get_block_file_raw-Ends :
      (meta : Outcome (Option ℕ))
      → ((size : ℕ) → meta ≡ ok (some size) → size + 2 ^ 16 ≤ 2 ^ 32)
      → (fuel : ℕ) → ((size : ℕ) → meta ≡ ok (some size) → size ≤ fuel)
      → Ends chunk meta (get_block_file_raw chunk meta fuel)
  unfolding get_block_file_raw
  get_block_file_raw-Ends (ok (some zero)) small fuel enough =
      (err no_file, ground arith, answer_empty)
  get_block_file_raw-Ends (ok (some (suc n))) small fuel enough =
      let (o, ended, told) =
        block_loop-LoopEnds fuel (suc n) [] (small (suc n) refl)
          (omega (arith, enough (suc n) refl)) no_piece in
      (o, ground (arith, ended), answer_file (suc n) o (omega arith) told)
  get_block_file_raw-Ends (ok none) small fuel enough = (err no_file, refl, answer_none)
  get_block_file_raw-Ends (err why) small fuel enough = (err why, refl, answer_error why)
  get_block_file_raw-Ends panic small fuel enough = (panic, refl, answer_panic)
