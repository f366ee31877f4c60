-- ===== src/Client/Files.antt =====
-- `GetReportFile` and `GetBlockFileRaw`. `chunk start n` is the outcome of asking for `n` bytes of
-- the file from `start` on: its bytes, or none where the answer is not the data of a file. The
-- offset is a uint32, and `none` stands for a loop that still runs when its fuel is used up.
use tdx.Base.{
  ℕ, zero, suc, ◌+◌, ◌-◌, ◌%◌, ◌^◌, ltb, ◌==◌, true, false, if◌then◌else◌, [], ◌++◌, length, Option,
  none, some, min,
}
use tdx.Base.Outcome.{Outcome, ok, err, panic, no_file}
use tdx.Base.Text.{Bytes}

abbrev pub chunk_size : ℕ
chunk_size = 0x7530

-- `!ok || len(info.Data) == 0`
abbrev pub chunk_data : Option Bytes → Bytes
chunk_data none = []
chunk_data (some bytes) = bytes

module _ (chunk : ℕ → ℕ → Outcome (Option Bytes)) where
  unfoldable pub report_loop : ℕ → ℕ → Bytes → Option (Outcome Bytes)
  report_loop zero start buf = none
  report_loop (suc fuel) start buf = elim (chunk start chunk_size) [
    | ok info ↦
        let bytes = chunk_data info in
        elim (length bytes == 0) [
          | true ↦ some (ok buf)
          | false ↦ elim (ltb (length bytes % 2 ^ 32) chunk_size) [
            | true ↦ some (ok (buf ++ bytes))
            | false ↦ report_loop fuel ((start + length bytes) % 2 ^ 32) (buf ++ bytes)
          ]
        ]
    | err e ↦ some (err e)
    | panic ↦ some panic
  ]

  unfoldable pub get_report_file : ℕ → Option (Outcome Bytes)
  unfolding report_loop
  get_report_file fuel = report_loop fuel 0 []

  -- `for start < meta.Size`
  unfoldable pub block_loop : ℕ → ℕ → ℕ → Bytes → Option (Outcome Bytes)
  block_loop zero size start buf = if ltb start size then none else some (ok buf)
  block_loop (suc fuel) size start buf = elim (ltb start size) [
    | true ↦ elim (chunk start (min chunk_size (size - start))) [
      | ok info ↦
          let bytes = chunk_data info in
          elim (length bytes == 0) [
            | true ↦ some (ok buf)
            | false ↦ block_loop fuel size ((start + length bytes) % 2 ^ 32) (buf ++ bytes)
          ]
      | err e ↦ some (err e)
      | panic ↦ some panic
    ]
    | false ↦ some (ok buf)
  ]

  -- `meta` is the outcome of asking for the size: none where the answer is not a size.
  unfoldable pub get_block_file_raw : Outcome (Option ℕ) → ℕ → Option (Outcome Bytes)
  unfolding block_loop
  get_block_file_raw (ok (some size)) fuel =
      if size == 0 then some (err no_file) else block_loop fuel size 0 []
  get_block_file_raw (ok none) fuel = some (err no_file)
  get_block_file_raw (err e) fuel = some (err e)
  get_block_file_raw panic fuel = some panic
