-- ===== src/Tests/Client.antt =====
-- Runs of the paging and of the downloads.
use tdx.Base.{
  ℕ, ◌+◌, ◌-◌, ◌==◌, if◌then◌else◌, ◌^◌, ◌<◌, ◌≡◌, refl, ap, ap₂, ◌∙◌, subst, arith, Bool, true,
  List, [], ◌∷◌, ◌++◌, length, take, drop, replicate, some, Option, length-append, take-append_self,
  drop-append_self,
}
use tdx.Base.Int.{pos, ltb_ℤ}
use tdx.Base.Outcome.{Outcome, ok, err, no_file}
use tdx.Base.Text.{Bytes}
use tdx.Kline.Defs.{Kline}
use tdx.Kline.Merge.{flat_kline}
use tdx.Client.Paging.{Page, get_minute_trade_all, get_history_trade_day}
use tdx.Client.Whole.{page, newest, ServesBack, get_trades_whole}
use tdx.Client.Until.{
  until_loop, find_last, later_or, link_last, get_kline_until, get_index_until, get_kline_all,
  get_index_all,
}
use tdx.Client.Chained.{chained}
use tdx.Client.Resume.{ServesKlines, chained_page}
use tdx.Client.Newest.{IsResumed, get_kline-chained}
use tdx.Client.Files.{get_report_file, get_block_file_raw, chunk_data}
use tdx.Client.Download.{ServesFile, Framed, Ends, get_block_file_raw-Ends}
use tdx.Client.Codes.{retry}
use tdx.Client.Same.{get_report_file-same}

-- Without the `start` newest items.
abbrev older_than {ℓ} : {A : Type ℓ} → ℕ → List A → List A
older_than start all = take (length all - start) all

older_than_newer {ℓ} :
    {A : Type ℓ} (all older newer : List A)
    → all ≡ older ++ newer
    → older_than (length newer) all ≡ older
older_than_newer all older newer e =
    ap₂ take {y = length older} (omega (arith, ap length e, length-append older newer)) e
    ∙ take-append_self older newer

abbrev serve : List ℕ → ℕ → ℕ → Outcome (Page ℕ)
serve all start count = ok (page (newest count (older_than start all)))

serve-ServesBack : (all : List ℕ) (size : ℕ) → ServesBack (λ start. serve all start size) size all
serve-ServesBack all size older newer e =
    ap (λ xs. ok (page (newest size xs))) (older_than_newer all older newer e)

-- A day with more trades than a page.
abbrev day_of_trades : List ℕ
day_of_trades = replicate 1000 8 ++ replicate 1200 9

get_trades_whole_example :
    (get_minute_trade_all (serve day_of_trades) 2 ≡ some (ok (page day_of_trades)))
    × (get_history_trade_day (serve day_of_trades) 2 ≡ some (ok (page day_of_trades)))
get_trades_whole_example =
    get_trades_whole day_of_trades (serve day_of_trades) (serve day_of_trades)
      (serve-ServesBack day_of_trades 1800) (serve-ServesBack day_of_trades 2000) (omega arith) 2
      (omega arith)

abbrev serve_klines : List Kline → ℕ → Outcome (Page Kline)
serve_klines all start = ok (chained_page (pos 0) (newest 800 (older_than start all)))

serve_klines-ServesKlines : (all : List Kline) → ServesKlines (serve_klines all) all
serve_klines-ServesKlines all older newer e =
    ap (λ xs. ok (chained_page (pos 0) (newest 800 xs))) (older_than_newer all older newer e)

abbrev three_klines : List Kline
three_klines =
    flat_kline (pos 1) (pos 10) ∷ flat_kline (pos 2) (pos 11) ∷ flat_kline (pos 3) (pos 12) ∷ []

abbrev before_three : Kline → Bool
before_three k = ltb_ℤ k.time (pos 3)

get_kline-chained_example :
    IsResumed before_three three_klines (get_kline_until before_three (serve_klines three_klines) 1)
    × IsResumed before_three three_klines
        (get_index_until before_three (serve_klines three_klines) 1)
    × (get_kline_all (serve_klines three_klines) 1 ≡ some (ok (chained_page (pos 0) three_klines)))
    × (get_index_all (serve_klines three_klines) 1 ≡ some (ok (chained_page (pos 0) three_klines)))
get_kline-chained_example =
    get_kline-chained before_three (λ k z. refl) (serve_klines three_klines) three_klines
      (serve_klines-ServesKlines three_klines) (omega arith) 1 (omega arith)

abbrev serve_file : Bytes → ℕ → ℕ → Outcome (Option Bytes)
serve_file file start n = ok (some (take n (drop start file)))

serve_file-ServesFile : (file : Bytes) → ServesFile (serve_file file) file
serve_file-ServesFile file front rest n e =
    ap (λ t. ok (some (take n t))) (ap (drop (length front)) e ∙ drop-append_self front rest)

abbrev small_file : Bytes
small_file = 5 ∷ 6 ∷ 7 ∷ []

get_report_file-same_example :
    (get_report_file (serve_file small_file) 1 ≡ some (ok small_file))
    × (get_block_file_raw (serve_file small_file) (ok (some 3)) 1 ≡ some (ok small_file))
get_report_file-same_example =
    get_report_file-same (serve_file small_file) small_file (serve_file-ServesFile small_file)
      (omega arith) (omega arith) 1 (omega arith)

-- A server that sends one byte at a time.
abbrev byte_by_byte : ℕ → ℕ → Outcome (Option Bytes)
byte_by_byte start n = ok (some (5 ∷ []))

byte_by_byte-Framed : Framed byte_by_byte
byte_by_byte-Framed start n info e =
    let given : some (5 ∷ []) ≡ info = cc in
    subst (λ i. length (chunk_data i) < 2 ^ 16) given (omega arith)

get_block_file_raw-Ends_example :
    Ends byte_by_byte (ok (some 3)) (get_block_file_raw byte_by_byte (ok (some 3)) 3)
get_block_file_raw-Ends_example =
    get_block_file_raw-Ends byte_by_byte byte_by_byte-Framed (ok (some 3))
      (λ size e. let three : 3 ≡ size = cc in omega arith) 3
      (λ size e. let three : 3 ≡ size = cc in omega arith)

-- The first candle that passes keeps the 0 of its page where a page begins there.
page_border :
    get_kline_until
      (λ k. true)
      (λ start. ok (chained_page (pos 0) (flat_kline (pos 3) (pos 12) ∷ [])))
      1
    ≡ some (ok (chained_page (pos 0) (flat_kline (pos 3) (pos 12) ∷ [])))
unfolding get_kline_until until_loop find_last later_or link_last chained
page_border = refl

-- A request that fails twice and then answers is answered; one that fails on is given up.
abbrev third_time : ℕ → Outcome ℕ
third_time i = if i == 2 then ok 5 else err no_file

third_attempt : retry third_time 2 0 ≡ ok 5
unfolding retry
third_attempt = refl

given_up : retry (λ i. third_time (i + 3)) 2 0 ≡ err no_file
unfolding retry
given_up = refl
