-- ===== src/Client/Codes.antt =====
-- `GetCodeAll`, `GetStockCodeAll`, `GetETFCodeAll`, `GetIndexCodeAll` and `GetGbbqAll`. The loop of
-- `GetCodeAll` stands in Client/Paging.antt.
use tdx.Base.{
  ℕ, zero, suc, ◌+◌, ◌%◌, ◌^◌, ◌==◌, Bool, if◌then◌else◌, List, [], ◌∷◌, ◌++◌, length, Option, none,
  some,
}
use tdx.Base.Outcome.{Outcome, ok, err, panic, ◌>>=◌, no_file}
use tdx.Base.Text.{Bytes, text}
use tdx.Market.Exchange.{exchange_sz, exchange_sh, exchange_bj, exchange_string}
use tdx.Market.Kinds.{is_stock, is_etf, is_index}
use tdx.Block.Config.{NamedCode, parse_tdx_bj_more}
use tdx.Client.Paging.{Page, get_code_pages}

-- The codes of Beijing are those of a file of zhb.zip; `zhb` is the outcome of its download, with
-- the file where the archive has it.
unfoldable pub get_code_bj : (Bytes → Bytes) → Outcome (Option Bytes) → Outcome (Page NamedCode)
get_code_bj decode zhb = zhb >>= λ found. elim found [
  | none ↦ err no_file
  | some file ↦
      let list = parse_tdx_bj_more decode file in
      ok (record { count = length list % 2 ^ 16; list = list })
]

-- `request exchange start` is the page of an exchange from `start` on.
unfoldable pub get_code_all :
    (Bytes → Bytes)
    → Outcome (Option Bytes)
    → (ℕ → ℕ → Outcome (Page NamedCode))
    → ℕ
    → ℕ
    → Option (Outcome (Page NamedCode))
get_code_all decode zhb request fuel exchange =
    if exchange == exchange_bj
    then some (get_code_bj decode zhb)
    else get_code_pages (request exchange) fuel

-- The codes of one list that are of a kind, with their prefix.
abbrev pub codes_of_kind : (Bytes → Bool) → ℕ → List NamedCode → List Bytes
codes_of_kind kind exchange [] = []
codes_of_kind kind exchange (v ∷ vs) =
    let rest = codes_of_kind kind exchange vs in
    let code = exchange_string exchange ++ v.code in if kind code then code ∷ rest else rest

module _ (all : ℕ → Option (Outcome (Page NamedCode))) (kind : Bytes → Bool) where
  -- One exchange after another, behind the codes `ls` that are there.
  unfoldable pub codes_loop : List ℕ → List Bytes → Option (Outcome (List Bytes))
  codes_loop [] ls = some (ok ls)
  codes_loop (ex ∷ exs) ls = elim (all ex) [
    | none ↦ none
    | some (ok resp) ↦ codes_loop exs (ls ++ codes_of_kind kind ex resp.list)
    | some (err e) ↦ some (err e)
    | some panic ↦ some panic
  ]

module _ (all : ℕ → Option (Outcome (Page NamedCode))) where
  unfoldable pub get_stock_code_all : Option (Outcome (List Bytes))
  get_stock_code_all = codes_loop all is_stock (exchange_sh ∷ exchange_sz ∷ exchange_bj ∷ []) []

  unfoldable pub get_etf_code_all : Option (Outcome (List Bytes))
  get_etf_code_all = codes_loop all is_etf (exchange_sh ∷ exchange_sz ∷ []) []

  unfoldable pub get_index_code_all : Option (Outcome (List Bytes))
  get_index_code_all =
      codes_loop all is_index (exchange_sh ∷ exchange_sz ∷ []) (text "bj899050" ∷ [])

-- `for i := 0; i == 0 || i < DefaultRetry; i++`: the outcome of the attempt number `i`, and of as
-- many more as are left after an error.
unfoldable pub retry {ℓ} : {A : Type ℓ} → (ℕ → Outcome A) → ℕ → ℕ → Outcome A
retry attempt zero i = attempt i
retry attempt (suc left) i = elim (attempt i) [
  | ok a ↦ ok a
  | err e ↦ retry attempt left (i + 1)
  | panic ↦ panic
]

-- Each code with what was read for it; the keys of the map are the codes, which are different.
unfoldable pub gbbq_all {ℓ} :
    {A : Type ℓ} → (Bytes → ℕ → Outcome A) → List Bytes → Outcome (List (Bytes × A))
gbbq_all attempt [] = ok []
gbbq_all attempt (code ∷ codes) =
    retry (attempt code) 2 0 >>= λ g. gbbq_all attempt codes >>= λ rest. ok ((code, g) ∷ rest)

unfoldable pub get_gbbq_all {ℓ} :
    {A : Type ℓ}
    → Option (Outcome (List Bytes))
    → (Bytes → ℕ → Outcome A)
    → Option (Outcome (List (Bytes × A)))
get_gbbq_all none attempt = none
get_gbbq_all (some codes) attempt = some (codes >>= gbbq_all attempt)
