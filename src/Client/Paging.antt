-- ===== src/Client/Paging.antt =====
-- `GetMinuteTradeAll`, `GetHistoryMinuteTradeDay` and the loop of `GetCodeAll`. `request start` is
-- the outcome of asking for the page that begins at `start`; the loops have no bound in the
-- source, so `none` stands for a loop that still runs when its fuel is used up.
use tdx.Base.{ℕ, zero, suc, ◌+◌, ◌%◌, ◌^◌, ltb, true, false, List, [], ◌++◌, Option, none, some}
use tdx.Base.Outcome.{Outcome, ok, err, panic}

-- `TradeResp`, `KlineResp` and `CodeResp`: a uint16 count and the items.
pub record Page {ℓ} (A : Type ℓ) : Type ℓ where
  pub count : ℕ
  pub list : List A

abbrev pub no_page {ℓ} : {A : Type ℓ} → Page A
no_page = record { count = 0; list = [] }

-- `resp.Count += r.Count` and `append(r.List, resp.List...)`
abbrev pub add_older {ℓ} : {A : Type ℓ} → Page A → Page A → Page A
add_older resp r = record { count = (resp.count + r.count) % 2 ^ 16; list = r.list ++ resp.list }

-- `resp.Count += r.Count` and `append(resp.List, r.List...)`
abbrev pub add_newer {ℓ} : {A : Type ℓ} → Page A → Page A → Page A
add_newer resp r = record { count = (resp.count + r.count) % 2 ^ 16; list = resp.list ++ r.list }

module _ {ℓ} {A : Type ℓ} (add : Page A → Page A → Page A) (request : ℕ → Outcome (Page A)) where
  -- `for start := uint16(0); ; start += size`
  unfoldable pub pages_loop : ℕ → ℕ → ℕ → Page A → Option (Outcome (Page A))
  pages_loop zero size start resp = none
  pages_loop (suc fuel) size start resp = elim (request start) [
    | ok r ↦ elim (ltb r.count size) [
      | true ↦ some (ok (add resp r))
      | false ↦ pages_loop fuel size ((start + size) % 2 ^ 16) (add resp r)
    ]
    | err e ↦ some (err e)
    | panic ↦ some panic
  ]

module _ {ℓ} {A : Type ℓ} (request : ℕ → ℕ → Outcome (Page A)) where
  -- Today's trades, in pages of 1800.
  unfoldable pub get_minute_trade_all : ℕ → Option (Outcome (Page A))
  unfolding pages_loop
  get_minute_trade_all fuel = pages_loop add_older (λ start. request start 1800) fuel 1800 0 no_page

  -- The trades of a day that is past, in pages of 2000.
  unfoldable pub get_history_trade_day : ℕ → Option (Outcome (Page A))
  unfolding pages_loop
  get_history_trade_day fuel =
      pages_loop add_older (λ start. request start 2000) fuel 2000 0 no_page

-- The codes of an exchange that the server lists: pages of 1000, the oldest first.
unfoldable pub get_code_pages {ℓ} :
    {A : Type ℓ} → (ℕ → Outcome (Page A)) → ℕ → Option (Outcome (Page A))
unfolding pages_loop
get_code_pages request fuel = pages_loop add_newer request fuel 1000 0 no_page
