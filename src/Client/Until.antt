-- ===== src/Client/Until.antt =====
-- `GetKlineUntil`, `GetIndexUntil` and the `All` of both, in pages of 800. `f` is the caller's test
-- of a candle.
use tdx.Base.{
  ℕ, zero, suc, ◌+◌, ◌-◌, ◌%◌, ◌^◌, ltb, Bool, true, false, List, [], ◌∷◌, ◌++◌, drop, Option, none,
  some,
}
use tdx.Base.Outcome.{Outcome, ok, err, panic}
use tdx.Kline.Defs.{Kline, last_price}
use tdx.Client.Paging.{Page, no_page}

-- `last.Last = r.List[len(r.List)-1].Close`: `last` is the first candle of what was read before,
-- which the next page goes in front of.
unfoldable pub link_last : List Kline → List Kline → List Kline
link_last [] done = done
link_last (k ∷ ks) [] = []
link_last (k ∷ ks) (d ∷ done) = record d { last = last_price (k ∷ ks) } ∷ done

-- A later candle that passes has a greater index.
unfoldable pub later_or : Option ℕ → Bool → Option ℕ
later_or (some i) here = some (suc i)
later_or none true = some 0
later_or none false = none

module _ (f : Kline → Bool) where
  -- `for i := len(r.List) - 1; i >= 0; i--`: the greatest index of a candle that passes the test.
  unfoldable pub find_last : List Kline → Option ℕ
  unfolding later_or
  find_last [] = none
  find_last (k ∷ ks) = later_or (find_last ks) (f k)

  module _ (request : ℕ → Outcome (Page Kline)) where
    unfoldable pub until_loop : ℕ → ℕ → Page Kline → Option (Outcome (Page Kline))
    unfolding link_last find_last
    until_loop zero start resp = none
    until_loop (suc fuel) start resp = elim (request start) [
      | ok r ↦
          let done = link_last r.list resp.list in
          elim (find_last r.list) [
            | some i ↦ some (
                ok (record {
                  count = (resp.count + r.count + (2 ^ 16 - i % 2 ^ 16)) % 2 ^ 16;
                  list = drop i r.list ++ done;
                }))
            | none ↦
                let next : Page Kline = record {
                  count = (resp.count + r.count) % 2 ^ 16;
                  list = r.list ++ done;
                } in
                elim (ltb r.count 800) [
                  | true ↦ some (ok next)
                  | false ↦ until_loop fuel ((start + 800) % 2 ^ 16) next
                ]
          ]
      | err e ↦ some (err e)
      | panic ↦ some panic
    ]

    unfoldable pub get_kline_until : ℕ → Option (Outcome (Page Kline))
    unfolding until_loop
    get_kline_until fuel = until_loop fuel 0 no_page

unfoldable pub get_kline_all : (ℕ → Outcome (Page Kline)) → ℕ → Option (Outcome (Page Kline))
unfolding get_kline_until
get_kline_all request fuel = get_kline_until (λ k. false) request fuel

-- The same for an index: `GetIndexUntil` and `GetIndexAll` differ in what they request.
unfoldable pub get_index_until :
    (Kline → Bool) → (ℕ → Outcome (Page Kline)) → ℕ → Option (Outcome (Page Kline))
unfolding until_loop
get_index_until f request fuel = until_loop f request fuel 0 no_page

unfoldable pub get_index_all : (ℕ → Outcome (Page Kline)) → ℕ → Option (Outcome (Page Kline))
unfolding get_index_until
get_index_all request fuel = get_index_until (λ k. false) request fuel
