-- ===== src/Client/Whole.antt =====
-- Client/Paging.antt against a server that holds one list and answers with its slices.
use tdx.Base.{
  ℕ, zero, suc, ◌+◌, ◌-◌, ◌*◌, ◌%◌, ◌^◌, ◌≤◌, ◌<◌, ◌≡◌, refl, ap, ap₂, sym, ◌∙◌, List, [], ◌++◌,
  length, take, drop, some, arith, append_assoc, append-nil, length-append, length-take,
  length-drop, take-append-drop, take_all, min,
}
use native.Mathlib.Decide.{dec_lt}
use tdx.Base.Outcome.{Outcome, ok}
use tdx.Client.Paging.{
  Page, add_older, add_newer, pages_loop, get_minute_trade_all, get_history_trade_day,
  get_code_pages,
}

abbrev pub page {ℓ} : {A : Type ℓ} → List A → Page A
page xs = record { count = length xs; list = xs }

-- The newest `n` of a list that has the newest item last.
abbrev pub newest {ℓ} : {A : Type ℓ} → ℕ → List A → List A
newest n xs = drop (length xs - n) xs

-- The documented paging: after the `start` newest items come the `size` newest of the others.
abbrev pub ServesBack {ℓ} : {A : Type ℓ} → (ℕ → Outcome (Page A)) → ℕ → List A → Type ℓ
ServesBack request size all =
    (older newer : List _)
    → all ≡ older ++ newer
    → request (length newer) ≡ ok (page (newest size older))

abbrev pub ServesOn {ℓ} : {A : Type ℓ} → (ℕ → Outcome (Page A)) → ℕ → List A → Type ℓ
ServesOn request size all =
    (before rest : List _)
    → all ≡ before ++ rest
    → request (length before) ≡ ok (page (take size rest))

module _ {ℓ} {A : Type ℓ} where
  pub length-newest : (n : ℕ) (xs : List A) → length (newest n xs) ≡ min n (length xs)
  length-newest n xs = omega (arith, length-drop (length xs - n) xs)

  pub take-append-newest : (n : ℕ) (xs : List A) → take (length xs - n) xs ++ newest n xs ≡ xs
  take-append-newest n xs = take-append-drop (length xs - n) xs

  pub newest_all : (n : ℕ) (xs : List A) → length xs ≤ n → newest n xs ≡ xs
  newest_all n xs h = rw (let e : length xs - n ≡ 0 = omega arith in e)

module _ {ℓ} {A : Type ℓ} (add : Page A → Page A → Page A) (request : ℕ → Outcome (Page A)) where
  pages_loop_last :
      (fuel size start : ℕ) (resp r : Page A)
      → request start ≡ ok r
      → r.count < size
      → pages_loop add request (suc fuel) size start resp ≡ some (ok (add resp r))
  unfolding pages_loop
  pages_loop_last fuel size start resp r e h = rw (pages_loop, e) (ground arith)

  pages_loop_next :
      (fuel size start : ℕ) (resp r : Page A)
      → request start ≡ ok r
      → size ≤ r.count
      → pages_loop add request (suc fuel) size start resp
        ≡ pages_loop add request fuel size ((start + size) % 2 ^ 16) (add resp r)
  unfolding pages_loop
  pages_loop_next fuel size start resp r e h = rw (pages_loop, e) (ground arith)

module _ {ℓ} {A : Type ℓ} where
  add_older-page :
      (xs ys : List A)
      → length xs + length ys < 2 ^ 16
      → add_older (page ys) (page xs) ≡ page (xs ++ ys)
  add_older-page xs ys h =
      ap (λ n. record { count = n; list = xs ++ ys }) (omega (arith, length-append xs ys))

  add_newer-page :
      (xs ys : List A)
      → length xs + length ys < 2 ^ 16
      → add_newer (page xs) (page ys) ≡ page (xs ++ ys)
  add_newer-page xs ys h =
      ap (λ n. record { count = n; list = xs ++ ys }) (omega (arith, length-append xs ys))

module _ {ℓ} {A : Type ℓ} (request : ℕ → Outcome (Page A)) (size : ℕ) (all : List A) where
  pages_loop-add_older :
      ServesBack request size all
      → length all + size < 2 ^ 16
      → (fuel : ℕ) (older newer : List A) → all ≡ older ++ newer
      → length older < fuel * size
      → pages_loop add_older request fuel size (length newer) (page newer) ≡ some (ok (page all))
  pages_loop-add_older serves small zero older newer e h = absurd (omega arith)
  pages_loop-add_older serves small (suc fuel) older newer e h =
      let p = newest size older in
      let one = length-newest size older in
      let both = ap length e ∙ length-append older newer in
      let joined = add_older-page p newer (omega (arith, one, both)) in
      elim (dec_lt (length older) size) [
        | yes last ↦
            pages_loop_last add_older request fuel size _ _ (page p) (serves older newer e)
              (omega (arith, one, both))
            ∙ ap (λ r. some (ok r))
                (joined
                  ∙ ap (λ xs. page (xs ++ newer)) (newest_all size older (omega arith))
                  ∙ ap page (sym e))
        | no more ↦
            let older' = take (length older - size) older in
            let start : (length newer + size) % 2 ^ 16 ≡ length (p ++ newer) =
              omega (arith, one, both, length-append p newer) in
            let whole : all ≡ older' ++ (p ++ newer) =
              e
              ∙ ap (λ xs. xs ++ newer) (sym (take-append-newest size older))
              ∙ append_assoc older' p newer in
            pages_loop_next add_older request fuel size _ _ (page p) (serves older newer e)
              (omega (arith, one, both))
            ∙ ap₂ (pages_loop add_older request fuel size) start joined
            ∙ pages_loop-add_older serves small fuel older' (p ++ newer) whole
                (omega (arith, length-take (length older - size) older))
      ]

  pages_loop-add_newer :
      ServesOn request size all
      → length all + size < 2 ^ 16
      → (fuel : ℕ) (before rest : List A) → all ≡ before ++ rest
      → length rest < fuel * size
      → pages_loop add_newer request fuel size (length before) (page before) ≡ some (ok (page all))
  pages_loop-add_newer serves small zero before rest e h = absurd (omega arith)
  pages_loop-add_newer serves small (suc fuel) before rest e h =
      let p = take size rest in
      let one = length-take size rest in
      let both = ap length e ∙ length-append before rest in
      let joined = add_newer-page before p (omega (arith, one, both)) in
      elim (dec_lt (length rest) size) [
        | yes last ↦
            pages_loop_last add_newer request fuel size _ _ (page p) (serves before rest e)
              (omega (arith, one, both))
            ∙ ap (λ r. some (ok r))
                (joined
                  ∙ ap (λ xs. page (before ++ xs)) (take_all size rest (omega arith))
                  ∙ ap page (sym e))
        | no more ↦
            let start : (length before + size) % 2 ^ 16 ≡ length (before ++ p) =
              omega (arith, one, both, length-append before p) in
            let whole : all ≡ (before ++ p) ++ drop size rest =
              e
              ∙ ap (λ xs. before ++ xs) (sym (take-append-drop size rest))
              ∙ sym (append_assoc before p (drop size rest)) in
            pages_loop_next add_newer request fuel size _ _ (page p) (serves before rest e)
              (omega (arith, one, both))
            ∙ ap₂ (pages_loop add_newer request fuel size) start joined
            ∙ pages_loop-add_newer serves small fuel (before ++ p) (drop size rest) whole
                (omega (arith, length-drop size rest))
      ]

-- A server that holds the trades of a day, or the codes of an exchange, and answers each request
-- with its slice of at most the page's size.
module _ {ℓ} {A : Type ℓ} (all : List A) where
  -- Where the server holds the trades of a day, fewer than 63536, and answers each request with the
  -- newest of those before the ones already read, a page's size at most, the loops of
  -- `GetMinuteTradeAll` and `GetHistoryMinuteTradeDay` end, within one round for each 1800 trades
  -- and one more, and return all of them in order, with their number.
  pub get_trades_whole :
      (today past : ℕ → ℕ → Outcome (Page A))
      → ServesBack (λ start. today start 1800) 1800 all
      → ServesBack (λ start. past start 2000) 2000 all
      → length all + 2000 < 2 ^ 16
      → (fuel : ℕ) → length all < fuel * 1800
      → (get_minute_trade_all today fuel ≡ some (ok (page all)))
        × (get_history_trade_day past fuel ≡ some (ok (page all)))
  unfolding get_minute_trade_all get_history_trade_day
  get_trades_whole today past t p small fuel enough = (
    pages_loop-add_older (λ start. today start 1800) 1800 all t (omega arith) fuel all []
        (sym (append-nil all)) enough,
    pages_loop-add_older (λ start. past start 2000) 2000 all p small fuel all []
        (sym (append-nil all)) (omega arith),
  )

  -- The same for the codes, whose pages come the oldest first.
  pub get_codes_whole :
      (request : ℕ → Outcome (Page A))
      → ServesOn request 1000 all
      → length all + 1000 < 2 ^ 16
      → (fuel : ℕ) → length all < fuel * 1000
      → get_code_pages request fuel ≡ some (ok (page all))
  unfolding get_code_pages
  get_codes_whole request serves small fuel enough =
      pages_loop-add_newer request 1000 all serves small fuel [] all refl enough
