-- ===== src/Pull/Periods.antt =====
-- `DayToPeriod` of a group as one chunk gives one candle, with the volume of the group.
use tdx.Base.{
  ℕ, suc, ◌≤◌, ◌≡◌, refl, sym, ap, ◌∙◌, ltb, leb, Bool, false, List, [], ◌∷◌, length, take, drop,
  arith, take_all,
}
use tdx.Base.Int.{ℤ, pos, add64}
use tdx.Base.Outcome.{ok}
use tdx.Kline.Defs.{Kline}
use tdx.Kline.Merge.{merge, merge_loop, merge_kline, last_time}
use tdx.Kline.Modular.{total}
use tdx.Kline.Conserve.{merge-total}
use tdx.Pull.Candles.{
  Floats, KlineDay, to_protocol, from_protocol, with_stock, with_stocks, day_kline, day_to_period,
}

ltb_self : (n : ℕ) → ltb n n ≡ false
ltb_self n = ground arith

leb_long : (n : ℕ) → 2 ≤ n → leb n 1 ≡ false
leb_long n h = ground arith

drop_whole {ℓ} : {A : Type ℓ} (xs : List A) → drop (length xs) xs ≡ []
drop_whole [] = refl
drop_whole (x ∷ xs) = drop_whole xs

module _ {F : Type 0} (fl : Floats F) where
  abbrev pub day_volume : KlineDay F → ℤ
  day_volume k = k.volume

  abbrev pub volume_of : List (KlineDay F) → ℤ
  volume_of ks = total day_volume ks

  abbrev pub kline_volume : Kline → ℤ
  kline_volume k = k.volume

  length-to_protocol : (ks : List (KlineDay F)) → length (to_protocol fl ks) ≡ length ks
  unfolding to_protocol
  length-to_protocol [] = refl
  length-to_protocol (k ∷ ks) = ap suc (length-to_protocol ks)

  total-to_protocol :
      (ks : List (KlineDay F)) → total kline_volume (to_protocol fl ks) ≡ total day_volume ks
  unfolding to_protocol
  total-to_protocol [] = refl
  total-to_protocol (k ∷ ks) = ap (add64 k.volume) (total-to_protocol ks)

  total-from_protocol :
      (ks : List Kline) → total day_volume (from_protocol fl ks) ≡ total kline_volume ks
  unfolding from_protocol
  total-from_protocol [] = refl
  total-from_protocol (k ∷ ks) = ap (add64 k.volume) (total-from_protocol ks)

  volume-with_stock :
      (k : KlineDay F) (chunk : List (KlineDay F)) (l : KlineDay F) (ls : List (KlineDay F))
      → (with_stock fl k chunk l ls).volume ≡ k.volume
  volume-with_stock k chunk l [] = refl
  volume-with_stock k chunk l (m ∷ ls) = volume-with_stock k chunk m ls

  module _ (select : Bool → ℤ → ℤ → ℤ) where
    -- One chunk that takes all candles.
    merge-whole :
        (k : Kline) (ks : List Kline)
        → 2 ≤ length (k ∷ ks)
        → merge select (k ∷ ks) (pos (length (k ∷ ks)))
          ≡ merge_kline select (k ∷ ks) (last_time (k ∷ ks)) k.open_price ∷ []
    unfolding merge merge_loop
    merge-whole k ks long =
        rw
          (
            leb_long (suc (length ks)) long,
            ltb_self (suc (length ks)),
            take_all (length ks) ks (omega arith),
            drop_whole ks,
          )
          refl

    merged_days :
        (k l : KlineDay F) (ks : List (KlineDay F))
        → (m : Kline) × (merge select (to_protocol fl (k ∷ l ∷ ks)) (pos (length (k ∷ l ∷ ks)))
            ≡ m ∷ [])
    unfolding to_protocol
    merged_days k l ks =
        let days = k ∷ l ∷ ks in
        let same = sym (length-to_protocol days) in
        (
          _,
          ap (λ i. merge select (to_protocol fl days) (pos i)) same
              ∙ merge-whole _ (to_protocol fl (l ∷ ks)) (omega (arith, same)),
        )

    pub day_to_period-whole :
        (k : KlineDay F) (ks : List (KlineDay F))
        → (m : KlineDay F) × (day_to_period fl select (k ∷ ks) (length (k ∷ ks)) ≡ ok (m ∷ []))
          × (total day_volume (m ∷ []) ≡ total day_volume (k ∷ ks))
    unfolding day_to_period with_stocks from_protocol
    day_to_period-whole k [] = (k, refl, refl)
    day_to_period-whole k (l ∷ ks) =
        let days = k ∷ l ∷ ks in
        let n = length days in
        let p = to_protocol fl days in
        let rest = l ∷ take (length ks) ks in
        let (m, merged) = merged_days k l ks in
        let day = with_stock fl (day_kline fl m) (k ∷ rest) k rest in
        let volume : day.volume ≡ m.volume = volume-with_stock (day_kline fl m) (k ∷ rest) k rest in
        let whole : add64 m.volume (pos 0) ≡ total day_volume days =
          ap (total kline_volume) (sym merged)
          ∙ (merge-total select p (pos n)).0
          ∙ total-to_protocol days in
        (day, rw (leb_long n (omega arith), merged) refl, ap (λ v. add64 v (pos 0)) volume ∙ whole)
