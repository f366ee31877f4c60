-- ===== src/Candle/Fix.antt =====
-- `FixKlineTime`: what it leaves as it is.
use tdx.Base.{
  ◌-◌, ◌≡◌, refl, sym, ap, ◌∙◌, ◌||◌, ◌==◌, inl, inr, List, [], ◌∷◌, ◌++◌, length, take, drop, map,
  take-append-drop, Bool-cases,
}
use tdx.Base.Int.{ℤ, pos, eqb_ℤ, ltb_ℤ}
use tdx.Kline.Defs.{Kline}
use tdx.Kline.Merge.{last_time}
use tdx.Candle.Defs.{fix_one, fix_kline_time}

map-append : {A B : Type 0} (f : A → B) (xs ys : List A) → map f (xs ++ ys) ≡ map f xs ++ map f ys
map-append f [] ys = refl
map-append f (x ∷ xs) ys = rw (map-append f xs ys) refl

-- A candle without its time.
abbrev pub untimed : Kline → Kline
untimed k = record k { time = pos 0 }

untimed-fix_one :
    (noon node1 : ℤ) (ks : List Kline) → map untimed (map (fix_one noon node1) ks) ≡ map untimed ks
untimed-fix_one noon node1 [] = refl
untimed-fix_one noon node1 (k ∷ ks) =
    let head : untimed (fix_one noon node1 k) ≡ untimed k = elim (Bool-cases (eqb_ℤ k.time node1)) [
      | inl at_one ↦ rw at_one refl
      | inr other ↦ rw other refl
    ] in
    rw (untimed-fix_one noon node1 ks) (ap (λ (x : Kline). x ∷ map untimed ks) head)

-- FixKlineTime changes nothing of the candles but times, and neither their order nor their number.
pub untimed-fix_kline_time :
    (noon node1 node2 : ℤ) (ks : List Kline)
    → map untimed (fix_kline_time noon node1 node2 ks) ≡ map untimed ks
unfolding fix_kline_time
untimed-fix_kline_time noon node1 node2 ks =
    let skipped = length ks - 120 in
    elim (Bool-cases (length ks == 0 || ltb_ℤ (last_time ks) node1 || ltb_ℤ node2 (last_time ks))) [
      | inl outside ↦ rw outside refl
      | inr inside ↦ rw inside (
          map-append untimed (take skipped ks) (map (fix_one noon node1) (drop skipped ks))
          ∙ ap (λ (x : List Kline). map untimed (take skipped ks) ++ x)
              (untimed-fix_one noon node1 (drop skipped ks))
          ∙ sym (map-append untimed (take skipped ks) (drop skipped ks))
          ∙ ap (map untimed) (take-append-drop skipped ks))
    ]
