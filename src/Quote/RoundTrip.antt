-- ===== src/Quote/RoundTrip.antt =====
-- `quote.Decode` reads back the wire form of quotes.
use tdx.Base.{
  ℕ, suc, ◌+◌, ◌^◌, ◌<◌, ◌≤◌, ◌≡◌, refl, sym, ap, ◌∙◌, arith, List, [], ◌∷◌, ◌++◌, length, take,
  drop, All, ltb-below, length-append, take-append_self, drop_past,
}
use tdx.Base.Int.{ℤ, pos, ◌*ℤ◌}
use tdx.Base.Outcome.{ok}
use tdx.Base.Text.{Bytes}
use tdx.Wire.Endian.{Conv, IsBigEndian}
use tdx.Trade.RoundTrip.{value, wire, cut_int-signed_wire}
use tdx.Block.Lines.{utf8_to_gbk}
use tdx.Block.Cells.{put_uint16, KeepsAscii, uint16-put_uint16, utf8_to_gbk-ascii}
use tdx.Quote.Defs.{
  Quote, level_loop, needing, quote_head, quote_levels, quote_tail, quote_end, quote_round,
  quote_loop, quote_decode,
}
use tdx.Quote.Numbers.{
  cut_int64-wire, prices_wire, decode_kline-prices_wire, levels_wire, level_loop-levels_wire,
}
use tdx.Quote.Wire.{
  QuoteWire, IsQuote, head_numbers, head_wire, levels_part, tail_part, end_part, quote_wire,
  head_of, levels_of, tail_of, quote_of, quotes_wire, quotes_of,
}

module _ (c : Conv) (decode : Bytes → Bytes) (now : ℤ) (big : IsBigEndian c)
    (keeps : KeepsAscii decode) where
  module _ (w : QuoteWire) (good : IsQuote w) (rest : Bytes) where
    quote_tail_lem :
        (q : Quote)
        → quote_tail c decode now q (tail_part w rest) ≡ (
          rest,
          record q {
            reversed4 = w.reversed4;
            reversed5 = value w.reversed5;
            reversed6 = value w.reversed6;
            reversed7 = value w.reversed7;
            reversed8 = value w.reversed8;
          },
        )
    unfolding quote_tail
    quote_tail_lem q =
        let after7 = wire w.reversed8 ++ rest in
        let after6 = wire w.reversed7 ++ after7 in
        rw
          (
            uint16-put_uint16 c big w.reversed4 good.reversed4_fits,
            cut_int-signed_wire w.reversed5 (wire w.reversed6 ++ after6) good.reversed5_fits,
            cut_int-signed_wire w.reversed6 after6 good.reversed6_fits,
            cut_int-signed_wire w.reversed7 after7 good.reversed7_fits,
            cut_int-signed_wire w.reversed8 rest good.reversed8_fits,
          )
          refl

    quote_end_lem :
        (q : Quote)
        → quote_end c decode now q (end_part w rest)
          ≡ (rest, record q { reversed9 = w.reversed9; active2 = w.active2 })
    unfolding quote_end
    quote_end_lem q =
        rw
          (
            uint16-put_uint16 c big w.reversed9 good.reversed9_fits,
            uint16-put_uint16 c big w.active2 good.active2_fits,
          )
          refl

    quote_levels_lem :
        quote_levels c decode now (head_of w now) (levels_part w rest) ≡ (rest, levels_of w c now)
    unfolding quote_levels
    quote_levels_lem =
        let after3 = levels_wire w.levels rest in
        let after2 = wire w.reversed3 ++ after3 in
        let after_outer = wire w.reversed2 ++ after2 in
        let five =
          ap (λ n. level_loop n (value w.prices.close *ℤ pos 10) after3) (sym good.five)
          ∙ level_loop-levels_wire w.prices.close w.levels rest good.prices_fit.close_fits
              good.levels_fit in
        rw
          (
            cut_int-signed_wire w.inside_dish (wire w.outer_disc ++ after_outer)
                good.inside_dish_fits,
            cut_int-signed_wire w.outer_disc after_outer good.outer_disc_fits,
            cut_int-signed_wire w.reversed2 after2 good.reversed2_fits,
            cut_int-signed_wire w.reversed3 after3 good.reversed3_fits,
            five,
          )
          refl

    -- Behind the market and the code.
    behind_code :
        (i : ℕ) (after : Bytes) → drop (7 + i) (w.market ∷ (w.code ++ after)) ≡ drop i after
    behind_code i after =
        ap (λ n. drop (suc n + i) (w.market ∷ (w.code ++ after))) {y = length w.code} (sym good.six)
        ∙ drop_past (w.market ∷ w.code) after i

    quote_head_lem : quote_head c decode now (head_wire w rest) ≡ (rest, head_of w now)
    unfolding quote_head
    quote_head_lem =
        let after_prices = head_numbers w rest in
        let after_volume = wire w.intuition ++ rest in
        let after1 = wire w.volume ++ after_volume in
        let after0 = wire w.reversed1 ++ after1 in
        let body = put_uint16 w.active1 (prices_wire w.prices after_prices) in
        let code_is : utf8_to_gbk decode (take 6 (w.code ++ body)) ≡ w.code =
          ap (λ n. utf8_to_gbk decode (take n (w.code ++ body))) (sym good.six)
          ∙ ap (utf8_to_gbk decode) (take-append_self w.code body)
          ∙ utf8_to_gbk-ascii decode keeps w.code good.ascii in
        rw
          (
            code_is,
            behind_code 0 body,
            behind_code 2 body,
            uint16-put_uint16 c big w.active1 good.active1_fits,
            decode_kline-prices_wire now w.prices after_prices good.prices_fit,
            cut_int-signed_wire w.reversed0 after0 good.reversed0_fits,
            cut_int-signed_wire w.reversed1 after1 good.reversed1_fits,
            cut_int64-wire w.volume after_volume good.volume_fits,
            cut_int-signed_wire w.intuition rest good.intuition_fits,
          )
          refl

  needing-ok {ℓ} :
      {A : Type ℓ} (n : ℕ) (part : Bytes → A) (bs : Bytes)
      → n ≤ length bs
      → needing n part bs ≡ ok (part bs)
  unfolding needing
  needing-ok n part bs h = rw (needing, ltb-below (length bs) n h) refl

  quote_round_lem :
      (w : QuoteWire) (rest : Bytes)
      → IsQuote w
      → quote_round c decode now (quote_wire w rest) ≡ ok (rest, quote_of w c now)
  unfolding quote_round
  quote_round_lem w rest good =
      let last = end_part w rest in
      let tail = tail_part w last in
      let middle = levels_part w tail in
      let size =
        length-append w.code
          (put_uint16 w.active1 (prices_wire w.prices (head_numbers w middle))) in
      rw
        (
          needing-ok 9 (quote_head c decode now) (quote_wire w rest)
              (omega (arith, size, good.six)),
          quote_head_lem w good middle,
          needing-ok 4 (quote_levels c decode now (head_of w now)) middle (omega arith),
          quote_levels_lem w good tail,
          needing-ok 2 (quote_tail c decode now (levels_of w c now)) tail (omega arith),
          quote_tail_lem w good last (levels_of w c now),
          needing-ok 4 (quote_end c decode now (tail_of w c now)) last (omega arith),
          quote_end_lem w good rest (tail_of w c now),
        )
        refl

  quote_loop_lem :
      (ws : List QuoteWire) (rest : Bytes)
      → All IsQuote ws
      → quote_loop c decode now (length ws) (quotes_wire ws rest) ≡ ok (quotes_of c now ws)
  unfolding quote_loop
  quote_loop_lem [] rest good = refl
  quote_loop_lem (w ∷ ws) rest good =
      rw (quote_round_lem w (quotes_wire ws rest) good.0, quote_loop_lem ws rest good.1) refl

  -- With the documented byte order of the conversions and a GBK decoder that keeps ASCII: behind any
  -- two bytes, `Decode` reads back up to 65535 quotes, with codes of six ASCII characters and
  -- numbers of 31 bits and a sign: each price is its step from the close, in exact thousandths, on
  -- each of the five levels of both sides too, and the other numbers are as they were written.
  pub quote_decode-quotes_wire :
      (ws : List QuoteWire) (a b : ℕ) (rest : Bytes)
      → length ws < 2 ^ 16
      → All IsQuote ws
      → quote_decode c decode now (a ∷ b ∷ put_uint16 (length ws) (quotes_wire ws rest))
        ≡ ok (quotes_of c now ws)
  unfolding quote_decode
  quote_decode-quotes_wire ws a b rest few good =
      rw
        (
          ltb-below (suc (suc (suc (suc (length (quotes_wire ws rest)))))) 4 (omega arith),
          uint16-put_uint16 c big (length ws) few,
          quote_loop_lem ws rest good,
        )
        refl
