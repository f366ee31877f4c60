-- ===== src/Tests/Message.antt =====
-- Runs of the smaller messages.
use tdx.Base.{◌≡◌, refl, arith, true, List, [], ◌∷◌, ◌++◌, All, length, map, some}
use tdx.Base.Int.{pos}
use tdx.Base.Outcome.{ok}
use tdx.Base.Text.{text}
use tdx.Wire.Endian.{le_bytes16}
use tdx.Trade.Decode.{base_price}
use tdx.Message.Auction.{
  Entry, IsEntry, entries_wire, entry_meaning, auction_decode, auction_decode-entries_wire,
}
use tdx.Message.Company.{cut_at_null}
use tdx.Message.PastTrade.{past_wire, past_trades, past_trade_decode, past_trade_decode-past_wire}
use tdx.Tests.Wire.{big_endian, big_endian-IsBigEndian}
use tdx.Tests.Trade.{ticks, ticks-IsTick}

-- More sellers than two bytes hold.
abbrev entries : List Entry
entries =
    record {
      minutes = 555;
      second = 57;
      price = 0x413c0000;
      matched = 725;
      sellers = true;
      waiting = 109912;
      unknown = 0;
    }
    ∷ []

entries-IsEntry : All IsEntry entries
entries-IsEntry = (
  record {
    minutes_fit = omega arith;
    price_fits = omega arith;
    matched_fits = omega arith;
    waiting_fits = omega arith;
    sellers_wait = λ h. omega arith;
  },
  tt,
)

auction_decode-entries_wire_example :
    auction_decode big_endian (
      le_bytes16 big_endian (length entries)
      ++ entries_wire big_endian big_endian-IsBigEndian entries [])
    ≡ ok (length entries, map entry_meaning entries)
auction_decode-entries_wire_example =
    auction_decode-entries_wire big_endian big_endian-IsBigEndian entries [] (omega arith)
      entries-IsEntry

past_trade_decode-past_wire_example :
    past_trade_decode big_endian
      (record { date = some (pos 0); code = text "sz000001" })
      (le_bytes16 big_endian (length ticks)
        ++ (1 ∷ 2 ∷ 3 ∷ 4 ∷ past_wire big_endian big_endian-IsBigEndian ticks []))
    ≡ ok (record {
      count = 2;
      list = past_trades (base_price (text "sz000001")) (pos 0) (pos 0) ticks;
    })
past_trade_decode-past_wire_example =
    past_trade_decode-past_wire big_endian big_endian-IsBigEndian ticks (text "sz000001") (pos 0) 1
      2 3 4 [] (omega arith) ticks-IsTick

-- A name of one byte in a field that is filled up, and text after the first 0 that is not read.
name_cut : cut_at_null (65 ∷ 0 ∷ 66 ∷ []) ≡ 65 ∷ []
unfolding cut_at_null
name_cut = refl
