-- ===== src/Lib.antt =====
-- Verification of tdx, a client for the market data protocol of Tongdaxin, in Go. The paths below
-- start at the root of the repository.
--
-- The program. A request is a frame (protocol/frame.go) whose data a message (protocol/model_*.go)
-- makes; the client (client.go) sends it, `ReadFrom` cuts the answer out of the stream, `Decode`
-- takes its header apart and inflates its data, and the message's own `Decode` reads the fields,
-- many of them numbers of variable length (protocol/types_price.go). Codes are brought into one
-- form by protocol/unit.go. Trades and candles are merged into longer candles, and indicators are
-- taken over candles. A pool (pool.go) hands out connected clients.
--
-- The files, and what they model.
--   Base: names of the libraries, Boolean tests and lists over native numbers; Base.Int, the int64
--     and int32 of Go with their wrap-around; Base.Text, byte strings; Base.Outcome, a value, an
--     error or a panic.
--   Wire: protocol/frame.go. Endian: `Reverse`, `Bytes`, `Uint16`, `Uint32`. Frame: `Frame.Bytes`,
--     `Decode`. Stream: `ReadFrom`. Codec: the theorems, one module for each direction.
--   Varint: protocol/types_price.go. Cut: `getData`, `GetPrice`, `CutInt`, `CutInt64`.
--   Market: protocol/types.go and protocol/unit.go. Exchange: the markets and `ParseExchange`.
--     Kinds: the classifiers and `AddPrefix`. Symbol and Decode: `DecodeCode`. Parse, Exclusive,
--     Prefixed and Names: the theorems.
--   Kline: protocol/model_kline.go. Defs, Indicator, Oscillator, Merge: `Kline`, the indicators,
--     `I64Sqrt` of protocol/unit.go, `Klines.Kline` and `Klines.Merge`. The other modules hold the
--     theorems.
--   Candle: protocol/model_kline.go. Float: `getVolume` of protocol/unit.go. Defs: `KlineReq.Bytes`,
--     `kline.Frame`, `kline.Decode`, `FixKlineTime`, and `GetTime` of protocol/unit.go. Bars: the
--     wire form and its meaning.
--   Trade: protocol/model_trade.go. Defs: `Trade`, `Volume2`, `Trades.Kline`. Minute:
--     `klinesForDay`. Decode: `trade.Frame` and `trade.Decode`.
--   Intraday: protocol/model_minute.go and protocol/model_history_minute.go.
--   Message: protocol/model_connect.go, protocol/model_count.go, protocol/model_code.go (Basic),
--     protocol/model_call_auction.go (Auction), protocol/model_history_trade.go (PastTrade),
--     protocol/model_gbbq.go (Gbbq), protocol/model_company.go (Company).
--   Pool: pool.go, with a `select` as a choice between the cases that are ready and the callers as
--     a step relation.
--   Client: client.go. Paging: the loops of `GetMinuteTradeAll`, `GetHistoryMinuteTradeDay` and
--     `GetCodeAll`. Until: `GetKlineUntil`, `GetIndexUntil` and their `All`. Files: `GetReportFile`
--     and `GetBlockFileRaw`. Codes: `GetCodeAll`, the lists of codes of a kind, and `GetGbbqAll`.
--     Session: `SendFrame` and `handlerDealMessage`. Requests and Quotes: the operations that send one
--     frame. Archive: `GetZHBFiles` and the parsers of its files. Opening:
--     `GetKlineMinute241Until`. Whole, Chained, Resume, Newest, Download, Same and Own: the
--     theorems.
--   Block: protocol/model_block.go, protocol/model_spblock.go, protocol/model_tdxbk.go. Lines:
--     `UTF8ToGBK` of protocol/unit.go and the cutting of texts. File: `ParseBlockFile`. Config: the
--     parsers of lines. Special: `ParseSpBlock`. Index: `FillBlockIndex` and `FillBlockIndexAlias`.
--     Messages: the frames and decoders. Cells and RoundTrip: the theorems.
--   Workday: workday.go. Days: `Is`, `Range`, `Iter` and their forms for a year. Passes and Years:
--     the theorems.
--   Pull: extend/pull. Candles: `KlineDay` and `KlineMinute` of extend/pull/store.go and
--     `DayToPeriod` and `MinuteToPeriod` of extend/pull/merge.go. Coverage:
--     `saveMinCoverage` of extend/pull/coverage.go. Dates and Calendar: `DayToCalendar` of
--     extend/pull/calendar.go. Sessions: `MinuteToSessions`. Order, Periods, Whole and Minutes: the
--     theorems.
--   Quote: protocol/model_quote.go and `DecodeKline` of protocol/types_price.go. Defs: `quote.Frame`
--     and `quote.Decode`. Wire, Numbers and RoundTrip: the wire form and the theorems.
--   Server: extend/tcpserver/protocol.go. Framing: `readFrame` and `writeFrame`. Messages: the
--     theorems.
--   Tests: runs at concrete inputs, and each theorem at an input that meets its hypotheses.
--
-- Parameters. The conversions between numbers and bytes are `conv` of another module: the record
-- `Conv`, with its documented byte order as the hypothesis `IsBigEndian`. `inflate` is the zlib
-- reader. `select` and `pick` are `conv.Select`, with the hypotheses `IsSelect` and `IsChoice`. The
-- start of `I64Sqrt`, a square root in floating point, is any number. `dial` is the dialing of the
-- pool. The record `Reader` holds what the candle messages use besides: `date`, which is `time.Date`
-- in the local zone, and `counts`, which is `conv.Int`. The times of the day that `FixKlineTime` takes
-- from the clock are arguments.
--
-- The answer of the server to a request is a parameter of the loops of Client, with the documented
-- paging as a hypothesis: `ServesBack`, `ServesOn`, `ServesKlines` and `ServesFile`, and `Framed` for the range
-- of a length. The decoder of GBK is a parameter of Block, and `KeepsAscii` says that it keeps ASCII.
-- In Session the waiting is a list of the answers that were handed over, and the record `Decoders`
-- holds what the decoders take besides the bytes. `unzip` is the reader of archives, and `models` the
-- corrections of prices that the codes give.
-- The cache of workdays is a set of times. The float64 of the pulls is a type with the operations
-- of the record `Floats`.
--
-- Slices. Go can cut a slice up to its capacity, beyond its length. In the decoders each such cut is
-- followed by one that is checked against the length, so a slice that is too short panics as in the
-- model, with one difference: an error found in bytes past the length would be returned before the
-- panic.
--
-- Bounds and fuel. `ReadFrom` takes four bytes a round, so `length s + 1` rounds see the end of the
-- input first. `I64Sqrt` stops going up at x and going down at 0. `Merge` takes at least one candle
-- a round, so the number of candles is enough. The loops of Client and of the workdays have no
-- bound in the source: they take a fuel, give `none` where it is used up, and the theorems say which
-- fuel is enough. `DayToCalendar` takes a candle a round. `DecodeCode` calls itself once at most. The other
-- loops are over a list or a number. An addition, a difference, a product or a quotient of int64
-- wraps around; what a theorem needs for this not to happen is among its hypotheses.
--
-- Names. `gbk` stands for the conversion of GBK bytes into a string.
--
-- Texts. Lower and upper case are those of ASCII, and `TrimSpace` takes the ASCII blanks off; the
-- codes that the program accepts have no others besides the names of the markets.
--
-- Floats. A volume on the wire is a 32-bit float; its int64 is taken from sign, exponent and
-- mantissa, and what has none becomes the least int64, as on amd64.
--
-- Times. A candle's time is its Unix seconds, a trade's the midnight of its day and the minutes
-- since. A time of the workdays is the local clock's nanoseconds from the year 1 on; one of
-- the sessions is in seconds, and negative before that year. The zone has no change of the clock, and
-- no Unix time is so far away that a `time.Time` wraps around.
--
-- Not modelled: input and output (the connection of client.go, dial.go, hosts.go), the databases and
-- timers of codes.go, workday.go, manage.go and updated.go, the strings that are
-- only printed, the factors of rights and dividends, the messages of extended markets
-- (protocol/model_ex.go), the servers and the other pulls under extend, the rates that are float64,
-- the parsers of the finance and statistics files, `Merge241`, `Sort`, and
-- `Trades.Klines`, which sorts the days by a map of another module. lib/gbbq is a copy of another
-- project's code.
pub mod Base
pub mod Block
pub mod Candle
pub mod Client
pub mod Intraday
pub mod Kline
pub mod Market
pub mod Message
pub mod Pool
pub mod Pull
pub mod Quote
pub mod Server
pub mod Tests
pub mod Trade
pub mod Varint
pub mod Wire
pub mod Workday
