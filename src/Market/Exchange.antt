-- ===== src/Market/Exchange.antt =====
-- protocol/types.go: `Exchange`, a uint8 with named values, its two names and `ParseExchange`.
use tdx.Base.{ℕ, ◌+◌, ◌-◌, ◌*◌, ◌^◌, Bool, true, false, ◌||◌, ◌==◌, ltb, if◌then◌else◌}
use tdx.Base.{List, [], ◌∷◌, Option, none, some}
use tdx.Base.Int.{ℤ, pos, ◌-ℤ◌, residue}
use tdx.Base.Outcome.{Outcome, ok, err, unknown_exchange}
use tdx.Base.Text.{Bytes, text, eqb_text, to_lower, trim_space, within}

abbrev pub exchange_sz : ℕ
exchange_sz = 0

abbrev pub exchange_sh : ℕ
exchange_sh = 1

abbrev pub exchange_bj : ℕ
exchange_bj = 2

abbrev pub exchange_nq : ℕ
exchange_nq = 44

abbrev pub exchange_sho : ℕ
exchange_sho = 8

abbrev pub exchange_szo : ℕ
exchange_szo = 9

abbrev pub exchange_hk : ℕ
exchange_hk = 31

abbrev pub exchange_us : ℕ
exchange_us = 74

abbrev pub exchange_csi : ℕ
exchange_csi = 62

abbrev pub exchange_cni : ℕ
exchange_cni = 102

abbrev pub exchange_hg : ℕ
exchange_hg = 38

abbrev pub exchange_cff : ℕ
exchange_cff = 47

abbrev pub exchange_czc : ℕ
exchange_czc = 28

abbrev pub exchange_dce : ℕ
exchange_dce = 29

abbrev pub exchange_shf : ℕ
exchange_shf = 30

abbrev pub exchange_gfe : ℕ
exchange_gfe = 66

abbrev pub exchange_hi : ℕ
exchange_hi = 27

abbrev pub exchange_of : ℕ
exchange_of = 33

abbrev pub exchange_cffo : ℕ
exchange_cffo = 7

abbrev pub exchange_czco : ℕ
exchange_czco = 4

abbrev pub exchange_dceo : ℕ
exchange_dceo = 5

abbrev pub exchange_shfo : ℕ
exchange_shfo = 6

abbrev pub exchange_gfeo : ℕ
exchange_gfeo = 67

abbrev pub exchange_qhz : ℕ
exchange_qhz = 42

-- A row of the two `switch` statements: value, `String()`, `Name()`.
abbrev exchange_table : List (ℕ × Bytes × Bytes)
exchange_table =
    (exchange_sz, text "sz", text "深圳")
    ∷ (exchange_sh, text "sh", text "上海")
    ∷ (exchange_bj, text "bj", text "北京")
    ∷ (exchange_nq, text "nq", text "新三板")
    ∷ (exchange_sho, text "sho", text "上海个股期权")
    ∷ (exchange_szo, text "szo", text "深圳个股期权")
    ∷ (exchange_hk, text "hk", text "香港交易所")
    ∷ (exchange_us, text "us", text "美国股票")
    ∷ (exchange_csi, text "csi", text "中证指数")
    ∷ (exchange_cni, text "cni", text "国证指数")
    ∷ (exchange_hg, text "hg", text "国内宏观指标")
    ∷ (exchange_cff, text "cff", text "中金期货")
    ∷ (exchange_czc, text "czc", text "郑州期货")
    ∷ (exchange_dce, text "dce", text "大连期货")
    ∷ (exchange_shf, text "shf", text "上海期货")
    ∷ (exchange_gfe, text "gfe", text "广州期货")
    ∷ (exchange_hi, text "hi", text "港股指数")
    ∷ (exchange_of, text "of", text "开放式基金净值")
    ∷ (exchange_cffo, text "cffo", text "中金所期权")
    ∷ (exchange_czco, text "czco", text "郑州期货期权")
    ∷ (exchange_dceo, text "dceo", text "大连期货期权")
    ∷ (exchange_shfo, text "shfo", text "上海期货期权")
    ∷ (exchange_gfeo, text "gfeo", text "广州期货期权")
    ∷ (exchange_qhz, text "qhz", text "期货类指数")
    ∷ []

abbrev find_row : ℕ → List (ℕ × Bytes × Bytes) → Bytes × Bytes
find_row e [] = (text "unknown", text "未知")
find_row e ((k, abbr, name) ∷ rows) = if e == k then (abbr, name) else find_row e rows

-- `Exchange.String` and `Exchange.Name`, a `switch` each.
abbrev pub exchange_string : ℕ → Bytes
exchange_string e = (find_row e exchange_table).0

abbrev pub exchange_name : ℕ → Bytes
exchange_name e = (find_row e exchange_table).1

abbrev pub all_exchanges : List ℕ
all_exchanges =
    exchange_sz ∷ exchange_sh ∷ exchange_bj ∷ exchange_cffo ∷ exchange_czco ∷ exchange_dceo
    ∷ exchange_shfo ∷ exchange_czc ∷ exchange_dce ∷ exchange_shf ∷ exchange_gfeo ∷ exchange_gfe
    ∷ exchange_hi ∷ exchange_of ∷ exchange_szo ∷ exchange_sho ∷ exchange_cff ∷ exchange_qhz
    ∷ exchange_nq ∷ exchange_hk ∷ exchange_csi ∷ exchange_hg ∷ exchange_us ∷ exchange_cni ∷ []

-- The digits of `strconv.Atoi`, most significant first.
abbrev digits_value : ℕ → Bytes → Option ℕ
digits_value acc [] = some acc
digits_value acc (d ∷ s) = elim (within b'0' b'9' d) [
  | true ↦ digits_value (acc * 10 + (d - b'0')) s
  | false ↦ none
]

abbrev unsigned_value : Bytes → Option ℕ
unsigned_value [] = none
unsigned_value (d ∷ s) = digits_value 0 (d ∷ s)

abbrev in_range : Bool → Option ℕ → Option ℤ
in_range negative none = none
in_range negative (some n) =
    if ltb (2 ^ 63) (if negative then n else n + 1)
    then none
    else some (if negative then pos 0 -ℤ pos n else pos n)

-- `strconv.Atoi`: a sign, digits, and a value that fits an int.
unfoldable pub atoi : Bytes → Option ℤ
unfolding ◌-ℤ◌
atoi [] = none
atoi (c ∷ s) =
    if c == b'-'
    then in_range true (unsigned_value s)
    else if c == b'+'
    then in_range false (unsigned_value s)
    else in_range false (unsigned_value (c ∷ s))

abbrev pub names_exchange : Bytes → ℕ → Bool
names_exchange s e =
    eqb_text s (to_lower (exchange_string e)) || eqb_text s (to_lower (exchange_name e))

abbrev pub find_exchange : Bytes → List ℕ → Outcome ℕ
find_exchange s [] = err unknown_exchange
find_exchange s (e ∷ es) = if names_exchange s e then ok e else find_exchange s es

abbrev parse_number : Bytes → Option ℤ → Outcome ℕ
parse_number s (some n) = ok (residue 256 n)
parse_number s none = find_exchange s all_exchanges

-- `ParseExchange`: a number, converted to uint8, or one of the names.
unfoldable pub parse_exchange : Bytes → Outcome ℕ
unfolding atoi
parse_exchange s = let lowered = to_lower (trim_space s) in parse_number lowered (atoi lowered)

abbrev any_exchange : Bytes → List ℕ → Bool
any_exchange s [] = false
any_exchange s (e ∷ es) = names_exchange s e || any_exchange s es

-- `isExchangeName`.
unfoldable pub is_exchange_name : Bytes → Bool
is_exchange_name s = any_exchange (to_lower (trim_space s)) all_exchanges
