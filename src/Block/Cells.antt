-- ===== src/Block/Cells.antt =====
-- The bytes of a block in a block file, and what the parser reads from them.
use Prim.{tt}
use tdx.Base.{
  ℕ, zero, suc, ◌+◌, ◌-◌, ◌*◌, ◌/◌, ◌%◌, ◌^◌, ◌≤◌, ◌<◌, ◌≡◌, refl, sym, ap, ap₂, ◌∙◌, subst, ltb,
  false, List, [], ◌∷◌, ◌++◌, length, take, drop, replicate, All, arith, append_assoc, append-nil,
  length-append, take-append_self, drop_past,
}
use tdx.Base.Text.{Bytes}
use tdx.Wire.Endian.{Conv, IsBigEndian, uint16, uint16_lem}
use tdx.Block.Lines.{without_nul, utf8_to_gbk, cons_cut, trim_end}
use tdx.Block.File.{Block, code_cells, block_cell}

-- A string in a field of `n` bytes.
abbrev pub padded : ℕ → Bytes → Bytes
padded n s = s ++ replicate (n - length s) 0

abbrev pub put_uint16 : ℕ → Bytes → Bytes
put_uint16 n rest = n % 256 ∷ n / 256 ∷ rest

abbrev pub codes_bytes : List Bytes → Bytes
codes_bytes [] = []
codes_bytes (c ∷ cs) = padded 7 c ++ codes_bytes cs

abbrev pub block_bytes : Block → Bytes
block_bytes b =
    padded 9 b.name
    ++ (put_uint16 (length b.codes)
        (put_uint16 b.kind (codes_bytes b.codes ++ replicate (2800 - 7 * length b.codes) 0)))

abbrev pub blocks_bytes : List Block → Bytes
blocks_bytes [] = []
blocks_bytes (b ∷ bs) = block_bytes b ++ blocks_bytes bs

abbrev pub IsCode : Bytes → Type 0
IsCode s = (0 < length s) × (length s ≤ 7) × All (λ c. 0 < c) s

-- Names of ASCII, for which GBK and UTF-8 agree, and no more codes than fit.
pub record IsBlock (b : Block) : Type 0 where
  pub name_fits : length b.name ≤ 9
  pub ascii : All (λ c. (0 < c) × (c < 128)) b.name
  pub no_index : b.index ≡ []
  pub kind_fits : b.kind < 2 ^ 16
  pub few : length b.codes ≤ 400
  pub codes_good : All IsCode b.codes

abbrev pub KeepsAscii : (Bytes → Bytes) → Type 0
KeepsAscii decode = (s : Bytes) → All (λ c. c < 128) s → decode s ≡ s

length-replicate : (n a : ℕ) → length (replicate n a) ≡ n
length-replicate zero a = refl
length-replicate (suc n) a = ap suc (length-replicate n a)

pub length-padded : (n : ℕ) (s : Bytes) → length s ≤ n → length (padded n s) ≡ n
length-padded n s h =
    omega (arith, length-append s (replicate (n - length s) 0), length-replicate (n - length s) 0)

trim_end-zeros : (n : ℕ) → trim_end 0 (replicate n 0) ≡ []
trim_end-zeros zero = refl
trim_end-zeros (suc n) = ap (cons_cut 0 0) (trim_end-zeros n)

cons_cut-nonzero : (c : ℕ) (s : Bytes) → 0 < c → cons_cut 0 c s ≡ c ∷ s
cons_cut-nonzero c [] h = ground arith
cons_cut-nonzero c (d ∷ s) h = refl

trim_end-padding : (s : Bytes) (n : ℕ) → All (λ c. 0 < c) s → trim_end 0 (s ++ replicate n 0) ≡ s
trim_end-padding [] n h = trim_end-zeros n
trim_end-padding (c ∷ s) n h =
    ap (cons_cut 0 c) (trim_end-padding s n h.1) ∙ cons_cut-nonzero c s h.0

without_nul-zeros : (n : ℕ) → without_nul (replicate n 0) ≡ []
unfolding without_nul
without_nul-zeros zero = refl
without_nul-zeros (suc n) = without_nul-zeros n

without_nul-padding :
    (s : Bytes) (n : ℕ) → All (λ c. 0 < c) s → without_nul (s ++ replicate n 0) ≡ s
unfolding without_nul
without_nul-padding [] n h = without_nul-zeros n
without_nul-padding (c ∷ s) n h = ground (arith, without_nul-padding s n h.1, h.0)

pub take-padded : (n : ℕ) (s rest : Bytes) → length s ≤ n → take n (padded n s ++ rest) ≡ padded n s
take-padded n s rest h =
    ap (λ k. take k (padded n s ++ rest)) (sym (length-padded n s h))
    ∙ take-append_self (padded n s) rest

pub drop-padded :
    (n i : ℕ) (s rest : Bytes) → length s ≤ n → drop (n + i) (padded n s ++ rest) ≡ drop i rest
drop-padded n i s rest h =
    ap (λ k. drop (k + i) (padded n s ++ rest)) (sym (length-padded n s h))
    ∙ drop_past (padded n s) rest i

code_cells-next :
    (n : ℕ) (rest c : Bytes)
    → trim_end 0 (take 7 rest) ≡ c
    → 7 ≤ length rest
    → 0 < length c
    → code_cells (suc n) rest ≡ c ∷ code_cells n (drop 7 rest)
unfolding code_cells
code_cells-next n rest [] e long some_byte = absurd (omega arith)
code_cells-next n rest (x ∷ c) e long some_byte =
    let there : ltb (length rest) 7 ≡ false = ground arith in rw (code_cells, e, there) refl

pub code_cells-codes_bytes :
    (codes : List Bytes) (rest : Bytes)
    → All IsCode codes
    → code_cells (length codes) (codes_bytes codes ++ rest) ≡ codes
unfolding code_cells
code_cells-codes_bytes [] rest h = refl
code_cells-codes_bytes (c ∷ cs) rest h =
    let good = h.0 in
    let after = codes_bytes cs ++ rest in
    let long : 7 ≤ length (padded 7 c ++ after) =
      omega (arith, length-append (padded 7 c) after, length-padded 7 c good.1) in
    ap (code_cells (suc (length cs))) (append_assoc (padded 7 c) (codes_bytes cs) rest)
    ∙ code_cells-next (length cs) (padded 7 c ++ after) c
        (ap (trim_end 0) (take-padded 7 c after good.1) ∙ trim_end-padding c (7 - length c) good.2)
        long good.0
    ∙ ap (λ t. c ∷ code_cells (length cs) t) (drop-padded 7 0 c after good.1)
    ∙ ap (◌∷◌ c) (code_cells-codes_bytes cs rest h.1)

length-codes_bytes :
    (codes : List Bytes) → All IsCode codes → length (codes_bytes codes) ≡ 7 * length codes
length-codes_bytes [] h = refl
length-codes_bytes (c ∷ cs) h = omega (
  arith,
  length-append (padded 7 c) (codes_bytes cs),
  length-padded 7 c h.0.1,
  length-codes_bytes cs h.1,
)

Block-ext :
    (a b : Block)
    → a.name ≡ b.name
    → a.index ≡ b.index
    → a.kind ≡ b.kind
    → a.codes ≡ b.codes
    → a ≡ b
Block-ext a b n x k cs = λ i. record { name = n i; index = x i; kind = k i; codes = cs i }

ascii_padded :
    (s : Bytes) (n : ℕ)
    → All (λ c. (0 < c) × (c < 128)) s
    → All (λ c. 0 < c) s × All (λ c. c < 128) (s ++ replicate n 0)
ascii_padded [] zero h = (tt, tt)
ascii_padded [] (suc n) h = (tt, (omega arith, (ascii_padded [] n h).1))
ascii_padded (c ∷ s) n h = let rest = ascii_padded s n h.1 in ((h.0.0, rest.0), (h.0.1, rest.1))

without_nul_self : (s : Bytes) → All (λ c. 0 < c) s → without_nul s ≡ s
unfolding without_nul
without_nul_self [] h = refl
without_nul_self (c ∷ s) h = ground (arith, without_nul_self s h.1, h.0)

pub utf8_to_gbk-ascii :
    (decode : Bytes → Bytes)
    → KeepsAscii decode
    → (s : Bytes) → All (λ c. (0 < c) × (c < 128)) s
    → utf8_to_gbk decode s ≡ s
unfolding utf8_to_gbk
utf8_to_gbk-ascii decode keeps s h =
    let ascii = ascii_padded s 0 h in
    ap without_nul (keeps s (subst (All (λ c. c < 128)) (append-nil s) ascii.1))
    ∙ without_nul_self s ascii.0

pub uint16-put_uint16 :
    (c : Conv) → IsBigEndian c → (n : ℕ) → n < 2 ^ 16 → uint16 c (n % 256 ∷ n / 256 ∷ []) ≡ n
uint16-put_uint16 c big n h =
    uint16_lem c big (n % 256) (n / 256) (omega arith) (omega arith) ∙ omega arith

module _ (b : Block) (good : IsBlock b) where
  -- Behind the name: the two numbers, the codes and the zeros.
  abbrev codes_area : Bytes
  codes_area = codes_bytes b.codes ++ replicate (2800 - 7 * length b.codes) 0

  abbrev numbers_bytes : Bytes → Bytes
  numbers_bytes rest = put_uint16 (length b.codes) (put_uint16 b.kind rest)

  pub length-block_bytes : length (block_bytes b) ≡ 2813
  length-block_bytes = omega (
    arith,
    length-append (padded 9 b.name) (numbers_bytes codes_area),
    length-padded 9 b.name good.name_fits,
    length-append (codes_bytes b.codes) (replicate (2800 - 7 * length b.codes) 0),
    length-replicate (2800 - 7 * length b.codes) 0,
    length-codes_bytes b.codes good.codes_good,
    good.few,
  )

  block_bytes-append :
      (rest : Bytes)
      → block_bytes b ++ rest
        ≡ padded 9 b.name
          ++ numbers_bytes
              (codes_bytes b.codes ++ (replicate (2800 - 7 * length b.codes) 0 ++ rest))
  block_bytes-append rest =
      append_assoc (padded 9 b.name) (numbers_bytes codes_area) rest
      ∙ ap (λ t. padded 9 b.name ++ numbers_bytes t)
          (append_assoc (codes_bytes b.codes) (replicate (2800 - 7 * length b.codes) 0) rest)

  trim_end-utf8_to_gbk :
      (decode : Bytes → Bytes)
      → KeepsAscii decode
      → trim_end 0 (utf8_to_gbk decode (padded 9 b.name)) ≡ b.name
  unfolding utf8_to_gbk
  trim_end-utf8_to_gbk decode keeps =
      let ascii = ascii_padded b.name (9 - length b.name) good.ascii in
      ap (λ t. trim_end 0 (without_nul t)) (keeps (padded 9 b.name) ascii.1)
      ∙ ap (trim_end 0) (without_nul-padding b.name (9 - length b.name) ascii.0)
      ∙ ap (trim_end 0) (sym (append-nil b.name))
      ∙ trim_end-padding b.name 0 ascii.0

  pub block_cell-block_bytes :
      (c : Conv) (decode : Bytes → Bytes)
      → IsBigEndian c
      → KeepsAscii decode
      → (rest : Bytes) → block_cell c decode (block_bytes b ++ rest) ≡ b
  unfolding block_cell
  block_cell-block_bytes c decode big keeps rest =
      let fits = good.name_fits in
      let area = codes_bytes b.codes ++ (replicate (2800 - 7 * length b.codes) 0 ++ rest) in
      let after = numbers_bytes area in
      let whole = padded 9 b.name ++ after in
      let name_is : trim_end 0 (utf8_to_gbk decode (take 9 whole)) ≡ b.name =
        ap (λ t. trim_end 0 (utf8_to_gbk decode t)) (take-padded 9 b.name after fits)
        ∙ trim_end-utf8_to_gbk decode keeps in
      let kind_is : uint16 c (take 2 (drop 11 whole)) ≡ b.kind =
        ap (λ t. uint16 c (take 2 t)) (drop-padded 9 2 b.name after fits)
        ∙ uint16-put_uint16 c big b.kind good.kind_fits in
      let count_is : uint16 c (take 2 (drop 9 whole)) ≡ length b.codes =
        ap (λ t. uint16 c (take 2 t)) (drop-padded 9 0 b.name after fits)
        ∙ uint16-put_uint16 c big (length b.codes) (omega (arith, good.few)) in
      let codes_are : code_cells (uint16 c (take 2 (drop 9 whole))) (drop 13 whole) ≡ b.codes =
        ap₂ code_cells count_is (drop-padded 9 4 b.name after fits)
        ∙ code_cells-codes_bytes b.codes _ good.codes_good in
      ap (block_cell c decode) (block_bytes-append rest)
      ∙ Block-ext (block_cell c decode whole) b name_is (sym good.no_index) kind_is codes_are
