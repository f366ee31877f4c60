-- ===== src/Market/Prefixed.antt =====
-- `DecodeCode` on codes with a market in front, and on bare codes of six digits.
use tdx.Base.{
  ℕ, ◌≤◌, Bool, true, false, ◌==◌, ltb, if◌then◌else◌, [], ◌∷◌, ◌++◌, ◌≡◌, refl, arith, length, All,
  ◌⊎◌, inl, inr, some, none, ◌≢◌, ap, sym, subst,
}
use tdx.Base.Outcome.{Outcome, ok, err, unknown_code}
use tdx.Base.Text.{Bytes, text, eqb_text, eqb_text_iff, trim_space}
use tdx.Market.Exchange.{exchange_sz, exchange_sh, exchange_bj, exchange_string, all_exchanges}
use tdx.Market.Kinds.{
  add_prefix, is_sh_stock_number, is_sz_stock_number, is_bj_stock_number, is_sh_etf, is_sz_etf,
  is_bj_etf, is_sh_index, is_sz_index, is_bj_index, is_block, is_sh_bond, is_sz_bond,
}
use tdx.Market.Symbol.{is_digits, normalize_code, split_prefix, candidates}
use tdx.Market.Decode.{decode_code, decode_step, decode_bare, split_suffix}

abbrev pub IsDigit : ℕ → Type 0
IsDigit c = (48 ≤ c) × (c ≤ 57)

-- Six digits, one by one.
data Six : Bytes → Type 0 where
  six :
      (a b c d e f : ℕ)
      → IsDigit a
      → IsDigit b
      → IsDigit c
      → IsDigit d
      → IsDigit e
      → IsDigit f
      → Six (a ∷ b ∷ c ∷ d ∷ e ∷ f ∷ [])

Six-of : (n : Bytes) → All IsDigit n → length n ≡ 6 → Six n
Six-of [] h k = absurd (omega arith)
Six-of (a ∷ []) h k = absurd (omega arith)
Six-of (a ∷ b ∷ []) h k = absurd (omega arith)
Six-of (a ∷ b ∷ c ∷ []) h k = absurd (omega arith)
Six-of (a ∷ b ∷ c ∷ d ∷ []) h k = absurd (omega arith)
Six-of (a ∷ b ∷ c ∷ d ∷ e ∷ []) h k = absurd (omega arith)
Six-of (a ∷ b ∷ c ∷ d ∷ e ∷ f ∷ []) (ha, (hb, (hc, (hd, (he, (hf, _)))))) k =
    six a b c d e f ha hb hc hd he hf
Six-of (a ∷ b ∷ c ∷ d ∷ e ∷ f ∷ g ∷ n) h k = absurd (omega arith)

abbrev pub IsMainland : ℕ → Type 0
IsMainland e = (e ≡ exchange_sz) ⊎ (e ≡ exchange_sh) ⊎ (e ≡ exchange_bj)

normalize-digits : (e : ℕ) {n : Bytes} → ltb e 3 ≡ true → Six n → normalize_code e n ≡ ok n
unfolding normalize_code is_digits
normalize-digits e h (six a b c d e' f ha hb hc hd he hf) = ground arith

-- The search among the names finds the market's own name alone.
candidates_sz :
    {n : Bytes} → Six n → candidates (text "sz" ++ n) all_exchanges ≡ record { ex = 0; ln = 2 } ∷ []
unfolding candidates
candidates_sz (six a b c d e f ha hb hc hd he hf) = ground arith

candidates_sh :
    {n : Bytes} → Six n → candidates (text "sh" ++ n) all_exchanges ≡ record { ex = 1; ln = 2 } ∷ []
unfolding candidates
candidates_sh (six a b c d e f ha hb hc hd he hf) = ground arith

candidates_bj :
    {n : Bytes} → Six n → candidates (text "bj" ++ n) all_exchanges ≡ record { ex = 2; ln = 2 } ∷ []
unfolding candidates
candidates_bj (six a b c d e f ha hb hc hd he hf) = ground arith

candidates_digits : {n : Bytes} → Six n → candidates n all_exchanges ≡ []
unfolding candidates
candidates_digits (six a b c d e f ha hb hc hd he hf) = ground arith

split_sz : {n : Bytes} → Six n → split_prefix (text "sz" ++ n) ≡ some (exchange_sz, n)
unfolding split_prefix
split_sz s = rw (candidates_sz s, normalize-digits 0 refl s)

split_sh : {n : Bytes} → Six n → split_prefix (text "sh" ++ n) ≡ some (exchange_sh, n)
unfolding split_prefix
split_sh s = rw (candidates_sh s, normalize-digits 1 refl s)

split_bj : {n : Bytes} → Six n → split_prefix (text "bj" ++ n) ≡ some (exchange_bj, n)
unfolding split_prefix
split_bj s = rw (candidates_bj s, normalize-digits 2 refl s)

split_digits : {n : Bytes} → Six n → split_prefix n ≡ none
unfolding split_prefix
split_digits s = rw (candidates_digits s)

split_suffix-digits : {n : Bytes} → Six n → split_suffix n ≡ none
unfolding split_suffix
split_suffix-digits (six a b c d e f ha hb hc hd he hf) = ground arith

is_digits-Six : {n : Bytes} → Six n → is_digits n ≡ true
unfolding is_digits
is_digits-Six (six a b c d e f ha hb hc hd he hf) = ground arith

trim-digits : {n : Bytes} → Six n → trim_space n ≡ n
trim-digits (six a b c d e f ha hb hc hd he hf) = ground arith

trim-letters : {n : Bytes} (x y : ℕ) → Six n → 97 ≤ x → 97 ≤ y → trim_space (x ∷ y ∷ n) ≡ x ∷ y ∷ n
trim-letters x y (six a b c d e f ha hb hc hd he hf) hx hy = ground arith

-- A code with a market in front is answered by the first step, whatever the recursive call does.
decode_step-split :
    (again : Bytes → Outcome (ℕ × Bytes)) (x y : ℕ) {n : Bytes} (r : ℕ × Bytes)
    → Six n
    → 97 ≤ x
    → 97 ≤ y
    → split_prefix (x ∷ y ∷ n) ≡ some r
    → decode_step again (x ∷ y ∷ n) ≡ ok r
unfolding decode_step
decode_step-split again x y r s hx hy e = rw (trim-letters x y s hx hy, e) (ground arith)

decode_step-mainland :
    (again : Bytes → Outcome (ℕ × Bytes)) (e : ℕ) {n : Bytes}
    → IsMainland e
    → Six n
    → decode_step again (exchange_string e ++ n) ≡ ok (e, n)
decode_step-mainland again e {n} (inl p) s =
    subst (λ k. decode_step again (exchange_string k ++ n) ≡ ok (k, n)) (sym p)
      (decode_step-split again b's' b'z' _ s (omega arith) (omega arith) (split_sz s))
decode_step-mainland again e {n} (inr (inl p)) s =
    subst (λ k. decode_step again (exchange_string k ++ n) ≡ ok (k, n)) (sym p)
      (decode_step-split again b's' b'h' _ s (omega arith) (omega arith) (split_sh s))
decode_step-mainland again e {n} (inr (inr p)) s =
    subst (λ k. decode_step again (exchange_string k ++ n) ≡ ok (k, n)) (sym p)
      (decode_step-split again b'b' b'j' _ s (omega arith) (omega arith) (split_bj s))

-- Behind the name of a mainland market six digits are that market's code.
pub decode_code-mainland :
    (e : ℕ) (n : Bytes)
    → IsMainland e
    → All IsDigit n
    → length n ≡ 6
    → decode_code (exchange_string e ++ n) ≡ ok (e, n)
unfolding decode_code
decode_code-mainland e n h d k = decode_step-mainland _ e h (Six-of n d k)

-- What `AddPrefix` may make of a code.
abbrev pub IsPrefixed : Bytes → Bytes → Type 0
IsPrefixed n r = (r ≡ n) ⊎ ((e : ℕ) × IsMainland e × (r ≡ exchange_string e ++ n))

either_way :
    (n : Bytes) (b : Bool) {x y : Bytes}
    → IsPrefixed n x
    → IsPrefixed n y
    → IsPrefixed n (if b then x else y)
either_way n true h k = h
either_way n false h k = k

put_sz : (n : Bytes) → IsPrefixed n (exchange_string exchange_sz ++ n)
put_sz n = inr (exchange_sz, inl refl, refl)

put_sh : (n : Bytes) → IsPrefixed n (exchange_string exchange_sh ++ n)
put_sh n = inr (exchange_sh, inr (inl refl), refl)

put_bj : (n : Bytes) → IsPrefixed n (exchange_string exchange_bj ++ n)
put_bj n = inr (exchange_bj, inr (inr refl), refl)

add_prefix-IsPrefixed : (n : Bytes) → IsPrefixed n (add_prefix n)
unfolding add_prefix
add_prefix-IsPrefixed n =
    let left : IsPrefixed n n = inl refl in
    let bonds =
      either_way n (is_sh_bond n) (put_sh n) (either_way n (is_sz_bond n) (put_sz n) left) in
    let blocks = either_way n (is_block n) (put_sh n) bonds in
    let bj_indexes = either_way n (is_bj_index n) (put_bj n) blocks in
    let sz_indexes = either_way n (is_sz_index n) (put_sz n) bj_indexes in
    let indexes = either_way n (is_sh_index n) (put_sh n) sz_indexes in
    let bj_funds = either_way n (is_bj_etf n) (put_bj n) indexes in
    let sz_funds = either_way n (is_sz_etf n) (put_sz n) bj_funds in
    let funds = either_way n (is_sh_etf n) (put_sh n) sz_funds in
    let bj_stocks = either_way n (is_bj_stock_number n) (put_bj n) funds in
    let sz_stocks = either_way n (is_sz_stock_number n) (put_sz n) bj_stocks in
    let stocks = either_way n (is_sh_stock_number n) (put_sh n) sz_stocks in
    either_way n (length n == 6) stocks left

longer-ne : (n : Bytes) (x y : ℕ) → eqb_text (x ∷ y ∷ n) n ≡ false
longer-ne n x y = ground (arith, eqb_text_iff (x ∷ y ∷ n) n, not_itself)
  where
    not_itself : (x ∷ y ∷ n) ≢ n
    not_itself e = absurd (omega (arith, ap (λ (l : Bytes). length l) e))

mainland-ne : (e : ℕ) (n : Bytes) → IsMainland e → eqb_text (exchange_string e ++ n) n ≡ false
mainland-ne e n (inl p) =
    subst (λ k. eqb_text (exchange_string k ++ n) n ≡ false) (sym p) (longer-ne n b's' b'z')
mainland-ne e n (inr (inl p)) =
    subst (λ k. eqb_text (exchange_string k ++ n) n ≡ false) (sym p) (longer-ne n b's' b'h')
mainland-ne e n (inr (inr p)) =
    subst (λ k. eqb_text (exchange_string k ++ n) n ≡ false) (sym p) (longer-ne n b'b' b'j')

length-Six : {n : Bytes} → Six n → length n ≡ 6
length-Six (six a b c d e f ha hb hc hd he hf) = refl

-- On six digits the first two forms do not apply.
decode_step-digits :
    (again : Bytes → Outcome (ℕ × Bytes)) {n : Bytes}
    → Six n
    → decode_step again n
      ≡ (if eqb_text (add_prefix n) n then err unknown_code else again (add_prefix n))
unfolding decode_step decode_bare
decode_step-digits again s =
    rw (trim-digits s, split_digits s, split_suffix-digits s, is_digits-Six s, length-Six s)

-- A bare code of six digits is decoded as the one that `AddPrefix` makes of it, in the market that
-- it puts in front; a code to which `AddPrefix` adds nothing is refused.
pub decode_code-digits :
    (n : Bytes)
    → All IsDigit n
    → length n ≡ 6
    → ((add_prefix n ≡ n) × (decode_code n ≡ err unknown_code))
      ⊎ ((e : ℕ) × IsMainland e
          × (add_prefix n ≡ exchange_string e ++ n)
          × (decode_code n ≡ ok (e, n)))
unfolding decode_code
decode_code-digits n d k =
    let s = Six-of n d k in
    elim (add_prefix-IsPrefixed n) [
      | inl same ↦ inl (same, rw (decode_step-digits _ s, same, (eqb_text_iff n n).1 refl))
      | inr (e, h, p) ↦ inr (
        e,
        h,
        p,
        rw (decode_step-digits _ s, p, mainland-ne e n h) (decode_step-mainland _ e h s),
      )
    ]
