-- ===== src/Message/Company.antt =====
-- protocol/model_company.go: the list of the files on a company, and a part of one of them. `decode`
-- is the decoder of GBK.
use tdx.Base.{ℕ, zero, suc, ◌==◌, ltb, if◌then◌else◌, List, [], ◌∷◌, ◌++◌, length, take, drop}
use tdx.Base.Text.{Bytes}
use tdx.Wire.Endian.{Conv, uint16, uint32}
use tdx.Wire.Frame.{Frame, control01}
use tdx.Block.Lines.{utf8_to_gbk}
use tdx.Block.Messages.{copied, put_uint32}

pub record CompanyCategory : Type 0 where
  pub name : Bytes
  pub filename : Bytes
  pub start : ℕ
  pub length : ℕ

unfoldable pub company_cat_frame : ℕ → Bytes → Frame
company_cat_frame market code = record {
  prefix = 0;
  msg_id = 0;
  control = control01;
  kind = 0x02cf;
  body = market ∷ 0 ∷ (copied 6 code ++ (0 ∷ 0 ∷ 0 ∷ 0 ∷ []));
}

unfoldable pub company_content_frame : ℕ → Bytes → Bytes → ℕ → ℕ → Frame
company_content_frame market code filename start length = record {
  prefix = 0;
  msg_id = 0;
  control = control01;
  kind = 0x02d0;
  body =
      market
      ∷ 0
      ∷ (copied 6 code
          ++ (0
              ∷ 0
              ∷ (copied 80 filename
                  ++ (put_uint32 start ++ (put_uint32 length ++ (0 ∷ 0 ∷ 0 ∷ 0 ∷ []))))));
}

-- `cutAtNull`: what stands in front of the first 0.
unfoldable pub cut_at_null : Bytes → Bytes
cut_at_null [] = []
cut_at_null (b ∷ bs) = let rest = cut_at_null bs in if b == 0 then [] else b ∷ rest

module _ (c : Conv) (decode : Bytes → Bytes) where
  -- One category of 152 bytes.
  unfoldable pub company_category : Bytes → CompanyCategory
  company_category bs = record {
    name = utf8_to_gbk decode (cut_at_null (take 64 bs));
    filename = cut_at_null (take 80 (drop 64 bs));
    start = uint32 c (take 4 (drop 144 bs));
    length = uint32 c (take 4 (drop 148 bs));
  }

  unfoldable pub company_cat_loop : ℕ → Bytes → List CompanyCategory
  company_cat_loop zero bs = []
  company_cat_loop (suc i) bs =
      let rest = company_cat_loop i (drop 152 bs) in
      if ltb (length bs) 152 then [] else company_category bs ∷ rest

  unfoldable pub company_cat_decode : Bytes → List CompanyCategory
  company_cat_decode bs =
      if ltb (length bs) 2 then [] else company_cat_loop (uint16 c (take 2 bs)) (drop 2 bs)

  -- The length is cut to what there is.
  unfoldable pub company_content_decode : Bytes → Bytes
  company_content_decode bs =
      if ltb (length bs) 12
      then []
      else utf8_to_gbk decode (take (uint16 c (take 2 (drop 10 bs))) (drop 12 bs))
