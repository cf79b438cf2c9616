-- ===== src/Ftx/Message/Nonstandard/Layout.antt =====
-- About the bits of a nonstandard message.
use trx_rs.Common.{◌+◌, ◌*◌, ◌/◌, ◌%◌, ◌^◌, ◌<◌, ◌≡◌, refl, arith}
use trx_rs.Ftx.Message.Nonstandard.{NonstdFields, nonstd_payload, nonstd_fields}

-- the fields fit into their bits
pub record IsNarrow (f : NonstdFields) : Type 0 where
  pub hash : f.n12 < 2 ^ 12
  pub text : f.n58 < 2 ^ 58
  pub flip : f.iflip < 2
  pub code : f.nrpt < 4
  pub cq_bit : f.icq < 2

-- Fields that fit into their bits are read back from the ten bytes.
pub nonstd_fields-nonstd_payload :
    (f : NonstdFields) → IsNarrow f → nonstd_fields (nonstd_payload f) ≡ f
unfolding nonstd_fields nonstd_payload
nonstd_fields-nonstd_payload f v =
    let hash = v.hash in
    let text = v.text in
    let flip = v.flip in
    let code = v.code in
    let bit = v.cq_bit in
    let ea : f.n12 / 2 ^ 4 % 2 ^ 8 * 2 ^ 4
          + (f.n12 * 2 ^ 4 % 2 ^ 8 + f.n58 / 2 ^ 54 % 2 ^ 8) / 2 ^ 4
        ≡ f.n12 =
      omega arith in
    let eb : (f.n12 * 2 ^ 4 % 2 ^ 8 + f.n58 / 2 ^ 54 % 2 ^ 8) % 2 ^ 4 * 2 ^ 54
          + f.n58 / 2 ^ 46 % 2 ^ 8 * 2 ^ 46
          + f.n58 / 2 ^ 38 % 2 ^ 8 * 2 ^ 38
          + f.n58 / 2 ^ 30 % 2 ^ 8 * 2 ^ 30
          + f.n58 / 2 ^ 22 % 2 ^ 8 * 2 ^ 22
          + f.n58 / 2 ^ 14 % 2 ^ 8 * 2 ^ 14
          + f.n58 / 2 ^ 6 % 2 ^ 8 * 2 ^ 6
          + (f.n58 * 2 ^ 2 % 2 ^ 8 + f.iflip * 2 + f.nrpt / 2) / 2 ^ 2
        ≡ f.n58 =
      omega arith in
    let ec : (f.n58 * 2 ^ 2 % 2 ^ 8 + f.iflip * 2 + f.nrpt / 2) / 2 % 2 ≡ f.iflip = omega arith in
    let ed : (f.n58 * 2 ^ 2 % 2 ^ 8 + f.iflip * 2 + f.nrpt / 2) % 2 * 2
          + (f.nrpt * 2 ^ 7 % 2 ^ 8 + f.icq * 2 ^ 6 + 4 * 2 ^ 3) / 2 ^ 7
        ≡ f.nrpt =
      omega arith in
    let ee : (f.nrpt * 2 ^ 7 % 2 ^ 8 + f.icq * 2 ^ 6 + 4 * 2 ^ 3) / 2 ^ 6 % 2 ≡ f.icq =
      omega arith in
    simp (ea, eb, ec, ed, ee) refl
