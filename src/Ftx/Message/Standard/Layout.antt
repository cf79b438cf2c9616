-- ===== src/Ftx/Message/Standard/Layout.antt =====
-- About the bits of a standard message.
use trx_rs.Common.{ℕ, ◌+◌, ◌*◌, ◌/◌, ◌%◌, ◌^◌, ◌<◌, ◌≡◌, refl, arith}
use trx_rs.Ftx.Message.Standard.{std_payload, std_fields}

-- Fields that fit into their bits are read back from the ten bytes.
pub std_fields-std_payload :
    (n29a n29b igrid4 i3 : ℕ)
    → n29a < 2 ^ 29
    → n29b < 2 ^ 29
    → igrid4 < 2 ^ 16
    → i3 < 2 ^ 3
    → std_fields (std_payload n29a n29b igrid4 i3)
      ≡ record { n29a = n29a; n29b = n29b; ir = igrid4 / 2 ^ 15; igrid4 = igrid4 % 2 ^ 15; i3 = i3 }
unfolding std_fields std_payload
std_fields-std_payload n29a n29b igrid4 i3 ha hb hg hi =
    let ea : n29a / 2 ^ 21 % 2 ^ 8 * 2 ^ 21
          + n29a / 2 ^ 13 % 2 ^ 8 * 2 ^ 13
          + n29a / 2 ^ 5 % 2 ^ 8 * 2 ^ 5
          + (n29a * 2 ^ 3 % 2 ^ 8 + n29b / 2 ^ 26 % 2 ^ 8) / 2 ^ 3
        ≡ n29a =
      omega arith in
    let eb : (n29a * 2 ^ 3 % 2 ^ 8 + n29b / 2 ^ 26 % 2 ^ 8) % 2 ^ 3 * 2 ^ 26
          + n29b / 2 ^ 18 % 2 ^ 8 * 2 ^ 18
          + n29b / 2 ^ 10 % 2 ^ 8 * 2 ^ 10
          + n29b / 2 ^ 2 % 2 ^ 8 * 2 ^ 2
          + (n29b * 2 ^ 6 % 2 ^ 8 + igrid4 / 2 ^ 10 % 2 ^ 8) / 2 ^ 6
        ≡ n29b =
      omega arith in
    let er : (n29b * 2 ^ 6 % 2 ^ 8 + igrid4 / 2 ^ 10 % 2 ^ 8) / 2 ^ 5 % 2 ≡ igrid4 / 2 ^ 15 =
      omega arith in
    let eg : (n29b * 2 ^ 6 % 2 ^ 8 + igrid4 / 2 ^ 10 % 2 ^ 8) % 2 ^ 5 * 2 ^ 10
          + igrid4 / 2 ^ 2 % 2 ^ 8 * 2 ^ 2
          + (igrid4 * 2 ^ 6 % 2 ^ 8 + i3 * 2 ^ 3) / 2 ^ 6
        ≡ igrid4 % 2 ^ 15 =
      omega arith in
    let ei : (igrid4 * 2 ^ 6 % 2 ^ 8 + i3 * 2 ^ 3) / 2 ^ 3 % 2 ^ 3 ≡ i3 = omega arith in
    rw (ea, eb, er, eg, ei) refl
