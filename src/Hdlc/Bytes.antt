-- ===== src/Hdlc/Bytes.antt =====
-- Bytes and their bits, lowest first, and a frame with its FCS.
use native.Mathlib.Nat.{pow-suc}
use trx_rs.Common.{
  ℕ, zero, suc, ◌*◌, ◌/◌, ◌%◌, ◌^◌, ◌<◌, bit_xor, List, [], ◌∷◌, ◌++◌, ◌≡◌, refl, ap, ◌∙◌, arith,
  ◌==◌, length, if◌then◌else◌,
}
use trx_rs.Common.Bits.{bit_xor-lt}
use trx_rs.Hdlc.{crc16ccitt, crc_bytes, crc_table, crc_rounds, byte_of, bytes_of, set_bit}
use trx_rs.Hdlc.Stuffing.{AreBits, AreBits-append}

pub bits_of : ℕ → ℕ → List ℕ
bits_of zero b = []
bits_of (suc n) b = b % 2 ∷ bits_of n (b / 2)

unfoldable pub all_bits : List ℕ → List ℕ
unfolding bits_of
all_bits [] = []
all_bits (b ∷ bs) = bits_of 8 b ++ all_bits bs

abbrev pub AreBytes : List ℕ → Type 0
AreBytes [] = Unit
AreBytes (b ∷ bs) = (b < 2 ^ 8) × AreBytes bs

-- both ways to take a bit
abbrev pub KeepsBits : (ℕ → ℕ) → Type 0
KeepsBits value = (b : ℕ) → value (b % 2) ≡ b % 2

pub set_bit-KeepsBits : KeepsBits set_bit
set_bit-KeepsBits b = ground arith

byte_of-bits_of :
    (value : ℕ → ℕ) → KeepsBits value → (n b : ℕ) → b < 2 ^ n → byte_of value (bits_of n b) ≡ b
unfolding byte_of bits_of
byte_of-bits_of value keeps zero b h = omega arith
byte_of-bits_of value keeps (suc n) b h =
    let h' : b < 2 ^ n * 2 = rw pow-suc at h in
    omega (arith, keeps b, byte_of-bits_of value keeps n (b / 2) (omega arith))

pair : {x y : ℕ} {xs ys : List ℕ} → x ≡ y → xs ≡ ys → x ∷ xs ≡ y ∷ ys
pair {x} {y} {xs} {ys} p q = ap (λ b. b ∷ xs) p ∙ ap (λ bs. y ∷ bs) q

pub bytes_of-all_bits :
    (value : ℕ → ℕ)
    → KeepsBits value
    → (bs tail : List ℕ) → AreBytes bs
    → bytes_of value (length bs) (all_bits bs ++ tail) ≡ bs
unfolding bytes_of all_bits bits_of
bytes_of-all_bits value keeps [] tail v = refl
bytes_of-all_bits value keeps (b ∷ bs) tail v =
    pair (byte_of-bits_of value keeps 8 b v.0) (bytes_of-all_bits value keeps bs tail v.1)

pub length-all_bits : (bs : List ℕ) → length (all_bits bs) ≡ 8 * length bs
unfolding all_bits bits_of
length-all_bits [] = refl
length-all_bits (b ∷ bs) = omega (arith, length-all_bits bs)

bits_of-AreBits : (n b : ℕ) → AreBits (bits_of n b)
unfolding bits_of
bits_of-AreBits zero b = tt
bits_of-AreBits (suc n) b = (omega arith, bits_of-AreBits n (b / 2))

pub all_bits-AreBits : (bs : List ℕ) → AreBits (all_bits bs)
unfolding all_bits
all_bits-AreBits [] = tt
all_bits-AreBits (b ∷ bs) =
    AreBits-append (bits_of 8 b) (all_bits bs) (bits_of-AreBits 8 b) (all_bits-AreBits bs)

crc_rounds-lt : (k c : ℕ) → c < 2 ^ 16 → crc_rounds k c < 2 ^ 16
unfolding crc_rounds
crc_rounds-lt zero c h = h
crc_rounds-lt (suc k) c h =
    crc_rounds-lt k (if c % 2 == 1 then bit_xor (c / 2) 0x8408 else c / 2)
      (ground (arith, bit_xor-lt 16 (c / 2) 0x8408))

crc_table-lt : (i : ℕ) → i < 2 ^ 8 → crc_table i < 2 ^ 16
unfolding crc_table
crc_table-lt i h = crc_rounds-lt 8 i (omega arith)

crc_bytes-lt : (bs : List ℕ) (c : ℕ) → c < 2 ^ 16 → crc_bytes c bs < 2 ^ 16
unfolding crc_bytes
crc_bytes-lt [] c h = h
crc_bytes-lt (b ∷ bs) c h =
    crc_bytes-lt bs (bit_xor (c / 2 ^ 8) (crc_table (bit_xor c b % 2 ^ 8))) (
      bit_xor-lt 16 (c / 2 ^ 8) (crc_table (bit_xor c b % 2 ^ 8)) (omega arith)
        (crc_table-lt (bit_xor c b % 2 ^ 8) (omega arith)))

pub crc16ccitt-lt : (bs : List ℕ) → crc16ccitt bs < 2 ^ 16
unfolding crc16ccitt
crc16ccitt-lt bs =
    bit_xor-lt 16 (crc_bytes 0xFFFF bs) 0xFFFF (crc_bytes-lt bs 0xFFFF (omega arith)) (omega arith)
