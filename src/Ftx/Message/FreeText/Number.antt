-- ===== src/Ftx/Message/FreeText/Number.antt =====
-- About the long arithmetic of free text: the bytes as one number.
use native.Mathlib.Nat.{pow-suc, mul-le-mul_right, suc-mul}
use mathlib.Core.Path.{ap₂}
use mathlib.Core.Option.{none-ne-some, some-injective}
use trx_rs.Common.{
  ℕ, zero, suc, ◌+◌, ◌*◌, ◌/◌, ◌%◌, ◌^◌, ◌<◌, ◌≤◌, some, List, [], ◌∷◌, length, replicate, ◌≡◌,
  refl, ap, sym, ◌∙◌, arith,
}
use trx_rs.Ftx.Text.{full, charn, nchar}
use trx_rs.Ftx.Message.Places.{Place, pack_places, unpack_places}
use trx_rs.Ftx.Message.Places.RoundTrip.{pack_one}
use trx_rs.Ftx.Message.FreeText.{mul_bytes, encode_chars, div_bytes, decode_chars}

-- the number that bytes stand for, the first byte in the highest place
unfoldable pub number : List ℕ → ℕ
number [] = 0
number (b ∷ bs) = b * 256 ^ length bs + number bs

abbrev pub AreBytes : List ℕ → Type 0
AreBytes [] = Unit
AreBytes (b ∷ bs) = (b < 256) × AreBytes bs

abbrev pub places_of : ℕ → List Place
places_of k = replicate k (full, 42)

pub length-mul_bytes : (rem : ℕ) (bs : List ℕ) → length (mul_bytes rem bs).0 ≡ length bs
unfolding mul_bytes
length-mul_bytes rem [] = refl
length-mul_bytes rem (b ∷ bs) = ap suc (length-mul_bytes rem bs)

pub mul_bytes-AreBytes : (rem : ℕ) (bs : List ℕ) → AreBytes (mul_bytes rem bs).0
unfolding mul_bytes
mul_bytes-AreBytes rem [] = tt
mul_bytes-AreBytes rem (b ∷ bs) = (omega arith, mul_bytes-AreBytes rem bs)

mul_step :
    (q r c b p n s rem : ℕ)
    → q * 256 + r ≡ c + b * 42
    → c * p + s ≡ n * 42 + rem
    → q * (p * 256) + (r * p + s) ≡ (b * p + n) * 42 + rem
mul_step q r c b p n s rem h e =
    let scaled : (q * 256 + r) * p ≡ (c + b * 42) * p = ap (λ t. t * p) h in grind arith

div_step :
    (q r rem b p n s out : ℕ)
    → q * 42 + r ≡ rem * 256 + b
    → s * 42 + out ≡ r * p + n
    → (q * p + s) * 42 + out ≡ rem * (p * 256) + (b * p + n)
div_step q r rem b p n s out h e =
    let scaled : (q * 42 + r) * p ≡ (rem * 256 + b) * p = ap (λ t. t * p) h in grind arith

digit_lt : (b p n : ℕ) → b < 256 → n < p → b * p + n < p * 256
digit_lt b p n h l =
    let room : (b + 1) * p ≤ 256 * p = mul-le-mul_right p (omega arith) in grind arith

number-mul_bytes :
    (rem : ℕ) (bs : List ℕ)
    → (mul_bytes rem bs).1 * 256 ^ length bs + number (mul_bytes rem bs).0 ≡ number bs * 42 + rem
unfolding number mul_bytes
number-mul_bytes rem [] = omega arith
number-mul_bytes rem (b ∷ bs) =
    let c = (mul_bytes rem bs).1 in
    let p = 256 ^ length bs in
    rw (length-mul_bytes rem bs, pow-suc 256 (length bs))
      (mul_step ((c + b * 42) / 256) ((c + b * 42) % 256) c b p (number bs)
        (number (mul_bytes rem bs).0) rem (omega arith) (number-mul_bytes rem bs))

length-div_bytes : (rem : ℕ) (bs : List ℕ) → length (div_bytes rem bs).0 ≡ length bs
unfolding div_bytes
length-div_bytes rem [] = refl
length-div_bytes rem (b ∷ bs) = ap suc (length-div_bytes ((rem * 2 ^ 8 + b) % 42) bs)

number-div_bytes :
    (rem : ℕ) (bs : List ℕ)
    → rem < 42
    → AreBytes bs
    → ((div_bytes rem bs).1 < 42)
      × (number (div_bytes rem bs).0 * 42 + (div_bytes rem bs).1
          ≡ rem * 256 ^ length bs + number bs)
unfolding number div_bytes
number-div_bytes rem [] h v = (h, omega arith)
number-div_bytes rem (b ∷ bs) h v =
    let t = rem * 256 + b in
    let small : t / 42 % 256 ≡ t / 42 = omega (arith, v.0) in
    let rest = number-div_bytes (t % 42) bs (omega arith) v.1 in
    (
      rest.0,
      rw (small, length-div_bytes (t % 42) bs, pow-suc 256 (length bs))
          (div_step (t / 42) (t % 42) rem b (256 ^ length bs) (number bs)
            (number (div_bytes (t % 42) bs).0) _ (omega arith) rest.1),
    )

div_bytes-AreBytes : (rem : ℕ) (bs : List ℕ) → AreBytes (div_bytes rem bs).0
unfolding div_bytes
div_bytes-AreBytes rem [] = tt
div_bytes-AreBytes rem (b ∷ bs) = (omega arith, div_bytes-AreBytes ((rem * 2 ^ 8 + b) % 42) bs)

number-lt : (bs : List ℕ) → AreBytes bs → number bs < 256 ^ length bs
unfolding number
number-lt [] v = omega arith
number-lt (b ∷ bs) v =
    rw (pow-suc 256 (length bs)) (digit_lt b (256 ^ length bs) (number bs) v.0 (number-lt bs v.1))

encode_one :
    (c j : ℕ) (b71 cs : List ℕ)
    → nchar c full ≡ some j
    → encode_chars b71 (c ∷ cs) ≡ encode_chars (mul_bytes j b71).0 cs
unfolding encode_chars
encode_one c j b71 cs h = rw (h, encode_chars) refl

pack_places-ge : (k n m : ℕ) (cs : List ℕ) → pack_places n (places_of k) cs ≡ some m → n ≤ m
unfolding pack_places
pack_places-ge zero n m cs h = omega (arith, some-injective _ _ h)
pack_places-ge (suc k) n m [] h = absurd (none-ne-some m h)
pack_places-ge (suc k) n m (c ∷ cs) h =
    let step = pack_one n (full, 42) (places_of k) c cs m h in
    omega (arith, pack_places-ge k (n * 42 + step.0) m cs step.1.1)

-- Where the number that the places hold fits into the bytes, the byte loops of `encode_chars` compute it.
no_carry : (c p n x : ℕ) → c * p + n ≡ x → x < p → n ≡ x
no_carry zero p n x h l = omega arith
no_carry (suc c) p n x h l = absurd (omega (arith, suc-mul c p))

-- Where the number in base 42 that the characters stand for, put behind the number of the bytes,
-- fits into the bytes, the loops of `encode_chars` compute exactly that number, byte by byte.
pub number-encode_chars :
    (cs bs : List ℕ) (k m : ℕ)
    → length cs ≡ k
    → AreBytes bs
    → pack_places (number bs) (places_of k) cs ≡ some m
    → m < 256 ^ length bs
    → (b71 : List ℕ) × ((encode_chars bs cs ≡ some b71)
        × (AreBytes b71 × ((length b71 ≡ length bs) × (number b71 ≡ m))))
unfolding encode_chars pack_places
number-encode_chars [] bs zero m l v h w = (bs, (refl, (v, (refl, some-injective _ _ h))))
number-encode_chars [] bs (suc k) m l v h w = absurd (omega arith)
number-encode_chars (c ∷ cs) bs zero m l v h w = absurd (omega arith)
number-encode_chars (c ∷ cs) bs (suc k) m l v h w =
    let step = pack_one (number bs) (full, 42) (places_of k) c cs m h in
    let more = pack_places-ge k (number bs * 42 + step.0) m cs step.1.1 in
    let next : number (mul_bytes step.0 bs).0 ≡ number bs * 42 + step.0 =
      no_carry (mul_bytes step.0 bs).1 (256 ^ length bs) _ _ (number-mul_bytes step.0 bs)
        (omega (arith, more, w)) in
    let same = length-mul_bytes step.0 bs in
    let rest =
      number-encode_chars cs (mul_bytes step.0 bs).0 k m (omega arith)
        (mul_bytes-AreBytes step.0 bs) (ap (λ n. pack_places n (places_of k) cs) next ∙ step.1.1)
        (rw same w) in
    (
      rest.0,
      (
        encode_one c step.0 bs cs step.1.0 ∙ rest.1.0,
        (rest.1.1.0, (rest.1.1.1.0 ∙ same, rest.1.1.1.1)),
      ),
    )

-- The loop of `decode_chars` takes the characters out of the number that the bytes stand for.
pub decode_chars-number :
    (k : ℕ) (bs cs : List ℕ)
    → AreBytes bs
    → decode_chars k bs cs ≡ unpack_places (places_of k) (number bs) cs
unfolding decode_chars unpack_places
decode_chars-number zero bs cs v = refl
decode_chars-number (suc k) bs cs v =
    let step = number-div_bytes 0 bs (omega arith) v in
    let quotient : number bs / 42 ≡ number (div_bytes 0 bs).0 = omega (arith, step) in
    let remainder : number bs % 42 ≡ (div_bytes 0 bs).1 = omega (arith, step) in
    decode_chars-number k (div_bytes 0 bs).0 _ (div_bytes-AreBytes 0 bs)
    ∙ ap₂ (λ q r. unpack_places (places_of k) q (charn r full ∷ cs)) (sym quotient) (sym remainder)
