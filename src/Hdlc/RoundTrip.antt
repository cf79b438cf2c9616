-- ===== src/Hdlc/RoundTrip.antt =====
-- Packets with their FCS from the transmitter's bytes to the decoders' frames.
use mathlib.Core.List.{append-nil, append_assoc}
use native.Mathlib.Nat.{suc-add}
use trx_rs.Common.{
  ℕ, ◌+◌, ◌-◌, ◌*◌, ◌/◌, ◌%◌, ◌^◌, ◌<◌, ◌≤◌, true, false, Option, some, List, [], ◌∷◌, ◌++◌, ◌≡◌,
  refl, ap, sym, ◌∙◌, arith, ◌==◌, length, take, get_or, length-append, ltb, leb, map, ==_iff,
}
use trx_rs.Hdlc.Stuffing.{flag, nrzi}
use trx_rs.Hdlc.Frames.{AreBitLists, framed, found, receive-frames}
use trx_rs.Hdlc.{
  Deframer, push_frame, receive, crc16ccitt, bytes_of, set_bit, own_bit, bits_to_frame, AisFrame,
  bits_to_bytes, AprsFrame, aprs_finish,
}
use trx_rs.Hdlc.Bytes.{
  all_bits, AreBytes, bytes_of-all_bits, length-all_bits, crc16ccitt-lt, set_bit-KeepsBits,
  all_bits-AreBits,
}

take-append : {A : Type 0} (xs ys : List A) → take (length xs) (xs ++ ys) ≡ xs
take-append [] ys = refl
take-append (x ∷ xs) ys = ap (λ l. x ∷ l) (take-append xs ys)

get_or-append : (xs ys : List ℕ) (y d : ℕ) → get_or (xs ++ y ∷ ys) (length xs) d ≡ y
get_or-append [] ys y d = refl
get_or-append (x ∷ xs) ys y d = get_or-append xs ys y d

get_or-append_next : (xs ys : List ℕ) (y z d : ℕ) → get_or (xs ++ y ∷ z ∷ ys) (length xs + 1) d ≡ z
get_or-append_next [] ys y z d = refl
get_or-append_next (x ∷ xs) ys y z d = rw suc-add (get_or-append_next xs ys y z d)

-- the payload and its FCS
abbrev with_fcs : List ℕ → ℕ → ℕ → List ℕ
with_fcs payload lo hi = payload ++ lo ∷ hi ∷ []

bits_to_frame-with_fcs :
    (payload : List ℕ) (lo hi : ℕ)
    → AreBytes (with_fcs payload lo hi)
    → 1 ≤ length payload
    → bits_to_frame (all_bits (with_fcs payload lo hi) ++ 0 ∷ [])
      ≡ some (record {
        payload = payload;
        bits = all_bits (with_fcs payload lo hi);
        crc_ok = crc16ccitt payload == lo + hi * 2 ^ 8;
      })
unfolding bits_to_frame
bits_to_frame-with_fcs payload lo hi v h =
    let packet = with_fcs payload lo hi in
    let bits = all_bits packet in
    let n : length packet ≡ length payload + 2 = length-append payload (lo ∷ hi ∷ []) in
    let len : length (bits ++ 0 ∷ []) ≡ 8 * length packet + 1 =
      omega (arith, length-append bits (0 ∷ []), length-all_bits packet) in
    let usable : 8 * length packet + 1 - (8 * length packet + 1) % 8 ≡ length bits =
      omega (arith, length-all_bits packet) in
    let count : length bits / 8 ≡ length packet = omega (arith, length-all_bits packet) in
    let rest : length packet - 2 ≡ length payload = omega arith in
    let bytes : bytes_of set_bit (length packet) bits ≡ packet =
      ap (bytes_of set_bit (length packet)) (sym (append-nil bits))
      ∙ bytes_of-all_bits set_bit set_bit-KeepsBits packet [] v in
    let long : ltb (8 * length packet + 1) 24 ≡ false = ground arith in
    let enough : ltb (length bits) 24 ≡ false = ground (arith, length-all_bits packet) in
    let full : ltb (length packet) 3 ≡ false = ground arith in
    rw
      (
        len,
        usable,
        count,
        take-append bits (0 ∷ []),
        bytes,
        rest,
        take-append payload (lo ∷ hi ∷ []),
        long,
        enough,
        full,
        get_or-append payload (hi ∷ []) lo 0,
        get_or-append_next payload [] lo hi 0,
      )
      refl

aprs_finish-with_fcs :
    (payload : List ℕ) (lo hi : ℕ)
    → AreBytes (with_fcs payload lo hi)
    → 15 ≤ length payload
    → aprs_finish (all_bits (with_fcs payload lo hi) ++ 0 ∷ [])
      ≡ some (record { payload = payload; crc_ok = crc16ccitt payload == lo + hi * 2 ^ 8 })
unfolding aprs_finish bits_to_bytes
aprs_finish-with_fcs payload lo hi v h =
    let packet = with_fcs payload lo hi in
    let bits = all_bits packet in
    let n : length packet ≡ length payload + 2 = length-append payload (lo ∷ hi ∷ []) in
    let len : length (bits ++ 0 ∷ []) ≡ 8 * length packet + 1 =
      omega (arith, length-append bits (0 ∷ []), length-all_bits packet) in
    let count : (8 * length packet + 1) / 8 ≡ length packet = omega arith in
    let rest : length packet - 2 ≡ length payload = omega arith in
    let bytes : bytes_of own_bit (length packet) (bits ++ 0 ∷ []) ≡ packet =
      bytes_of-all_bits own_bit (λ b. refl) packet (0 ∷ []) v in
    let long : leb 136 (8 * length packet + 1) ≡ true = ground arith in
    let full : ltb (length packet) 17 ≡ false = ground arith in
    rw
      (
        len,
        long,
        count,
        bytes,
        rest,
        take-append payload (lo ∷ hi ∷ []),
        full,
        get_or-append payload (hi ∷ []) lo 0,
        get_or-append_next payload [] lo hi 0,
      )
      refl

-- a payload with its FCS, the lower byte first
pub packet : List ℕ → List ℕ
packet payload = with_fcs payload (crc16ccitt payload % 2 ^ 8) (crc16ccitt payload / 2 ^ 8)

abbrev pub ArePayloads : ℕ → List (List ℕ) → Type 0
ArePayloads least [] = Unit
ArePayloads least (p ∷ ps) = (AreBytes p × (least ≤ length p)) × ArePayloads least ps

-- the payloads as a transmitter sends them: an opening flag, then frames
pub sent : List (List ℕ) → List ℕ
sent payloads = flag ++ framed (map (λ p. all_bits (packet p)) payloads)

packets-AreBitLists : (ps : List (List ℕ)) → AreBitLists (map (λ p. all_bits (packet p)) ps)
packets-AreBitLists [] = tt
packets-AreBitLists (p ∷ ps) = (all_bits-AreBits (packet p), packets-AreBitLists ps)

AreBytes-append : (xs ys : List ℕ) → AreBytes xs → AreBytes ys → AreBytes (xs ++ ys)
AreBytes-append [] ys v w = w
AreBytes-append (x ∷ xs) ys v w = (v.0, AreBytes-append xs ys v.1 w)

packet-AreBytes : (p : List ℕ) → AreBytes p → AreBytes (packet p)
unfolding packet
packet-AreBytes p v = AreBytes-append p _ v (omega arith, (omega (arith, crc16ccitt-lt p), tt))

fcs_matches :
    (p : List ℕ) → (crc16ccitt p == crc16ccitt p % 2 ^ 8 + crc16ccitt p / 2 ^ 8 * 2 ^ 8) ≡ true
fcs_matches p = (==_iff (crc16ccitt p) _).1 (omega arith)

-- Idle, outside a frame: the state of a new decoder, and after an abort.
abbrev pub IsIdle : {F : Type 0} → Deframer F → Type 0
IsIdle s = (s.prev_bit < 2) × ((s.in_frame ≡ false) × (s.ones < 6))

module _ {F : Type 0} (finish : List ℕ → Option F) (frame_of : List ℕ → F) (least : ℕ)
    (finishes : (p : List ℕ)
      → AreBytes p
      → least ≤ length p
      → finish (all_bits (packet p) ++ 0 ∷ []) ≡ some (frame_of p)) where
  found-packets :
      (fs : List F) (ps : List (List ℕ))
      → ArePayloads least ps
      → found finish fs (map (λ p. all_bits (packet p)) ps) ≡ fs ++ map frame_of ps
  found-packets fs [] v = sym (append-nil fs)
  found-packets fs (p ∷ ps) v =
      ap (λ o. found finish (push_frame fs o) (map (λ q. all_bits (packet q)) ps))
        (finishes p v.0.0 v.0.1)
      ∙ found-packets (fs ++ frame_of p ∷ []) ps v.1
      ∙ append_assoc fs (frame_of p ∷ []) (map frame_of ps)

  receive-sent :
      (s : Deframer F) (ps : List (List ℕ))
      → IsIdle s
      → ArePayloads least ps
      → (receive finish s (nrzi s.prev_bit (sent ps))).frames ≡ s.frames ++ map frame_of ps
  unfolding sent
  receive-sent s ps i v =
      receive-frames finish s (map (λ p. all_bits (packet p)) ps) i.0 i.1.0 i.1.1
        (packets-AreBitLists ps)
      ∙ found-packets s.frames ps v

abbrev pub ais_frame : List ℕ → AisFrame
ais_frame p = record { payload = p; bits = all_bits (packet p); crc_ok = true }

abbrev pub aprs_frame : List ℕ → AprsFrame
aprs_frame p = record { payload = p; crc_ok = true }

-- For any sequence of payloads of one byte or more, sent with the FCS, stuffing, flags and NRZI
-- of the HDLC standard, an AIS receiver that is outside a frame and has counted fewer than six
-- ones appends exactly these payloads as frames with a correct FCS, in order.
pub receive-sent_ais :
    (s : Deframer AisFrame) (ps : List (List ℕ))
    → IsIdle s
    → ArePayloads 1 ps
    → (receive bits_to_frame s (nrzi s.prev_bit (sent ps))).frames ≡ s.frames ++ map ais_frame ps
unfolding packet
receive-sent_ais s ps i v =
    receive-sent bits_to_frame ais_frame 1
      (λ p b h.
        bits_to_frame-with_fcs p _ _ (packet-AreBytes p b) h
        ∙ ap (λ ok. some (record { payload = p; bits = all_bits (packet p); crc_ok = ok }))
            (fcs_matches p))
      s ps i v

-- For any sequence of payloads of 15 bytes or more, sent with the FCS, stuffing, flags and NRZI
-- of the HDLC standard, an APRS receiver that is outside a frame and has counted fewer than six
-- ones appends exactly these payloads as frames with a correct FCS, in order.
pub receive-sent_aprs :
    (s : Deframer AprsFrame) (ps : List (List ℕ))
    → IsIdle s
    → ArePayloads 15 ps
    → (receive aprs_finish s (nrzi s.prev_bit (sent ps))).frames ≡ s.frames ++ map aprs_frame ps
unfolding packet
receive-sent_aprs s ps i v =
    receive-sent aprs_finish aprs_frame 15
      (λ p b h.
        aprs_finish-with_fcs p _ _ (packet-AreBytes p b) h
        ∙ ap (λ ok. some (record { payload = p; crc_ok = ok })) (fcs_matches p))
      s ps i v
