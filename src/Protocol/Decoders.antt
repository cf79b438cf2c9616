-- ===== src/Protocol/Decoders.antt =====
-- The registry of decoders (src/trx-protocol/src/decoders.rs). Texts are lists of codes; the feature
-- `ft2` of the build is an argument.
pub mod Lists
pub mod Resolved
use trx_rs.Common.{
  ℕ, ◌-◌, String, Bool, true, false, not, ◌&&◌, ◌||◌, List, [], ◌∷◌, ◌++◌, leb, if◌then◌else◌,
}
use trx_rs.Protocol.Text.{trim, to_ascii_lowercase, same_text, contains}

pub data DecoderActivation : Type 0 where
  mode_bound : DecoderActivation
  toggle : DecoderActivation

pub record DecoderDescriptor : Type 0 where
  pub decoder_id : List ℕ
  pub label : String
  pub activation : DecoderActivation
  pub active_modes : List (List ℕ)
  pub background_decode : Bool
  pub bookmark_selectable : Bool

abbrev pub ais_entry : DecoderDescriptor
ais_entry = record {
  decoder_id = b'a' ∷ b'i' ∷ b's' ∷ [];
  label = "AIS";
  activation = mode_bound;
  active_modes = (b'A' ∷ b'I' ∷ b'S' ∷ []) ∷ [];
  background_decode = true;
  bookmark_selectable = true;
}

abbrev pub aprs_entry : DecoderDescriptor
aprs_entry = record {
  decoder_id = b'a' ∷ b'p' ∷ b'r' ∷ b's' ∷ [];
  label = "APRS";
  activation = mode_bound;
  active_modes = (b'P' ∷ b'K' ∷ b'T' ∷ []) ∷ [];
  background_decode = true;
  bookmark_selectable = true;
}

abbrev pub vdes_entry : DecoderDescriptor
vdes_entry = record {
  decoder_id = b'v' ∷ b'd' ∷ b'e' ∷ b's' ∷ [];
  label = "VDES";
  activation = mode_bound;
  active_modes = (b'V' ∷ b'D' ∷ b'E' ∷ b'S' ∷ []) ∷ [];
  background_decode = false;
  bookmark_selectable = false;
}

abbrev pub cw_entry : DecoderDescriptor
cw_entry = record {
  decoder_id = b'c' ∷ b'w' ∷ [];
  label = "CW";
  activation = mode_bound;
  active_modes = (b'C' ∷ b'W' ∷ []) ∷ (b'C' ∷ b'W' ∷ b'R' ∷ []) ∷ [];
  background_decode = false;
  bookmark_selectable = false;
}

abbrev pub ft8_entry : DecoderDescriptor
ft8_entry = record {
  decoder_id = b'f' ∷ b't' ∷ b'8' ∷ [];
  label = "FT8";
  activation = toggle;
  active_modes = (b'D' ∷ b'I' ∷ b'G' ∷ []) ∷ (b'U' ∷ b'S' ∷ b'B' ∷ []) ∷ [];
  background_decode = true;
  bookmark_selectable = true;
}

abbrev pub ft4_entry : DecoderDescriptor
ft4_entry = record {
  decoder_id = b'f' ∷ b't' ∷ b'4' ∷ [];
  label = "FT4";
  activation = toggle;
  active_modes = (b'D' ∷ b'I' ∷ b'G' ∷ []) ∷ (b'U' ∷ b'S' ∷ b'B' ∷ []) ∷ [];
  background_decode = true;
  bookmark_selectable = true;
}

abbrev pub ft2_entry : DecoderDescriptor
ft2_entry = record {
  decoder_id = b'f' ∷ b't' ∷ b'2' ∷ [];
  label = "FT2";
  activation = toggle;
  active_modes = (b'D' ∷ b'I' ∷ b'G' ∷ []) ∷ (b'U' ∷ b'S' ∷ b'B' ∷ []) ∷ [];
  background_decode = true;
  bookmark_selectable = true;
}

abbrev pub wspr_entry : DecoderDescriptor
wspr_entry = record {
  decoder_id = b'w' ∷ b's' ∷ b'p' ∷ b'r' ∷ [];
  label = "WSPR";
  activation = toggle;
  active_modes = (b'D' ∷ b'I' ∷ b'G' ∷ []) ∷ (b'U' ∷ b'S' ∷ b'B' ∷ []) ∷ [];
  background_decode = true;
  bookmark_selectable = true;
}

abbrev pub hf_aprs_entry : DecoderDescriptor
hf_aprs_entry = record {
  decoder_id = b'h' ∷ b'f' ∷ b'-' ∷ b'a' ∷ b'p' ∷ b'r' ∷ b's' ∷ [];
  label = "HF APRS";
  activation = toggle;
  active_modes = (b'D' ∷ b'I' ∷ b'G' ∷ []) ∷ (b'U' ∷ b'S' ∷ b'B' ∷ []) ∷ [];
  background_decode = true;
  bookmark_selectable = true;
}

abbrev pub lrpt_entry : DecoderDescriptor
lrpt_entry = record {
  decoder_id = b'l' ∷ b'r' ∷ b'p' ∷ b't' ∷ [];
  label = "Meteor LRPT";
  activation = toggle;
  active_modes = (b'F' ∷ b'M' ∷ []) ∷ [];
  background_decode = false;
  bookmark_selectable = true;
}

abbrev pub wefax_entry : DecoderDescriptor
wefax_entry = record {
  decoder_id = b'w' ∷ b'e' ∷ b'f' ∷ b'a' ∷ b'x' ∷ [];
  label = "WEFAX";
  activation = toggle;
  active_modes =
      (b'U' ∷ b'S' ∷ b'B' ∷ [])
      ∷ (b'L' ∷ b'S' ∷ b'B' ∷ [])
      ∷ (b'A' ∷ b'M' ∷ [])
      ∷ (b'D' ∷ b'I' ∷ b'G' ∷ [])
      ∷ [];
  background_decode = false;
  bookmark_selectable = true;
}

-- `DECODER_REGISTRY`, with the entry for FT2 in a build that has the feature
abbrev pub decoder_registry : Bool → List DecoderDescriptor
decoder_registry ft2 =
    ais_entry
    ∷ aprs_entry
    ∷ vdes_entry
    ∷ cw_entry
    ∷ ft8_entry
    ∷ ft4_entry
    ∷ ((if ft2 then ft2_entry ∷ [] else [])
        ++ wspr_entry ∷ hf_aprs_entry ∷ lrpt_entry ∷ wefax_entry ∷ [])

abbrev pub to_ascii_uppercase : List ℕ → List ℕ
to_ascii_uppercase [] = []
to_ascii_uppercase (c ∷ cs) =
    (if leb b'a' c && leb c b'z' then c - 32 else c) ∷ to_ascii_uppercase cs

abbrev pub is_mode_bound : DecoderActivation → Bool
is_mode_bound mode_bound = true
is_mode_bound toggle = false

-- `!background_only || d.background_decode`
abbrev pub is_offered : Bool → DecoderDescriptor → Bool
is_offered background_only d = not background_only || d.background_decode

abbrev pub is_known : Bool → List DecoderDescriptor → List ℕ → Bool
is_known background_only [] s = false
is_known background_only (d ∷ ds) s =
    same_text d.decoder_id s && is_offered background_only d || is_known background_only ds s

-- `s.trim().to_ascii_lowercase()`
abbrev pub cleaned : List ℕ → List ℕ
cleaned s = to_ascii_lowercase (trim s)

-- the identifiers asked for, as the registry spells them
unfoldable pub known_of : Bool → List DecoderDescriptor → List (List ℕ) → List (List ℕ)
known_of background_only ds [] = []
known_of background_only ds (s ∷ ss) =
    let rest = known_of background_only ds ss in
    if is_known background_only ds (cleaned s) then cleaned s ∷ rest else rest

-- the fold that leaves out what is already there
unfoldable pub push_new : List (List ℕ) → List (List ℕ) → List (List ℕ)
push_new acc [] = acc
push_new acc (s ∷ ss) = push_new (if contains acc s then acc else acc ++ s ∷ []) ss

abbrev pub infers : Bool → List ℕ → DecoderDescriptor → Bool
infers background_only mode_upper d =
    is_mode_bound d.activation && is_offered background_only d && contains d.active_modes mode_upper

unfoldable pub inferred : Bool → List DecoderDescriptor → List ℕ → List (List ℕ)
inferred background_only [] mode_upper = []
inferred background_only (d ∷ ds) mode_upper =
    let rest = inferred background_only ds mode_upper in
    if infers background_only mode_upper d then d.decoder_id ∷ rest else rest

-- the identifiers asked for, or what the mode implies where none is left
unfoldable pub explicit_or : List (List ℕ) → List (List ℕ) → List (List ℕ)
explicit_or [] fallback = fallback
explicit_or (s ∷ ss) fallback = s ∷ ss

unfoldable pub resolve_bookmark_decoders : Bool → List (List ℕ) → List ℕ → Bool → List (List ℕ)
resolve_bookmark_decoders ft2 explicit_decoders mode background_only =
    explicit_or (push_new [] (known_of background_only (decoder_registry ft2) explicit_decoders))
      (inferred background_only (decoder_registry ft2) (to_ascii_uppercase (trim mode)))
