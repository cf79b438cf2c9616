-- ===== src/Examples/Decoders.antt =====
-- Decoders of bookmarks at concrete inputs.
use trx_rs.Common.{ℕ, true, false, List, [], ◌∷◌, ◌≡◌, refl, ◌&&◌, map}
use trx_rs.Protocol.Text.{trim_start, trim_end, contains}
use trx_rs.Protocol.Decoders.{
  decoder_registry, is_known, cleaned, known_of, push_new, inferred, explicit_or,
  resolve_bookmark_decoders,
}
use trx_rs.Protocol.Decoders.Lists.{AllKnown, AllDistinct}
use trx_rs.Protocol.Decoders.Resolved.{
  resolve_bookmark_decoders-AllKnown, contains-resolve_bookmark_decoders,
}

abbrev ft8 : List ℕ
ft8 = b'f' ∷ b't' ∷ b'8' ∷ []

abbrev bogus : List ℕ
bogus = b'b' ∷ b'o' ∷ b'g' ∷ b'u' ∷ b's' ∷ []

-- the same decoder twice, and one that the registry has not
abbrev asked : List (List ℕ)
asked = (b' ' ∷ b'F' ∷ b'T' ∷ b'8' ∷ []) ∷ bogus ∷ ft8 ∷ []

abbrev usb : List ℕ
usb = b'U' ∷ b'S' ∷ b'B' ∷ []

abbrev cw : List ℕ
cw = b'c' ∷ b'w' ∷ []

-- the unit tests explicit_decoders_filtered and explicit_decoders_deduped in one
asked_filtered : resolve_bookmark_decoders true asked usb false ≡ ft8 ∷ []
unfolding resolve_bookmark_decoders known_of push_new inferred explicit_or trim_start trim_end
asked_filtered = refl

-- the mode decides where no decoder is asked for
cw_inferred : resolve_bookmark_decoders true [] cw false ≡ cw ∷ []
unfolding resolve_bookmark_decoders known_of push_new inferred explicit_or trim_start trim_end
cw_inferred = refl

-- and where the registry has none of those asked for
bogus_ignored : resolve_bookmark_decoders true (bogus ∷ []) cw false ≡ cw ∷ []
unfolding resolve_bookmark_decoders known_of push_new inferred explicit_or trim_start trim_end
bogus_ignored = refl

resolve_bookmark_decoders-AllKnown_example :
    AllKnown false (decoder_registry true) (resolve_bookmark_decoders true asked usb false)
    × AllDistinct (resolve_bookmark_decoders true asked usb false)
resolve_bookmark_decoders-AllKnown_example = resolve_bookmark_decoders-AllKnown true asked usb false

ft8_there : contains (map cleaned asked) ft8 ≡ true
unfolding trim_start trim_end
ft8_there = refl

contains-resolve_bookmark_decoders_example :
    contains (resolve_bookmark_decoders true asked usb false) bogus
    ≡ (is_known false (decoder_registry true) bogus && contains (map cleaned asked) bogus)
contains-resolve_bookmark_decoders_example =
    contains-resolve_bookmark_decoders true asked usb false ft8 bogus refl ft8_there
