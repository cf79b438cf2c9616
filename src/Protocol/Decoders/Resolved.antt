-- ===== src/Protocol/Decoders/Resolved.antt =====
-- What `resolve_bookmark_decoders` of src/trx-protocol/src/decoders.rs answers.
use mathlib.Core.Bool.{false≢true}
use trx_rs.Common.{ℕ, Bool, true, false, ◌&&◌, List, [], ◌∷◌, map, ◌≡◌, refl, ◌∙◌, arith}
use trx_rs.Protocol.Text.{trim, contains}
use trx_rs.Protocol.Decoders.{
  decoder_registry, to_ascii_uppercase, is_known, cleaned, known_of, push_new, inferred,
  explicit_or, resolve_bookmark_decoders,
}
use trx_rs.Protocol.Decoders.Lists.{
  AllKnown, AllDistinct, push_new-AllDistinct, contains-push_new, contains-known_of, named-is_known,
  inferred-is_known, inferred-AllDistinct, all_known,
}

-- Either list is answered, so what holds of both holds of the answer.
explicit_or-keeps :
    (P : List (List ℕ) → Type 0) (ss fallback : List (List ℕ))
    → P ss
    → P fallback
    → P (explicit_or ss fallback)
unfolding explicit_or
explicit_or-keeps P [] fallback h k = k
explicit_or-keeps P (s ∷ ss) fallback h k = h

decoder_registry-AllDistinct :
    (ft2 : Bool) → AllDistinct (map (λ d. d.decoder_id) (decoder_registry ft2))
decoder_registry-AllDistinct true =
    (refl, (refl, (refl, (refl, (refl, (refl, (refl, (refl, (refl, (refl, (refl, tt)))))))))))
decoder_registry-AllDistinct false =
    (refl, (refl, (refl, (refl, (refl, (refl, (refl, (refl, (refl, (refl, tt))))))))))

-- Whatever decoders a bookmark names and whatever its mode, each identifier in the answer is that
-- of a decoder of the registry, one that runs in the background where only those are asked for,
-- and none is there twice.
pub resolve_bookmark_decoders-AllKnown :
    (ft2 : Bool) (explicit_decoders : List (List ℕ)) (mode : List ℕ) (background_only : Bool)
    → AllKnown background_only
        (decoder_registry ft2)
        (resolve_bookmark_decoders ft2 explicit_decoders mode background_only)
      × AllDistinct (resolve_bookmark_decoders ft2 explicit_decoders mode background_only)
unfolding resolve_bookmark_decoders
resolve_bookmark_decoders-AllKnown ft2 explicit_decoders mode background_only =
    let ds = decoder_registry ft2 in
    let named = push_new [] (known_of background_only ds explicit_decoders) in
    let implied = inferred background_only ds (to_ascii_uppercase (trim mode)) in
    (
      explicit_or-keeps (AllKnown background_only ds) named implied
          (all_known background_only ds named (named-is_known background_only ds explicit_decoders))
          (all_known background_only ds implied
            (inferred-is_known background_only ds (to_ascii_uppercase (trim mode)))),
      explicit_or-keeps AllDistinct named implied
          (push_new-AllDistinct [] (known_of background_only ds explicit_decoders) tt)
          (inferred-AllDistinct background_only ds (to_ascii_uppercase (trim mode))
            (decoder_registry-AllDistinct ft2)),
    )

contains-explicit_or :
    (ss fallback : List (List ℕ)) (x : List ℕ) → contains ss x ≡ true → explicit_or ss fallback ≡ ss
unfolding explicit_or
contains-explicit_or [] fallback x h = absurd (false≢true h)
contains-explicit_or (s ∷ ss) fallback x h = refl

-- A decoder of the registry is eligible unless only those that run in the background are asked
-- for and it does not; where a bookmark names an eligible decoder, up to letters' case and blanks
-- around it, the answer has exactly the identifiers of eligible decoders that the bookmark names
-- so, and the mode plays no part.
pub contains-resolve_bookmark_decoders :
    (ft2 : Bool) (explicit_decoders : List (List ℕ)) (mode : List ℕ) (background_only : Bool)
    (known x : List ℕ)
    → is_known background_only (decoder_registry ft2) known ≡ true
    → contains (map cleaned explicit_decoders) known ≡ true
    → contains (resolve_bookmark_decoders ft2 explicit_decoders mode background_only) x ≡ (
        is_known background_only (decoder_registry ft2) x
        && contains (map cleaned explicit_decoders) x)
unfolding resolve_bookmark_decoders
contains-resolve_bookmark_decoders ft2 explicit_decoders mode background_only known x h k =
    let ds = decoder_registry ft2 in
    let found = known_of background_only ds explicit_decoders in
    let law : (y : List ℕ)
        → contains (push_new [] found) y
          ≡ (is_known background_only ds y && contains (map cleaned explicit_decoders) y) =
      λ y.
        contains-push_new [] found y ∙ contains-known_of background_only ds explicit_decoders y in
    let kept =
      contains-explicit_or (push_new [] found)
        (inferred background_only ds (to_ascii_uppercase (trim mode))) known
        (ground (arith, law known, h, k)) in
    rw kept (law x)
