-- ===== src/Server/Requests/Safety.antt =====
-- About what a line of a client can lead to.
use Prim.Native.String.{◌++◌}
use trx_rs.Common.{
  ℕ, String, Bool, true, false, Option, none, some, List, [], ◌∷◌, ltb, ◌≡◌, ◌≢◌, ◌⊎◌, inl, inr,
  refl, arith, Bool-cases, if◌then◌else◌,
}
use trx_rs.Rig.Command.{RigCommand}
use trx_rs.Protocol.Text.{byte_len, trim, split_at}
use trx_rs.Protocol.Token.{Validation, accepted, missing, invalid, panicked, validate}
use trx_rs.Protocol.Command.{
  client_command_to_rig, is_get_rigs, is_get_sat_passes, is_subscribe_meter, is_client_only,
}
use trx_rs.Protocol.Command.RoundTrip.{client_command_to_rig-none}
use trx_rs.Server.Requests.{
  RigHandle, ClientEnvelope, Parsed, envelope, malformed, ClientContext, is_get_snapshot, Action,
  skip, panics, reply, subscribe, forward, SatPassCache, refusal, get, snapshot_or, to_rig,
  to_handle, target, dispatch, after_validation, after_preview, after_parse, after_trim,
  handle_line,
}

module _ {S P : Type 0} (ctx : ClientContext S P) where
  -- a text that is an envelope with a valid token
  abbrev pub IsAccepted : List ℕ → ClientEnvelope → Type 0
  IsAccepted text e =
      (ctx.parse_envelope text ≡ envelope e) × (validate ctx.tokens e.token ≡ accepted)

  -- what each action takes: a rig and a command only for a valid token, and a panic only in a slice
  abbrev pub IsJustified : List ℕ → Action S P → Type 0
  IsJustified text skip = text ≡ []
  IsJustified text panics =
      ((e : ClientEnvelope) × ((ctx.parse_envelope text ≡ envelope e)
          × (validate ctx.tokens e.token ≡ panicked)))
      ⊎ ((message : String) × ((ctx.parse_envelope text ≡ malformed message)
            × (split_at 128 text ≡ none)))
  IsJustified text (reply r) = r.success ≡ true → (e : ClientEnvelope) × IsAccepted text e
  IsJustified text (subscribe id h) =
      (e : ClientEnvelope) × (IsAccepted text e
        × ((get id ctx.rigs ≡ some h) × (is_subscribe_meter e.cmd ≡ true)))
  IsJustified text (forward id h c) =
      (e : ClientEnvelope) × (IsAccepted text e
        × ((get id ctx.rigs ≡ some h) × (client_command_to_rig ctx.to_uppercase e.cmd ≡ some c)))

  if-IsJustified :
      (text : List ℕ) (b : Bool) (x y : Action S P)
      → (b ≡ true → IsJustified text x)
      → (b ≡ false → IsJustified text y)
      → IsJustified text (if b then x else y)
  if-IsJustified text true x y f g = f refl
  if-IsJustified text false x y f g = g refl

  refusal-IsJustified :
      (text : List ℕ) (id : Option String) (message : String)
      → IsJustified text (refusal id message)
  unfolding refusal
  refusal-IsJustified text id message e = absurd (ground (arith, e))

  snapshot_or-IsJustified :
      (text : List ℕ) (e : ClientEnvelope) (id : String) (h : RigHandle S) (c : RigCommand)
      (o : Option S)
      → IsAccepted text e
      → get id ctx.rigs ≡ some h
      → client_command_to_rig ctx.to_uppercase e.cmd ≡ some c
      → IsJustified text (snapshot_or id h c o)
  unfolding snapshot_or
  snapshot_or-IsJustified text e id h c none a g m = (e, (a, (g, m)))
  snapshot_or-IsJustified text e id h c (some s) a g m = λ y. (e, a)

  to_rig-IsJustified :
      (text : List ℕ) (e : ClientEnvelope) (id : String) (h : RigHandle S) (o : Option RigCommand)
      → IsAccepted text e
      → get id ctx.rigs ≡ some h
      → client_command_to_rig ctx.to_uppercase e.cmd ≡ o
      → o ≢ none
      → IsJustified text (to_rig id h o)
  unfolding to_rig
  to_rig-IsJustified text e id h none a g m n = absurd (n refl)
  to_rig-IsJustified text e id h (some c) a g m n =
      if-IsJustified text (is_get_snapshot c) (snapshot_or id h c h.snapshot) (forward id h c)
        (λ y. snapshot_or-IsJustified text e id h c h.snapshot a g m) (λ y. (e, (a, (g, m))))

  to_handle-IsJustified :
      (text : List ℕ) (e : ClientEnvelope) (id : String) (o : Option (RigHandle S))
      → IsAccepted text e
      → is_get_rigs e.cmd ≡ false
      → is_get_sat_passes e.cmd ≡ false
      → get id ctx.rigs ≡ o
      → IsJustified text (to_handle ctx.to_uppercase id e.cmd o)
  unfolding to_handle refusal
  to_handle-IsJustified text e id none a r s g = refusal-IsJustified text (some id) ""
  to_handle-IsJustified text e id (some h) a r s g =
      let up = ctx.to_uppercase in
      if-IsJustified text (is_subscribe_meter e.cmd) (subscribe id h)
        (to_rig id h (client_command_to_rig up e.cmd)) (λ y. (e, (a, (g, y))))
        (λ n.
          let rest : is_client_only e.cmd ≡ false = rw (r, s, n) refl in
          to_rig-IsJustified text e id h _ a g refl (client_command_to_rig-none up e.cmd rest))

  dispatch-IsJustified :
      (now : ℕ) (cache : SatPassCache P) (text : List ℕ) (e : ClientEnvelope)
      → IsAccepted text e
      → IsJustified text (dispatch ctx now cache e).0
  unfolding dispatch
  dispatch-IsJustified now cache text e a = elim (Bool-cases (is_get_rigs e.cmd)) [
    | inl y ↦ rw y (λ t. (e, a))
    | inr n ↦ elim (Bool-cases (is_get_sat_passes e.cmd)) [
      | inl y ↦ rw (n, y) (λ t. (e, a))
      | inr m ↦ rw (n, m) (to_handle-IsJustified text e (target ctx e.rig_id) _ a n m refl)
    ]
  ]

  after_validation-IsJustified :
      (now : ℕ) (cache : SatPassCache P) (text : List ℕ) (e : ClientEnvelope) (v : Validation)
      → ctx.parse_envelope text ≡ envelope e
      → validate ctx.tokens e.token ≡ v
      → IsJustified text (after_validation ctx now cache e v).0
  unfolding after_validation refusal
  after_validation-IsJustified now cache text e accepted p v =
      dispatch-IsJustified now cache text e (p, v)
  after_validation-IsJustified now cache text e missing p v = refusal-IsJustified text none ""
  after_validation-IsJustified now cache text e invalid p v = refusal-IsJustified text none ""
  after_validation-IsJustified now cache text e panicked p v = inl (e, (p, v))

  after_preview-IsJustified :
      (text : List ℕ) (message : String) (o : Option (List ℕ × List ℕ))
      → ctx.parse_envelope text ≡ malformed message
      → split_at 128 text ≡ o
      → IsJustified text (after_preview message o)
  unfolding after_preview refusal
  after_preview-IsJustified text message none p s = inr (message, (p, s))
  after_preview-IsJustified text message (some parts) p s = refusal-IsJustified text none ""

  after_parse-IsJustified :
      (now : ℕ) (cache : SatPassCache P) (text : List ℕ) (parsed : Parsed)
      → ctx.parse_envelope text ≡ parsed
      → IsJustified text (after_parse ctx now cache text parsed).0
  unfolding after_parse refusal
  after_parse-IsJustified now cache text (envelope e) p =
      after_validation-IsJustified now cache text e _ p refl
  after_parse-IsJustified now cache text (malformed message) p =
      if-IsJustified text (ltb 128 (byte_len text)) (after_preview message (split_at 128 text))
        (refusal none ("Invalid JSON: " ++ message))
        (λ y. after_preview-IsJustified text message _ p refl)
        (λ n. refusal-IsJustified text none "")

  after_trim-IsJustified :
      (now : ℕ) (cache : SatPassCache P) (text : List ℕ)
      → IsJustified text (after_trim ctx now cache text).0
  unfolding after_trim
  after_trim-IsJustified now cache [] = refl
  after_trim-IsJustified now cache (c ∷ cs) = after_parse-IsJustified now cache (c ∷ cs) _ refl

  -- Whatever a client sends in a line, a request reaches a rig, or its stream of meter samples,
  -- only from an envelope with a valid token, for a rig that the server has, and with the rig
  -- command that the client command maps to; a reply of success needs a valid token as well; and
  -- the handler panics only where the check of the token panics, or where the preview of a
  -- malformed line is cut inside a character.
  pub handle_line-IsJustified :
      (now : ℕ) (cache : SatPassCache P) (line : List ℕ)
      → IsJustified (trim line) (handle_line ctx now cache line).0
  unfolding handle_line
  handle_line-IsJustified now cache line = after_trim-IsJustified now cache (trim line)
