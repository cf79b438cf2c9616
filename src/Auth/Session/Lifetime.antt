-- ===== src/Auth/Session/Lifetime.antt =====
-- About the roles that the session store gives to a cookie over time.
use text.Mathlib.Text.{◌==◌}
use text.Mathlib.TextEquality.{eq_iff}
use text.Mathlib.TextPositions.{eq_refl}
use mathlib.Core.Option.{map}
use trx_rs.Common.{
  ℕ, ◌+◌, ◌≤◌, ◌<◌, String, Option, none, some, ltb, if◌then◌else◌, ◌≡◌, refl, ap, sym, ◌∙◌, inl,
  inr, arith, Bool-cases, Option-cases,
}
use trx_rs.Auth.Dict.{keep}
use trx_rs.Auth.Passphrase.{AuthRole}
use trx_rs.Auth.Session.{SessionRecord, SessionStore, create, get, remove_session, cleanup_expired}

-- the role that a request with this cookie has
unfoldable pub role_at : String → ℕ → SessionStore → Option AuthRole
role_at sid now store = map (λ r. r.role) (get sid now store).0

-- the role that a record still gives
live : ℕ → Option SessionRecord → Option AuthRole
live later none = none
live later (some r) = if ltb r.expires_at later then none else some r.role

role_at-live :
    (sid : String) (later : ℕ) (store : SessionStore)
    → role_at sid later store ≡ live later (store sid)
unfolding role_at get live
role_at-live sid later store = elim (Option-cases (store sid)) [
  | inl p ↦ rw p refl
  | inr (r, p) ↦ rw p (ground arith)
]

live-get :
    (sid other : String) (now later : ℕ) (store : SessionStore)
    → now ≤ later
    → live later ((get other now store).1 sid) ≡ live later (store sid)
unfolding get live
live-get sid other now later store h = elim (Option-cases (store other)) [
  | inl p ↦ rw p refl
  | inr (r, p) ↦ elim (Bool-cases (other == sid)) [
    | inl same ↦
        let here : store sid ≡ some r = ap store (sym ((eq_iff other sid).0 same)) ∙ p in
        rw (here, p) (ground (arith, same))
    | inr apart ↦ rw p (ground (arith, apart))
  ]
]

-- A new session has its role until its time to live is over.
pub role_at-create :
    (sid : String) (role : AuthRole) (ttl now later : ℕ) (store : SessionStore)
    → role_at sid later (create sid role ttl now store)
      ≡ (if ltb (now + ttl) later then none else some role)
unfolding role_at get create
role_at-create sid role ttl now later store = rw (eq_refl sid) (ground arith)

-- A look at any session leaves every role that any cookie has at that time or later.
pub role_at-get :
    (sid other : String) (now later : ℕ) (store : SessionStore)
    → now ≤ later
    → role_at sid later (get other now store).1 ≡ role_at sid later store
role_at-get sid other now later store h =
    role_at-live sid later (get other now store).1
    ∙ live-get sid other now later store h
    ∙ sym (role_at-live sid later store)

-- Cleaning up leaves every role that any cookie has at a later time.
pub role_at-cleanup_expired :
    (sid : String) (now later : ℕ) (store : SessionStore)
    → now < later
    → role_at sid later (cleanup_expired now store) ≡ role_at sid later store
unfolding cleanup_expired live
role_at-cleanup_expired sid now later store h =
    role_at-live sid later (cleanup_expired now store)
    ∙ kept (store sid)
    ∙ sym (role_at-live sid later store)
  where
    kept :
        (o : Option SessionRecord) → live later (keep (λ r. ltb now r.expires_at) o) ≡ live later o
    kept none = refl
    kept (some r) = ground arith

pub role_at-remove_session :
    (sid : String) (later : ℕ) (store : SessionStore)
    → role_at sid later (remove_session sid store) ≡ none
unfolding role_at get remove_session
role_at-remove_session sid later store = rw (eq_refl sid) refl
