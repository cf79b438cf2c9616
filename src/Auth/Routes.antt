-- ===== src/Auth/Routes.antt =====
-- `RouteAccess`: the routes by what they need. A path is a text, compared as Rust compares it.
use Prim.Native.Nat.{◌-◌}
use Prim.Native.String.{String, len, slice}
use text.Mathlib.Text.{◌==◌, starts_with}
use trx_rs.Common.{
  Bool, true, false, ◌&&◌, ◌||◌, Option, none, some, List, [], ◌∷◌, leb, if◌then◌else◌,
}
use trx_rs.Auth.Passphrase.{AuthRole}

pub data RouteAccess : Type 0 where
  public read control : RouteAccess

any : (String → Bool) → List String → Bool
any p [] = false
any p (s ∷ ss) = p s || any p ss

ends_with : String → String → Bool
ends_with s t = leb (len t) (len s) && (slice s (len s - len t) (len s) == t)

public_pages : List String
public_pages = "/" ∷ "/index.html" ∷ "/map" ∷ "/digital-modes" ∷ "/settings" ∷ "/about" ∷ []

asset_endings : List String
asset_endings = ".js" ∷ ".css" ∷ ".png" ∷ ".jpg" ∷ ".gif" ∷ ".svg" ∷ ".favicon" ∷ ".ico" ∷ []

read_pages : List String
read_pages =
    "/status" ∷ "/rigs" ∷ "/events" ∷ "/decode" ∷ "/decode/history" ∷ "/spectrum" ∷ "/meter"
    ∷ "/audio" ∷ "/bookmarks" ∷ []

read_prefixes : List String
read_prefixes =
    "/status?" ∷ "/rigs?" ∷ "/events?" ∷ "/decode?" ∷ "/decode/history?" ∷ "/spectrum?" ∷ "/meter?"
    ∷ "/audio?" ∷ "/bookmarks?" ∷ "/bookmarks/" ∷ "/scheduler/" ∷ "/scheduler-control"
    ∷ "/channels/" ∷ []

unfoldable pub from_path : String → RouteAccess
unfolding any ends_with public_pages asset_endings read_pages read_prefixes
from_path path =
    if any (λ s. path == s) public_pages || starts_with path "/auth/"
    then public
    else if any (λ s. starts_with path s) ("/style.css" ∷ "/app.js" ∷ [])
        || any (λ s. ends_with path s) asset_endings
    then public
    else if any (λ s. path == s) read_pages || any (λ s. starts_with path s) read_prefixes
    then read
    else control

unfoldable pub allows : RouteAccess → Option AuthRole → Bool
allows public role = true
allows read none = false
allows read (some role) = true
allows control none = false
allows control (some AuthRole.rx) = false
allows control (some AuthRole.control) = true
