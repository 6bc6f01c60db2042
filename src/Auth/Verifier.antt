-- ===== src/Auth/Verifier.antt =====
-- app/auth/verifier.py, and `get_principal` and `require_role` of app/api/deps.py. PyJWT, the parser
-- of a UUID and `str.lower` are parameters.
pub mod Admitted
use contract_change_intel.Prelude.{
  ℕ, Text, codes, List, [], ◌∷◌, ◌++◌, Option, none, some, Bool, true, false, not, ◌&&◌, ◌||◌, ◌==◌,
  text_eq, exists, if◌then◌else◌,
}
use contract_change_intel.Chunking.{is_empty}
use contract_change_intel.Diffing.Keys.{strip}
use contract_change_intel.Auth.Jwks.{Lookup, found, unavailable}

pub data Role : Type 0 where
  admin reviewer : Role

pub record Principal : Type 0 where
  pub tenant_id : ℕ
  pub role : Role
  pub subject : Text

pub data AuthError : Type 0 where
  authentication_error : Text → AuthError
  authorization_error : Text → AuthError
  jwks_unavailable : AuthError

pub data Access (A : Type 0) : Type 0 where
  allowed : A → Access A
  refused : AuthError → Access A

-- A claim's `str(...)`, and whether it counts as true.
pub record Claim : Type 0 where
  pub text : Text
  pub is_true : Bool

pub record Claims : Type 0 where
  pub sub : Option Claim
  pub tenant : Option Claim
  pub role : Option Claim

-- What `jwt.decode` does, with RS256, the audience, the issuer and the claims that it requires.
pub data Decoded : Type 0 where
  decoded : Claims → Decoded
  expired invalid : Decoded

-- PyJWT: the `kid` of a header, empty if there is none, or none for a PyJWTError; and the decoder.
-- `parse_uuid` is `uuid.UUID`, none for its ValueError.
pub record Jwt (Key : Type 0) : Type 0 where
  pub header_kid : Text → Option Text
  pub decode : Key → Text → Decoded
  pub parse_uuid : Text → Option ℕ
  pub lower : Text → Text

abbrev pub true_claim : Option Claim → Option Text
true_claim none = none
true_claim (some c) = if c.is_true then some c.text else none

abbrev pub role_of : Text → Option Role
role_of word =
    if text_eq word (codes "admin")
    then some admin
    else if text_eq word (codes "reviewer")
    then some reviewer
    else none

abbrev pub refuse : {A : Type 0} → Text → Access A
refuse message = refused (authentication_error message)

abbrev pub with_role : Text → ℕ → Option Role → Access Principal
with_role subject tenant_id none = refuse (codes "unknown role claim")
with_role subject tenant_id (some role) =
    allowed (record { tenant_id = tenant_id; role = role; subject = subject })

abbrev pub with_tenant : Text → Text → Option ℕ → Access Principal
with_tenant subject role none = refuse (codes "tenant claim is not a valid tenant id")
with_tenant subject role (some tenant_id) = with_role subject tenant_id (role_of role)

module _ {Key : Type 0} (jwt : Jwt Key) where
  abbrev pub with_claims : Option Text → Option Text → Option Text → Access Principal
  with_claims (some subject) (some tenant) (some role) =
      with_tenant subject role (jwt.parse_uuid tenant)
  with_claims _ _ _ = refuse (codes "token is missing tenant, role, or subject claims")

  abbrev pub with_decoded : Decoded → Access Principal
  with_decoded (decoded c) =
      with_claims (true_claim c.sub) (true_claim c.tenant) (true_claim c.role)
  with_decoded expired = refuse (codes "token has expired")
  with_decoded invalid = refuse (codes "invalid token")

  abbrev pub with_key_found : Text → Lookup Key → Access Principal
  with_key_found token unavailable = refused jwks_unavailable
  with_key_found token (found none) = refuse (codes "unknown signing key")
  with_key_found token (found (some key)) = with_decoded (jwt.decode key token)

  abbrev pub with_header : (Text → Lookup Key) → Text → Option Text → Access Principal
  with_header get_key token none = refuse (codes "malformed token")
  with_header get_key token (some kid) = with_key_found token (get_key kid)

  -- `get_key` is the cache's, at the moment of the call.
  unfoldable pub verify_token : (Text → Lookup Key) → Text → Access Principal
  verify_token get_key token = with_header get_key token (jwt.header_kid token)

  -- `header.partition(" ")`: what stands before the first space, and behind it.
  abbrev pub before_space : Text → Text
  before_space [] = []
  before_space (c ∷ text) = let rest = before_space text in if c == 32 then [] else c ∷ rest

  abbrev pub behind_space : Text → Text
  behind_space [] = []
  behind_space (c ∷ text) = let rest = behind_space text in if c == 32 then text else rest

  -- The header is the empty text where the request has none.
  unfoldable pub get_principal : (Text → Lookup Key) → Text → Access Principal
  unfolding verify_token
  get_principal get_key authorization =
      let token = strip (behind_space authorization) in
      if not (text_eq (jwt.lower (before_space authorization)) (codes "bearer")) || is_empty token
      then refuse (codes "missing bearer token")
      else verify_token get_key token

  abbrev pub same_role : Role → Role → Bool
  same_role admin admin = true
  same_role reviewer reviewer = true
  same_role _ _ = false

  abbrev pub role_word : Role → Text
  role_word admin = codes "admin"
  role_word reviewer = codes "reviewer"

  abbrev pub authorize : List Role → Access Principal → Access Principal
  authorize roles (refused e) = refused e
  authorize roles (allowed p) =
      if exists (same_role p.role) roles
      then allowed p
      else refused
          (authorization_error (codes "role '" ++ (role_word p.role ++ codes "' may not do this")))

  unfoldable pub require_role : List Role → (Text → Lookup Key) → Text → Access Principal
  unfolding get_principal
  require_role roles get_key authorization = authorize roles (get_principal get_key authorization)
