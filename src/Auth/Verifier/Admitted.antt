-- ===== src/Auth/Verifier/Admitted.antt =====
-- Whom an endpoint with a role lets in.
use contract_change_intel.Prelude.{
  Text, codes, List, none, some, true, not, ◌||◌, ◌≡◌, refl, ◌∙◌, arith, text_eq, exists, inl, inr,
  Bool-cases, Option-cases,
}
use std.Path.{subst}
use contract_change_intel.Chunking.{is_empty}
use contract_change_intel.Diffing.Keys.{strip}
use contract_change_intel.Auth.Jwks.{Lookup, found, unavailable}
use contract_change_intel.Auth.Verifier.{
  Role, Principal, authentication_error, Access, allowed, refused, Claims, Decoded, decoded,
  expired, invalid, Jwt, true_claim, role_of, with_role, with_tenant, with_claims, with_decoded,
  with_key_found, verify_token, before_space, behind_space, get_principal, same_role, authorize,
  require_role,
}

module _ {Key : Type 0} (jwt : Jwt Key) (get_key : Text → Lookup Key) where
  -- The claims name the principal.
  pub record Names (c : Claims) (p : Principal) : Type 0 where
    pub tenant : Text
    pub role_text : Text
    pub subject_is : true_claim c.sub ≡ some p.subject
    pub tenant_is : true_claim c.tenant ≡ some tenant
    pub tenant_id_is : jwt.parse_uuid tenant ≡ some p.tenant_id
    pub role_claim_is : true_claim c.role ≡ some role_text
    pub role_is : role_of role_text ≡ some p.role

  -- The token's claims, decoded with the issuer's key for the token's `kid`, name the principal.
  pub record IsVerified (token : Text) (p : Principal) : Type 0 where
    pub kid : Text
    pub key : Key
    pub claims : Claims
    pub header : jwt.header_kid token ≡ some kid
    pub known : get_key kid ≡ found (some key)
    pub signed : jwt.decode key token ≡ decoded claims
    pub names : Names claims p

  with_claims-Names :
      (c : Claims) (p : Principal)
      → with_claims jwt (true_claim c.sub) (true_claim c.tenant) (true_claim c.role) ≡ allowed p
      → Names c p
  with_claims-Names c p h = elim (Option-cases (true_claim c.sub)) [
    | inl e ↦ absurd (ground (arith, e, h))
    | inr (subject, e) ↦ elim (Option-cases (true_claim c.tenant)) [
      | inl f ↦ absurd (ground (arith, e, f, h))
      | inr (tenant, f) ↦ elim (Option-cases (true_claim c.role)) [
        | inl g ↦ absurd (ground (arith, e, f, g, h))
        | inr (role, g) ↦
            let here : with_tenant subject role (jwt.parse_uuid tenant) ≡ allowed p =
              rw (e, f, g) at h in
            elim (Option-cases (jwt.parse_uuid tenant)) [
              | inl i ↦ absurd (ground (arith, i, here))
              | inr (id, i) ↦
                  let there : with_role subject id (role_of role) ≡ allowed p = rw i at here in
                  elim (Option-cases (role_of role)) [
                    | inl j ↦
                        let never : with_role subject id none ≡ allowed p = rw j at there in
                        absurd (ground arith)
                    | inr (r, j) ↦
                        let last : allowed (record { tenant_id = id; role = r; subject = subject })
                            ≡ allowed p =
                          rw j at there in
                        record {
                          tenant = tenant;
                          role_text = role;
                          subject_is = e ∙ ground (arith, last);
                          tenant_is = f;
                          tenant_id_is = i ∙ ground (arith, last);
                          role_claim_is = g;
                          role_is = j ∙ ground (arith, last);
                        }
                  ]
            ]
      ]
    ]
  ]

  with_decoded-IsVerified :
      (token : Text) (p : Principal) (kid : Text) (key : Key)
      → jwt.header_kid token ≡ some kid
      → get_key kid ≡ found (some key)
      → (d : Decoded) → jwt.decode key token ≡ d
      → with_decoded jwt d ≡ allowed p
      → IsVerified token p
  with_decoded-IsVerified token p kid key header known (decoded c) signed h = record {
    kid = kid;
    key = key;
    claims = c;
    header = header;
    known = known;
    signed = signed;
    names = with_claims-Names c p h;
  }
  with_decoded-IsVerified token p kid key header known expired signed h = absurd (ground arith)
  with_decoded-IsVerified token p kid key header known invalid signed h = absurd (ground arith)

  with_key-IsVerified :
      (token : Text) (p : Principal) (kid : Text)
      → jwt.header_kid token ≡ some kid
      → (l : Lookup Key) → get_key kid ≡ l
      → with_key_found jwt token l ≡ allowed p
      → IsVerified token p
  with_key-IsVerified token p kid header unavailable known h = absurd (ground arith)
  with_key-IsVerified token p kid header (found none) known h = absurd (ground arith)
  with_key-IsVerified token p kid header (found (some key)) known h =
      with_decoded-IsVerified token p kid key header known (jwt.decode key token) refl h

  verify_token-IsVerified :
      (token : Text) (p : Principal)
      → verify_token jwt get_key token ≡ allowed p
      → IsVerified token p
  unfolding verify_token
  verify_token-IsVerified token p h = elim (Option-cases (jwt.header_kid token)) [
    | inl e ↦ absurd (ground (arith, e, h))
    | inr (kid, e) ↦
        let here : with_key_found jwt token (get_key kid) ≡ allowed p = rw e at h in
        with_key-IsVerified token p kid e (get_key kid) refl here
  ]

  authorize-allowed :
      (roles : List Role) (p : Principal) (a : Access Principal)
      → authorize jwt roles a ≡ allowed p
      → (a ≡ allowed p) × (exists (same_role jwt p.role) roles ≡ true)
  authorize-allowed roles p (refused e) h = absurd (ground arith)
  authorize-allowed roles p (allowed q) h =
      elim (Bool-cases (exists (same_role jwt q.role) roles)) [
        | inl e ↦
            let same : allowed q ≡ allowed p = rw e at h in
            let q_p : q ≡ p = ground (arith, same) in
            (same, subst (λ z. exists (same_role jwt z.role) roles ≡ true) q_p e)
        | inr e ↦ absurd (ground (arith, e, h))
      ]

  -- An endpoint for some roles lets a request in only with a bearer token whose claims, decoded with
  -- the key that the issuer has for the token's `kid`, name the principal, and only if the
  -- principal's role is one of those.
  pub require_role-IsVerified :
      (roles : List Role) (authorization : Text) (p : Principal)
      → require_role jwt roles get_key authorization ≡ allowed p
      → IsVerified (strip (behind_space jwt authorization)) p
        × (exists (same_role jwt p.role) roles ≡ true)
        × (text_eq (jwt.lower (before_space jwt authorization)) (codes "bearer") ≡ true)
  unfolding require_role get_principal
  require_role-IsVerified roles authorization p h =
      let token = strip (behind_space jwt authorization) in
      let bearer = text_eq (jwt.lower (before_space jwt authorization)) (codes "bearer") in
      elim (Bool-cases (not bearer || is_empty token)) [
        | inl e ↦
            let never : refused (authentication_error (codes "missing bearer token")) ≡ allowed p =
              rw e at h in
            absurd (ground arith)
        | inr e ↦
            let here : authorize jwt roles (verify_token jwt get_key token) ≡ allowed p =
              rw e at h in
            let (verified, among) =
              authorize-allowed roles p (verify_token jwt get_key token) here in
            (verify_token-IsVerified token p verified, among, ground (arith, e))
      ]
