-- ===== src/Workflow/Links/Token.antt =====
-- packages/workflow/src/links/token.ts. JSON, UTF-8 and the digest of the platform are parameters;
-- JSON that does not parse, or parses to another shape, parses to none.
pub mod Signed
use mortar.Prelude.{
  ℕ, Bool, true, false, not, ◌&&◌, ◌||◌, Option, none, some, List, [], ◌∷◌, ◌++◌, any, leb, ◌==◌,
  if◌then◌else◌,
}
use mortar.Workflow.Machine.{Name, name_eq}
use mortar.Workflow.Links.Encoding.{is_nil, to_base64_url, from_base64_url, timing_safe_equal}

pub record LinkClaims : Type 0 where
  pub subject : Name
  pub tenant_id : Name
  pub party : Option Name
  pub expires_at : ℕ
  pub issued_at : ℕ
  pub jti : Name

pub data LinkFailure : Type 0 where
  malformed invalid expired revoked : LinkFailure

pub data LinkResult : Type 0 where
  valid : LinkClaims → LinkResult
  fails : LinkFailure → LinkResult

-- `JSON`, `TextEncoder`, `TextDecoder` and HMAC over the UTF-8 bytes of a text.
pub record Platform : Type 0 where
  pub stringify : LinkClaims → Name
  pub parse : Name → Option LinkClaims
  pub encode : Name → List ℕ
  pub decode : List ℕ → Name
  pub hmac : Name → Name → List ℕ

-- What a caller gives; the time and the id are filled in where they are left out.
pub record NewClaims : Type 0 where
  pub subject : Name
  pub tenant_id : Name
  pub party : Option Name
  pub expires_at : ℕ
  pub issued_at : Option ℕ
  pub jti : Option Name

abbrev pub or_else {ℓ} : {A : Type ℓ} → Option A → A → A
or_else none a = a
or_else (some b) a = b

abbrev pub complete : NewClaims → ℕ → Name → LinkClaims
complete c now id = record {
  subject = c.subject;
  tenant_id = c.tenant_id;
  party = c.party;
  expires_at = c.expires_at;
  issued_at = or_else c.issued_at now;
  jti = or_else c.jti id;
}

unfoldable pub encode_text : Platform → Name → Name
encode_text p value = to_base64_url (p.encode value)

abbrev pub decoded : Platform → Option (List ℕ) → Option Name
decoded p none = none
decoded p (some bytes) = some (p.decode bytes)

-- `decodeText`: none where `atob` throws.
unfoldable pub decode_text : Platform → Name → Option Name
decode_text p value = decoded p (from_base64_url value)

unfoldable pub sign : Platform → Name → Name → Name
sign p encoded secret = to_base64_url (p.hmac encoded secret)

-- `signLink`, in the second `now` with `id` for the new id: the token, and its claims.
unfoldable pub sign_link : Platform → NewClaims → Name → ℕ → Name → Name × LinkClaims
sign_link p c secret now id =
    let claims = complete c now id in
    let encoded = encode_text p (p.stringify claims) in
    (encoded ++ (46 ∷ sign p encoded secret), claims)

-- What stands before the first `.`, and what between it and the next, where there is one.
unfoldable pub until_dot : Name → Name × Option Name
until_dot [] = ([], none)
until_dot (c ∷ cs) =
    let rest = until_dot cs in if c == 46 then ([], some cs) else (c ∷ rest.0, rest.1)

abbrev pub second_part : Option Name → Name
unfolding until_dot
second_part none = []
second_part (some rest) = (until_dot rest).0

unfoldable pub is_well_formed : LinkClaims → Bool
is_well_formed c = any (λ u. u == 58) c.subject && not (is_nil c.tenant_id) && not (is_nil c.jti)

pub record VerifyOptions : Type 0 where
  pub is_revoked : Option (Name → Bool)
  pub now : ℕ

abbrev pub revokes : Option (Name → Bool) → Name → Bool
revokes none jti = false
revokes (some check) jti = check jti

abbrev pub judged : VerifyOptions → Option LinkClaims → LinkResult
judged options none = fails malformed
judged options (some claims) =
    if not (is_well_formed claims)
    then fails malformed
    else (if leb claims.expires_at options.now
        then fails expired
        else (if revokes options.is_revoked claims.jti then fails revoked else valid claims))

abbrev pub parsed : Platform → Option Name → Option LinkClaims
parsed p none = none
parsed p (some text) = p.parse text

abbrev pub verify_parts : Platform → Name → VerifyOptions → Name → Name → LinkResult
verify_parts p secret options encoded signature =
    if is_nil encoded || is_nil signature
    then fails malformed
    else (if not (timing_safe_equal signature (sign p encoded secret))
        then fails invalid
        else judged options (parsed p (decode_text p encoded)))

-- `verifyLink`
unfoldable pub verify_link : Platform → Name → Name → VerifyOptions → LinkResult
unfolding until_dot
verify_link p token secret options =
    verify_parts p secret options (until_dot token).0 (second_part (until_dot token).1)

abbrev pub same_party : Option Name → Option Name → Bool
same_party none required = true
same_party (some a) none = false
same_party (some a) (some b) = name_eq a b

unfoldable pub permits : LinkClaims → Name → Option Name → Bool
permits claims subject party = name_eq claims.subject subject && same_party claims.party party
