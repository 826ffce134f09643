-- ===== src/Workflow/Links/Token/Signed.antt =====
-- What is signed is verified as what it was, and what is verified was signed.
use mortar.Prelude.{
  ℕ, ◌<◌, ◌≡◌, refl, ap, ◌∙◌, subst, true, false, ◌||◌, inl, inr, Option, none, some, [], ◌∷◌, ◌++◌,
  leb, arith, All, Bool-cases,
}
use mortar.Workflow.Machine.{Name}
use mortar.Workflow.Links.Encoding.{is_nil, timing_safe_equal}
use mortar.Workflow.Links.Encoding.Symbols.{IsByte}
use mortar.Workflow.Links.Encoding.RoundTrip.{
  IsUrl, to_base64_url-IsUrl, to_base64_url-is_nil, from_base64_url-to_base64_url,
}
use mortar.Workflow.Links.Encoding.Equal.{timing_safe_equal_refl, timing_safe_equal-eq}
use mortar.Workflow.Links.Token.{
  LinkClaims, LinkResult, valid, fails, Platform, NewClaims, complete, encode_text, decoded,
  decode_text, sign, sign_link, until_dot, second_part, is_well_formed, VerifyOptions, revokes,
  judged, parsed, verify_parts, verify_link,
}

until_dot-append : (xs rest : Name) → All IsUrl xs → until_dot (xs ++ (46 ∷ rest)) ≡ (xs, some rest)
unfolding until_dot
until_dot-append [] rest _ = refl
until_dot-append (x ∷ xs) rest (h, hs) = rw (h, until_dot-append xs rest hs) refl

until_dot-none : (xs : Name) → All IsUrl xs → until_dot xs ≡ (xs, none)
unfolding until_dot
until_dot-none [] _ = refl
until_dot-none (x ∷ xs) (h, hs) = rw (h, until_dot-none xs hs) refl

-- What is relied on of the platform for some claims and a secret: the text comes back from its bytes
-- and the claims from their JSON, bytes are below 256, and neither the JSON nor the digest is empty.
pub record IsSound (p : Platform) (claims : LinkClaims) (secret : Name) : Type 0 where
  pub parses : p.parse (p.stringify claims) ≡ some claims
  pub decodes : p.decode (p.encode (p.stringify claims)) ≡ p.stringify claims
  pub byte_text : All IsByte (p.encode (p.stringify claims))
  pub byte_digest : All IsByte (p.hmac (encode_text p (p.stringify claims)) secret)
  pub some_text : is_nil (p.encode (p.stringify claims)) ≡ false
  pub some_digest : is_nil (p.hmac (encode_text p (p.stringify claims)) secret) ≡ false

module _ (p : Platform) (claims : LinkClaims) (secret : Name) (s : IsSound p claims secret) where
  encoded : Name
  encoded = encode_text p (p.stringify claims)

  encoded-IsUrl : All IsUrl encoded
  unfolding encoded encode_text
  encoded-IsUrl = to_base64_url-IsUrl _ s.byte_text

  sign-IsUrl : All IsUrl (sign p encoded secret)
  unfolding encoded sign
  sign-IsUrl = to_base64_url-IsUrl _ s.byte_digest

  decode_text-encoded : decode_text p encoded ≡ some (p.stringify claims)
  unfolding encoded decode_text encode_text
  decode_text-encoded =
      ap (decoded p) (from_base64_url-to_base64_url (p.encode (p.stringify claims)) s.byte_text)
      ∙ ap some s.decodes

  encoded-is_nil : is_nil encoded ≡ false
  unfolding encoded encode_text
  encoded-is_nil = to_base64_url-is_nil _ s.byte_text ∙ s.some_text

  sign-is_nil : is_nil (sign p encoded secret) ≡ false
  unfolding encoded sign
  sign-is_nil = to_base64_url-is_nil _ s.byte_digest ∙ s.some_digest

  verify_parts-judged :
      (options : VerifyOptions)
      → verify_parts p secret options encoded (sign p encoded secret) ≡ judged options (some claims)
  verify_parts-judged options =
      rw
        (
          encoded-is_nil,
          sign-is_nil,
          timing_safe_equal_refl (sign p encoded secret),
          decode_text-encoded,
          s.parses,
        )
        refl

  verify_link-judged :
      (options : VerifyOptions)
      → verify_link p (encoded ++ (46 ∷ sign p encoded secret)) secret options
        ≡ judged options (some claims)
  unfolding verify_link
  verify_link-judged options =
      let signature = sign p encoded secret in
      (λ i.
        verify_parts p secret options (until_dot-append encoded signature encoded-IsUrl i).0
          (second_part (until_dot-append encoded signature encoded-IsUrl i).1))
      ∙ (λ i. verify_parts p secret options encoded (until_dot-none signature sign-IsUrl i).0)
      ∙ verify_parts-judged options

-- On a platform that gives back these claims from their JSON and the JSON from its bytes, with
-- bytes below 256 and neither the JSON nor the digest empty, a link that was signed is never found
-- malformed in its parts or forged under its secret: its verdict is that of its own claims, by
-- their form, their expiry and the check for revocation.
pub verify_link-sign_link :
    (p : Platform) (c : NewClaims) (secret : Name) (now : ℕ) (id : Name) (options : VerifyOptions)
    → IsSound p (complete c now id) secret
    → verify_link p (sign_link p c secret now id).0 secret options
      ≡ judged options (some (sign_link p c secret now id).1)
unfolding sign_link encoded
verify_link-sign_link p c secret now id options s =
    verify_link-judged p (complete c now id) secret s options

-- What a verdict that accepts claims has found of them.
abbrev pub Accepts : VerifyOptions → LinkClaims → Type 0
Accepts options claims =
    (is_well_formed claims ≡ true)
    × (options.now < claims.expires_at)
    × (revokes options.is_revoked claims.jti ≡ false)

claims_or : LinkClaims → LinkResult → LinkClaims
claims_or c (valid claims) = claims
claims_or c (fails failure) = c

judged-Accepts :
    (options : VerifyOptions) (found : Option LinkClaims) (claims : LinkClaims)
    → judged options found ≡ valid claims
    → (found ≡ some claims) × Accepts options claims
unfolding claims_or
judged-Accepts options none claims h = cc
judged-Accepts options (some k) claims h = elim (Bool-cases (is_well_formed k)) [
  | inr f ↦ cc (rw f at h)
  | inl w ↦ elim (Bool-cases (leb k.expires_at options.now)) [
    | inl t ↦ cc (rw (w, t) at h)
    | inr l ↦ elim (Bool-cases (revokes options.is_revoked k.jti)) [
      | inl t ↦ cc (rw (w, l, t) at h)
      | inr r ↦
          let same : k ≡ claims = ap (claims_or k) (rw (w, l, r) at h) in
          (ap some same, subst (Accepts options) same (w, ground (arith, l), r))
    ]
  ]
]

verify_parts-Accepts :
    (p : Platform) (secret : Name) (options : VerifyOptions) (encoded signature : Name)
    (claims : LinkClaims)
    → verify_parts p secret options encoded signature ≡ valid claims
    → (signature ≡ sign p encoded secret)
      × (parsed p (decode_text p encoded) ≡ some claims)
      × Accepts options claims
verify_parts-Accepts p secret options encoded signature claims h =
    elim (Bool-cases (is_nil encoded || is_nil signature)) [
      | inl t ↦ cc (rw t at h)
      | inr n ↦ elim (Bool-cases (timing_safe_equal signature (sign p encoded secret))) [
        | inr f ↦ cc (rw (n, f) at h)
        | inl t ↦
            let (e, a) =
              judged-Accepts options (parsed p (decode_text p encoded)) claims (rw (n, t) at h) in
            (timing_safe_equal-eq signature (sign p encoded secret) t, e, a)
      ]
    ]

-- A token is found valid with some claims only when its second part is the signature of its first
-- under the secret, its first part decodes to those claims, and they are well formed, not expired
-- and not revoked.
pub verify_link-sign :
    (p : Platform) (token secret : Name) (options : VerifyOptions) (claims : LinkClaims)
    → verify_link p token secret options ≡ valid claims
    → (second_part (until_dot token).1 ≡ sign p (until_dot token).0 secret)
      × (parsed p (decode_text p (until_dot token).0) ≡ some claims)
      × Accepts options claims
unfolding verify_link
verify_link-sign p token secret options claims h =
    verify_parts-Accepts p secret options (until_dot token).0 (second_part (until_dot token).1)
      claims h
