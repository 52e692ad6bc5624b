-- ===== src/MockOidc/Tokens.antt =====
-- internal/mockoidc/mockoidc.go, internal/verifier/verifier.go: what the verifier reads of a minted
-- token before it verifies it.
use nats_jwt_callout.Base.{
  Bool, true, not, ◌||◌, all, ◌==◌, ◌≡◌, refl, sym, ap, ◌∙◌, some, none, Option, arith, [], ◌∷◌,
  ◌++◌, append_assoc, Str, codes, is_empty, or_else, split, split_whole, split-append, false, ok,
  or_err, ◌>>=◌, >>=-eq-ok, or_err-eq-ok,
}
use nats_jwt_callout.Base.Dict.{Dict, lookup}
use nats_jwt_callout.Base.Int.{ℤ, ◌+ℤ◌}
use nats_jwt_callout.Base64.{encode_raw_url, decode_raw_url}
use nats_jwt_callout.Base64.RoundTrip.{
  IsBytes, decode_raw_url-encode_raw_url, contains_byte-encode_raw_url,
}
use nats_jwt_callout.Verifier.{unverified_issuer}
use nats_jwt_callout.Verifier.Packages.{JsonPackage}
use nats_jwt_callout.MockOidc.Claims.{lookup_iss-mint_claims}
use nats_jwt_callout.MockOidc.{
  Fatal, ClaimValue, TokenOptions, Packages, Key, Server, signer, header, mint, sign_segments,
  mint_claims, or_given, five_minutes, encode_segment,
}

-- `json.Marshal` and the signature give bytes.
pub record IsByteful (p : Packages) : Type 0 where
  pub header_bytes : (h : Dict Str) (json : Str) → p.marshal_header h ≡ some json → IsBytes json
  pub claims_bytes :
      (c : Dict ClaimValue) (json : Str) → p.marshal_claims c ≡ some json → IsBytes json
  pub signature_bytes :
      (k : p.PrivateKey) (digest sig : Str) → p.sign_pkcs1v15 k digest ≡ some sig → IsBytes sig

encode_segment-eq-ok :
    (o : Option Str) {segment : Str}
    → encode_segment o ≡ ok segment
    → (json : Str) × (o ≡ some json) × (segment ≡ encode_raw_url json)
unfolding encode_segment
encode_segment-eq-ok none h = absurd (ground arith)
encode_segment-eq-ok (some json) h = (json, refl, ground arith)

-- A token of three segments, which are split at the dots.
split_segments :
    (h b g : Str)
    → split
        (encode_raw_url h ++ codes "." ++ encode_raw_url b ++ codes "." ++ encode_raw_url g)
        b'.'
      ≡ encode_raw_url h ∷ encode_raw_url b ∷ encode_raw_url g ∷ []
split_segments h b g =
    simp
      (
        append_assoc,
        split-append (encode_raw_url h) (encode_raw_url b ++ b'.' ∷ encode_raw_url g) b'.'
            (contains_byte-encode_raw_url h),
        split-append (encode_raw_url b) (encode_raw_url g) b'.' (contains_byte-encode_raw_url b),
        split_whole (encode_raw_url g) b'.' (contains_byte-encode_raw_url g),
      )
      refl

-- No key but `iss` is one that json.Unmarshal takes for `iss`.
abbrev pub only_iss : (Str → Bool) → Dict ClaimValue → Bool
only_iss takes = all (λ e. not (takes e.0) || e.0 == codes "iss")

module _ (p : Packages) where
  abbrev pub claims_of : ℤ → TokenOptions → Server p → Dict ClaimValue
  claims_of now opts s =
      mint_claims (or_given opts.issuer_override s.url) (or_else opts.issued_at now)
        (or_else opts.expiry (now +ℤ five_minutes)) opts

  -- A token in three segments that decode to the header, the claims and the signature of the two.
  pub record IsToken (now : ℤ) (opts : TokenOptions) (s : Server p) (token : Str) : Type 0 where
    pub key : Key p
    pub header_json : Str
    pub claims_json : Str
    pub sig : Str
    pub head : Str
    pub body : Str
    pub tail : Str
    pub chosen : signer p opts s.keys ≡ ok key
    pub segments : split token b'.' ≡ head ∷ body ∷ tail ∷ []
    pub head_decodes : decode_raw_url head ≡ some header_json
    pub body_decodes : decode_raw_url body ≡ some claims_json
    pub tail_decodes : decode_raw_url tail ≡ some sig
    pub header_written :
        p.marshal_header (header p (or_given opts.kid_override key.kid)) ≡ some header_json
    pub claims_written : p.marshal_claims (claims_of now opts s) ≡ some claims_json
    pub signed : p.sign_pkcs1v15 key.priv (p.sum256 (head ++ codes "." ++ body)) ≡ some sig

  sign_segments-IsToken :
      (now : ℤ) (opts : TokenOptions) (s : Server p) (token : Str) (k : Key p)
      (header_json claims_json : Str)
      → IsByteful p
      → signer p opts s.keys ≡ ok k
      → p.marshal_header (header p (or_given opts.kid_override k.kid)) ≡ some header_json
      → p.marshal_claims (claims_of now opts s) ≡ some claims_json
      → sign_segments p k (encode_raw_url header_json) (encode_raw_url claims_json) ≡ ok token
      → IsToken now opts s token
  unfolding sign_segments
  sign_segments-IsToken now opts s token k header_json claims_json bytes chosen header_written
        claims_written h =
      let head = encode_raw_url header_json in
      let body = encode_raw_url claims_json in
      let digest = p.sum256 (head ++ codes "." ++ body) in
      let (sig, made, made_token) =
        >>=-eq-ok (or_err Fatal.sign_token (p.sign_pkcs1v15 k.priv digest)) _ h in
      let signed = or_err-eq-ok Fatal.sign_token (p.sign_pkcs1v15 k.priv digest) made in
      let token_eq : head ++ codes "." ++ body ++ codes "." ++ encode_raw_url sig ≡ token =
        ground arith in
      record {
        key = k;
        header_json = header_json;
        claims_json = claims_json;
        sig = sig;
        head = head;
        body = body;
        tail = encode_raw_url sig;
        chosen = chosen;
        segments =
            ap (λ t. split t b'.') (sym token_eq) ∙ split_segments header_json claims_json sig;
        head_decodes =
            decode_raw_url-encode_raw_url header_json (bytes.header_bytes _ _ header_written);
        body_decodes =
            decode_raw_url-encode_raw_url claims_json (bytes.claims_bytes _ _ claims_written);
        tail_decodes =
            decode_raw_url-encode_raw_url sig (bytes.signature_bytes k.priv digest sig signed);
        header_written = header_written;
        claims_written = claims_written;
        signed = signed;
      }

  chosen-IsToken :
      (now : ℤ) (opts : TokenOptions) (s : Server p) (token : Str) (k : Key p)
      → IsByteful p
      → signer p opts s.keys ≡ ok k
      → (do
        head ← encode_segment (p.marshal_header (header p (or_given opts.kid_override k.kid)))
        body ← encode_segment (p.marshal_claims (claims_of now opts s))
        sign_segments p k head body)
        ≡ ok token
      → IsToken now opts s token
  chosen-IsToken now opts s token k bytes chosen h =
      let (head, head_made, h') =
        >>=-eq-ok (encode_segment (p.marshal_header (header p (or_given opts.kid_override k.kid))))
          _ h in
      let (body, body_made, h'') =
        >>=-eq-ok (encode_segment (p.marshal_claims (claims_of now opts s))) _ h' in
      let (header_json, header_written, head_eq) = encode_segment-eq-ok _ head_made in
      let (claims_json, claims_written, body_eq) = encode_segment-eq-ok _ body_made in
      sign_segments-IsToken now opts s token k header_json claims_json bytes chosen header_written
        claims_written
        (ap (λ b. sign_segments p k (encode_raw_url header_json) b) (sym body_eq)
          ∙ ap (λ t. sign_segments p k t body) (sym head_eq)
          ∙ h'')

  pub mint-IsToken :
      (now : ℤ) (opts : TokenOptions) (s : Server p) (token : Str)
      → IsByteful p
      → mint p now opts s ≡ ok token
      → IsToken now opts s token
  unfolding mint
  mint-IsToken now opts s token bytes h =
      let (k, chosen, h') = >>=-eq-ok (signer p opts s.keys) _ h in
      chosen-IsToken now opts s token k bytes chosen h'

  -- The verifier reads the issuer of a minted token off its second segment: it is the server's URL, or
  -- what overrides it, if it is not empty, and the claims have no other key that json.Unmarshal takes
  -- for `iss`, such as one that differs in case. An extra claim `iss` makes no difference. JSON and
  -- signatures are taken to be bytes, and the issuer to be read as it was written from claims that have
  -- no other such key; `takes` says which keys these are.
  pub unverified_issuer-mint :
      (json : JsonPackage) (takes : Str → Bool) (now : ℤ) (opts : TokenOptions) (s : Server p)
      (token : Str)
      → IsByteful p
      → ((c : Dict ClaimValue) (text : Str)
          → p.marshal_claims c ≡ some text
          → lookup (codes "iss") c ≡ some (ClaimValue.text (or_given opts.issuer_override s.url))
          → only_iss takes c ≡ true
          → json.unmarshal_iss text ≡ some (or_given opts.issuer_override s.url))
      → only_iss takes (claims_of now opts s) ≡ true
      → is_empty (or_given opts.issuer_override s.url) ≡ false
      → mint p now opts s ≡ ok token
      → unverified_issuer json token ≡ ok (or_given opts.issuer_override s.url)
  unfolding unverified_issuer
  unverified_issuer-mint json takes now opts s token bytes read_back only named h =
      let t = mint-IsToken now opts s token bytes h in
      let iss =
        read_back (claims_of now opts s) t.claims_json t.claims_written
          (lookup_iss-mint_claims (or_given opts.issuer_override s.url) (or_else opts.issued_at now)
            (or_else opts.expiry (now +ℤ five_minutes)) opts)
          only in
      rw (t.segments, t.body_decodes, iss, named) refl
