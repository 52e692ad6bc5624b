-- ===== src/Verifier/Construction.antt =====
-- What `New` has built when it succeeds.
use nats_jwt_callout.Base.{
  ◌≡◌, refl, sym, ◌⊎◌, ◌↔◌, inl, inr, ◌≢◌, true, false, none, some, List, [], ◌∷◌, Str, ◌==◌,
  ==_iff, is_some, no_items, All, arith, ok, >>=-eq-ok, Bool-cases, Option-cases,
}
use mathlib.Core.List.{Memᴰ}
use nats_jwt_callout.Base.Dict.{Dict, lookup, insert, lookup-insert, insert-found}
use nats_jwt_callout.Verifier.Packages.{OidcPackage}
use nats_jwt_callout.Verifier.{
  IssuerOption, Options, IssuerEntry, Verifier, http_client, verifier_config, entry_of, add_issuer,
  add_issuers, add_audiences, new,
}

module _ {V : Type 0} where
  urls_differ :
      (k url : Str) (m : Dict V) {e : V} → lookup k m ≡ none → lookup url m ≡ some e → k ≢ url
  urls_differ k url m fresh found = λ same. absurd (let gone = rw same at fresh in ground arith)

  insert-other :
      (k url : Str) (v : V) (m : Dict V) {e : V}
      → lookup k m ≡ none
      → lookup url m ≡ some e
      → lookup url (insert k v m) ≡ some e
  insert-other k url v m fresh found =
      rw (lookup-insert k url v m)
        (let differ = urls_differ k url m fresh found in ground (arith, ==_iff k url))

  lookup-insert_inv :
      (k url : Str) (v : V) (m : Dict V) {e : V}
      → lookup url (insert k v m) ≡ some e
      → (k ≡ url) ⊎ (lookup url m ≡ some e)
  lookup-insert_inv k url v m h = ground (arith, lookup-insert k url v m, ==_iff k url)

add_audiences_inv :
    (auds : List Str) (set : Dict (Unit {0})) (aud : Str)
    → (is_some (lookup aud (add_audiences auds set)) ≡ true)
      ↔ (Memᴰ aud auds ⊎ (is_some (lookup aud set) ≡ true))
unfolding add_audiences
add_audiences_inv [] set aud = (λ h. inr h, λ h. elim h [ inl m ↦ elim m [ ] | inr old ↦ old ])
add_audiences_inv (a ∷ auds) set aud =
    let ih = add_audiences_inv auds (insert a tt set) aud in
    (
      λ h. elim (ih.0 h) [
        | inl m ↦ inl (Memᴰ.tail m)
        | inr old ↦ elim (Bool-cases (a == aud)) [
          | inl same ↦ inl (Memᴰ.head (sym ((==_iff a aud).0 same)))
          | inr other ↦ inr (ground (arith, lookup-insert a aud tt set))
        ]
      ],
      λ h. ih.1 (added a auds set aud h),
    )
  where
    added :
        (a : Str) (auds : List Str) (set : Dict (Unit {0})) (aud : Str)
        → Memᴰ aud (a ∷ auds) ⊎ (is_some (lookup aud set) ≡ true)
        → Memᴰ aud auds ⊎ (is_some (lookup aud (insert a tt set)) ≡ true)
    added a auds set aud (inl (Memᴰ.head e)) =
        inr (ground (arith, lookup-insert a aud tt set, ==_iff a aud))
    added a auds set aud (inl (Memᴰ.tail m)) = inl m
    added a auds set aud (inr old) = inr (ground (arith, lookup-insert a aud tt set))

module _ (oidc : OidcPackage) (opts : Options oidc.CertPool) where
  -- The entry of an issuer: discovery succeeded over the configured client, the verifier has the
  -- allowlist of algorithms and skips the check of the client id, and the claims are the configured ones.
  pub record HasEntry (issuers : Dict (IssuerEntry oidc.TokenVerifier)) (iss : IssuerOption)
      : Type 0 where
    pub provider : oidc.Provider
    pub discovered : oidc.new_provider (http_client oidc opts) iss.url ≡ some provider
    pub entry :
        lookup iss.url issuers
        ≡ some (record {
          verifier = oidc.verifier provider (verifier_config oidc opts);
          require_claims = iss.require_claims;
        })

  abbrev pub IsFree : Str → List IssuerOption → Type 0
  IsFree url = All (λ iss. iss.url ≢ url)

  -- No two issuers have one URL.
  abbrev pub HasDistinctUrls : List IssuerOption → Type 0
  HasDistinctUrls [] = Unit
  HasDistinctUrls (iss ∷ rest) = IsFree iss.url rest × HasDistinctUrls rest

  record IsAdded (iss : IssuerOption) (issuers out : Dict (IssuerEntry oidc.TokenVerifier))
      : Type 0 where
    fresh : lookup iss.url issuers ≡ none
    provider : oidc.Provider
    discovered : oidc.new_provider (http_client oidc opts) iss.url ≡ some provider
    added : out ≡ insert iss.url (entry_of oidc opts iss provider) issuers

  add_issuer_inv :
      (iss : IssuerOption) (issuers : Dict (IssuerEntry oidc.TokenVerifier))
      {out : Dict (IssuerEntry oidc.TokenVerifier)}
      → add_issuer oidc opts iss issuers ≡ ok out
      → IsAdded iss issuers out
  unfolding add_issuer
  add_issuer_inv iss issuers {out} h = elim (Option-cases (lookup iss.url issuers)) [
    | inr (e, dup) ↦ absurd (ground arith)
    | inl fresh ↦ elim (Option-cases (oidc.new_provider (http_client oidc opts) iss.url)) [
      | inl failed ↦ absurd (ground arith)
      | inr (provider, found) ↦ record {
        fresh = fresh;
        provider = provider;
        discovered = found;
        added = ground arith;
      }
    ]
  ]

  -- An entry that is there stays, since its URL is refused a second time.
  add_issuers_keeps :
      (rest : List IssuerOption) (issuers : Dict (IssuerEntry oidc.TokenVerifier))
      {out : Dict (IssuerEntry oidc.TokenVerifier)} (url : Str) {e : IssuerEntry oidc.TokenVerifier}
      → add_issuers oidc opts rest issuers ≡ ok out
      → lookup url issuers ≡ some e
      → (lookup url out ≡ some e) × IsFree url rest
  unfolding add_issuers
  add_issuers_keeps [] issuers {out} url {e} h found = (cc, tt)
  add_issuers_keeps (iss ∷ rest) issuers {out} url {e} h found =
      let (next, step, h') = >>=-eq-ok (add_issuer oidc opts iss issuers) _ h in
      let a = add_issuer_inv iss issuers step in
      let (kept, free) =
        add_issuers_keeps rest next {out = out} url {e = e} h'
          (rw a.added (insert-other iss.url url _ issuers a.fresh found)) in
      (kept, (urls_differ iss.url url issuers a.fresh found, free))

  HasEntry-keeps :
      (iss : IssuerOption) (rest : List IssuerOption)
      (issuers : Dict (IssuerEntry oidc.TokenVerifier))
      {next out : Dict (IssuerEntry oidc.TokenVerifier)}
      → IsAdded iss issuers next
      → add_issuers oidc opts rest next ≡ ok out
      → HasEntry out iss × IsFree iss.url rest
  HasEntry-keeps iss rest issuers {next} {out} a h =
      let (kept, free) =
        add_issuers_keeps rest next {out = out} iss.url {e = entry_of oidc opts iss a.provider} h
          (rw a.added (insert-found issuers iss.url (entry_of oidc opts iss a.provider))) in
      (record { provider = a.provider; discovered = a.discovered; entry = kept }, free)

  add_issuers-HasEntry :
      (rest : List IssuerOption) (issuers : Dict (IssuerEntry oidc.TokenVerifier))
      {out : Dict (IssuerEntry oidc.TokenVerifier)}
      → add_issuers oidc opts rest issuers ≡ ok out
      → All (HasEntry out) rest × HasDistinctUrls rest
  unfolding add_issuers
  add_issuers-HasEntry [] issuers h = (tt, tt)
  add_issuers-HasEntry (iss ∷ rest) issuers {out} h =
      let (next, step, h') = >>=-eq-ok (add_issuer oidc opts iss issuers) _ h in
      let (entry, free) =
        HasEntry-keeps iss rest issuers {out = out} (add_issuer_inv iss issuers step) h' in
      let (entries, distinct) = add_issuers-HasEntry rest next {out = out} h' in
      ((entry, entries), (free, distinct))

  -- Every entry is that of a configured issuer.
  add_issuers-listed :
      (rest : List IssuerOption) (issuers : Dict (IssuerEntry oidc.TokenVerifier))
      {out : Dict (IssuerEntry oidc.TokenVerifier)} (url : Str) {e : IssuerEntry oidc.TokenVerifier}
      → add_issuers oidc opts rest issuers ≡ ok out
      → lookup url out ≡ some e
      → ((iss : IssuerOption) × Memᴰ iss rest × (iss.url ≡ url)) ⊎ (lookup url issuers ≡ some e)
  unfolding add_issuers
  add_issuers-listed [] issuers url h found = inr (cc)
  add_issuers-listed (iss ∷ rest) issuers {out} url {e} h found =
      let (next, step, h') = >>=-eq-ok (add_issuer oidc opts iss issuers) _ h in
      let a = add_issuer_inv iss issuers step in
      elim (add_issuers-listed rest next {out = out} url {e = e} h' found) [
        | inl (other, listed, same) ↦ inl (other, Memᴰ.tail listed, same)
        | inr there ↦ elim (lookup-insert_inv iss.url url _ issuers (rw a.added at there)) [
          | inl same ↦ inl (iss, Memᴰ.head refl, same)
          | inr old ↦ inr old
        ]
      ]

  -- What holds of a verifier that `New` has built from the options.
  pub record IsBuilt (v : Verifier oidc.TokenVerifier) : Type 0 where
    pub some_issuer : opts.issuers ≢ []
    pub some_audience : opts.audiences ≢ []
    pub some_alg : opts.signing_algs ≢ []
    pub distinct : HasDistinctUrls opts.issuers
    pub entries : All (HasEntry v.issuers) opts.issuers
    pub listed :
        (url : Str) (e : IssuerEntry oidc.TokenVerifier)
        → lookup url v.issuers ≡ some e
        → (iss : IssuerOption) × Memᴰ iss opts.issuers × (iss.url ≡ url)
    pub audiences :
        (aud : Str) → (is_some (lookup aud v.audiences) ≡ true) ↔ Memᴰ aud opts.audiences

  nonempty : {A : Type 0} (xs : List A) → no_items xs ≡ false → xs ≢ []
  nonempty [] h = absurd (cc)
  nonempty (x ∷ xs) h = λ e. cc

  only_left : {A : Type 0} → A ⊎ (false ≡ true) → A
  only_left (inl a) = a
  only_left (inr h) = absurd (cc)

  IsBuilt-add_issuers :
      {issuers : Dict (IssuerEntry oidc.TokenVerifier)}
      → no_items opts.issuers ≡ false
      → no_items opts.audiences ≡ false
      → no_items opts.signing_algs ≡ false
      → add_issuers oidc opts opts.issuers [] ≡ ok issuers
      → IsBuilt (record { issuers = issuers; audiences = add_audiences opts.audiences [] })
  unfolding lookup
  IsBuilt-add_issuers {issuers} some_issuer some_aud some_alg h =
      let (entries, distinct) = add_issuers-HasEntry opts.issuers [] {out = issuers} h in
      record {
        some_issuer = nonempty opts.issuers some_issuer;
        some_audience = nonempty opts.audiences some_aud;
        some_alg = nonempty opts.signing_algs some_alg;
        distinct = distinct;
        entries = entries;
        listed = λ url e found.
            elim (add_issuers-listed opts.issuers [] {out = issuers} url {e = e} h found) [
              | inl there ↦ there
              | inr never ↦ absurd (cc)
            ];
        audiences = λ aud.
            let both = add_audiences_inv opts.audiences [] aud in
            (λ q. only_left (both.0 q), λ m. both.1 (inl m));
      }

  -- `New` succeeds only with an issuer, an audience and an algorithm configured, and no URL twice.
  -- Then the entries are those of the configured issuers, each discovered and bound to its required
  -- claims, and the audiences are the configured ones.
  pub new-IsBuilt : (v : Verifier oidc.TokenVerifier) → new oidc opts ≡ ok v → IsBuilt v
  unfolding new
  new-IsBuilt v h = elim (Bool-cases (no_items opts.issuers)) [
    | inl none_set ↦ absurd (ground arith)
    | inr some_issuer ↦ elim (Bool-cases (no_items opts.audiences)) [
      | inl none_set ↦ absurd (ground arith)
      | inr some_aud ↦ elim (Bool-cases (no_items opts.signing_algs)) [
        | inl none_set ↦ absurd (ground arith)
        | inr some_alg ↦
            let (issuers, built, same) =
              >>=-eq-ok (add_issuers oidc opts opts.issuers []) _
                (rw (some_issuer, some_aud, some_alg, new) at h) in
            let e : v ≡ record { issuers = issuers; audiences = add_audiences opts.audiences [] } =
              ground arith in
            rw e (IsBuilt-add_issuers {issuers = issuers} some_issuer some_aud some_alg built)
      ]
    ]
  ]
