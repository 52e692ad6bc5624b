-- ===== src/AwsAuth/Source/Serving.antt =====
-- lib/awsauth/awsauth.go: which token `Token` returns, and what a failure leaves behind.
use nats_jwt_callout.Base.{
  Result-cases, ◌≡◌, refl, sym, ap, ◌∙◌, ◌⊎◌, ◌≢◌, true, Option, none, some, List, [], ◌∷◌, Str,
  ◌==◌, ==_iff, if◌then◌else◌, is_empty, is_empty_iff, arith, Result, ok, err, Bool-cases,
  Option-cases, inl, inr,
}
use mathlib.Core.List.{Memᴰ}
use nats_jwt_callout.Base.Int.{ℤ, ltb_ℤ, ◌+ℤ◌}
use nats_jwt_callout.AwsAuth.{
  Settings, FetchError, Client, mint, JsonPackage, unverified_expiry_audience,
}
use nats_jwt_callout.AwsAuth.Source.{
  Calls, State, Times, trim_space, write_cache, refresh_async, contains, usable, read_cache, token,
  token_handler, fetched,
}

contains_inv : (s : Str) (ts : List Str) → contains s ts ≡ true → Memᴰ s ts
contains_inv s [] h = absurd (cc)
contains_inv s (t ∷ ts) h = elim (Bool-cases (t == s)) [
  | inl here ↦ Memᴰ.head (sym ((==_iff t s).0 here))
  | inr other ↦ Memᴰ.tail (contains_inv s ts (ground arith))
]

module _ (json : JsonPackage) (ts : Settings) where
  -- The cache file holds the token, which was issued for the audience and expires at `exp`, after `now`.
  pub record IsUsable (now : ℤ) (content : Option Str) (tok : Str) (exp : ℤ) : Type 0 where
    pub text : Str
    pub audiences : List Str
    pub holds : content ≡ some text
    pub trimmed_text : tok ≡ trim_space text
    pub nonempty : tok ≢ []
    pub claims : unverified_expiry_audience json tok ≡ some (exp, audiences)
    pub unexpired : ltb_ℤ now exp ≡ true
    pub audience : Memᴰ ts.audience audiences

  usable_inv :
      (now : ℤ) (tok : Str) (o : Option (ℤ × List Str)) {tok' : Str} {exp : ℤ}
      → usable json ts now tok o ≡ some (tok', exp)
      → (tok ≡ tok')
        × ((auds : List Str) × (o ≡ some (exp, auds))
            × (ltb_ℤ now exp ≡ true)
            × Memᴰ ts.audience auds)
  usable_inv now tok none h = absurd (ground arith)
  usable_inv now tok (some (exp, auds)) h = elim (Bool-cases (ltb_ℤ now exp)) [
    | inr expired ↦ absurd (ground arith)
    | inl fresh ↦ elim (Bool-cases (contains ts.audience auds)) [
      | inr other ↦ absurd (ground arith)
      | inl listed ↦
          (ground arith, (auds, ground arith, ground arith, contains_inv ts.audience auds listed))
    ]
  ]

  read_cache_inv :
      (now : ℤ) (content : Option Str) {tok : Str} {exp : ℤ}
      → read_cache json ts now content ≡ some (tok, exp)
      → IsUsable now content tok exp
  unfolding read_cache
  read_cache_inv now none h = absurd (cc)
  read_cache_inv now (some text) {tok} {exp} h = elim (Bool-cases (is_empty (trim_space text))) [
    | inl blank ↦ absurd (ground arith)
    | inr filled ↦
        let (same, (auds, claims, fresh, listed)) =
          usable_inv now (trim_space text) (unverified_expiry_audience json (trim_space text))
            {tok' = tok} {exp = exp} (rw (filled, read_cache) at h) in
        record {
          text = text;
          audiences = auds;
          holds = refl;
          trimmed_text = sym same;
          nonempty = λ e. ground (arith, is_empty_iff (trim_space text));
          claims = ap (unverified_expiry_audience json) (sym same) ∙ claims;
          unexpired = fresh;
          audience = listed;
        }
  ]

  -- There is no cache, or it holds nothing usable.
  abbrev pub IsMiss : ℤ → State → Type 0
  IsMiss now st = (ts.cache_path ≡ []) ⊎ (read_cache json ts now st.disk.cache ≡ none)

  -- How `Token` comes by its answer, and what it leaves behind.
  pub data Served (times : Times) (client : Client) (calls : Calls) (st : State)
      (out : Result FetchError Str × State) : Type 0 where
    from_cache :
        (tok : Str) (exp : ℤ)
        → IsUsable times.read_at st.disk.cache tok exp
        → out.0 ≡ ok tok
        → out.1
          ≡ (if ltb_ℤ exp (times.until_at +ℤ ts.cache_refresh_before) then refresh_async st else st)
        → Served times client calls st out
    from_sts :
        (tok : Str)
        → IsMiss times.read_at st
        → mint ts client ≡ ok tok
        → out.0 ≡ ok tok
        → out.1 ≡ (if is_empty ts.cache_path then st else write_cache calls tok st)
        → Served times client calls st out
    from_nowhere :
        (e : FetchError)
        → IsMiss times.read_at st
        → mint ts client ≡ err e
        → out.0 ≡ err e
        → out.1 ≡ st
        → Served times client calls st out

  fetched-Served :
      (times : Times) (client : Client) (calls : Calls) (st : State)
      → IsMiss times.read_at st
      → Served times client calls st (fetched json ts calls st (mint ts client))
  fetched-Served times client calls st miss = elim (Result-cases (mint ts client)) [
    | inl (e, failed) ↦ rw failed (from_nowhere e miss failed refl refl)
    | inr (tok, got) ↦ rw got (from_sts tok miss got refl refl)
  ]

  -- `Token` returns a token from the cache only if the cache file holds it, it was issued for the
  -- configured audience, and it has not expired; a refresh is begun if it expires soon. In every other
  -- case it asks STS, and returns that answer: a token, which is written to the cache if there is one, or
  -- the error, which leaves the cache as it was.
  pub token-Served :
      (times : Times) (client : Client) (calls : Calls) (st : State)
      → Served times client calls st (token json ts times client calls st)
  unfolding token
  token-Served times client calls st = elim (Bool-cases (is_empty ts.cache_path)) [
    | inl unset ↦
        rw unset (fetched-Served times client calls st (inl ((is_empty_iff ts.cache_path).0 unset)))
    | inr set ↦ elim (Option-cases (read_cache json ts times.read_at st.disk.cache)) [
      | inl miss ↦ rw (set, miss) (fetched-Served times client calls st (inr miss))
      | inr ((tok, exp), hit) ↦
          rw (set, hit)
            (from_cache tok exp (read_cache_inv times.read_at st.disk.cache hit) refl refl)
    ]
  ]

  -- Where `Token` succeeds, NATS is given its token and LastError reports nothing; where it fails, NATS
  -- is given the empty text and LastError reports that error. Nothing else differs from `Token`.
  pub token_handler-LastError :
      (times : Times) (client : Client) (calls : Calls) (st : State)
      → ((tok : Str) × ((token json ts times client calls st).0 ≡ ok tok)
          × (token_handler json ts times client calls st
              ≡ (tok, record (token json ts times client calls st).1 { last_err = none })))
        ⊎ ((e : FetchError) × ((token json ts times client calls st).0 ≡ err e)
            × (token_handler json ts times client calls st
                ≡ ([], record (token json ts times client calls st).1 { last_err = some e })))
  unfolding token_handler
  token_handler-LastError times client calls st =
      elim (Result-cases (token json ts times client calls st).0) [
        | inl (e, failed) ↦ inr (e, failed, rw failed refl)
        | inr (tok, got) ↦ inl (tok, got, rw got refl)
      ]
