-- ===== src/AwsAuth/Source/Refresh.antt =====
-- lib/awsauth/awsauth.go: at most one refresh runs in the background.
use nats_jwt_callout.Base.{
  ℕ, ◌≡◌, refl, sym, ap, ◌∙◌, Bool, true, false, Option, none, some, List, ◌∷◌, ◌++◌, Str, is_empty,
  length, length-append, arith, Result, ok, err, Bool-cases, inl, inr,
}
use nats_jwt_callout.Base.Int.{ℤ, ltb_ℤ, ◌+ℤ◌}
use nats_jwt_callout.AwsAuth.{Settings, FetchError, Client, mint, JsonPackage}
use nats_jwt_callout.AwsAuth.Source.{
  Calls, Worker, minting, releasing, State, Times, write_cache, refresh_async, error_of, token,
  token_handler, background_mint, cached, fetched, kept_or_written, Step, called, handled, minted,
  released, Steps, stay, then_step,
}

abbrev one_if : Bool → ℕ
one_if true = 1
one_if false = 0

-- A background refresh runs if and only if the flag is set, and never two of them.
abbrev pub IsSingle : State → Type 0
IsSingle st = length st.workers ≡ one_if st.refreshing

refresh_async-IsSingle : (st : State) → IsSingle st → IsSingle (refresh_async st)
unfolding refresh_async
refresh_async-IsSingle st h = ground arith

released_count :
    (before after : List Worker) (flag : Bool)
    → length (before ++ releasing ∷ after) ≡ one_if flag
    → length (before ++ after) ≡ 0
released_count before after true h =
    omega (arith, h, length-append before (releasing ∷ after), length-append before after)
released_count before after false h =
    omega (arith, h, length-append before (releasing ∷ after), length-append before after)

module _ (json : JsonPackage) (ts : Settings) where
  fetched-IsSingle :
      (calls : Calls) (st : State) (r : Result FetchError Str)
      → IsSingle st
      → IsSingle (fetched json ts calls st r).1
  unfolding write_cache
  fetched-IsSingle calls st (err e) h = h
  fetched-IsSingle calls st (ok tok) h = elim (Bool-cases (is_empty ts.cache_path)) [
    | inl unset ↦ rw unset h
    | inr set ↦ rw set h
  ]

  cached-IsSingle :
      (times : Times) (client : Client) (calls : Calls) (st : State) (found : Option (Str × ℤ))
      → IsSingle st
      → IsSingle (cached json ts times client calls st found).1
  cached-IsSingle times client calls st none h = fetched-IsSingle calls st (mint ts client) h
  cached-IsSingle times client calls st (some (tok, exp)) h =
      elim (Bool-cases (ltb_ℤ exp (times.until_at +ℤ ts.cache_refresh_before))) [
        | inl near ↦ rw near (refresh_async-IsSingle st h)
        | inr far ↦ rw far h
      ]

  token-IsSingle :
      (times : Times) (client : Client) (calls : Calls) (st : State)
      → IsSingle st
      → IsSingle (token json ts times client calls st).1
  unfolding token
  token-IsSingle times client calls st h = elim (Bool-cases (is_empty ts.cache_path)) [
    | inl unset ↦ rw unset (fetched-IsSingle calls st (mint ts client) h)
    | inr set ↦ rw set (cached-IsSingle times client calls st _ h)
  ]

  background-refreshing :
      (client : Client) (calls : Calls) (st : State)
      → (background_mint json ts client calls st).refreshing ≡ st.refreshing
  unfolding background_mint write_cache
  background-refreshing client calls st =
      elim (mint ts client)
        as (λ r.
          (kept_or_written json ts calls (record st { last_err = error_of r }) r).refreshing
          ≡ st.refreshing) [ ok tok ↦ refl | err e ↦ refl ]

  length-swap :
      (before after : List Worker) (v w : Worker)
      → length (before ++ v ∷ after) ≡ length (before ++ w ∷ after)
  length-swap before after v w =
      omega (arith, length-append before (v ∷ after), length-append before (w ∷ after))

  Step-IsSingle : {st st' : State} → Step json ts st st' → IsSingle st → IsSingle st'
  unfolding token_handler
  Step-IsSingle (called {st} times client calls) h = token-IsSingle times client calls st h
  Step-IsSingle (handled {st} times client calls) h = token-IsSingle times client calls st h
  Step-IsSingle (minted {st} client calls before after e) h =
      length-swap before after releasing minting
      ∙ sym (ap length e)
      ∙ h
      ∙ ap one_if (sym (background-refreshing client calls st))
  Step-IsSingle (released {st} before after e) h =
      released_count before after st.refreshing (rw e at h)

  -- From a state in which the flag says whether a refresh is in the background, every sequence of
  -- calls and background steps leads to one in which it does: never do two refreshes run at once, and
  -- the flag is not left set with none running.
  pub Steps-IsSingle : {st st' : State} → IsSingle st → Steps json ts st st' → IsSingle st'
  Steps-IsSingle h stay = h
  Steps-IsSingle h (then_step more s) = Step-IsSingle s (Steps-IsSingle h more)
