-- ===== src/AwsAuth/Source.antt =====
-- lib/awsauth/awsauth.go: the cache file, `Token`, and the refresh in the background.
pub mod Trimming
pub mod Serving
pub mod Refresh
pub mod Writing
use nats_jwt_callout.Base.{
  ℕ, zero, suc, ◌+◌, Bool, true, false, not, ◌&&◌, ◌||◌, Option, none, some, List, [], ◌∷◌, ◌++◌,
  ◌≡◌, Str, ◌==◌, if◌then◌else◌, is_empty, length, cut_prefix, reverse, any, map, Result, ok, err,
}
use nats_jwt_callout.Base.Int.{ℤ, ltb_ℤ, ◌+ℤ◌}
use nats_jwt_callout.AwsAuth.{
  Settings, FetchError, Client, mint, JsonPackage, unverified_expiry_audience,
}

-- The encodings of the characters that unicode.IsSpace accepts.
abbrev pub spaces : List Str
spaces =
    (9 ∷ [])
    ∷ (10 ∷ [])
    ∷ (11 ∷ [])
    ∷ (12 ∷ [])
    ∷ (13 ∷ [])
    ∷ (32 ∷ [])
    ∷ (194 ∷ 133 ∷ [])
    ∷ (194 ∷ 160 ∷ [])
    ∷ (225 ∷ 154 ∷ 128 ∷ [])
    ∷ (226 ∷ 128 ∷ 128 ∷ [])
    ∷ (226 ∷ 128 ∷ 129 ∷ [])
    ∷ (226 ∷ 128 ∷ 130 ∷ [])
    ∷ (226 ∷ 128 ∷ 131 ∷ [])
    ∷ (226 ∷ 128 ∷ 132 ∷ [])
    ∷ (226 ∷ 128 ∷ 133 ∷ [])
    ∷ (226 ∷ 128 ∷ 134 ∷ [])
    ∷ (226 ∷ 128 ∷ 135 ∷ [])
    ∷ (226 ∷ 128 ∷ 136 ∷ [])
    ∷ (226 ∷ 128 ∷ 137 ∷ [])
    ∷ (226 ∷ 128 ∷ 138 ∷ [])
    ∷ (226 ∷ 128 ∷ 168 ∷ [])
    ∷ (226 ∷ 128 ∷ 169 ∷ [])
    ∷ (226 ∷ 128 ∷ 175 ∷ [])
    ∷ (226 ∷ 129 ∷ 159 ∷ [])
    ∷ (227 ∷ 128 ∷ 128 ∷ [])
    ∷ []

abbrev first_cut : Option Str → Option Str → Option Str
first_cut none later = later
first_cut (some rest) later = some rest

unfoldable pub cut_any : List Str → Str → Option Str
cut_any [] s = none
cut_any (p ∷ ps) s = let later = cut_any ps s in first_cut (cut_prefix s p) later

-- One round for each byte is enough.
unfoldable pub trim_rounds : ℕ → List Str → Str → Str
trim_rounds zero ps s = s
trim_rounds (suc n) ps s = elim (cut_any ps s) [ none ↦ s | some rest ↦ trim_rounds n ps rest ]

-- strings.TrimSpace
unfoldable pub trim_space : Str → Str
trim_space s =
    let left = trim_rounds (length s) spaces s in
    reverse (trim_rounds (length left) (map reverse spaces) (reverse left))

abbrev contains : Str → List Str → Bool
contains s = any (λ t. t == s)

-- The file of the cache, and the temporary file beside it.
pub record Disk : Type 0 where
  pub cache : Option Str
  pub temp : Option Str

-- Which calls of one `writeCache` succeed, and how much a write that fails has written.
pub record Calls : Type 0 where
  pub mkdir : Bool
  pub create_temp : Bool
  pub chmod : Bool
  pub write : Bool
  pub partial : Str
  pub close : Bool
  pub rename : Bool
  pub remove : Bool

abbrev with_temp : Disk → Str → Disk
with_temp d text = record d { temp = some text }

-- The deferred removal, whose error is ignored. Where it fails the file stays.
abbrev removed : Calls → Disk → List Disk
removed calls d = if calls.remove then record d { temp = none } ∷ [] else []

-- The disk after each call of `writeCache` that changes it; the deferred removal is the last, and has
-- nothing to remove after a rename.
unfoldable pub write_steps : Calls → Str → Disk → List Disk
write_steps calls tok d =
    if not calls.mkdir || not calls.create_temp
    then []
    else if not calls.chmod
    then with_temp d [] ∷ removed calls (with_temp d [])
    else if not calls.write
    then with_temp d [] ∷ with_temp d calls.partial ∷ removed calls (with_temp d calls.partial)
    else if not calls.close || not calls.rename
    then with_temp d [] ∷ with_temp d tok ∷ removed calls (with_temp d tok)
    else with_temp d [] ∷ with_temp d tok ∷ record { cache = some tok; temp = none } ∷ []

abbrev pub last_or : Disk → List Disk → Disk
last_or d [] = d
last_or d (e ∷ es) = last_or e es

-- A goroutine of `refreshAsync`, before and after it has minted.
pub data Worker : Type 0 where
  minting releasing : Worker

pub record State : Type 0 where
  pub disk : Disk
  pub last_err : Option FetchError
  pub refreshing : Bool
  pub workers : List Worker

-- `writeCache`
unfoldable pub write_cache : Calls → Str → State → State
write_cache calls tok st = record st { disk = last_or st.disk (write_steps calls tok st.disk) }

unfoldable pub refresh_async : State → State
refresh_async st =
    if st.refreshing then st else record st { refreshing = true; workers = minting ∷ st.workers }

abbrev pub error_of : Result FetchError Str → Option FetchError
error_of (ok tok) = none
error_of (err e) = some e

-- The clock, as `readCache` and as `Token` read it.
pub record Times : Type 0 where
  pub read_at : ℤ
  pub until_at : ℤ

module _ (json : JsonPackage) (ts : Settings) where
  abbrev usable : ℤ → Str → Option (ℤ × List Str) → Option (Str × ℤ)
  usable now tok none = none
  usable now tok (some (exp, auds)) =
      if not (ltb_ℤ now exp)
      then none
      else if not (contains ts.audience auds)
      then none
      else some (tok, exp)

  abbrev trimmed : ℤ → Str → Option (Str × ℤ)
  trimmed now tok =
      if is_empty tok then none else usable now tok (unverified_expiry_audience json tok)

  -- `none` is a miss.
  unfoldable pub read_cache : ℤ → Option Str → Option (Str × ℤ)
  read_cache now none = none
  read_cache now (some text) = trimmed now (trim_space text)

  abbrev stored : Calls → Str → State → State
  stored calls tok st = if is_empty ts.cache_path then st else write_cache calls tok st

  abbrev fetched : Calls → State → Result FetchError Str → Result FetchError Str × State
  fetched calls st (err e) = (err e, st)
  fetched calls st (ok tok) = (ok tok, stored calls tok st)

  abbrev cached : Times → Client → Calls → State → Option (Str × ℤ) → Result FetchError Str × State
  cached times client calls st none = fetched calls st (mint ts client)
  cached times client calls st (some (tok, exp)) = (
    ok tok,
    if ltb_ℤ exp (times.until_at +ℤ ts.cache_refresh_before) then refresh_async st else st,
  )

  -- `Token`
  unfoldable pub token : Times → Client → Calls → State → Result FetchError Str × State
  token times client calls st =
      if is_empty ts.cache_path
      then fetched calls st (mint ts client)
      else cached times client calls st (read_cache times.read_at st.disk.cache)

  abbrev or_empty : Result FetchError Str → Str
  or_empty (ok tok) = tok
  or_empty (err e) = []

  -- The handler of `NATSOption`.
  unfoldable pub token_handler : Times → Client → Calls → State → Str × State
  token_handler times client calls st =
      let (r, st') = token times client calls st in
      (or_empty r, record st' { last_err = error_of r })

  abbrev kept_or_written : Calls → State → Result FetchError Str → State
  kept_or_written calls st (err e) = st
  kept_or_written calls st (ok tok) = write_cache calls tok st

  -- What the goroutine of `refreshAsync` does before it gives up `refreshing`.
  unfoldable pub background_mint : Client → Calls → State → State
  background_mint client calls st =
      let r = mint ts client in kept_or_written calls (record st { last_err = error_of r }) r

  -- One step of a token source: a call, or a goroutine's next action.
  pub data Step : State → State → Type 0 where
    called :
        {st : State} (times : Times) (client : Client) (calls : Calls)
        → Step st (token times client calls st).1
    handled :
        {st : State} (times : Times) (client : Client) (calls : Calls)
        → Step st (token_handler times client calls st).1
    minted :
        {st : State} (client : Client) (calls : Calls) (before after : List Worker)
        → st.workers ≡ before ++ minting ∷ after
        → Step st
            (record (background_mint client calls st) { workers = before ++ releasing ∷ after })
    released :
        {st : State} (before after : List Worker)
        → st.workers ≡ before ++ releasing ∷ after
        → Step st (record st { refreshing = false; workers = before ++ after })

  pub data Steps : State → State → Type 0 where
    stay : {st : State} → Steps st st
    then_step : {st st' st'' : State} → Steps st st' → Step st' st'' → Steps st st''
