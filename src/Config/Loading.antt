-- ===== src/Config/Loading.antt =====
-- internal/config/config.go: what is known of a configuration that was loaded.
use nats_jwt_callout.Base.{
  ◌≡◌, refl, ◌∙◌, ◌⊎◌, inl, inr, ◌≢◌, true, false, Option, none, some, List, [], ◌∷◌, map, Str,
  is_empty, no_items, is_empty_iff, is_empty-false_iff, All, All₂, arith, ok, >>=-eq-ok, or_err,
  or_err-eq-ok, wrap_err-eq-ok, wrap_err, Bool-cases,
}
use nats_jwt_callout.Base.Int.{is_zero}
use nats_jwt_callout.Regexp.{RegexpPackage}
use nats_jwt_callout.Authz.Cel.{CelPackage}
use nats_jwt_callout.Authz.Policy
use nats_jwt_callout.Authz.Policy.{PolicyError, PolicyRule}
use nats_jwt_callout.Authz.Policy.Validation.{validate-IsValidated}
use nats_jwt_callout.Authz.Policy.Checks.{IsChecked, IsFresh, SameSource}
use nats_jwt_callout.Config.{
  Config, RuleSource, Files, read_config, parse_config, read_policy, parse_policy,
  policy_file_invalid, policy_invalid, nats_url_required, seed_required, audience_required,
  signing_alg_required, issuer_required, with_defaults, missing_url, check, no_missing_url, Loaded,
  from_source, decoded, validated, load_policy, validate, choose_policy, with_policy, load,
}
use nats_jwt_callout.Config.Settings.{
  IsSettingsOf, timeout-IsTimeoutOf, metrics_defaults-IsMetricsOf,
}
use nats_jwt_callout.Config.Checks.{
  check_inv, missing_url-eq-none, no_missing_url_inv, nonempty-no_items_inv, HasEndpoint,
  metrics_defaults-HasEndpoint, timeout_set,
}

module _ (re : RegexpPackage) (cel : CelPackage) where
  validated_inv :
      (o : Policy.Policy re cel × Option PolicyError) {p : Policy.Policy re cel}
      → validated re cel o ≡ ok p
      → o ≡ (p, none)
  validated_inv (q, none) h = ground arith
  validated_inv (q, some e) h = absurd (ground arith)

  -- What `Validate` has checked of a configuration, and what it has made of its policy.
  pub record IsValid (cfg cfg' : Loaded re cel) : Type 0 where
    pub url : cfg.nats.url ≢ []
    pub seed : cfg.issuer_account_seed ≢ []
    pub audiences : cfg.audiences ≢ []
    pub signing_algs : cfg.signing_algs ≢ []
    pub issuers : cfg.issuers ≢ []
    pub issuer_urls : All (λ iss. iss.url ≢ []) cfg.issuers
    pub policy : Policy.validate re cel cfg.policy ≡ (cfg'.policy, none)
    pub others : cfg' ≡ record cfg { policy = cfg'.policy }

  validate_inv :
      (cfg : Loaded re cel) {cfg' : Loaded re cel}
      → validate re cel cfg ≡ ok cfg'
      → IsValid cfg cfg'
  unfolding validate
  validate_inv cfg {cfg'} h =
      let (_, url, h1) = >>=-eq-ok (check nats_url_required (is_empty cfg.nats.url)) _ h in
      let (_, seed, h2) = >>=-eq-ok (check seed_required (is_empty cfg.issuer_account_seed)) _ h1 in
      let (_, auds, h3) = >>=-eq-ok (check audience_required (no_items cfg.audiences)) _ h2 in
      let (_, algs, h4) = >>=-eq-ok (check signing_alg_required (no_items cfg.signing_algs)) _ h3 in
      let (_, isss, h5) = >>=-eq-ok (check issuer_required (no_items cfg.issuers)) _ h4 in
      let (_, urls, h6) = >>=-eq-ok (no_missing_url (missing_url 0 cfg.issuers)) _ h5 in
      let (p, pol, h7) =
        >>=-eq-ok (wrap_err policy_invalid (validated re cel (Policy.validate re cel cfg.policy))) _
          h6 in
      let same : record cfg { policy = p } ≡ cfg' = ground arith in
      rw (← same) (record {
        url = (is_empty-false_iff cfg.nats.url).0 (check_inv _ _ url);
        seed = (is_empty-false_iff cfg.issuer_account_seed).0 (check_inv _ _ seed);
        audiences = nonempty-no_items_inv cfg.audiences (check_inv _ _ auds);
        signing_algs = nonempty-no_items_inv cfg.signing_algs (check_inv _ _ algs);
        issuers = nonempty-no_items_inv cfg.issuers (check_inv _ _ isss);
        issuer_urls = missing_url-eq-none 0 cfg.issuers (no_missing_url_inv _ urls);
        policy = validated_inv (Policy.validate re cel cfg.policy) (wrap_err-eq-ok _ _ pol);
        others = refl;
      })

  SameSource-refl : (rs : List (PolicyRule re cel)) → All₂ (SameSource re cel) rs rs
  SameSource-refl [] = tt
  SameSource-refl (r ∷ rs) = ((refl, refl, refl), SameSource-refl rs)

  SameSource-trans :
      (rs ss ts : List (PolicyRule re cel))
      → All₂ (SameSource re cel) rs ss
      → All₂ (SameSource re cel) ss ts
      → All₂ (SameSource re cel) rs ts
  SameSource-trans [] [] ts h k = k
  SameSource-trans [] (s ∷ ss) ts h k = elim h [ ]
  SameSource-trans (r ∷ rs) [] ts h k = elim h [ ]
  SameSource-trans (r ∷ rs) (s ∷ ss) [] h k = elim k [ ]
  SameSource-trans (r ∷ rs) (s ∷ ss) (t ∷ ts) ((a, b, c), h) ((a', b', c'), k) =
      ((a ∙ a', b ∙ b', c ∙ c'), SameSource-trans rs ss ts h k)

  decoded-IsFresh :
      (rules : List RuleSource) → All (IsFresh re cel) (map (from_source re cel) rules)
  decoded-IsFresh [] = tt
  decoded-IsFresh (r ∷ rules) = ((λ _. refl), decoded-IsFresh rules)

  IsChecked-IsFresh :
      (rs : List (PolicyRule re cel)) → All (IsChecked re cel) rs → All (IsFresh re cel) rs
  IsChecked-IsFresh [] h = tt
  IsChecked-IsFresh (r ∷ rs) (c, h) = (
    λ empty. elim c.program [
      | inl (_, no_program) ↦ no_program
      | inr (_, _, _, _, _, _, set) ↦ absurd (set empty)
    ],
    IsChecked-IsFresh rs h,
  )

  -- The rules that the policy file has, or the configuration where it names no such file.
  pub RulesOf : Files → Config (List RuleSource) → List RuleSource → Type 0
  RulesOf files source rules =
      ((source.policy_file ≡ []) × (source.policy ≡ rules))
      ⊎ ((text : Str) × (files.read_file source.policy_file ≡ some text)
          × (files.unmarshal_policy text ≡ some rules))

  record IsChosen (files : Files) (source : Config (List RuleSource)) (p : Policy.Policy re cel)
      : Type 0 where
    rules : List RuleSource
    from : RulesOf files source rules
    same : All₂ (SameSource re cel) (map (from_source re cel) rules) p.rules
    fresh : All (IsFresh re cel) p.rules

  load_policy_inv :
      (files : Files) (source : Config (List RuleSource)) {p : Policy.Policy re cel}
      → load_policy re cel files source.policy_file ≡ ok p
      → IsChosen files source p
  unfolding load_policy RulesOf
  load_policy_inv files source {p} h =
      let (text, reading, h1) =
        >>=-eq-ok (or_err (read_policy source.policy_file) (files.read_file source.policy_file)) _
          h in
      let (rules, parsed, h2) =
        >>=-eq-ok (or_err (parse_policy source.policy_file) (files.unmarshal_policy text)) _ h1 in
      let accepted =
        validated_inv (Policy.validate re cel (decoded re cel rules))
          (wrap_err-eq-ok policy_file_invalid _ h2) in
      let v = validate-IsValidated re cel (decoded re cel rules) (decoded-IsFresh rules) accepted in
      record {
        rules = rules;
        from = inr (text, or_err-eq-ok _ _ reading, or_err-eq-ok _ _ parsed);
        same = v.source;
        fresh = IsChecked-IsFresh p.rules v.checked;
      }

  choose_policy_inv :
      (files : Files) (source : Config (List RuleSource)) {p : Policy.Policy re cel}
      → choose_policy re cel files source ≡ ok p
      → IsChosen files source p
  unfolding choose_policy RulesOf
  choose_policy_inv files source {p} h = elim (Bool-cases (is_empty source.policy_file)) [
    | inl unset ↦
        let inline : decoded re cel source.policy ≡ p = ground arith in
        rw (← inline) (record {
          rules = source.policy;
          from = inl ((is_empty_iff source.policy_file).0 unset, refl);
          same = SameSource-refl _;
          fresh = decoded-IsFresh source.policy;
        })
    | inr set ↦ load_policy_inv files source (rw (set, choose_policy) at h)
  ]

  -- What a loaded configuration is known to be, and where its policy comes from.
  pub record IsLoaded (files : Files) (path : Str) (cfg : Loaded re cel) : Type 0 where
    pub text : Str
    pub source : Config (List RuleSource)
    pub rules : List RuleSource
    pub reading : files.read_file path ≡ some text
    pub parsed : files.unmarshal_config text ≡ some source
    pub settings : IsSettingsOf source cfg
    pub from : RulesOf files source rules
    pub same_rules : All₂ (SameSource re cel) (map (from_source re cel) rules) cfg.policy.rules
    pub validated_policy : cfg.policy.validated ≡ true
    pub some_rule : cfg.policy.rules ≢ []
    pub checked_rules : All (IsChecked re cel) cfg.policy.rules
    pub url : cfg.nats.url ≢ []
    pub seed : cfg.issuer_account_seed ≢ []
    pub audiences : cfg.audiences ≢ []
    pub signing_algs : cfg.signing_algs ≢ []
    pub issuers : cfg.issuers ≢ []
    pub issuer_urls : All (λ iss. iss.url ≢ []) cfg.issuers
    pub timeout : is_zero cfg.http_timeout ≡ false
    pub endpoint : HasEndpoint cfg.metrics

  -- A configuration that `Load` returns comes from the file at the path: it has the settings of the
  -- text that is read there, each of them, with ten seconds for a timeout of zero, and the default
  -- address and path for an enabled metrics endpoint that has none. It has the connection URL,
  -- the seed, an audience, an algorithm and an issuer, and every issuer has a URL; the timeout is set,
  -- and an enabled metrics endpoint has an address and a path. Its rules are those of the policy file,
  -- or the inline ones where no policy file is named, and `Validate` has checked each of them.
  pub load-IsLoaded :
      (files : Files) (path : Str) {cfg : Loaded re cel}
      → load re cel files path ≡ ok cfg
      → IsLoaded files path cfg
  unfolding load with_defaults
  load-IsLoaded files path {cfg} h =
      let (text, reading, h1) = >>=-eq-ok (or_err (read_config path) (files.read_file path)) _ h in
      let (source, parsed, h2) =
        >>=-eq-ok (or_err (parse_config path) (files.unmarshal_config text)) _ h1 in
      let (p, chosen, h3) = >>=-eq-ok (choose_policy re cel files source) _ h2 in
      let c = choose_policy_inv files source chosen in
      let given = with_defaults (with_policy re cel source p) in
      let v = validate_inv given {cfg' = cfg} h3 in
      let checked = validate-IsValidated re cel given.policy c.fresh v.policy in
      rw v.others (record {
        text = text;
        source = source;
        rules = c.rules;
        reading = or_err-eq-ok _ _ reading;
        parsed = or_err-eq-ok _ _ parsed;
        settings = record {
          nats = refl;
          account_seed = refl;
          xkey_seed = refl;
          audiences = refl;
          signing_algs = refl;
          issuers = refl;
          http_timeout = timeout-IsTimeoutOf source;
          oidc_ca_cert = refl;
          metrics = metrics_defaults-IsMetricsOf source.metrics;
        };
        from = c.from;
        same_rules = SameSource-trans _ _ _ c.same checked.source;
        validated_policy = checked.validated;
        some_rule = checked.not_empty;
        checked_rules = checked.checked;
        url = v.url;
        seed = v.seed;
        audiences = v.audiences;
        signing_algs = v.signing_algs;
        issuers = v.issuers;
        issuer_urls = v.issuer_urls;
        timeout = timeout_set source.http_timeout;
        endpoint = metrics_defaults-HasEndpoint source.metrics;
      })
