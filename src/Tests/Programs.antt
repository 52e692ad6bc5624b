-- ===== src/Tests/Programs.antt =====
-- lib/awsauth, test/k8s/client/main.go, internal/metrics/server.go: construction, the test client, and
-- the metrics server.
use nats_jwt_callout.Base.{
  ◌%◌, ◌≡◌, refl, sym, ap, ◌∙◌, if◌then◌else◌, true, false, none, some, Option, [], ◌∷◌, ◌++◌, map,
  Str, codes, ◌==◌, arith, ok, err, cut_prefix-append, cut_prefix,
}
use nats_jwt_callout.Base.Int.{pos}
use nats_jwt_callout.Base.Dict.{lookup}
use nats_jwt_callout.Base64.RoundTrip.{IsBytes}
use nats_jwt_callout.AwsAuth
use nats_jwt_callout.AwsAuth.{settings_of, validate, new_with_client}
use nats_jwt_callout.AwsAuth.Construction
use nats_jwt_callout.AwsAuth.Construction.{AwsConfig, IsNew, new-eq-ok_iff}
use nats_jwt_callout.AwsAuth.CachePath.{default_cache_path, default_cache_path-eq_iff}
use nats_jwt_callout.AwsAuth.Source
use nats_jwt_callout.K8sAuth
use nats_jwt_callout.TestClient
use nats_jwt_callout.TestClient.{
  World, ConnectError, authorization, main, publish_all, after_connect,
}
use nats_jwt_callout.TestClient.Outcomes.{Passes, main-Passes}
use nats_jwt_callout.MetricsServer.{Reached, begins, later, failed, error_case}
use nats_jwt_callout.MetricsServer.Ending.{IsOrderly, Reached-IsOrderly}

abbrev config : AwsAuth.Config
config = record {
  audience = codes "nats";
  signing_algorithm = [];
  duration = pos 60_000_000_000;
  cache_path = codes "c";
  cache_refresh_before = pos 0;
}

abbrev aws : Option AwsConfig
aws = some (record { region = codes "eu-west-3" })

new-eq-ok_iff_example : IsNew aws config (settings_of config)
unfolding Construction.new Construction.new_from_aws_config new_with_client validate lookup ◌==◌
new-eq-ok_iff_example = ((new-eq-ok_iff aws config).0 (settings_of config)).0 refl

abbrev digest : Str → Str
digest s = map (λ c. c % 256) s

digest-IsBytes : (s : Str) → IsBytes (digest s)
digest-IsBytes [] = tt
digest-IsBytes (c ∷ s) = (omega arith, digest-IsBytes s)

abbrev join : Str → Str → Str → Str
join dir sub name = (dir ++ codes "/" ++ sub ++ codes "/") ++ name

join_injective : (p s t : Str) → p ++ s ≡ p ++ t → s ≡ t
join_injective p s t e =
    let same = sym (cut_prefix-append p s) ∙ ap (λ u. cut_prefix u p) e ∙ cut_prefix-append p t in
    cc

-- Two audiences that start with the same eight bytes, with a digest that is no hash.
default_cache_path-eq_iff_example :
    default_cache_path digest join (some (codes "/home")) (codes "audience-1")
    ≡ default_cache_path digest join (some (codes "/home")) (codes "audience-2")
default_cache_path-eq_iff_example =
    (default_cache_path-eq_iff digest join (codes "/home") (codes "audience-1") (codes "audience-2")
        digest-IsBytes
        (λ sub s t hs ht e.
          join_injective (codes "/home" ++ codes "/" ++ sub ++ codes "/") s t e)).1
      refl

abbrev world : World
world = record {
  files_at_start = λ path. some (codes "tok");
  files_at_connect = λ path. some (codes "tok2");
  connect = λ url tok. if tok == codes "tok2" then err authorization else ok tt;
  publish = λ subject. true;
  flush = true;
}

main-Passes_example : Passes world (codes "u") (codes "p") (codes "s") (codes "deny")
unfolding main ◌==◌ TestClient.run K8sAuth.new K8sAuth.token Source.trim_space Source.trim_rounds
    Source.cut_any cut_prefix after_connect K8sAuth.token_handler
main-Passes_example = (main-Passes world (codes "u") (codes "p") (codes "s") (codes "deny")).0 refl

-- The server fails, and `Serve` returns its error.
after_failure : Reached Str (record {
  ctx_done = false;
  serving = false;
  err_ch = none;
  shut_down = false;
  result = some (some (codes "e"));
})
after_failure =
    later (later begins (failed (codes "e") refl refl)) (error_case (codes "e") refl refl)

Reached-IsOrderly_example : IsOrderly Str (record {
  ctx_done = false;
  serving = false;
  err_ch = none;
  shut_down = false;
  result = some (some (codes "e"));
})
Reached-IsOrderly_example = Reached-IsOrderly Str after_failure
