-- ===== src/Tests/Clients.antt =====
-- lib/awsauth and lib/k8sauth: token sources that the theorems speak of.
use nats_jwt_callout.Base.{
  ◌≡◌, refl, true, false, none, some, [], ◌∷◌, map, Str, codes, ◌==◌, ◌≢◌, All, arith,
}
use nats_jwt_callout.Base.Int.{pos}
use nats_jwt_callout.Base.Dict.{lookup}
use nats_jwt_callout.AwsAuth
use nats_jwt_callout.AwsAuth.{
  Settings, FetchError, Client, JsonPackage, validate, new_with_client, settings_of,
}
use nats_jwt_callout.AwsAuth.Bounds.{IsReady, new_with_client-IsReady}
use nats_jwt_callout.AwsAuth.Source.{
  Disk, Calls, State, Times, write_steps, spaces, token, stay, then_step, called,
}
use nats_jwt_callout.AwsAuth.Source.Writing.{IsAtomic, write_steps-IsAtomic}
use nats_jwt_callout.AwsAuth.Source.Serving.{Served, token-Served}
use nats_jwt_callout.AwsAuth.Source.Refresh.{IsSingle, Steps-IsSingle}
use nats_jwt_callout.K8sAuth
use nats_jwt_callout.K8sAuth.{TokenSource, Files, connects}
use nats_jwt_callout.K8sAuth.Rotation.{content, last, connects-content}

abbrev config : AwsAuth.Config
config = record {
  audience = codes "nats";
  signing_algorithm = [];
  duration = pos 60_000_000_000;
  cache_path = codes "c";
  cache_refresh_before = pos 0;
}

new_with_client-IsReady_example : IsReady (settings_of config)
unfolding new_with_client validate lookup ◌==◌
new_with_client-IsReady_example = new_with_client-IsReady config {ts = settings_of config} refl

-- Claims are the text "exp", for a token that expires at second 900, or nothing.
abbrev json : JsonPackage
json = record {
  unmarshal_claims = λ s. some (pos 900, codes "nats");
  unmarshal_string = λ s. some s;
  unmarshal_strings = λ s. none;
}

abbrev settings : Settings
settings = settings_of config

abbrev client : Client
client = λ input. some (some (codes "a.bbbb.c"))

abbrev all_calls : Calls
all_calls = record {
  mkdir = true;
  create_temp = true;
  chmod = true;
  write = true;
  partial = [];
  close = true;
  rename = true;
  remove = true;
}

abbrev empty_disk : Disk
empty_disk = record { cache = none; temp = none }

abbrev idle : State
idle = record { disk = empty_disk; last_err = none; refreshing = false; workers = [] }

abbrev now : Times
now = record { read_at = pos 895_000_000_000; until_at = pos 895_000_000_001 }

write_steps-IsAtomic_example :
    IsAtomic true false (codes "t") empty_disk (write_steps all_calls (codes "t") empty_disk)
write_steps-IsAtomic_example = write_steps-IsAtomic all_calls (codes "t") empty_disk refl

token-Served_example :
    Served json settings now client all_calls idle (token json settings now client all_calls idle)
token-Served_example = token-Served json settings now client all_calls idle

-- A first call mints the token and writes it, and a second begins a refresh.
abbrev after_first : State
after_first = (token json settings now client all_calls idle).1

abbrev after_second : State
after_second = (token json settings now client all_calls after_first).1

Steps-IsSingle_example : IsSingle after_second
Steps-IsSingle_example =
    Steps-IsSingle json settings {st = idle} {st' = after_second} refl
      (then_step (then_step stay (called now client all_calls)) (called now client all_calls))

spaces-nonempty : All (λ p. p ≢ []) spaces
spaces-nonempty = ground arith

abbrev source : TokenSource
source = record { path = codes "t"; last_err = none }

abbrev holding : Str → Files
holding text = λ path. some text

connects-content_example :
    ((connects (holding (codes "a") ∷ holding (codes " b ") ∷ []) source).0
      ≡ map (λ f. content (f source.path)) (holding (codes "a") ∷ holding (codes " b ") ∷ []))
    × ((connects (holding (codes "a") ∷ holding (codes " b ") ∷ []) source).1.last_err
        ≡ K8sAuth.error_of
            (K8sAuth.token false (last (holding (codes " b ") ∷ []) (holding (codes "a"))) source))
connects-content_example =
    connects-content (holding (codes "a")) (holding (codes " b ") ∷ []) source
