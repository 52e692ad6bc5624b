-- ===== src/AwsAuth/Source/Writing.antt =====
-- lib/awsauth/awsauth.go: `writeCache` is atomic.
use nats_jwt_callout.Base.{
  ◌≡◌, refl, ◌⊎◌, inl, inr, Bool, true, false, not, ◌&&◌, ◌||◌, none, some, List, [], ◌∷◌, ◌++◌,
  if◌then◌else◌, Str, All, All-append, ◌≢◌, arith, Bool-cases,
}
use nats_jwt_callout.AwsAuth.Source.{Disk, Calls, write_steps, last_or}

-- Every call of the write succeeds; what the deferred removal does is of no account then.
abbrev pub all_work : Calls → Bool
all_work c = c.mkdir && c.create_temp && c.chmod && c.write && c.close && c.rename

-- The temporary file is there when the write gives up.
abbrev pub leaves_temp : Calls → Bool
leaves_temp c = c.mkdir && c.create_temp && not (all_work c) && not c.remove

abbrev pub OldOrNew : Disk → Str → Disk → Type 0
OldOrNew d tok e = (e.cache ≡ d.cache) ⊎ (e.cache ≡ some tok)

-- The disk over the steps of a write, of which all calls succeed or not, and which leaves its temporary
-- file or not.
pub record IsAtomic (all leaves : Bool) (tok : Str) (d : Disk) (steps : List Disk) : Type 0 where
  pub at_any_time : All (OldOrNew d tok) steps
  pub no_temp : leaves ≡ false → (last_or d steps).temp ≡ none
  pub left : leaves ≡ true → (last_or d steps).temp ≢ none
  pub written : all ≡ true → (last_or d steps).cache ≡ some tok
  pub unchanged : all ≡ false → (last_or d steps).cache ≡ d.cache

last_or-append :
    (d x : Disk) (before rest : List Disk) → last_or d (before ++ x ∷ rest) ≡ last_or x rest
last_or-append d x [] rest = refl
last_or-append d x (e ∷ before) rest = last_or-append e x before rest

-- A write that gives up with the temporary file there, after the steps before.
gave_up :
    (all leaves remove : Bool) (tok : Str) (d x : Disk) (before : List Disk)
    → all ≡ false
    → leaves ≡ not remove
    → All (OldOrNew d tok) before
    → x.temp ≢ none
    → x.cache ≡ d.cache
    → IsAtomic all leaves tok d
        (before ++ x ∷ (if remove then record x { temp = none } ∷ [] else []))
gave_up all leaves true tok d x before e l times there same = record {
  at_any_time = All-append (OldOrNew d tok) before _ times (inl same, (inl same, tt));
  no_temp = λ h. rw (last_or-append d x before (record x { temp = none } ∷ [])) refl;
  left = λ h. absurd (ground arith);
  written = λ h. absurd (ground arith);
  unchanged = λ h. rw (last_or-append d x before (record x { temp = none } ∷ [])) same;
}
gave_up all leaves false tok d x before e l times there same = record {
  at_any_time = All-append (OldOrNew d tok) before _ times (inl same, tt);
  no_temp = λ h. absurd (ground arith);
  left = λ h. rw (last_or-append d x before []) there;
  written = λ h. absurd (ground arith);
  unchanged = λ h. rw (last_or-append d x before []) same;
}

not_begun :
    (all leaves : Bool) (tok : Str) (d : Disk)
    → all ≡ false
    → leaves ≡ false
    → d.temp ≡ none
    → IsAtomic all leaves tok d []
not_begun all leaves tok d e l clean = record {
  at_any_time = tt;
  no_temp = λ h. clean;
  left = λ h. absurd (ground arith);
  written = λ h. absurd (ground arith);
  unchanged = λ h. refl;
}

-- Whichever of its calls fail, and wherever the process is stopped, `writeCache` leaves the cache as it
-- was, or with the whole new token. When it returns, the cache holds the new token if every call up to
-- the rename has succeeded, and is as it was if not. Its temporary file is then gone, unless the write
-- has given up after creating it and the removal has failed too, in which case the file is left there.
-- No temporary file of that name was there before.
pub write_steps-IsAtomic :
    (calls : Calls) (tok : Str) (d : Disk)
    → d.temp ≡ none
    → IsAtomic (all_work calls) (leaves_temp calls) tok d (write_steps calls tok d)
unfolding write_steps
write_steps-IsAtomic calls tok d clean =
    elim (Bool-cases (not calls.mkdir || not calls.create_temp)) [
      | inl refused ↦
          rw refused (
            not_begun (all_work calls) (leaves_temp calls) tok d (ground arith) (ground arith)
              clean)
      | inr made ↦ elim (Bool-cases (not calls.chmod)) [
        | inl refused ↦
            rw (made, refused)
              (gave_up (all_work calls) (leaves_temp calls) calls.remove tok d
                (record d { temp = some [] }) [] (ground arith) (ground arith) tt (λ e. cc) refl)
        | inr owned ↦ elim (Bool-cases (not calls.write)) [
          | inl refused ↦
              rw (made, owned, refused)
                (gave_up (all_work calls) (leaves_temp calls) calls.remove tok d
                  (record d { temp = some calls.partial }) (record d { temp = some [] } ∷ [])
                  (ground arith) (ground arith) (inl refl, tt) (λ e. cc) refl)
          | inr filled ↦ elim (Bool-cases (not calls.close || not calls.rename)) [
            | inl refused ↦
                rw (made, owned, filled, refused)
                  (gave_up (all_work calls) (leaves_temp calls) calls.remove tok d
                    (record d { temp = some tok }) (record d { temp = some [] } ∷ []) (ground arith)
                    (ground arith) (inl refl, tt) (λ e. cc) refl)
            | inr done ↦
                rw (made, owned, filled, done)
                  (record {
                    at_any_time = (inl refl, (inl refl, (inr refl, tt)));
                    no_temp = λ h. refl;
                    left = λ h. absurd (ground arith);
                    written = λ h. refl;
                    unchanged = λ h. absurd (ground arith);
                  })
          ]
        ]
      ]
    ]
