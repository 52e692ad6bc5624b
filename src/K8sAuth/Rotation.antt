-- ===== src/K8sAuth/Rotation.antt =====
-- lib/k8sauth/k8sauth.go: every connect presents the token that is in the file at that moment.
use nats_jwt_callout.Base.{
  arith, ◌≡◌, refl, sym, ap, inl, inr, is_empty_iff, Bool-cases, Option-cases, false, Option, none,
  some, List, [], ◌∷◌, Str, map, is_empty,
}
use nats_jwt_callout.AwsAuth.Source.{trim_space}
use nats_jwt_callout.K8sAuth.{
  TokenSource, Files, token, error_of, or_empty, token_handler, connects,
}

-- The text of the file, trimmed; nothing where there is no such file.
abbrev pub content : Option Str → Str
content none = []
content (some text) = trim_space text

pub or_empty-token :
    (files : Files) (ts : TokenSource) → or_empty (token false files ts) ≡ content (files ts.path)
unfolding token
or_empty-token files ts = elim (Option-cases (files ts.path)) [
  | inl missing ↦ rw missing refl
  | inr (text, found) ↦ elim (Bool-cases (is_empty (trim_space text))) [
    | inl blank ↦ rw (found, blank) (sym ((is_empty_iff (trim_space text)).0 blank))
    | inr filled ↦ rw (found, filled) refl
  ]
]

abbrev pub last : List Files → Files → Files
last [] files = files
last (f ∷ fs) files = last fs f

cons_eq : {t u : Str} {ts us : List Str} → t ≡ u → ts ≡ us → t ∷ ts ≡ u ∷ us
cons_eq e e' = ground arith

-- On each connect NATS is given the text that is in the file at that moment, without the white space
-- around it, or nothing if there is no file: a rotated token is never missed. After the last connect,
-- the error that is kept is the one of that connect's read, or none.
pub connects-content :
    (files : Files) (later : List Files) (ts : TokenSource)
    → ((connects (files ∷ later) ts).0 ≡ map (λ f. content (f ts.path)) (files ∷ later))
      × ((connects (files ∷ later) ts).1.last_err ≡ error_of (token false (last later files) ts))
unfolding connects token_handler token
connects-content files [] ts = (ap (λ t. t ∷ []) (or_empty-token files ts), refl)
connects-content files (f ∷ later) ts =
    let (tokens, last_err) = connects-content f later (token_handler files ts).1 in
    (cons_eq (or_empty-token files ts) tokens, last_err)
