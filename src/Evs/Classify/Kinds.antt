-- ===== src/Evs/Classify/Kinds.antt =====
-- internal/evs/client.go: what a classified error is.
use t_cloud_public_csi_drive.Common.{◌≡◌, refl, ◌⊎◌, inl, inr, Bool, true, false, Bool-cases, arith}
use t_cloud_public_csi_drive.Errors.{
  Sentinel, not_found, conflict, invalid_argument, not_owned, unauthenticated, permission_denied,
  unavailable, operation_failed, canceled, deadline_exceeded, Err, errors_is, only,
}
use t_cloud_public_csi_drive.Evs.Classify.{classify_foreign, classify_error_kind, classify_error}

-- The sentinels of the package.
abbrev pub is_domain : Sentinel → Bool
is_domain not_found = true
is_domain conflict = true
is_domain invalid_argument = true
is_domain not_owned = true
is_domain unauthenticated = true
is_domain permission_denied = true
is_domain unavailable = true
is_domain operation_failed = true
is_domain _ = false

-- What an operation of the client reports: one sentinel of the package, or the end of a context.
abbrev pub IsReported : Err → Type 0
IsReported e =
    (e ≡ only canceled)
    ⊎ (e ≡ only deadline_exceeded)
    ⊎ ((s : Sentinel) × (e ≡ only s) × (is_domain s ≡ true))

classify_foreign_domain : (e : Err) → is_domain (classify_foreign e) ≡ true
unfolding classify_foreign
classify_foreign_domain e = ground arith

classify_error_kind_domain : (e : Err) → is_domain (classify_error_kind e) ≡ true
unfolding classify_error_kind
classify_error_kind_domain e = ground (arith, classify_foreign_domain e)

-- Of any error, whatever the SDK put in it, the classified one is a single sentinel of the package or
-- of `context`, and nothing else of the error is left to inspect.
pub classify_error-IsReported : (e : Err) → IsReported (classify_error e)
unfolding classify_error
classify_error-IsReported e = elim (Bool-cases (errors_is e canceled)) [
  | inl c ↦ inl (ground arith)
  | inr nc ↦ elim (Bool-cases (errors_is e deadline_exceeded)) [
    | inl d ↦ inr (inl (ground arith))
    | inr nd ↦ inr (inr (classify_error_kind e, ground arith, classify_error_kind_domain e))
  ]
]

only_reported : (s : Sentinel) → is_domain s ≡ true → classify_error (only s) ≡ only s
unfolding classify_error errors_is
only_reported not_found d = refl
only_reported conflict d = refl
only_reported invalid_argument d = refl
only_reported not_owned d = refl
only_reported unauthenticated d = refl
only_reported permission_denied d = refl
only_reported unavailable d = refl
only_reported operation_failed d = refl
only_reported _ d = cc

classify_reported : (e : Err) → IsReported e → classify_error e ≡ e
unfolding classify_error errors_is
classify_reported e (inl c) = rw c
classify_reported e (inr (inl d)) = rw d
classify_reported e (inr (inr (s, eq, dom))) = rw eq (only_reported s dom)

-- To classify an error again, as the callers of an operation that classified it do, changes nothing.
pub classify_error_idem : (e : Err) → classify_error (classify_error e) ≡ classify_error e
classify_error_idem e = classify_reported (classify_error e) (classify_error-IsReported e)
