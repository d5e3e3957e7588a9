-- ===== src/Evs/Transport/Redirects.antt =====
-- internal/evs/transport.go: the redirects that `checkRedirect` lets a client follow.
use t_cloud_public_csi_drive.Common.{
  ◌≡◌, ◌∙◌, refl, subst, ◌≤◌, suc, Bool-cases, inl, inr, Option, none, some, List, [], ◌∷◌, ◌++◌,
  arith, All, length, length-append, ltb, eq_iff,
}
use t_cloud_public_csi_drive.Eff.{ok}
use t_cloud_public_csi_drive.Evs.Transport.{
  Request, max_redirects, last_of, redirect_from, check_redirect,
}

module _ (resign : Request → Request) where
  -- The requests that a client makes one after another, the oldest first: each but the first is a
  -- redirect that was accepted, with its new signature.
  pub data Follows : List Request → Type 0 where
    start : (r : Request) → Follows (r ∷ [])
    hop :
        {via now : List Request} (req : Request) {next : Request}
        → Follows via
        → check_redirect resign req via ≡ some (ok next)
        → now ≡ via ++ next ∷ []
        → Follows now

  -- The requests go to the scheme and the host of one of them.
  abbrev pub SameOrigin : Request → Request → Type 0
  SameOrigin a b = (a.scheme ≡ b.scheme) × (a.host ≡ b.host)

  -- The SDK's signature leaves the URL of a request as it is.
  pub record KeepsUrl : Type 0 where
    pub at : (r : Request) → SameOrigin (resign r) r

  All-last :
      (P : Request → Type 0) (via : List Request) {r : Request}
      → last_of via ≡ some r
      → All P via
      → P r
  All-last P [] e all = absurd (ground arith)
  All-last P (x ∷ []) e all = subst P (let same : x ≡ _ = ground arith in same) all.0
  All-last P (x ∷ y ∷ rest) e all = All-last P (y ∷ rest) e all.1

  All-snoc :
      (P : Request → Type 0) (via : List Request) (r : Request)
      → All P via
      → P r
      → All P (via ++ r ∷ [])
  All-snoc P [] r all h = (h, tt)
  All-snoc P (x ∷ via) r all h = (all.0, All-snoc P via r all.1 h)

  module _ (keeps : KeepsUrl) where
    -- An accepted redirect has few before it, and the origin of the last of them.
    redirect-SameOrigin :
        (req next : Request) (via : List Request)
        → check_redirect resign req via ≡ some (ok next)
        → (length via ≤ max_redirects)
          × (previous : Request) × (last_of via ≡ some previous)
          × SameOrigin next previous
    unfolding check_redirect
    redirect-SameOrigin req next via e = elim (Bool-cases (ltb max_redirects (length via))) [
      | inl many ↦ absurd (ground arith)
      | inr few ↦
          let (previous, at_last, same) = go (last_of via) refl (rw few at e) in
          (ground arith, previous, at_last, same)
    ]
      where
        go :
            (o : Option Request)
            → last_of via ≡ o
            → redirect_from resign o req ≡ some (ok next)
            → (previous : Request) × (last_of via ≡ some previous) × SameOrigin next previous
        go none at_last e = absurd (ground arith)
        go (some previous) at_last e =
            let kept = keeps.at req in
            let scheme : req.scheme ≡ previous.scheme =
              ground (arith, eq_iff req.scheme previous.scheme) in
            let host : req.host ≡ previous.host = ground (arith, eq_iff req.host previous.host) in
            let signed : resign req ≡ next =
              ground (arith, eq_iff req.scheme previous.scheme, eq_iff req.host previous.host) in
            (previous, at_last, rw (← signed) (kept.0 ∙ scheme, kept.1 ∙ host))

    -- Whatever redirects a client follows, at most three of them are accepted, and each request,
    -- with its signature, goes to the scheme and the host of the first one.
    pub Follows-SameOrigin :
        {requests : List Request}
        → Follows requests
        → (first : Request) × (redirects : List Request) × (requests ≡ first ∷ redirects)
          × (length redirects ≤ max_redirects)
          × All (λ r. SameOrigin r first) redirects
    Follows-SameOrigin (start r) = (r, [], refl, omega arith, tt)
    Follows-SameOrigin (hop {via} req {next} f accepted e) =
        let (first, redirects, shape, few, same) = Follows-SameOrigin f in
        let (fewer, previous, at_last, origin) = redirect-SameOrigin req next via accepted in
        let of_last : SameOrigin previous first =
          All-last (λ r. SameOrigin r first) via at_last (rw shape ((refl, refl), same)) in
        let long : length via ≡ suc (length redirects) = rw shape in
        (
          first,
          redirects ++ next ∷ [],
          rw (e, shape),
          omega (arith, length-append redirects (next ∷ []), long, fewer),
          All-snoc (λ r. SameOrigin r first) redirects next same
              (origin.0 ∙ of_last.0, origin.1 ∙ of_last.1),
        )
