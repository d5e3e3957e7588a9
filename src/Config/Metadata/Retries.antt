-- ===== src/Config/Metadata/Retries.antt =====
-- internal/config/metadata.go: the retries of `fetch` end.
use t_cloud_public_csi_drive.Common.{
  ℕ, zero, suc, ◌+◌, ◌*◌, ◌≤◌, ◌<◌, ◌≡◌, ◌≢◌, refl, true, false, Option, none, some, ◌∷◌, arith,
}
use native.Mathlib.Decide.{dec_le}
use t_cloud_public_csi_drive.Errors.{Err}
use t_cloud_public_csi_drive.Config.Metadata.{
  Context, timeout, metadata_timeout, metadata_retry_base, metadata_fuel, Moments, asked, waited,
  Service, elapsed, Attempt, fetched, failed, Round, done, retry, next_backoff, attempt, after_wait,
  after_attempt, round, proceed, fetch_loop, fetch, Fetches,
}

-- `context.WithTimeout`: a context that was made at a moment has ended once the waits since then have
-- taken longer than its timeout.
pub record Expires (service : Service) : Type 0 where
  pub ends :
      (outer : Context) (n : ℕ) (start h : Moments)
      → n + elapsed start < elapsed h
      → service.context_err (timeout outer n start) h ≢ none

module _ (service : Service) (expires : Expires service) (outer : Context) (start : Moments) where
  abbrev ctx : Context
  ctx = timeout outer metadata_timeout start

  abbrev limit : ℕ
  limit = metadata_timeout + elapsed start

  -- What a round that leads to another one has done.
  abbrev Waited : ℕ → Moments → Round → Type 0
  Waited backoff h (done out h') = Unit {0}
  Waited backoff h (retry h') = (elapsed h' ≡ backoff + elapsed h) × (elapsed h' ≤ limit)

  wait-Waited :
      (backoff : ℕ) (h : Moments) (e : Err) (o : Option Err)
      → service.context_err ctx (waited backoff ∷ asked ∷ h) ≡ o
      → Waited backoff h (after_wait service ctx o e (waited backoff ∷ asked ∷ h))
  unfolding elapsed
  wait-Waited backoff h e (some x) eq = tt
  wait-Waited backoff h e none eq = (
    refl,
    elim (dec_le (elapsed (waited backoff ∷ asked ∷ h)) limit) [
      | yes le ↦ le
      | no more ↦
          absurd (
            expires.ends outer metadata_timeout start (waited backoff ∷ asked ∷ h) (omega arith) eq)
    ],
  )

  attempt-Waited :
      (backoff : ℕ) (h : Moments) (a : Attempt)
      → Waited backoff h (after_attempt service ctx a backoff (asked ∷ h))
  attempt-Waited backoff h (fetched facts) = tt
  attempt-Waited backoff h (failed false e) = tt
  attempt-Waited backoff h (failed true e) = wait-Waited backoff h e _ refl

  round-Waited : (backoff : ℕ) (h : Moments) → Waited backoff h (round service ctx backoff h)
  unfolding round
  round-Waited backoff h = attempt-Waited backoff h (attempt service ctx h)

  loop_ends :
      (fuel backoff : ℕ) (h : Moments)
      → metadata_retry_base ≤ backoff
      → elapsed h ≤ limit
      → limit < elapsed h + metadata_retry_base * fuel
      → Fetches service ctx backoff h (fetch_loop service ctx fuel backoff h)
  unfolding fetch_loop
  loop_ends zero backoff h long early enough = absurd (omega arith)
  loop_ends (suc fuel) backoff h long early enough =
      go (round service ctx backoff h) refl (round-Waited backoff h)
        (λ h' within left. loop_ends fuel (next_backoff backoff) h' (omega arith) within left)
    where
      go :
          (r : Round)
          → round service ctx backoff h ≡ r
          → Waited backoff h r
          → ((h' : Moments)
              → elapsed h' ≤ limit
              → limit < elapsed h' + metadata_retry_base * fuel
              → Fetches service ctx
                  (next_backoff backoff)
                  h'
                  (fetch_loop service ctx fuel (next_backoff backoff) h'))
          → Fetches service ctx backoff h
              (proceed service ctx r (fetch_loop service ctx fuel (next_backoff backoff)))
      go (done out h') eq w next = Fetches.stops eq
      go (retry h') eq (added, within) next =
          Fetches.repeats eq (next h' within (omega (arith, added)))

  -- Where a context that `context.WithTimeout` makes ends in time, the retrieval of the node's facts ends
  -- by itself, under any context of the caller and however often the service fails: the timeout is the
  -- retrieval's own, and its outcome is that of the loop of retries without fuel under it.
  pub fetch_ends :
      Fetches service
        (timeout outer metadata_timeout start)
        metadata_retry_base
        start
        (fetch service outer start)
  unfolding fetch elapsed
  fetch_ends =
      loop_ends metadata_fuel metadata_retry_base start (omega arith) (omega arith) (omega arith)
