-- ===== src/Config/Metadata.antt =====
-- internal/config/metadata.go: the retrieval of a node's facts, with its retries. The service, its HTTP
-- client and the decoder are the parameter `Service`, and the request can be built; times are in milliseconds.
pub mod Retries
use t_cloud_public_csi_drive.Common.{
  ℕ, zero, suc, ◌+◌, ◌*◌, min, ◌≡◌, Bool, true, false, ◌==◌, not, Option, none, some, List, [], ◌∷◌,
  ◌++◌, arith, if◌then◌else◌, leb,
}
use native.Mathlib.Decide.{dec_le}
use t_cloud_public_csi_drive.Text.{trim_space}
use t_cloud_public_csi_drive.Eff.{Result, ok, err}
use t_cloud_public_csi_drive.Errors.{Err, plain, starved}
use t_cloud_public_csi_drive.Config.{NodeFacts}

abbrev pub metadata_timeout : ℕ
metadata_timeout = 30000

abbrev pub metadata_retry_base : ℕ
metadata_retry_base = 250

abbrev pub metadata_retry_max : ℕ
metadata_retry_max = 2000

-- One more round than the timeout has waits of the shortest length.
abbrev pub metadata_fuel : ℕ
metadata_fuel = 121

pub data Moment : Type 0 where
  asked : Moment
  waited : ℕ → Moment

abbrev pub Moments : Type 0
Moments = List Moment

-- What a request brings: no answer, or a status and, where it decodes, the document.
pub data Answer : Type 0 where
  unreachable : Answer
  answered : ℕ → Option NodeFacts → Answer

-- A context: the caller's, or one that `context.WithTimeout` made at a moment, with its milliseconds.
pub data Context : Type 0 where
  caller : Context
  timeout : Context → ℕ → Moments → Context

-- The answers to a request under a context, and `ctx.Err()`.
pub record Service : Type 0 where
  pub answer : Context → Moments → Answer
  pub context_err : Context → Moments → Option Err

-- The time that the waits have taken.
unfoldable pub elapsed : Moments → ℕ
elapsed [] = 0
elapsed (asked ∷ h) = elapsed h
elapsed (waited n ∷ h) = n + elapsed h

-- The results of `attempt`; a failure says whether it is worth repeating.
pub data Attempt : Type 0 where
  fetched : NodeFacts → Attempt
  failed : Bool → Err → Attempt

pub data Round : Type 0 where
  done : Result Err NodeFacts → Moments → Round
  retry : Moments → Round

abbrev pub is_nil : Option Err → Bool
is_nil none = true
is_nil (some _) = false

abbrev pub document : Option NodeFacts → Attempt
document none = failed false plain
document (some doc) =
    fetched (record { server_uuid = trim_space doc.server_uuid; zone = trim_space doc.zone })

abbrev pub next_backoff : ℕ → ℕ
next_backoff backoff = min (backoff * 2) metadata_retry_max

module _ (service : Service) (ctx : Context) where
  abbrev pub attempt_result : Answer → Moments → Attempt
  attempt_result unreachable h = failed (is_nil (service.context_err ctx h)) plain
  attempt_result (answered code doc) h =
      if code == 200 then document doc else failed (leb 500 code) plain

  -- `attempt`
  unfoldable pub attempt : Moments → Attempt
  attempt h = attempt_result (service.answer ctx h) (asked ∷ h)

  abbrev pub after_wait : Option Err → Err → Moments → Round
  after_wait (some stopped) e h = done (err (e ++ stopped)) h
  after_wait none e h = retry h

  abbrev pub after_attempt : Attempt → ℕ → Moments → Round
  after_attempt (fetched facts) backoff h = done (ok facts) h
  after_attempt (failed false e) backoff h = done (err e) h
  after_attempt (failed true e) backoff h =
      after_wait (service.context_err ctx (waited backoff ∷ h)) e (waited backoff ∷ h)

  -- One round of the loop of `fetch`. Where the timer and the end of the context are both there, the model
  -- takes the end; the other choice meets it in the next attempt.
  unfoldable pub round : ℕ → Moments → Round
  unfolding attempt
  round backoff h = after_attempt (attempt h) backoff (asked ∷ h)

  abbrev pub proceed :
      Round → (Moments → Result Err NodeFacts × Moments) → Result Err NodeFacts × Moments
  proceed (done out h) later = (out, h)
  proceed (retry h) later = later h

  -- The loop of `fetch`, on fuel.
  unfoldable pub fetch_loop : ℕ → ℕ → Moments → Result Err NodeFacts × Moments
  unfolding round
  fetch_loop zero backoff h = (err (starved ∷ []), h)
  fetch_loop (suc fuel) backoff h =
      proceed (round backoff h) (fetch_loop fuel (next_backoff backoff))

  -- The loop without fuel.
  pub data Fetches : ℕ → Moments → Result Err NodeFacts × Moments → Type 0 where
    stops :
        {backoff : ℕ} {h h' : Moments} {out : Result Err NodeFacts}
        → round backoff h ≡ done out h'
        → Fetches backoff h (out, h')
    repeats :
        {backoff : ℕ} {h h' : Moments} {out : Result Err NodeFacts × Moments}
        → round backoff h ≡ retry h'
        → Fetches (next_backoff backoff) h' out
        → Fetches backoff h out

-- `fetch`, under the caller's context: its loop runs under a timeout of its own.
unfoldable pub fetch : Service → Context → Moments → Result Err NodeFacts × Moments
unfolding fetch_loop
fetch service outer h =
    fetch_loop service (timeout outer metadata_timeout h) metadata_fuel metadata_retry_base h
