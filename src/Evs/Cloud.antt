-- ===== src/Evs/Cloud.antt =====
-- What the client calls and does not implement: the SDK's requests, the caller's context and time.
-- The state is the history of the calls, latest first, and each answer is a function of it, so a
-- cloud that other clients change meanwhile is one of these too. The answers are the parameter
-- `Cloud` of every operation.
pub mod Polling
pub mod Later
pub mod Effects
pub mod Changes
pub mod Outcomes
use t_cloud_public_csi_drive.Common.{
  ℕ, zero, suc, String, Bool, true, false, Option, none, some, List, [], ◌∷◌,
}
use t_cloud_public_csi_drive.Eff.{Result, ok, err, Eff, pure, raise, ◌>>=◌, ◌>>◌}
use t_cloud_public_csi_drive.Errors.{Err, starved}
use t_cloud_public_csi_drive.Evs.Classify.{classify_error}
use t_cloud_public_csi_drive.Evs.Types.{
  CreateRequest, ListVolumeOpts, SdkAttachment, V3Volume, V2Volume, JobStatus,
}

pub data Call : Type 0 where
  -- requests that change the cloud
  create_request : CreateRequest → Call
  delete_request : String → Call
  attach_request : String → String → Call
  detach_request : String → String → ℕ → Call
  -- requests that read it
  get_request : String → Call
  list_request : ListVolumeOpts → Call
  job_request : String → String → Call
  server_job_request : String → Call
  attachments_request : String → Call
  -- a reading of `ctx.Err()`, and one period of a ticker
  read_context : Call
  tick : Call

abbrev pub History : Type 0
History = List Call

-- A context: the caller's, or one that `context.WithTimeout` made after a history, with its seconds.
pub data Context : Type 0 where
  caller : Context
  timeout : Context → ℕ → History → Context

-- Answers to the requests after a history.
pub record Cloud : Type 0 where
  -- `ctx.Err()`: `context.Canceled` or `context.DeadlineExceeded`, as an error
  pub context_err : Context → History → Option Err
  -- the path of the block storage endpoint, if `url.Parse` reads it
  pub endpoint_path : Option String
  -- the `job_id` of the created volume's job
  pub create : CreateRequest → History → Result Err String
  pub delete : String → History → Result Err (Unit {0})
  -- the job of an attach or a detach, if the response names one
  pub attach : String → String → History → Result Err (Option String)
  pub detach : String → String → ℕ → History → Result Err (Option String)
  pub get : String → History → Result Err V3Volume
  pub list : ListVolumeOpts → History → Result Err (List V2Volume)
  pub job : String → String → History → Result Err JobStatus
  pub server_job : String → History → Result Err JobStatus
  pub attachments : String → History → Result Err (Option (List SdkAttachment))

abbrev pub M : Type 0 → Type 0
M A = Eff History Err A

-- One call: its answer, and the history that has it.
unfoldable pub request : {A : Type 0} → Call → (History → Result Err A) → M A
request call answer h = (answer h, call ∷ h)

-- `context.WithTimeout(ctx, n seconds)`
unfoldable pub with_timeout : Context → ℕ → M Context
with_timeout ctx n h = (ok (timeout ctx n h), h)

module _ (cloud : Cloud) where
  open cloud use {context_err}

  -- `ctx.Err()`
  unfoldable pub ctx_err : Context → M (Option Err)
  ctx_err ctx h = (ok (context_err ctx h), read_context ∷ h)

  -- `select { case <-ctx.Done(): … case <-ticker.C: … }`: one period passes. Where both are ready
  -- the model takes the first; the other choice meets `ctx.Err()` before the next request.
  unfoldable pub wait : Context → M (Option Err)
  wait ctx h = (ok (context_err ctx (tick ∷ h)), tick ∷ h)

-- `if failed { return err }`
unfoldable pub fail_when : Bool → Err → M (Unit {0})
unfolding pure raise
fail_when true e = raise e
fail_when false e = pure tt

-- `if err != nil { return err }`, for an optional error.
unfoldable pub fail_if : Option Err → M (Unit {0})
unfolding pure raise
fail_if none = pure tt
fail_if (some e) = raise e

-- The same with `c.classifyError(…, err)`.
unfoldable pub fail_classified : Option Err → M (Unit {0})
unfolding pure raise
fail_classified none = pure tt
fail_classified (some e) = raise (classify_error e)

-- `v, err := …; if err != nil { return c.classifyError(…, err) }`
unfoldable pub classified : {A : Type 0} → Result Err A → M A
unfolding pure raise
classified (ok a) = pure a
classified (err e) = raise (classify_error e)

-- To open this opens every action above, and those of `Eff`.
unfoldable pub actions : Unit {0}
unfolding ◌>>=◌ request with_timeout ctx_err wait fail_when fail_if fail_classified classified
actions = tt

-- What one round of a polling loop finds.
pub data Verdict (A : Type 0) : Type 0 where
  settled : A → Verdict A
  again : Verdict A

-- `for { …; select { case <-ctx.Done(): return ctx.Err(); case <-ticker.C: } }`, on fuel.
module _ (cloud : Cloud) (ctx : Context) {A : Type 0} where
  -- The end of a round: what it found, or a wait and the rounds after it.
  unfoldable pub next_round : Verdict A → (Unit {0} → M A) → M A
  next_round (settled a) later = pure a
  next_round again later = do stopped ← wait cloud ctx; fail_if stopped; later tt

  unfoldable pub poll : ℕ → M (Verdict A) → M A
  unfolding next_round
  poll zero observe = raise (starved ∷ [])
  poll (suc fuel) observe = do found ← observe; next_round found (λ _. poll fuel observe)
