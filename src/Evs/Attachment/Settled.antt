-- ===== src/Evs/Attachment/Settled.antt =====
-- internal/evs/attachment.go: what `AttachVolume` returns, and what it raises.
use t_cloud_public_csi_drive.Common.{
  String, if◌then◌else◌, ◌≡◌, ◌≢◌, refl, inl, inr, true, Bool-cases, Option, none, some, List, [],
  ◌∷◌, arith, eq_iff,
}
use t_cloud_public_csi_drive.Eff.{Result, ok, err, pure}
use t_cloud_public_csi_drive.Eff.Rules.{
  Good, Yields, Yields-pure, Yields-raise, Yields-lift, Yields-attempt, Yields-bind,
}
use t_cloud_public_csi_drive.Errors.{conflict, invalid_argument, operation_failed, Err, only}
use t_cloud_public_csi_drive.Evs.Types.{Attachment, SdkAttachment}
use t_cloud_public_csi_drive.Evs.Classify.{classify_error, classify_error_kind}
use t_cloud_public_csi_drive.Evs.Classify.Kinds.{IsReported, classify_error-IsReported}
use t_cloud_public_csi_drive.Evs.Cloud.{Cloud, Context}
use t_cloud_public_csi_drive.Evs.Cloud.Outcomes.{
  Any, Yields-Any, Yields-with_timeout, Yields-ctx_err, Yields-fail_classified, Yields-fail_when,
  Yields-classified, OnSettled, Yields-poll,
}
use t_cloud_public_csi_drive.Evs.Volume.{poll_fuel, is_transient}
use t_cloud_public_csi_drive.Evs.Attachment.{
  attached_with_device, match_attachment, listed_attachment, state_verdict, RefusalProbeReading,
  probe_denied, probe_in_flight, probe_attached_elsewhere, job_id_of,
}
use t_cloud_public_csi_drive.Evs.Attachment.Observe.{
  observe_attachment, observe_state, wait_for_attachment_state, reconcile_refused_attach,
  or_context,
}
use t_cloud_public_csi_drive.Evs.Attachment.Attach.{
  is_invalid_argument, after_attach_probe, finish_attach_after_effect_error, settle_attach,
  after_attach_job, after_attach, attach_from, attach_volume,
}

-- An attachment of this volume to this server, if there is one at all.
abbrev pub Matches : String → String → Option Attachment → Type 0
Matches volume_id server_id none = Unit
Matches volume_id server_id (some a) = (a.volume_id ≡ volume_id) × (a.server_id ≡ server_id)

-- An attachment of this volume to this server, with a device name.
abbrev pub IsSettled : String → String → Option Attachment → Type 0
IsSettled volume_id server_id none = ⊥
IsSettled volume_id server_id (some a) =
    (a.volume_id ≡ volume_id) × (a.server_id ≡ server_id) × (a.device_name ≢ "")

module _ (volume_id server_id : String) where
  match_attachment-Matches :
      (l : List SdkAttachment)
      → Matches volume_id server_id (match_attachment volume_id server_id l)
  unfolding match_attachment
  match_attachment-Matches [] = tt
  match_attachment-Matches (a ∷ l) = ground (
    arith,
    eq_iff a.volume_id volume_id,
    eq_iff a.server_id server_id,
    match_attachment-Matches l,
  )

  listed_attachment-Matches :
      (o : Option (List SdkAttachment))
      → Matches volume_id server_id (listed_attachment volume_id server_id o)
  unfolding listed_attachment
  listed_attachment-Matches none = tt
  listed_attachment-Matches (some l) = match_attachment-Matches l

  IsSettled-of_Matches :
      (o : Option Attachment)
      → Matches volume_id server_id o
      → attached_with_device o ≡ true
      → IsSettled volume_id server_id o
  unfolding attached_with_device
  IsSettled-of_Matches none m e = cc
  IsSettled-of_Matches (some a) m e = (m.0, m.1, ground (arith, eq_iff a.device_name ""))

  state_verdict-OnSettled :
      (r : Result Err (Option Attachment))
      → Good (Matches volume_id server_id) Any r
      → Good (OnSettled (IsSettled volume_id server_id)) Any (state_verdict attached_with_device r)
  unfolding state_verdict
  state_verdict-OnSettled (ok o) g = elim (Bool-cases (attached_with_device o)) [
    | inl t ↦ rw t (IsSettled-of_Matches o g t)
    | inr f ↦ rw f tt
  ]
  state_verdict-OnSettled (err e) g = elim (Bool-cases (is_transient (classify_error_kind e))) [
    | inl t ↦ rw t tt
    | inr f ↦ rw f tt
  ]

module _ (cloud : Cloud) (volume_id server_id : String) where
  abbrev Settled : Option Attachment → Type 0
  Settled = IsSettled volume_id server_id

  observe_attachment-Matches :
      (ctx : Context)
      → Yields (Matches volume_id server_id) Any (observe_attachment cloud ctx volume_id server_id)
  unfolding observe_attachment
  observe_attachment-Matches ctx = Yields-bind (Yields-Any _) (λ _ _.
      Yields-bind (Yields-Any _) (λ _ _.
        Yields-bind (Yields-Any _)
          (λ l _. Yields-pure _ (listed_attachment-Matches volume_id server_id l))))

  wait-Settled :
      (ctx : Context)
      → Yields Settled Any
          (wait_for_attachment_state cloud ctx volume_id server_id attached_with_device)
  unfolding wait_for_attachment_state observe_state
  wait-Settled ctx = Yields-poll cloud ctx Settled poll_fuel _ (
      Yields-bind (Yields-attempt (observe_attachment-Matches ctx))
        (λ r g. Yields-lift _ (state_verdict-OnSettled volume_id server_id r g)))

  or_context-IsReported :
      (ctx : Context) (e : Err) (r : Result Err (Option Attachment))
      → IsReported e
      → Good Settled Any r
      → Yields Settled IsReported (or_context cloud ctx e r)
  unfolding or_context
  or_context-IsReported ctx e (ok a) reported g = Yields-pure a g
  or_context-IsReported ctx e (err _) reported g =
      Yields-bind (Yields-ctx_err cloud ctx)
        (λ stopped _. Yields-bind (Yields-fail_classified stopped) (λ _ _. Yields-raise e reported))

  reconcile-Settled :
      (ctx : Context) → Yields Settled Any (reconcile_refused_attach cloud ctx volume_id server_id)
  unfolding reconcile_refused_attach
  reconcile-Settled ctx = Yields-bind (Yields-with_timeout ctx _) (λ inner _. wait-Settled inner)

  after_attach_probe-Settled :
      (ctx : Context) (e : Err) (r : Result Err RefusalProbeReading)
      → Yields Settled IsReported (after_attach_probe cloud volume_id server_id ctx e r)
  unfolding after_attach_probe
  after_attach_probe-Settled ctx e (err _) = Yields-raise _ (classify_error-IsReported e)
  after_attach_probe-Settled ctx e (ok probe_attached_elsewhere) =
      Yields-raise _ (inr (inr (conflict, refl, refl)))
  after_attach_probe-Settled ctx e (ok probe_denied) = Yields-raise _ (classify_error-IsReported e)
  after_attach_probe-Settled ctx e (ok probe_in_flight) =
      Yields-bind (Yields-attempt (reconcile-Settled ctx))
        (λ r g. or_context-IsReported ctx (classify_error e) r (classify_error-IsReported e) g)

  finish_attach-Settled :
      (ctx : Context) (e : Err)
      → Yields Settled IsReported (finish_attach_after_effect_error cloud volume_id server_id ctx e)
  unfolding finish_attach_after_effect_error
  finish_attach-Settled ctx e = elim (Bool-cases (is_transient (classify_error_kind e))) [
    | inl t ↦ rw t (
        Yields-bind (Yields-attempt (wait-Settled ctx))
          (λ r g. or_context-IsReported ctx (classify_error e) r (classify_error-IsReported e) g))
    | inr f ↦ rw f (elim (Bool-cases (is_invalid_argument (classify_error_kind e))) [
      | inl t ↦ rw t (
          Yields-bind (Yields-attempt (Yields-Any _)) (λ r _.
            Yields-bind (Yields-ctx_err cloud ctx) (λ stopped _.
              Yields-bind (Yields-fail_classified stopped)
                (λ _ _. after_attach_probe-Settled ctx e r))))
      | inr g ↦ rw g (Yields-raise _ (classify_error-IsReported e))
    ])
  ]

  settle_attach-Settled :
      (ctx : Context) → Yields Settled IsReported (settle_attach cloud volume_id server_id ctx)
  unfolding settle_attach
  settle_attach-Settled ctx =
      Yields-bind (Yields-attempt (wait-Settled ctx)) (λ r g. Yields-classified r g)

  after_attach-Settled :
      (ctx : Context) (r : Result Err (Option String))
      → Yields Settled IsReported (after_attach cloud volume_id server_id ctx r)
  unfolding after_attach
  after_attach-Settled ctx (err e) = finish_attach-Settled ctx e
  after_attach-Settled ctx (ok job) = after_job (job_id_of job)
    where
      after_job :
          (o : Option String)
          → Yields Settled IsReported (after_attach_job cloud volume_id server_id ctx o)
      after_job none = Yields-bind (Yields-attempt (wait-Settled ctx)) (λ r g.
          or_context-IsReported ctx (only operation_failed) r
            (inr (inr (operation_failed, refl, refl))) g)
      after_job (some id) =
          Yields-bind (Yields-attempt (Yields-Any _))
            (λ r g. Yields-bind (Yields-classified r g) (λ _ _. settle_attach-Settled ctx))

  attach_from-Settled :
      (ctx : Context) (o : Option Attachment)
      → Yields Settled IsReported (attach_from cloud volume_id server_id ctx o)
  unfolding attach_from
  attach_from-Settled ctx (some _) = settle_attach-Settled ctx
  attach_from-Settled ctx none =
      Yields-bind (Yields-attempt (Yields-Any _)) (λ r _. after_attach-Settled ctx r)

  -- Whatever the cloud answers, what `AttachVolume` returns is an attachment of this volume to this
  -- server with a device name; and what it raises is one sentinel of the package or the end of the
  -- context, so no raw answer of the cloud gets out.
  pub attach_volume-Settled :
      (ctx : Context)
      → Yields
          (IsSettled volume_id server_id)
          IsReported
          (attach_volume cloud volume_id server_id ctx)
  unfolding attach_volume
  attach_volume-Settled outer =
      Yields-bind (Yields-fail_when _ _ (inr (inr (invalid_argument, refl, refl)))) (λ _ _.
        Yields-bind (Yields-with_timeout outer _) (λ ctx _.
          Yields-bind (Yields-attempt (observe_attachment-Matches ctx))
            (λ r g. Yields-bind (Yields-classified r g) (λ o m. from_observed ctx o m))))
    where
      from_observed :
          (ctx : Context) (o : Option Attachment)
          → Matches volume_id server_id o
          → Yields Settled IsReported (
              if attached_with_device o
              then pure o
              else attach_from cloud volume_id server_id ctx o)
      from_observed ctx o m = elim (Bool-cases (attached_with_device o)) [
        | inl t ↦ rw t (Yields-pure o (IsSettled-of_Matches volume_id server_id o m t))
        | inr f ↦ rw f (attach_from-Settled ctx o)
      ]
