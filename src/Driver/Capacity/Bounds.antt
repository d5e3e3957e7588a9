-- ===== src/Driver/Capacity/Bounds.antt =====
-- internal/driver/controller.go: what the size that `resolveSizeGiB` gives satisfies.
use t_cloud_public_csi_drive.Common.{
  ℕ, ◌+◌, ◌*◌, ◌/◌, ◌≤◌, ◌<◌, ◌≡◌, refl, ◌⊎◌, inl, inr, ◌↔◌, Option, none, some, max, arith,
}
use t_cloud_public_csi_drive.Common.Int.{ℤ, pos, negsuc, ◌≤ℤ◌, pos_part, int64_bound}
use t_cloud_public_csi_drive.Eff.{ok, err}
use t_cloud_public_csi_drive.Driver.Csi.{invalid_argument_code, out_of_range_code, CapacityRange}
use t_cloud_public_csi_drive.Driver.Capacity.{
  min_volume_size_gib, bytes_in_gib, get_required_bytes, get_limit_bytes, resolve_size_gib,
  limit_size_gib,
}

-- A range with two numbers of bytes, which an `int64` holds.
abbrev pub range : ℕ → ℕ → Option CapacityRange
range req limit = some (record { required_bytes = pos req; limit_bytes = pos limit })

-- A whole number of GiB that the range admits, is at least the minimum, and has an `int64` of bytes.
pub record Fits (req limit n : ℕ) : Type 0 where
  pub least : min_volume_size_gib ≤ n
  pub enough : req ≤ n * bytes_in_gib
  pub expressible : n * bytes_in_gib < int64_bound
  pub within : 0 < limit → n * bytes_in_gib ≤ limit

-- The round-up of `req` to whole GiB, and at least the minimum.
abbrev rounded_up : ℕ → ℕ
rounded_up req = max ((req + 1_073_741_823) / bytes_in_gib) min_volume_size_gib

-- A resolved size is a number, and so are the bounds that it was resolved from.
pub resolve_signs :
    (r : Option CapacityRange) (z : ℤ)
    → resolve_size_gib r ≡ ok z
    → (get_required_bytes r ≡ pos (pos_part (get_required_bytes r)))
      × (get_limit_bytes r ≡ pos (pos_part (get_limit_bytes r)))
      × (z ≡ pos (pos_part z))
unfolding resolve_size_gib
resolve_signs none z h = (refl, refl, ground arith)
resolve_signs (some r) z h = (ground arith, ground arith, ground arith)

-- A consistent range resolves to its round-up, or is out of range.
resolve_outcome :
    (req limit : ℕ)
    → req < int64_bound
    → limit < int64_bound
    → (limit ≡ 0) ⊎ (req ≤ limit)
    → (resolve_size_gib (range req limit) ≡ err out_of_range_code)
      ⊎ (resolve_size_gib (range req limit) ≡ ok (pos (rounded_up req)))
unfolding resolve_size_gib
resolve_outcome req limit hr hl consistent = ground arith

-- For a range whose required and limit bytes are not negative and each in an `int64`: the size that
-- `resolveSizeGiB` returns covers the required bytes, is at least the minimum, stays within the
-- limit where there is one, and its bytes do not overflow an `int64`.
pub resolve-Fits :
    (req limit n : ℕ)
    → req < int64_bound
    → limit < int64_bound
    → resolve_size_gib (range req limit) ≡ ok (pos n)
    → Fits req limit n
unfolding resolve_size_gib
resolve-Fits req limit n hr hl h = ground arith

-- Whenever some whole number of GiB fits a range, `resolveSizeGiB` succeeds, and with the least one.
pub resolve_least :
    (req limit n : ℕ)
    → req < int64_bound
    → limit < int64_bound
    → Fits req limit n
    → (m : ℕ) × (resolve_size_gib (range req limit) ≡ ok (pos m)) × (m ≤ n)
unfolding resolve_size_gib
resolve_least req limit n hr hl f = (rounded_up req, ground arith, omega (arith, f.enough, f.least))

-- Out of range is reported exactly where no size fits a range that is consistent.
pub resolve_out_of_range :
    (req limit : ℕ)
    → req < int64_bound
    → limit < int64_bound
    → (limit ≡ 0) ⊎ (req ≤ limit)
    → (resolve_size_gib (range req limit) ≡ err out_of_range_code) ↔ ((n : ℕ) → ¬ Fits req limit n)
resolve_out_of_range req limit hr hl consistent = (
  (λ h n f. let (m, e, _) = resolve_least req limit n hr hl f in cc),
  λ none_fits. elim (resolve_outcome req limit hr hl consistent) [
    | inl out ↦ out
    | inr e ↦ absurd (none_fits (rounded_up req) (resolve-Fits req limit (rounded_up req) hr hl e))
  ],
)

-- Once a size is resolved under a limit, the bound in GiB that discovery gets is positive and admits
-- exactly the sizes whose bytes are within the limit.
pub limit_exact :
    (req limit n v : ℕ)
    → req < int64_bound
    → limit < int64_bound
    → 0 < limit
    → resolve_size_gib (range req limit) ≡ ok (pos n)
    → (l : ℕ) × (limit_size_gib (range req limit) ≡ pos l)
      × (0 < l)
      × ((v ≤ l → v * bytes_in_gib ≤ limit) × (v * bytes_in_gib ≤ limit → v ≤ l))
unfolding resolve_size_gib limit_size_gib
limit_exact req limit n v hr hl p h =
    (limit / bytes_in_gib, ground arith, ground arith, (λ q. omega arith, λ q. omega arith))

-- A negative bound, or a limit below what is required, is an invalid argument.
pub resolve_invalid :
    (r : CapacityRange)
    → (resolve_size_gib (some r) ≡ err invalid_argument_code) ↔ (
        (r.required_bytes ≤ℤ negsuc 0)
        ⊎ (r.limit_bytes ≤ℤ negsuc 0)
        ⊎ ((pos 1 ≤ℤ r.limit_bytes) × ¬ (r.required_bytes ≤ℤ r.limit_bytes)))
unfolding resolve_size_gib
resolve_invalid r = (ground arith, ground arith)
