-- ===== src/Driver/Capacity/Roundtrip.antt =====
-- internal/driver/controller.go: the capacity that `formatCreateVolumeResponse` gives, read again by
-- `resolveSizeGiB`.
use t_cloud_public_csi_drive.Common.{Option, ℕ, ◌*◌, ◌≤◌, ◌<◌, ◌≡◌, some, arith}
use t_cloud_public_csi_drive.Common.Int.{ℤ, pos, int64_bound}
use t_cloud_public_csi_drive.Eff.{ok}
use t_cloud_public_csi_drive.Evs.Types.{Volume}
use t_cloud_public_csi_drive.Driver.Csi.{CapacityRange}
use t_cloud_public_csi_drive.Driver.Capacity.{
  min_volume_size_gib, bytes_in_gib, mul_gib, resolve_size_gib, limit_size_gib,
}
use t_cloud_public_csi_drive.Driver.Capacity.Bounds.{range}
use t_cloud_public_csi_drive.Driver.Request.{format_create_volume_response}

mul_gib_lem : (n : ℕ) → n * bytes_in_gib < int64_bound → mul_gib (pos n) ≡ pos (n * bytes_in_gib)
mul_gib_lem n h = ground arith

resolve_whole :
    (n : ℕ)
    → min_volume_size_gib ≤ n
    → n * bytes_in_gib < int64_bound
    → resolve_size_gib (range (n * bytes_in_gib) (n * bytes_in_gib)) ≡ ok (pos n)
unfolding resolve_size_gib
resolve_whole n least h = ground arith

limit_whole :
    (n : ℕ)
    → min_volume_size_gib ≤ n
    → limit_size_gib (range (n * bytes_in_gib) (n * bytes_in_gib)) ≡ pos n
unfolding limit_size_gib
limit_whole n least = ground arith

-- The range that admits this capacity alone.
abbrev pub exactly : ℤ → Option CapacityRange
exactly bytes = some (record { required_bytes = bytes; limit_bytes = bytes })

-- For a volume of at least the minimum size whose bytes are in an `int64`: a request for exactly the
-- capacity that the answer of a creation reports resolves to the size of the volume again, and bounds
-- the discovery to that size.
pub answered_capacity_again :
    (vol : Volume) (n : ℕ)
    → vol.size ≡ pos n
    → min_volume_size_gib ≤ n
    → n * bytes_in_gib < int64_bound
    → (resolve_size_gib (exactly (format_create_volume_response vol).capacity_bytes) ≡ ok vol.size)
      × (limit_size_gib (exactly (format_create_volume_response vol).capacity_bytes) ≡ vol.size)
unfolding format_create_volume_response
answered_capacity_again vol n size least h =
    rw size (rw (mul_gib_lem n h) (resolve_whole n least h, limit_whole n least))
