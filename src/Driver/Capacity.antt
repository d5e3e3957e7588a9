-- ===== src/Driver/Capacity.antt =====
-- internal/driver/controller.go: `resolveSizeGiB` and `limitSizeGiB`, on 64-bit integers.
pub mod Bounds
pub mod Roundtrip
use t_cloud_public_csi_drive.Common.{
  ℕ, zero, suc, ◌+◌, ◌-◌, ◌*◌, ◌/◌, ◌||◌, ◌&&◌, Option, none, some, if◌then◌else◌,
}
use t_cloud_public_csi_drive.Common.Int.{ℤ, pos, negsuc, ltb_ℤ, leb_ℤ, wrap64, bits64}
use t_cloud_public_csi_drive.Eff.{Result, ok, err}
use t_cloud_public_csi_drive.Driver.Csi.{
  Code, invalid_argument_code, out_of_range_code, CapacityRange,
}

abbrev pub min_volume_size_gib : ℕ
min_volume_size_gib = 10

abbrev pub bytes_in_gib : ℕ
bytes_in_gib = 1_073_741_824

-- The getters of a message that may be nil.
abbrev pub get_required_bytes : Option CapacityRange → ℤ
get_required_bytes none = pos 0
get_required_bytes (some r) = r.required_bytes

abbrev pub get_limit_bytes : Option CapacityRange → ℤ
get_limit_bytes none = pos 0
get_limit_bytes (some r) = r.limit_bytes

-- `n + bytesInGiB - 1`, `n / bytesInGiB` (towards zero) and `n * bytesInGiB` on `int64`.
abbrev pub add_round : ℤ → ℤ
add_round n = wrap64 (bits64 n + (bytes_in_gib - 1))

abbrev pub negate : ℕ → ℤ
negate zero = pos 0
negate (suc n) = negsuc n

abbrev pub div_gib : ℤ → ℤ
div_gib (pos n) = pos (n / bytes_in_gib)
div_gib (negsuc n) = negate ((n + 1) / bytes_in_gib)

abbrev pub mul_gib : ℤ → ℤ
mul_gib n = wrap64 (bits64 n * bytes_in_gib)

abbrev pub max_ℤ : ℤ → ℤ → ℤ
max_ℤ a b = if ltb_ℤ a b then b else a

unfoldable pub resolve_size_gib : Option CapacityRange → Result Code ℤ
resolve_size_gib cap_range =
    let req_bytes = get_required_bytes cap_range in
    let limit_bytes = get_limit_bytes cap_range in
    if ltb_ℤ req_bytes (pos 0) || ltb_ℤ limit_bytes (pos 0)
    then err invalid_argument_code
    else if ltb_ℤ (pos 0) limit_bytes && ltb_ℤ limit_bytes req_bytes
    then err invalid_argument_code
    else let rounded_bytes = add_round req_bytes in
      if ltb_ℤ rounded_bytes req_bytes
      then err out_of_range_code
      else let size_gib = max_ℤ (div_gib rounded_bytes) (pos min_volume_size_gib) in
        if ltb_ℤ (pos 0) limit_bytes && ltb_ℤ limit_bytes (mul_gib size_gib)
        then err out_of_range_code
        else ok size_gib

unfoldable pub limit_size_gib : Option CapacityRange → ℤ
limit_size_gib cap_range =
    let limit_bytes = get_limit_bytes cap_range in
    if leb_ℤ limit_bytes (pos 0) then pos 0 else div_gib limit_bytes
