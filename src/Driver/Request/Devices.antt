-- ===== src/Driver/Request/Devices.antt =====
-- internal/driver/controller.go: which texts `isDeviceNodePath` takes for a device.
use Prim.Native.String.{◌++◌ as str_append}
use t_cloud_public_csi_drive.Common.{
  ◌≡◌, ◌≢◌, refl, sym, ◌∙◌, true, Option, none, some, String, List, All, arith, eq_iff,
}
use t_cloud_public_csi_drive.Text.{cut_prefix}
use t_cloud_public_csi_drive.Path.{join_path, is_abs, clean}
use t_cloud_public_csi_drive.Path.Names.{IsName, clean_absolute, cut_prefix-append}
use t_cloud_public_csi_drive.Driver.Request.{is_device_node_path}

-- A path below `/dev/` made of names of files alone, so that none of its names leads out of it again.
pub record IsDevicePath (path : String) : Type 0 where
  pub rest : String
  pub below : path ≡ str_append "/dev/" rest
  pub some_rest : rest ≢ ""
  pub names : List String
  pub whole : path ≡ str_append "/" (join_path names)
  pub real : All IsName names

absolute_of_device : (path rest : String) → cut_prefix path "/dev/" ≡ some rest → is_abs path ≡ true
unfolding cut_prefix is_abs
absolute_of_device String.[] rest e = absurd (ground arith)
absolute_of_device (String.◌∷◌ c s) rest e = ground arith

device_path_lem :
    (path : String) (o : Option String)
    → cut_prefix path "/dev/" ≡ o
    → is_device_node_path path ≡ true
    → IsDevicePath path
unfolding is_device_node_path
device_path_lem path none e h = absurd (ground arith)
device_path_lem path (some rest) e h =
    let (names, clean_form, real) = clean_absolute path (absolute_of_device path rest e) in
    let same : clean path ≡ path = (eq_iff (clean path) path).0 (ground arith) in
    record {
      rest = rest;
      below = cut_prefix-append path "/dev/" rest e;
      some_rest = ground (arith, eq_iff rest "");
      names = names;
      whole = sym same ∙ clean_form;
      real = real;
    }

-- `isDeviceNodePath` lets only paths through that lie below `/dev/`, and each of whose names is neither
-- empty nor `.` nor `..`.
pub is_device_node_path-IsDevicePath :
    (path : String) → is_device_node_path path ≡ true → IsDevicePath path
is_device_node_path-IsDevicePath path h = device_path_lem path (cut_prefix path "/dev/") refl h
