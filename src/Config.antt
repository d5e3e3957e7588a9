-- ===== src/Config.antt =====
-- internal/config/config.go: the settings of a process, from flags and environment, and their checks.
-- The standard `flag` and `url.Parse` are parameters: the flags as they are parsed, and the parts of a URL.
pub mod Valid
pub mod Metadata
use t_cloud_public_csi_drive.Common.{
  Bool, true, false, not, ◌&&◌, ◌||◌, Option, none, some, String, if◌then◌else◌, str_eq,
}
use t_cloud_public_csi_drive.Text.{trim_space}
use t_cloud_public_csi_drive.Path.{is_abs, clean}
use t_cloud_public_csi_drive.Eff.{Result, ok, err, Eff, pure, raise, lift, ◌>>=◌, ◌>>◌}
use t_cloud_public_csi_drive.Errors.{Err, plain, only, version_requested}

abbrev pub default_driver_name : String
default_driver_name = "evs.csi.t-cloud.wilaris.dev"

pub data Role : Type 0 where
  controller : Role
  node : Role

-- `flag`: the values of the flags after `fs.Parse`.
pub record Flags : Type 0 where
  pub role : String
  pub endpoint : String
  pub node_id : String
  pub show_version : Bool
  pub availability_zone : String

-- `url.URL`, as far as it is read.
pub record Url : Type 0 where
  pub scheme : String
  pub has_user : Bool
  pub host : String
  pub path : String
  pub raw_query : String
  pub fragment : String

-- `Config`
pub record Settings : Type 0 where
  pub role : Role
  pub endpoint : String
  pub node_id : String
  pub driver_name : String
  pub version : String
  pub availability_zone : String
  pub auth_url : String
  pub access_key : String
  pub secret_key : String
  pub project_id : String
  pub region_name : String
  pub security_token : String

-- A network and its address, to listen on.
pub data Address : Type 0 where
  unix : String → Address
  tcp : String → Address

-- `parseRole`
unfoldable pub parse_role : String → Result Err Role
parse_role raw =
    if str_eq raw "controller"
    then ok controller
    else if str_eq raw "node"
    then ok node
    else err plain

unfoldable pub is_clean_abs_path : String → Bool
is_clean_abs_path path = not (str_eq path "") && is_abs path && str_eq (clean path) path

-- `resolveEndpoint` for a parsed URL.
unfoldable pub address_of : Url → Result Err Address
unfolding is_clean_abs_path
address_of u =
    if not (str_eq u.scheme "unix") && not (str_eq u.scheme "tcp")
    then err plain
    else if not (str_eq u.raw_query "") || not (str_eq u.fragment "") || u.has_user
    then err plain
    else if str_eq u.scheme "tcp"
    then (if str_eq u.host ""
        then err plain
        else if not (str_eq u.path "")
        then err plain
        else ok (tcp u.host))
    else if not (str_eq u.host "")
    then err plain
    else if not (is_clean_abs_path u.path)
    then err plain
    else ok (unix u.path)

-- `u.Scheme == "" || u.Host == ""`
abbrev pub lacks_host : Option Url → Bool
lacks_host none = true
lacks_host (some u) = str_eq u.scheme "" || str_eq u.host ""

-- An environment variable of the controller, which a node does not read.
abbrev pub credential : Role → (String → String) → String → String
credential controller getenv name = trim_space (getenv name)
credential node getenv name = ""

abbrev pub settings_of : String → Flags → (String → String) → Role → Settings
settings_of version flags getenv role = record {
  role = role;
  endpoint = trim_space flags.endpoint;
  node_id = trim_space flags.node_id;
  driver_name = default_driver_name;
  version = version;
  availability_zone = trim_space flags.availability_zone;
  auth_url = credential role getenv "OS_AUTH_URL";
  access_key = credential role getenv "OS_ACCESS_KEY";
  secret_key = credential role getenv "OS_SECRET_KEY";
  project_id = credential role getenv "OS_PROJECT_ID";
  region_name = credential role getenv "OS_REGION_NAME";
  security_token = credential role getenv "OS_SECURITY_TOKEN";
}

abbrev pub if_valid : Settings → Result Err (Unit {0}) → Result Err Settings
if_valid c (ok _) = ok c
if_valid c (err e) = err e

module _ (parse_url : String → Option Url) where
  abbrev pub address_if : Option Url → Result Err Address
  address_if none = err plain
  address_if (some u) = address_of u

  unfoldable pub resolve_endpoint : String → Result Err Address
  unfolding address_of
  resolve_endpoint endpoint =
      if str_eq endpoint "" then err plain else address_if (parse_url endpoint)

  unfoldable pub validate_cloud_credentials : Settings → Result Err (Unit {0})
  validate_cloud_credentials c =
      if str_eq c.auth_url ""
      then err plain
      else if lacks_host (parse_url c.auth_url)
      then err plain
      else if str_eq c.access_key ""
      then err plain
      else if str_eq c.secret_key ""
      then err plain
      else if str_eq c.project_id ""
      then err plain
      else if str_eq c.region_name ""
      then err plain
      else ok tt

  abbrev pub validate_role : Role → Settings → Result Err (Unit {0})
  validate_role controller c = validate_cloud_credentials c
  validate_role node c = ok tt

  abbrev pub after_endpoint : Result Err Address → Settings → Result Err (Unit {0})
  after_endpoint (err e) c = err e
  after_endpoint (ok _) c =
      if str_eq c.driver_name ""
      then err plain
      else if str_eq c.version ""
      then err plain
      else validate_role c.role c

  unfoldable pub validate : Settings → Result Err (Unit {0})
  unfolding resolve_endpoint validate_cloud_credentials
  validate c = after_endpoint (resolve_endpoint c.endpoint) c

  abbrev pub parse_for : String → Flags → (String → String) → Result Err Role → Result Err Settings
  parse_for version flags getenv (err e) = err e
  parse_for version flags getenv (ok role) =
      let c = settings_of version flags getenv role in if_valid c (validate c)

  -- `Parse`, from the parsed flags; a request for the version ends it too.
  unfoldable pub parse : String → Flags → (String → String) → Result Err Settings
  unfolding parse_role validate
  parse version flags getenv =
      if flags.show_version
      then err (only version_requested)
      else parse_for version flags getenv (parse_role (trim_space flags.role))

pub record NodeFacts : Type 0 where
  pub server_uuid : String
  pub zone : String

unfoldable pub validate_node_facts : Settings → Result Err Settings
validate_node_facts c =
    if str_eq c.node_id ""
    then err plain
    else if str_eq c.availability_zone ""
    then err plain
    else ok c

-- A flag wins over a fact.
abbrev pub or_fact : String → String → String
or_fact flag fact = if str_eq flag "" then fact else flag

abbrev pub with_facts : Settings → NodeFacts → Settings
with_facts c facts = record c {
  node_id = or_fact c.node_id facts.server_uuid;
  availability_zone = or_fact c.availability_zone facts.zone;
}

module _ {S : Type 0} (fetch : Eff S Err NodeFacts) where
  abbrev pub node_facts : Settings → Eff S Err Settings
  node_facts c =
      if not (str_eq c.node_id "") && not (str_eq c.availability_zone "")
      then lift (validate_node_facts c)
      else do facts ← fetch; lift (validate_node_facts (with_facts c facts))

  abbrev pub facts_for : Role → Settings → Eff S Err Settings
  facts_for controller c = pure c
  facts_for node c = node_facts c

  -- `resolveNodeFacts`, over the request to the metadata service.
  unfoldable pub resolve_node_facts : Settings → Eff S Err Settings
  unfolding validate_node_facts
  resolve_node_facts c = facts_for c.role c

  -- `Load`, from what `fs.Parse` makes of the arguments.
  unfoldable pub load :
      (String → Option Url) → String → Result Err Flags → (String → String) → Eff S Err Settings
  unfolding parse resolve_node_facts
  load parse_url version parsed getenv = do
    flags ← lift parsed
    c ← lift (parse parse_url version flags getenv)
    resolve_node_facts c
