-- ===== src/Config/Valid.antt =====
-- internal/config/config.go: what the settings satisfy that a process starts with.
use t_cloud_public_csi_drive.Common.{
  ◌≡◌, ◌≢◌, refl, sym, ◌∙◌, subst, List, All, inl, inr, Bool, true, Bool-cases, not, ◌&&◌, Option,
  none, some, String, arith, str_eq, eq_iff,
}
use t_cloud_public_csi_drive.Text.{trim_space}
use t_cloud_public_csi_drive.Eff.{Result, ok, err, Eff}
use t_cloud_public_csi_drive.Eff.Rules.{Any, Good, Yields, Yields-Any, Yields-lift, Yields-bind}
use t_cloud_public_csi_drive.Errors.{Err}
use Prim.Native.String.{◌++◌ as str_append}
use t_cloud_public_csi_drive.Path.{join_path, clean}
use t_cloud_public_csi_drive.Path.Names.{IsName, clean_absolute}
use t_cloud_public_csi_drive.Config.{
  Role, controller, node, Flags, Url, Settings, Address, unix, tcp, is_clean_abs_path, address_of,
  resolve_endpoint, address_if, validate_cloud_credentials, validate, settings_of, if_valid,
  parse_for, parse, parse_role, NodeFacts, validate_node_facts, or_fact, with_facts, node_facts,
  facts_for, resolve_node_facts,
}

-- What a controller has, and what a node must not have.
pub data HasCredentials (c : Settings) : Type 0 where
  of_controller :
      c.role ≡ controller
      → c.auth_url ≢ ""
      → c.access_key ≢ ""
      → c.secret_key ≢ ""
      → c.project_id ≢ ""
      → c.region_name ≢ ""
      → HasCredentials c
  of_node :
      c.role ≡ node
      → c.access_key ≡ ""
      → c.secret_key ≡ ""
      → c.security_token ≡ ""
      → HasCredentials c

module _ (parse_url : String → Option Url) where
  endpoint_valid :
      (c : Settings) (r : Result Err Address)
      → resolve_endpoint parse_url c.endpoint ≡ r
      → validate parse_url c ≡ ok tt
      → (a : Address) × (resolve_endpoint parse_url c.endpoint ≡ ok a)
  unfolding validate
  endpoint_valid c (ok a) e h = (a, e)
  endpoint_valid c (err x) e h = absurd (ground arith)

  validate_credentials :
      (c : Settings) (r : Result Err Address)
      → resolve_endpoint parse_url c.endpoint ≡ r
      → validate parse_url c ≡ ok tt
      → c.role ≡ controller
      → validate_cloud_credentials parse_url c ≡ ok tt
  unfolding validate
  validate_credentials c (ok a) e h role = ground arith
  validate_credentials c (err x) e h role = absurd (ground arith)

  controller-HasCredentials :
      (c : Settings)
      → c.role ≡ controller
      → validate_cloud_credentials parse_url c ≡ ok tt
      → HasCredentials c
  unfolding validate_cloud_credentials
  controller-HasCredentials c role h =
      of_controller role (ground (arith, eq_iff c.auth_url ""))
        (ground (arith, eq_iff c.access_key "")) (ground (arith, eq_iff c.secret_key ""))
        (ground (arith, eq_iff c.project_id "")) (ground (arith, eq_iff c.region_name ""))

  settings-HasCredentials :
      (version : String) (flags : Flags) (getenv : String → String) (role : Role)
      → validate parse_url (settings_of version flags getenv role) ≡ ok tt
      → HasCredentials (settings_of version flags getenv role)
  settings-HasCredentials version flags getenv controller h =
      controller-HasCredentials (settings_of version flags getenv controller) refl
        (validate_credentials (settings_of version flags getenv controller) _ refl h refl)
  settings-HasCredentials version flags getenv node h = of_node refl refl refl refl

  abbrev Started : Settings → Type 0
  Started c = ((a : Address) × (resolve_endpoint parse_url c.endpoint ≡ ok a)) × HasCredentials c

  if_valid-Started :
      (version : String) (flags : Flags) (getenv : String → String) (role : Role) (c : Settings)
      (r : Result Err (Unit {0}))
      → validate parse_url (settings_of version flags getenv role) ≡ r
      → if_valid (settings_of version flags getenv role) r ≡ ok c
      → Started c
  if_valid-Started version flags getenv role c (ok tt) e h =
      let s = settings_of version flags getenv role in
      let same : s ≡ c = ground arith in
      subst Started same
        (endpoint_valid s _ refl e, settings-HasCredentials version flags getenv role e)
  if_valid-Started version flags getenv role c (err x) e h = absurd (ground arith)

  parse_for-Started :
      (version : String) (flags : Flags) (getenv : String → String) (c : Settings)
      (r : Result Err Role)
      → parse_for parse_url version flags getenv r ≡ ok c
      → Started c
  parse_for-Started version flags getenv c (ok role) h =
      if_valid-Started version flags getenv role c _ refl h
  parse_for-Started version flags getenv c (err x) h = absurd (ground arith)

  -- What `Parse` returns has an endpoint that can be listened on, and its role's credentials: a
  -- controller has them all, and a node has no secret at all, whatever its environment holds.
  pub parse-HasCredentials :
      (version : String) (flags : Flags) (getenv : String → String) (c : Settings)
      → parse parse_url version flags getenv ≡ ok c
      → ((a : Address) × (resolve_endpoint parse_url c.endpoint ≡ ok a)) × HasCredentials c
  unfolding parse
  parse-HasCredentials version flags getenv c h =
      parse_for-Started version flags getenv c (parse_role (trim_space flags.role)) (ground arith)

-- The settings of a node after the facts are there.
pub record HasFacts (before after : Settings) : Type 0 where
  pub node_id_given : after.node_id ≢ ""
  pub zone_given : after.availability_zone ≢ ""
  pub node_id_kept : before.node_id ≢ "" → after.node_id ≡ before.node_id
  pub zone_kept : before.availability_zone ≢ "" → after.availability_zone ≡ before.availability_zone

facts_valid :
    (before c after : Settings)
    → (before.node_id ≢ "" → c.node_id ≡ before.node_id)
    → (before.availability_zone ≢ "" → c.availability_zone ≡ before.availability_zone)
    → validate_node_facts c ≡ ok after
    → HasFacts before after
unfolding validate_node_facts
facts_valid before c after kept_id kept_zone h =
    let same : c ≡ after = ground arith in
    subst (HasFacts before) same (record {
      node_id_given = ground (arith, eq_iff c.node_id "");
      zone_given = ground (arith, eq_iff c.availability_zone "");
      node_id_kept = kept_id;
      zone_kept = kept_zone;
    })

or_fact-kept : (flag fact : String) → flag ≢ "" → or_fact flag fact ≡ flag
or_fact-kept flag fact ne = ground (arith, eq_iff flag "")

node_facts-HasFacts :
    {S : Type 0} (fetch : Eff S Err NodeFacts) (before : Settings)
    → Yields (HasFacts before) Any (node_facts fetch before)
node_facts-HasFacts fetch before = elim (Bool-cases both) [
  | inl t ↦
      rw t (Yields-lift (validate_node_facts before) (good before (λ _. refl) (λ _. refl) _ refl))
  | inr f ↦ rw f (
      Yields-bind (Yields-Any fetch) (λ facts _.
        Yields-lift (validate_node_facts (with_facts before facts)) (
          good (with_facts before facts) (or_fact-kept before.node_id facts.server_uuid)
            (or_fact-kept before.availability_zone facts.zone) _ refl)))
]
  where
    both : Bool
    both = not (str_eq before.node_id "") && not (str_eq before.availability_zone "")

    good :
        (c : Settings)
        → (before.node_id ≢ "" → c.node_id ≡ before.node_id)
        → (before.availability_zone ≢ "" → c.availability_zone ≡ before.availability_zone)
        → (r : Result Err Settings) → validate_node_facts c ≡ r
        → Good (HasFacts before) Any r
    good c p q (ok after) e = facts_valid before c after p q e
    good c p q (err x) e = tt

facts_for-HasFacts :
    {S : Type 0} (fetch : Eff S Err NodeFacts) (before : Settings) (role : Role)
    → role ≡ node
    → Yields (HasFacts before) Any (facts_for fetch role before)
facts_for-HasFacts fetch before node e = node_facts-HasFacts fetch before
facts_for-HasFacts fetch before controller e = absurd (ground arith)

-- Whatever the metadata service answers, a node starts only with a node identifier and a zone, and with
-- those of its flags where it has them.
pub resolve_node_facts-HasFacts :
    {S : Type 0} (fetch : Eff S Err NodeFacts) (before : Settings)
    → before.role ≡ node
    → Yields (HasFacts before) Any (resolve_node_facts fetch before)
unfolding resolve_node_facts
resolve_node_facts-HasFacts fetch before role = facts_for-HasFacts fetch before before.role role

-- An address that a process can listen on: a clean absolute socket path, or a host.
abbrev pub IsListenable : Address → Type 0
IsListenable (unix path) =
    (names : List String) × (path ≡ str_append "/" (join_path names)) × All IsName names
IsListenable (tcp host) = host ≢ ""

clean_abs_path-names :
    (path : String)
    → is_clean_abs_path path ≡ true
    → (names : List String) × (path ≡ str_append "/" (join_path names)) × All IsName names
unfolding is_clean_abs_path
clean_abs_path-names path h =
    let (names, clean_form, real) = clean_absolute path (ground arith) in
    let same : clean path ≡ path = (eq_iff (clean path) path).0 (ground arith) in
    (names, sym same ∙ clean_form, real)

address_of-IsListenable : (u : Url) (a : Address) → address_of u ≡ ok a → IsListenable a
unfolding address_of
address_of-IsListenable u (unix path) h =
    let same : u.path ≡ path = ground arith in
    subst (λ p. IsListenable (unix p)) same (clean_abs_path-names u.path (ground arith))
address_of-IsListenable u (tcp host) h = ground (arith, eq_iff u.host "")

-- `resolveEndpoint` gives only a host that is named, or a socket path that is absolute and each of whose
-- names is neither empty nor `.` nor `..`.
pub resolve_endpoint-IsListenable :
    (parse_url : String → Option Url) (endpoint : String) (a : Address)
    → resolve_endpoint parse_url endpoint ≡ ok a
    → IsListenable a
unfolding resolve_endpoint
resolve_endpoint-IsListenable parse_url endpoint a h = go (parse_url endpoint) (ground arith)
  where
    go : (o : Option Url) → address_if parse_url o ≡ ok a → IsListenable a
    go none e = absurd (ground arith)
    go (some u) e = address_of-IsListenable u a e
