-- ===== src/Lifecycle.antt =====
-- internal/lifecycle/registry.go: the registry; manager.go: what the manager asks of Docker.
pub mod Managing
pub mod Updating
pub mod Owning
pub mod Installing
pub mod Specs
pub mod Elsewhere
pub mod Reserved
pub mod Outcomes
use Prim.Native.String.{◌++◌}
use text.Mathlib.Text.{starts_with}
use nexus_gateway.Prelude.{
  ℕ, ◌≡◌, String, Bool, true, false, not, ◌&&◌, ◌||◌, Option, none, some, List, [], ◌∷◌, map,
  str_eq, if◌then◌else◌,
}
use nexus_gateway.Prelude
use nexus_gateway.Prelude.Dict.{Dict, lookup, insert, erase}
use nexus_gateway.Catalog.{Permissions}

pub record ConnectorSpec : Type 0 where
  pub id : String
  pub image : String
  pub prev_image : String
  pub env : List String
  pub permissions : Permissions

pub record ConnectorStatus : Type 0 where
  pub spec : ConnectorSpec
  pub container_id : String
  pub running : Bool

abbrev pub Registry : Type 0
Registry = Dict ConnectorStatus

-- Register, on the entry that there is
abbrev pub registered : ConnectorSpec → Option ConnectorStatus → ConnectorStatus
registered spec none = record { spec = spec; container_id = ""; running = false }
registered spec (some e) = record e { spec = spec }

-- Register
unfoldable pub register : ConnectorSpec → Registry → Registry
register spec r = insert spec.id (registered spec (lookup spec.id r)) r

abbrev pub set_entry : String → String → Bool → Option ConnectorStatus → Registry → Registry
set_entry id container running none r = r
set_entry id container running (some e) r =
    insert id (record e { container_id = container; running = running }) r

-- SetRunning
unfoldable pub set_running : String → String → Bool → Registry → Registry
set_running id container running r = set_entry id container running (lookup id r) r

-- Remove
unfoldable pub remove : String → Registry → Registry
remove id r = erase id r

-- Get
unfoldable pub get : String → Registry → Option ConnectorStatus
get id r = lookup id r

-- List, in an order that is not told
unfoldable pub list : Registry → List ConnectorStatus
list [] = []
list ((id, e) ∷ r) = e ∷ list r

-- ManagerConfig
pub record ManagerConfig : Type 0 where
  pub nats_url : String
  pub connector_network : String

-- What ContainerCreate is given.
pub record Creation : Type 0 where
  pub image : String
  pub env : List String
  pub labels : Dict String
  pub binds : List String
  pub network : String
  pub name : String

-- What ContainerInspect tells of a container: whether there is a base, the state (nil, or Running),
-- the labels of its configuration (nil where there is none), and its id.
pub record Info : Type 0 where
  pub has_base : Bool
  pub running : Option Bool
  pub labels : Option (Dict String)
  pub id : String

pub data Inspected : Type 0 where
  unreachable missing : Inspected
  inspected : Info → Inspected

-- ContainerClient, over the state of the daemon; a create gives an id or an error, ImageInspect tells
-- whether the image is there.
pub record Docker (W : Type 0) : Type 0 where
  pub create : Creation → W → W × Option String
  pub start : String → W → W × Bool
  pub stop : String → W → W × Bool
  pub remove : String → W → W × Bool
  pub inspect : String → W → W × Inspected
  pub pull : String → W → W × Bool
  pub is_local : String → W → W × Bool

-- Manager. Its locks let one operation at a time act on a connector.
pub record Manager (W : Type 0) : Type 0 where
  pub registry : Registry
  pub reserved : Dict Bool
  pub world : W

-- The errors of the package; a rollback carries the cause.
pub data LifecycleError : Type 0 where
  managed not_found create_failed start_failed stop_failed remove_failed : LifecycleError
  pull_failed invalid_manifest unverified : LifecycleError
  no_previous soak_failed cancelled : LifecycleError
  unowned no_identity unconfirmed not_stopped still_exists inspect_failed no_daemon : LifecycleError
  rollback_without_image rolled_back : LifecycleError → LifecycleError
  rollback_failed : LifecycleError → LifecycleError → LifecycleError

abbrev pub is_reserved : Option Bool → Bool
is_reserved none = false
is_reserved (some b) = b

-- checkReserved
unfoldable pub check_reserved : String → Dict Bool → Bool
check_reserved id reserved = is_reserved (lookup id reserved)

-- The first lines of the binds: mount:mount:ro
unfoldable pub binds_of : List String → List String
binds_of [] = []
binds_of (m ∷ ms) = (m ++ (":" ++ (m ++ ":ro"))) ∷ binds_of ms

-- The loop that looks for a variable.
unfoldable pub has_prefix : String → List String → Bool
has_prefix p [] = false
has_prefix p (e ∷ es) = let rest = has_prefix p es in starts_with e p || rest

-- createWithLabels: the environment
unfoldable pub env_of : ManagerConfig → ConnectorSpec → List String
unfolding has_prefix
env_of cfg spec =
    let bus =
      if not (has_prefix "NATS_URL" spec.env) && not (str_eq cfg.nats_url "")
      then ("NATS_URL=" ++ cfg.nats_url) ∷ []
      else [] in
    let identity =
      if not (has_prefix "CONNECTOR_ID" spec.env) then ("CONNECTOR_ID=" ++ spec.id) ∷ [] else [] in
    Prelude.◌++◌ spec.env (Prelude.◌++◌ bus identity)

-- createWithLabels: what ContainerCreate is given
unfoldable pub creation : ManagerConfig → ConnectorSpec → Dict String → Creation
unfolding binds_of env_of
creation cfg spec labels = record {
  image = spec.image;
  env = env_of cfg spec;
  labels = labels;
  binds = binds_of spec.permissions.mounts;
  network = cfg.connector_network;
  name = "nexus-" ++ spec.id;
}
