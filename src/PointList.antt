-- ===== src/PointList.antt =====
-- internal/pointlist/fixture.go and synced.go: point list entries, and the resolver over one
-- immutable index that `Update` replaces whole.
pub mod Keys
pub mod Resolving
use Prim.Native.String.{◌++◌}
use nexus_gateway.Prelude.{
  ℕ, String, Bool, true, false, not, Option, none, some, List, [], ◌∷◌, str_eq, if◌then◌else◌,
}
use nexus_gateway.Prelude.Dict.{Dict, lookup, insert}

pub record Entry : Type 0 where
  pub release_of : String
  pub connector_id : String
  pub protocol : String
  pub local_id : String
  pub point_id : String
  pub unit : String
  pub writable : Bool
  pub device_ref : String
  pub control_schema : String

-- Go's zero value.
abbrev pub zero_entry : Entry
zero_entry = record {
  release_of = "";
  connector_id = "";
  protocol = "";
  local_id = "";
  point_id = "";
  unit = "";
  writable = false;
  device_ref = "";
  control_schema = "";
}

-- connectorID + "\x00" + localID
unfoldable pub key : String → String → String
key connector_id local_id = connector_id ++ ("\0" ++ local_id)

-- The loop that indexes the entries that are not release points.
unfoldable pub forward_from : List Entry → Dict String → Dict String
forward_from [] m = m
forward_from (e ∷ es) m =
    forward_from es
      (if str_eq e.release_of "" then insert (key e.connector_id e.local_id) e.point_id m else m)

unfoldable pub reverse_from : List Entry → Dict Entry → Dict Entry
reverse_from [] m = m
reverse_from (e ∷ es) m = reverse_from es (insert e.point_id e m)

pub record Index : Type 0 where
  pub forward : Dict String
  pub reverse : Dict Entry
  pub entries : List Entry

-- NewSynced
unfoldable pub new_synced : Index
new_synced = record { forward = []; reverse = []; entries = [] }

-- Update: the index of the new list, whatever the old one was.
unfoldable pub update : List Entry → Index
unfolding forward_from reverse_from
update es = record { forward = forward_from es []; reverse = reverse_from es []; entries = es }

-- Resolve
unfoldable pub resolve : Index → String → String → Option String
unfolding key
resolve idx connector_id local_id = lookup (key connector_id local_id) idx.forward

-- ResolveReverse
unfoldable pub resolve_reverse : Index → String → Option Entry
resolve_reverse idx point_id = lookup point_id idx.reverse

-- A map read of Go: the zero value where the key is missing.
abbrev pub entry_or_zero : Option Entry → Entry
entry_or_zero none = zero_entry
entry_or_zero (some e) = e

pub record Control : Type 0 where
  pub entry : Entry
  pub target : Entry
  pub found : Bool

abbrev pub is_some {ℓ} : {A : Type ℓ} → Option A → Bool
is_some none = false
is_some (some a) = true

-- ResolveControl
unfoldable pub resolve_control : Index → String → Control
resolve_control idx point_id =
    let found = lookup point_id idx.reverse in
    let entry = entry_or_zero found in
    record {
      entry = entry;
      target =
          if str_eq entry.release_of ""
          then entry
          else entry_or_zero (lookup entry.release_of idx.reverse);
      found = is_some found;
    }

-- NewFixture and its Resolve share `key` and the loop.
unfoldable pub new_fixture : List Entry → Dict String
unfolding forward_from
new_fixture es = forward_from es []
