-- ===== src/Tests/Lifecycle.antt =====
-- internal/lifecycle: a daemon that starts what it is asked, and one whose new containers exit.
use nexus_gateway.Prelude.{refl, String, true, false, none, some, List, [], ◌∷◌, ◌≡◌}
use nexus_gateway.Prelude.Int.{ℤ, pos}
use nexus_gateway.Prelude.Dict.{lookup, insert}
use nexus_gateway.Catalog.{is_digest, all_hex, Manifest, validate}
use nexus_gateway.Lifecycle.{
  ConnectorSpec, ConnectorStatus, Docker, Manager, ManagerConfig, inspected, register, set_running,
  get, check_reserved, creation, binds_of, env_of, has_prefix,
}
use nexus_gateway.Lifecycle.Managing.{
  do_start, start_entry, after_create, after_start, do_stop, stop_entry, after_stop, discard,
}
use nexus_gateway.Lifecycle.Updating.{rollback, rollback_current, rollback_stopped, update, tick}
use nexus_gateway.Lifecycle.Specs.{Has}
use nexus_gateway.Lifecycle.Installing.{Installs, install, install-Installs}
use nexus_gateway.Lifecycle.Outcomes.{Ends, update-Ends, rollback-rollback}
use nexus_gateway.Lifecycle.Reserved.{Op, starts, updates, watches, rolls_back, run, run-claimed}

-- The daemon counts nothing and keeps the image of its last container.
abbrev docker : Docker String
docker = record {
  create = λ k w. (k.image, some "c2");
  start = λ c w. (w, true);
  stop = λ c w. (w, true);
  remove = λ c w. (w, true);
  inspect = λ c w.
      (w, inspected (record { has_base = true; running = some false; labels = none; id = c }));
  pull = λ image w. (w, true);
  is_local = λ image w. (w, false);
}

abbrev config : ManagerConfig
config = record { nats_url = "nats://bus"; connector_network = "" }

abbrev spec : ConnectorSpec
spec = record {
  id = "mqtt";
  image = "reg/mqtt@sha256:1";
  prev_image = "reg/mqtt@sha256:0";
  env = [];
  permissions = record { network = []; mounts = [] };
}

abbrev entry : ConnectorStatus
entry = record { spec = spec; container_id = "c1"; running = true }

abbrev manager : Manager String
manager = record { registry = ("mqtt", entry) ∷ []; reserved = []; world = "" }

abbrev manifest : Manifest
manifest = record {
  name = "mqtt";
  version = "v2";
  image = "reg/mqtt";
  digest = "sha256:0123456789abcdef0123456789abcdef0123456789abcdef0123456789abcdef";
  min_gateway_version = "v1.0.0";
  permissions = record { network = []; mounts = "/dev/null" ∷ [] };
  signature_required = true;
}

abbrev scan : String → ℤ × ℤ × ℤ
scan v = (pos 1, pos 0, pos 0)

digest_ok : is_digest manifest.digest ≡ true
unfolding is_digest all_hex
digest_ok = refl

digest_short : is_digest "sha256:0123" ≡ false
unfolding is_digest all_hex
digest_short = refl

found : lookup "mqtt" manager.registry ≡ some entry
unfolding lookup
found = refl

-- The new container exits, and the update is rolled back.
update-Ends_example : Ends docker config "mqtt" manifest entry manager (
    update docker config scan
      ("reg/" ∷ [])
      "v1.2.0"
      (λ image. true)
      (tick ∷ [])
      (pos 30)
      "mqtt"
      manifest
      manager)
update-Ends_example =
    update-Ends docker config "mqtt" scan ("reg/" ∷ []) "v1.2.0" (λ image. true) (tick ∷ [])
      (pos 30) manifest entry manager found (λ e. cc e)

once : (rollback docker config "mqtt" manager).1 ≡ none
unfolding rollback rollback_current rollback_stopped do_start start_entry after_create after_start
    do_stop stop_entry after_stop discard register set_running get check_reserved lookup insert
    creation binds_of env_of has_prefix
once = refl

twice : (rollback docker config "mqtt" (rollback docker config "mqtt" manager).0).1 ≡ none
unfolding rollback rollback_current rollback_stopped do_start start_entry after_create after_start
    do_stop stop_entry after_stop discard register set_running get check_reserved lookup insert
    creation binds_of env_of has_prefix
twice = refl

rollback-rollback_example :
    Has "mqtt" spec
      (rollback docker config "mqtt" (rollback docker config "mqtt" manager).0).0.registry
rollback-rollback_example =
    rollback-rollback docker config "mqtt" entry manager found refl once twice

abbrev claimed_manager : Manager String
claimed_manager = record manager { reserved = ("mqtt", true) ∷ [] }

is_claimed : check_reserved "mqtt" claimed_manager.reserved ≡ true
unfolding check_reserved lookup
is_claimed = refl

abbrev requests : List Op
requests =
    starts "mqtt"
    ∷ (updates scan ("reg/" ∷ []) "v1.2.0" (λ image. true) [] (pos 30) "mqtt" manifest
        ∷ (watches (λ id. false) ∷ (rolls_back "mqtt" ∷ [])))

run-claimed_example :
    (lookup "mqtt" (run docker config requests claimed_manager).registry
      ≡ lookup "mqtt" claimed_manager.registry)
    × (check_reserved "mqtt" (run docker config requests claimed_manager).reserved ≡ true)
run-claimed_example = run-claimed docker config "mqtt" requests claimed_manager is_claimed

install-Installs_example :
    Installs docker config
      (λ image. true)
      (validate scan manifest ("reg/" ∷ []) "v1.2.0")
      (docker.is_local manifest.image manager.world).1
      manifest
      manager
      (install docker config scan ("reg/" ∷ []) "v1.2.0" (λ image. true) manifest manager)
install-Installs_example =
    install-Installs docker config scan ("reg/" ∷ []) "v1.2.0" (λ image. true) manifest manager
