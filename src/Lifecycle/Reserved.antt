-- ===== src/Lifecycle/Reserved.antt =====
-- internal/lifecycle: the connectors that clock provisioning has claimed.
use nexus_gateway.Prelude.{
  ◌≡◌, inl, inr, refl, sym, ◌∙◌, String, Bool, true, false, not, ◌&&◌, ◌||◌, Option, none, some,
  List, [], ◌∷◌, str_eq, eq_iff, arith, Bool-cases, Option-cases,
}
use nexus_gateway.Prelude.Int.{ℤ}
use nexus_gateway.Prelude.Dict.{Dict, lookup}
use nexus_gateway.Catalog.{Manifest, validate}
use nexus_gateway.Lifecycle.{
  ConnectorStatus, set_running, get, list, ManagerConfig, Docker, Manager, check_reserved,
  is_reserved, Inspected,
}
use nexus_gateway.Lifecycle.Managing.{
  Outcome, start, stop, restart, upgrade, watch, watch_all, watch_one, watch_inspected, has_stopped,
  unless_reserved,
}
use nexus_gateway.Lifecycle.Updating.{
  Round, rollback, update, Updater, poll, poll_all, poll_one, poll_fetched,
}
use nexus_gateway.Lifecycle.Elsewhere.Updates.{
  install_local-Keeps, update_entry-Keeps, rollback_current-Keeps,
}
use nexus_gateway.Lifecycle.Installing.{install}
use nexus_gateway.Lifecycle.Elsewhere.{
  Keeps, set_running-elsewhere, do_start-Keeps, do_stop-Keeps, restart_entry-Keeps,
  upgrade_entry-Keeps,
}

-- What the rest of the gateway asks of the manager.
pub data Op : Type 0 where
  starts stops restarts rolls_back : String → Op
  upgrades : String → String → Op
  updates :
      (String → ℤ × ℤ × ℤ)
      → List String
      → String
      → (String → Bool)
      → List Round
      → ℤ
      → String
      → Manifest
      → Op
  installs : (String → ℤ × ℤ × ℤ) → List String → String → (String → Bool) → Manifest → Op
  watches : (String → Bool) → Op
  polls :
      (String → ℤ × ℤ × ℤ)
      → (String → Bool)
      → List Round
      → Updater
      → (String → Option Manifest)
      → Op

module _ {W : Type 0} (docker : Docker W) (cfg : ManagerConfig) where
  unfoldable pub perform : Op → Manager W → Manager W
  unfolding start stop restart rollback upgrade update install watch poll
  perform (starts id) m = (start docker cfg id m).0
  perform (stops id) m = (stop docker cfg id m).0
  perform (restarts id) m = (restart docker cfg id m).0
  perform (rolls_back id) m = (rollback docker cfg id m).0
  perform (upgrades id image) m = (upgrade docker cfg id image m).0
  perform (updates scan allowed version verify rounds window id manifest) m =
      (update docker cfg scan allowed version verify rounds window id manifest m).0
  perform (installs scan allowed version verify manifest) m =
      (install docker cfg scan allowed version verify manifest m).0
  perform (watches busy) m = watch docker cfg busy m
  perform (polls scan verify rounds u fetch) m = poll docker cfg scan verify rounds u fetch m

  unfoldable pub run : List Op → Manager W → Manager W
  unfolding perform
  run [] m = m
  run (op ∷ ops) m = run ops (perform op m)

  module _ (key : String) (o : Option ConnectorStatus) (q : Dict Bool)
      (claimed : is_reserved (lookup key q) ≡ true) where
    -- An operation that asks checkReserved first.
    guarded-Keeps :
        (id : String) (m : Manager W) (r : Outcome W)
        → (str_eq id key ≡ false → Keeps key o q r.0)
        → Keeps key o q m
        → Keeps key o q (unless_reserved docker cfg id m r).0
    unfolding check_reserved
    guarded-Keeps id m r g h = elim (Bool-cases (str_eq id key)) [
      | inl e ↦
          let same : id ≡ key = ground (arith, e, eq_iff id key) in
          let met : is_reserved (lookup id m.reserved) ≡ true = rw (same, h.1) claimed in rw met h
      | inr e ↦ elim (Bool-cases (is_reserved (lookup id m.reserved))) [
        | inl f ↦ rw f h
        | inr f ↦ rw f (g e)
      ]
    ]

    update-Keeps :
        (scan : String → ℤ × ℤ × ℤ) (allowed : List String) (version : String)
        (verify : String → Bool) (rounds : List Round) (window : ℤ) (id : String)
        (manifest : Manifest) (m : Manager W)
        → Keeps key o q m
        → Keeps key o q
            (update docker cfg scan allowed version verify rounds window id manifest m).0
    unfolding update
    update-Keeps scan allowed version verify rounds window id manifest m h =
        elim (Option-cases (validate scan manifest allowed version)) [
          | inr (x, v) ↦ rw v h
          | inl v ↦ rw v (
              guarded-Keeps id m _
                (λ e.
                  update_entry-Keeps docker cfg id key o q e verify rounds window manifest
                    (get id m.registry) m h)
                h)
        ]

    install-Keeps :
        (scan : String → ℤ × ℤ × ℤ) (allowed : List String) (version : String)
        (verify : String → Bool) (manifest : Manifest) (m : Manager W)
        → Keeps key o q m
        → Keeps key o q (install docker cfg scan allowed version verify manifest m).0
    unfolding install
    install-Keeps scan allowed version verify manifest m h =
        elim (Option-cases (validate scan manifest allowed version)) [
          | inr (x, v) ↦ rw v h
          | inl v ↦ rw v (
              guarded-Keeps manifest.name m _
                (λ e.
                  install_local-Keeps docker cfg verify manifest key o q e m
                    (docker.is_local manifest.image m.world) h)
                h)
        ]

    -- What is not reserved is another connector.
    another :
        (id : String) (m : Manager W)
        → Keeps key o q m
        → check_reserved id m.reserved ≡ false
        → str_eq id key ≡ false
    unfolding check_reserved
    another id m h f = elim (Bool-cases (str_eq id key)) [
      | inr e ↦ e
      | inl e ↦
          let same : id ≡ key = ground (arith, e, eq_iff id key) in
          let met : is_reserved (lookup id m.reserved) ≡ true = rw (same, h.1) claimed in
          cc (sym met ∙ f)
    ]

    watch_inspected-Keeps :
        (busy : String → Bool) (e : ConnectorStatus) (m : Manager W) (a : W × Inspected)
        → Keeps key o q m
        → Keeps key o q (watch_inspected docker cfg busy e m a)
    unfolding watch_inspected
    watch_inspected-Keeps busy e m (w, a) h =
        let id = e.spec.id in
        elim (Bool-cases
          (has_stopped docker cfg a && not (busy id) && not (check_reserved id m.reserved))) [
            | inr f ↦ rw f h
            | inl f ↦
                let apart = another id m h (ground (arith, f)) in
                rw f (
                  do_start-Keeps docker cfg id key o q apart
                    (record m { world = w; registry = set_running id "" false m.registry })
                    (set_running-elsewhere id key "" false m.registry apart ∙ h.0, h.1))
          ]

    watch_one-Keeps :
        (busy : String → Bool) (e : ConnectorStatus) (m : Manager W)
        → Keeps key o q m
        → Keeps key o q (watch_one docker cfg busy e m)
    unfolding watch_one
    watch_one-Keeps busy e m h = elim (Bool-cases (not e.running || str_eq e.container_id "")) [
      | inl f ↦ rw f h
      | inr f ↦ rw f (watch_inspected-Keeps busy e m (docker.inspect e.container_id m.world) h)
    ]

    watch_all-Keeps :
        (busy : String → Bool) (es : List ConnectorStatus) (m : Manager W)
        → Keeps key o q m
        → Keeps key o q (watch_all docker cfg busy es m)
    unfolding watch_all
    watch_all-Keeps busy [] m h = h
    watch_all-Keeps busy (e ∷ es) m h =
        watch_all-Keeps busy es (watch_one docker cfg busy e m) (watch_one-Keeps busy e m h)

    module _ (scan : String → ℤ × ℤ × ℤ) (verify : String → Bool) (rounds : List Round)
        (u : Updater) where
      poll_fetched-Keeps :
          (e : ConnectorStatus) (found : Option Manifest) (m : Manager W)
          → Keeps key o q m
          → Keeps key o q (poll_fetched docker cfg scan verify rounds u e found m)
      unfolding poll_fetched
      poll_fetched-Keeps e none m h = h
      poll_fetched-Keeps e (some manifest) m h =
          elim (Bool-cases (str_eq manifest.name e.spec.id)) [
            | inl f ↦ rw f (
                update-Keeps scan u.allowlist u.version verify rounds u.window e.spec.id manifest m
                  h)
            | inr f ↦ rw f h
          ]

      poll_all-Keeps :
          (fetch : String → Option Manifest) (es : List ConnectorStatus) (m : Manager W)
          → Keeps key o q m
          → Keeps key o q (poll_all docker cfg scan verify rounds u fetch es m)
      unfolding poll_all poll_one
      poll_all-Keeps fetch [] m h = h
      poll_all-Keeps fetch (e ∷ es) m h = elim (Bool-cases e.running) [
        | inl f ↦ rw f (poll_all-Keeps fetch es _ (poll_fetched-Keeps e (fetch e.spec.id) m h))
        | inr f ↦ rw f (poll_all-Keeps fetch es m h)
      ]

    perform-Keeps : (op : Op) (m : Manager W) → Keeps key o q m → Keeps key o q (perform op m)
    unfolding perform start stop restart rollback upgrade watch poll
    perform-Keeps (starts id) m h =
        guarded-Keeps id m _ (λ e. do_start-Keeps docker cfg id key o q e m h) h
    perform-Keeps (stops id) m h =
        guarded-Keeps id m _ (λ e. do_stop-Keeps docker cfg id key o q e m h) h
    perform-Keeps (restarts id) m h =
        guarded-Keeps id m _
          (λ e. restart_entry-Keeps docker cfg id key o q e (get id m.registry) m h) h
    perform-Keeps (rolls_back id) m h =
        guarded-Keeps id m _
          (λ e. rollback_current-Keeps docker cfg id key o q e (get id m.registry) m h) h
    perform-Keeps (upgrades id image) m h =
        guarded-Keeps id m _
          (λ e. upgrade_entry-Keeps docker cfg id key o q e image (get id m.registry) m h) h
    perform-Keeps (updates scan allowed version verify rounds window id manifest) m h =
        update-Keeps scan allowed version verify rounds window id manifest m h
    perform-Keeps (installs scan allowed version verify manifest) m h =
        install-Keeps scan allowed version verify manifest m h
    perform-Keeps (watches busy) m h = watch_all-Keeps busy (list m.registry) m h
    perform-Keeps (polls scan verify rounds u fetch) m h =
        poll_all-Keeps scan verify rounds u fetch (list m.registry) m h

    run-Keeps : (ops : List Op) (m : Manager W) → Keeps key o q m → Keeps key o q (run ops m)
    unfolding run
    run-Keeps [] m h = h
    run-Keeps (op ∷ ops) m h = run-Keeps ops (perform op m) (perform-Keeps op m h)

  -- Whatever installs, starts, stops, restarts, upgrades, updates, rollbacks, ticks of the watcher and polls of
  -- the updater follow, and whatever Docker answers: the entry of a connector that is claimed stays
  -- as it is, and so does the claim.
  pub run-claimed :
      (id : String) (ops : List Op) (m : Manager W)
      → check_reserved id m.reserved ≡ true
      → (lookup id (run ops m).registry ≡ lookup id m.registry)
        × (check_reserved id (run ops m).reserved ≡ true)
  unfolding check_reserved
  run-claimed id ops m h =
      let kept = run-Keeps id (lookup id m.registry) m.reserved h ops m (refl, refl) in
      (kept.0, rw kept.1 h)
