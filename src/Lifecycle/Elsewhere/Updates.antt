-- ===== src/Lifecycle/Elsewhere/Updates.antt =====
-- internal/lifecycle/update.go and install.go: an update or an installation of one connector leaves the entries of the others.
use nexus_gateway.Prelude.{
  ◌≡◌, inl, inr, refl, ap, ◌∙◌, String, Bool, true, false, not, ◌&&◌, Option, none, some, List,
  str_eq, Bool-cases, if◌then◌else◌,
}
use nexus_gateway.Prelude.Int.{ℤ}
use nexus_gateway.Prelude.Dict.{Dict, lookup, lookup-erase}
use nexus_gateway.Catalog.{Manifest, image_ref}
use nexus_gateway.Lifecycle.{
  ConnectorStatus, Registry, register, get, remove, ManagerConfig, Docker, Manager, LifecycleError,
}
use nexus_gateway.Lifecycle.Managing.{Outcome, do_start, do_stop}
use nexus_gateway.Lifecycle.Updating.{
  Round, updated_spec, rollback_current, rollback_stopped, update_entry, update_pulled,
  update_verified, update_stopped, update_started, after_soak, soak_check, container_of,
  rollback_to, rollback_entry, rollback_started, digest_from_ref,
}
use nexus_gateway.Lifecycle.Installing.{
  install_local, install_pulled, install_image, install_started, installed_spec,
}
use nexus_gateway.Lifecycle.Elsewhere.{
  register-elsewhere, Keeps, do_start-Keeps, do_stop-Keeps, begin-Keeps,
}

module _ {W : Type 0} (docker : Docker W) (cfg : ManagerConfig) (id key : String)
    (o : Option ConnectorStatus) (q : Dict Bool) (d : str_eq id key ≡ false) where
  rollback_started-Keeps :
      (cause : LifecycleError) (r : Outcome W)
      → Keeps key o q r.0
      → Keeps key o q (rollback_started docker cfg cause r).0
  unfolding rollback_started
  rollback_started-Keeps cause (m, none) h = h
  rollback_started-Keeps cause (m, some x) h = h

  rollback_entry-Keeps :
      (image : String) (cause : LifecycleError) (e : Option ConnectorStatus) (m : Manager W)
      → Keeps key o q m
      → Keeps key o q (rollback_entry docker cfg id image cause e m).0
  unfolding rollback_entry
  rollback_entry-Keeps image cause none m h = h
  rollback_entry-Keeps image cause (some e) m h = elim (Bool-cases (str_eq image "")) [
    | inl f ↦ rw f h
    | inr f ↦ rw f (
        rollback_started-Keeps cause _ (
          begin-Keeps docker cfg id key o q d e.container_id _ (do_stop docker cfg id m).0 refl
            (do_stop-Keeps docker cfg id key o q d m h)))
  ]

  rollback_to-Keeps :
      (image : String) (cause : LifecycleError) (m : Manager W)
      → Keeps key o q m
      → Keeps key o q (rollback_to docker cfg id image cause m).0
  unfolding rollback_to
  rollback_to-Keeps image cause m h = rollback_entry-Keeps image cause (get id m.registry) m h

  after_soak-Keeps :
      (image : String) (m : Manager W) (a : W × Option LifecycleError)
      → Keeps key o q m
      → Keeps key o q (after_soak docker cfg id image m a).0
  unfolding after_soak
  after_soak-Keeps image m (w, none) h = h
  after_soak-Keeps image m (w, some x) h = rollback_to-Keeps image x (record m { world = w }) h

  update_started-Keeps :
      (rounds : List Round) (window : ℤ) (image : String) (r : Outcome W)
      → Keeps key o q r.0
      → Keeps key o q (update_started docker cfg rounds window id image r).0
  unfolding update_started
  update_started-Keeps rounds window image (m, some x) h = rollback_to-Keeps image x m h
  update_started-Keeps rounds window image (m, none) h =
      after_soak-Keeps image m
        (soak_check docker cfg rounds window (container_of (get id m.registry)) m.world) h

  update_stopped-Keeps :
      (rounds : List Round) (window : ℤ) (manifest : Manifest) (e : ConnectorStatus) (r : Outcome W)
      → Keeps key o q r.0
      → Keeps key o q (update_stopped docker cfg rounds window id manifest e r).0
  unfolding update_stopped
  update_stopped-Keeps rounds window manifest e (m, some x) h = h
  update_stopped-Keeps rounds window manifest e (m, none) h =
      update_started-Keeps rounds window e.spec.image _ (
        begin-Keeps docker cfg id key o q d e.container_id (updated_spec docker cfg id manifest e) m
          refl h)

  update_verified-Keeps :
      (rounds : List Round) (window : ℤ) (manifest : Manifest) (e : ConnectorStatus) (m : Manager W)
      (verified : Bool)
      → Keeps key o q m
      → Keeps key o q (update_verified docker cfg rounds window id manifest e m verified).0
  unfolding update_verified
  update_verified-Keeps rounds window manifest e m verified h =
      elim (Bool-cases (manifest.signature_required && not verified)) [
        | inl f ↦ rw f h
        | inr f ↦ elim (Bool-cases (str_eq e.container_id "")) [
          | inl g ↦ rw (f, g) (update_stopped-Keeps rounds window manifest e (m, none) h)
          | inr g ↦
              rw (f, g)
                (update_stopped-Keeps rounds window manifest e (do_stop docker cfg id m)
                  (do_stop-Keeps docker cfg id key o q d m h))
        ]
      ]

  update_pulled-Keeps :
      (verify : String → Bool) (rounds : List Round) (window : ℤ) (manifest : Manifest)
      (e : ConnectorStatus) (m : Manager W) (a : W × Bool)
      → Keeps key o q m
      → Keeps key o q (update_pulled docker cfg verify rounds window id manifest e m a).0
  unfolding update_pulled
  update_pulled-Keeps verify rounds window manifest e m (w, true) h =
      update_verified-Keeps rounds window manifest e (record m { world = w })
        (verify (image_ref manifest)) h
  update_pulled-Keeps verify rounds window manifest e m (w, false) h = h

  pub update_entry-Keeps :
      (verify : String → Bool) (rounds : List Round) (window : ℤ) (manifest : Manifest)
      (e : Option ConnectorStatus) (m : Manager W)
      → Keeps key o q m
      → Keeps key o q (update_entry docker cfg verify rounds window id manifest e m).0
  unfolding update_entry
  update_entry-Keeps verify rounds window manifest none m h = h
  update_entry-Keeps verify rounds window manifest (some e) m h =
      elim (Bool-cases (str_eq (digest_from_ref e.spec.image) manifest.digest)) [
        | inl f ↦ rw f h
        | inr f ↦ rw f (
            update_pulled-Keeps verify rounds window manifest e m
              (docker.pull (image_ref manifest) m.world) h)
      ]

  rollback_stopped-Keeps :
      (e : ConnectorStatus) (r : Outcome W)
      → Keeps key o q r.0
      → Keeps key o q (rollback_stopped docker cfg id e r).0
  unfolding rollback_stopped
  rollback_stopped-Keeps e (m, some x) h = h
  rollback_stopped-Keeps e (m, none) h =
      begin-Keeps docker cfg id key o q d e.container_id _ m refl h

  pub rollback_current-Keeps :
      (e : Option ConnectorStatus) (m : Manager W)
      → Keeps key o q m
      → Keeps key o q (rollback_current docker cfg id e m).0
  unfolding rollback_current
  rollback_current-Keeps none m h = h
  rollback_current-Keeps (some e) m h = elim (Bool-cases (str_eq e.spec.prev_image "")) [
    | inl f ↦ rw f h
    | inr f ↦ rw f (
        rollback_stopped-Keeps e (do_stop docker cfg id m)
          (do_stop-Keeps docker cfg id key o q d m h))
  ]

remove-elsewhere :
    (id key : String) (r : Registry)
    → str_eq id key ≡ false
    → lookup key (remove id r) ≡ lookup key r
unfolding remove
remove-elsewhere id key r d =
    lookup-erase id key r ∙ ap (λ (b : Bool). if b then none else lookup key r) d

module _ {W : Type 0} (docker : Docker W) (cfg : ManagerConfig) (verify : String → Bool)
    (manifest : Manifest) (key : String) (o : Option ConnectorStatus) (q : Dict Bool)
    (d : str_eq manifest.name key ≡ false) where
  install_started-Keeps :
      (r : Outcome W)
      → Keeps key o q r.0
      → Keeps key o q (install_started docker cfg manifest.name r).0
  unfolding install_started
  install_started-Keeps (m, none) h = h
  install_started-Keeps (m, some x) h = (remove-elsewhere manifest.name key m.registry d ∙ h.0, h.1)

  install_image-Keeps :
      (ref : String) (m : Manager W)
      → Keeps key o q m
      → Keeps key o q (install_image docker cfg verify manifest ref m).0
  unfolding install_image
  install_image-Keeps ref m h =
      let spec = installed_spec docker cfg manifest ref in
      let m' = record m { registry = register spec m.registry } in
      elim (Bool-cases (manifest.signature_required && not (verify ref))) [
        | inl f ↦ rw f h
        | inr f ↦ rw f (
            install_started-Keeps (do_start docker cfg manifest.name m') (
              do_start-Keeps docker cfg manifest.name key o q d m'
                (register-elsewhere key spec m.registry d ∙ h.0, h.1)))
      ]

  pub install_local-Keeps :
      (m : Manager W) (a : W × Bool)
      → Keeps key o q m
      → Keeps key o q (install_local docker cfg verify manifest m a).0
  unfolding install_local install_pulled
  install_local-Keeps m (w, true) h = install_image-Keeps manifest.image (record m { world = w }) h
  install_local-Keeps m (w, false) h =
      let (v, pulled) = docker.pull (image_ref manifest) w in
      elim (Bool-cases pulled) [
        | inl f ↦ rw f (install_image-Keeps (image_ref manifest) (record m { world = v }) h)
        | inr f ↦ rw f h
      ]
