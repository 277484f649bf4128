-- ===== src/Lifecycle/Outcomes.antt =====
-- internal/lifecycle/update.go: how an update and a rollback end.
use nexus_gateway.Prelude.{
  ◌≡◌, ◌≢◌, ◌⊎◌, inl, inr, refl, sym, ap, subst, ◌∙◌, String, Bool, true, false, not, ◌&&◌, Option,
  none, some, List, str_eq, eq_iff, arith, Bool-cases, if◌then◌else◌,
}
use nexus_gateway.Prelude.Int.{ℤ}
use nexus_gateway.Prelude.Dict.{lookup}
use nexus_gateway.Catalog.{Manifest, image_ref, validate, ManifestError}
use nexus_gateway.Lifecycle.{
  ConnectorSpec, ConnectorStatus, register, get, ManagerConfig, Docker, Manager, LifecycleError,
  check_reserved, managed, no_previous,
}
use nexus_gateway.Lifecycle.Managing.{Outcome, do_start, do_stop, discard}
use nexus_gateway.Lifecycle.Updating.{
  Round, updated_spec, rollback, rollback_current, rollback_stopped, update, update_entry,
  update_pulled, update_verified, update_stopped, update_started, after_soak, soak_check,
  container_of, rollback_to, rollback_entry, rollback_started, digest_from_ref, unless_invalid,
}
use nexus_gateway.Lifecycle.Specs.{Has, register-Has, do_start-Has, do_stop-Has}

module _ {W : Type 0} (docker : Docker W) (cfg : ManagerConfig) (id : String) where
  -- An error, and the spec under the id.
  abbrev pub FailsWith : ConnectorSpec → Outcome W → Type 0
  FailsWith spec r = (r.1 ≢ none) × Has id spec r.0.registry

  rollback_started-FailsWith :
      (cause : LifecycleError) (spec : ConnectorSpec) (r : Outcome W)
      → Has id spec r.0.registry
      → FailsWith spec (rollback_started docker cfg cause r)
  unfolding rollback_started
  rollback_started-FailsWith cause spec (m, some x) h = (λ e. cc e, h)
  rollback_started-FailsWith cause spec (m, none) h = (λ e. cc e, h)

  rollback_entry-FailsWith :
      (image : String) (cause : LifecycleError) (spec : ConnectorSpec) (m : Manager W)
      (o : Option ConnectorStatus)
      → image ≢ ""
      → lookup id m.registry ≡ o
      → Has id spec m.registry
      → FailsWith
          (record spec { id = id; image = image })
          (rollback_entry docker cfg id image cause o m)
  unfolding rollback_entry
  rollback_entry-FailsWith image cause spec m none n p (e, q, s) = cc (sym p ∙ q)
  rollback_entry-FailsWith image cause spec m (some e) n p (e', q, s) =
      let same : e' ≡ e = cc (sym q ∙ p) in
      let is_spec : e.spec ≡ spec = ap (λ (x : ConnectorStatus). x.spec) (sym same) ∙ s in
      let filled : str_eq image "" ≡ false = ground (arith, n, eq_iff image "") in
      let m' = discard docker cfg e.container_id (do_stop docker cfg id m).0 in
      let spec' : ConnectorSpec = record e.spec { id = id; image = image } in
      rw filled (
        subst
          (λ (t : ConnectorSpec).
            FailsWith (record t { id = id; image = image })
              (rollback_started docker cfg cause
                (do_start docker cfg id (record m' { registry = register spec' m'.registry }))))
          is_spec
          (rollback_started-FailsWith cause spec' _ (
            do_start-Has docker cfg id spec' (record m' { registry = register spec' m'.registry })
              (register-Has id spec' m'.registry refl))))

  -- How an update of an entry ends: nothing to do; the new spec; or an error, with the spec of before
  -- or the new one with the image of before.
  abbrev pub Ends : Manifest → ConnectorStatus → Manager W → Outcome W → Type 0
  Ends manifest e m r =
      ((r ≡ (m, none)) × (digest_from_ref e.spec.image ≡ manifest.digest))
      ⊎ (((r.1 ≡ none) × Has id (updated_spec docker cfg id manifest e) r.0.registry)
          ⊎ (FailsWith e.spec r
              ⊎ FailsWith (record (updated_spec docker cfg id manifest e) { image = e.spec.image })
                  r))

  module _ (manifest : Manifest) (e : ConnectorStatus) (filled : e.spec.image ≢ "")
      (m0 : Manager W) where
    rollback_to-Ends :
        (cause : LifecycleError) (m : Manager W)
        → Has id (updated_spec docker cfg id manifest e) m.registry
        → Ends manifest e m0 (rollback_to docker cfg id e.spec.image cause m)
    unfolding rollback_to
    rollback_to-Ends cause m h = inr (
        inr (
          inr (
            rollback_entry-FailsWith e.spec.image cause (updated_spec docker cfg id manifest e) m
              (lookup id m.registry) filled refl h)))

    after_soak-Ends :
        (m : Manager W) (a : W × Option LifecycleError)
        → Has id (updated_spec docker cfg id manifest e) m.registry
        → Ends manifest e m0 (after_soak docker cfg id e.spec.image m a)
    unfolding after_soak
    after_soak-Ends m (w, none) h = inr (inl (refl, h))
    after_soak-Ends m (w, some x) h = rollback_to-Ends x (record m { world = w }) h

    update_started-Ends :
        (rounds : List Round) (window : ℤ) (r : Outcome W)
        → Has id (updated_spec docker cfg id manifest e) r.0.registry
        → Ends manifest e m0 (update_started docker cfg rounds window id e.spec.image r)
    unfolding update_started
    update_started-Ends rounds window (m, some x) h = rollback_to-Ends x m h
    update_started-Ends rounds window (m, none) h =
        after_soak-Ends m
          (soak_check docker cfg rounds window (container_of (get id m.registry)) m.world) h

    update_stopped-Ends :
        (rounds : List Round) (window : ℤ) (r : Outcome W)
        → Has id e.spec r.0.registry
        → Ends manifest e m0 (update_stopped docker cfg rounds window id manifest e r)
    unfolding update_stopped
    update_stopped-Ends rounds window (m, some x) h = inr (inr (inl (λ p. cc p, h)))
    update_stopped-Ends rounds window (m, none) h =
        let m' = discard docker cfg e.container_id m in
        let spec = updated_spec docker cfg id manifest e in
        update_started-Ends rounds window _ (
          do_start-Has docker cfg id spec (record m' { registry = register spec m'.registry })
            (register-Has id spec m'.registry refl))

    update_verified-Ends :
        (rounds : List Round) (window : ℤ) (m : Manager W) (verified : Bool)
        → Has id e.spec m.registry
        → Ends manifest e m0 (update_verified docker cfg rounds window id manifest e m verified)
    unfolding update_verified
    update_verified-Ends rounds window m verified h =
        elim (Bool-cases (manifest.signature_required && not verified)) [
          | inl f ↦ rw f (inr (inr (inl (λ p. cc p, h))))
          | inr f ↦ elim (Bool-cases (str_eq e.container_id "")) [
            | inl g ↦ rw (f, g) (update_stopped-Ends rounds window (m, none) h)
            | inr g ↦
                rw (f, g)
                  (update_stopped-Ends rounds window (do_stop docker cfg id m)
                    (do_stop-Has docker cfg id e.spec m h))
          ]
        ]

    pub update_pulled-Ends :
        (verify : String → Bool) (rounds : List Round) (window : ℤ) (m : Manager W) (a : W × Bool)
        → Has id e.spec m.registry
        → Ends manifest e m0 (update_pulled docker cfg verify rounds window id manifest e m a)
    unfolding update_pulled
    update_pulled-Ends verify rounds window m (w, true) h =
        update_verified-Ends rounds window (record m { world = w }) (verify (image_ref manifest)) h
    update_pulled-Ends verify rounds window m (w, false) h = inr (inr (inl (λ p. cc p, h)))

module _ {W : Type 0} (docker : Docker W) (cfg : ManagerConfig) (id : String) where
  update_entry-Ends :
      (verify : String → Bool) (rounds : List Round) (window : ℤ) (manifest : Manifest)
      (e : ConnectorStatus) (m : Manager W)
      → e.spec.image ≢ ""
      → Has id e.spec m.registry
      → Ends docker cfg id manifest e m
          (update_entry docker cfg verify rounds window id manifest (some e) m)
  unfolding update_entry
  update_entry-Ends verify rounds window manifest e m filled h =
      elim (Bool-cases (str_eq (digest_from_ref e.spec.image) manifest.digest)) [
        | inl f ↦
            rw f
              (inl (refl, ground (arith, f, eq_iff (digest_from_ref e.spec.image) manifest.digest)))
        | inr f ↦ rw f (
            update_pulled-Ends docker cfg id manifest e filled m verify rounds window m
              (docker.pull (image_ref manifest) m.world) h)
      ]

  -- The guards of an update.
  guarded-Ends :
      (manifest : Manifest) (e : ConnectorStatus) (m : Manager W) (x : Option ManifestError)
      (b : Bool) (r : Outcome W)
      → Has id e.spec m.registry
      → Ends docker cfg id manifest e m r
      → Ends docker cfg id manifest e m
          (unless_invalid docker cfg x m (if b then (m, some managed) else r))
  guarded-Ends manifest e m (some x) b r h g = inr (inr (inl (λ q. cc q, h)))
  guarded-Ends manifest e m none true r h g = inr (inr (inl (λ q. cc q, h)))
  guarded-Ends manifest e m none false r h g = g

  -- However an update of a registered connector with an image goes, whatever Docker, the verifier, the
  -- soak check and the rollback answer: it reports no error and the installed digest was the
  -- manifest's and nothing changed; or it reports no error and the manifest's image is registered, with
  -- the image of before as the previous one; or it reports an error and the connector is registered
  -- with the image of before, in the spec of before or in the new one's.
  pub update-Ends :
      (scan : String → ℤ × ℤ × ℤ) (allowed : List String) (version : String)
      (verify : String → Bool) (rounds : List Round) (window : ℤ) (manifest : Manifest)
      (e : ConnectorStatus) (m : Manager W)
      → lookup id m.registry ≡ some e
      → e.spec.image ≢ ""
      → Ends docker cfg id manifest e m
          (update docker cfg scan allowed version verify rounds window id manifest m)
  unfolding update get
  update-Ends scan allowed version verify rounds window manifest e m p filled =
      let h : Has id e.spec m.registry = (e, p, refl) in
      guarded-Ends manifest e m (validate scan manifest allowed version)
        (check_reserved id m.reserved) _ h
        (subst
          (λ (o : Option ConnectorStatus).
            Ends docker cfg id manifest e m
              (update_entry docker cfg verify rounds window id manifest o m))
          (sym p) (update_entry-Ends verify rounds window manifest e m filled h))

  abbrev swapped : ConnectorSpec → ConnectorSpec
  swapped s = record s { id = id; image = s.prev_image; prev_image = s.image }

  rollback_stopped-Has :
      (e : ConnectorStatus) (r : Outcome W)
      → (rollback_stopped docker cfg id e r).1 ≡ none
      → Has id (swapped e.spec) (rollback_stopped docker cfg id e r).0.registry
  unfolding rollback_stopped
  rollback_stopped-Has e (m, some x) h = cc h
  rollback_stopped-Has e (m, none) h =
      let m' = discard docker cfg e.container_id m in
      let spec = swapped e.spec in
      do_start-Has docker cfg id spec (record m' { registry = register spec m'.registry })
        (register-Has id spec m'.registry refl)

  -- A guard that ends in an error was passed.
  guarded-Has :
      (spec : ConnectorSpec) (m : Manager W) (b : Bool) (x : LifecycleError) (r : Outcome W)
      → (r.1 ≡ none → Has id spec r.0.registry)
      → (if b then (m, some x) else r).1 ≡ none
      → Has id spec (if b then (m, some x) else r).0.registry
  guarded-Has spec m true x r g h = cc h
  guarded-Has spec m false x r g h = g h

  rollback_current-Has :
      (o : Option ConnectorStatus) (spec : ConnectorSpec) (m : Manager W)
      → lookup id m.registry ≡ o
      → Has id spec m.registry
      → (rollback_current docker cfg id o m).1 ≡ none
      → Has id (swapped spec) (rollback_current docker cfg id o m).0.registry
  unfolding rollback_current
  rollback_current-Has none spec m p (e', q, s) h = cc (sym p ∙ q)
  rollback_current-Has (some e) spec m p (e', q, s) h =
      let same : e' ≡ e = cc (sym q ∙ p) in
      let is_spec : e.spec ≡ spec = ap (λ (x : ConnectorStatus). x.spec) (sym same) ∙ s in
      let r = rollback_stopped docker cfg id e (do_stop docker cfg id m) in
      guarded-Has (swapped spec) m (str_eq e.spec.prev_image "") no_previous r
        (λ g.
          subst (λ (t : ConnectorSpec). Has id (swapped t) r.0.registry) is_spec
            (rollback_stopped-Has e (do_stop docker cfg id m) g))
        h

  rollback-Has :
      (spec : ConnectorSpec) (m : Manager W)
      → Has id spec m.registry
      → (rollback docker cfg id m).1 ≡ none
      → Has id (swapped spec) (rollback docker cfg id m).0.registry
  unfolding rollback get
  rollback-Has spec m h =
      guarded-Has (swapped spec) m (check_reserved id m.reserved) managed _
        (rollback_current-Has (lookup id m.registry) spec m refl h)

  -- Two rollbacks of a connector that both succeed leave its spec as it was.
  pub rollback-rollback :
      (e : ConnectorStatus) (m : Manager W)
      → lookup id m.registry ≡ some e
      → e.spec.id ≡ id
      → (rollback docker cfg id m).1 ≡ none
      → (rollback docker cfg id (rollback docker cfg id m).0).1 ≡ none
      → Has id e.spec (rollback docker cfg id (rollback docker cfg id m).0).0.registry
  rollback-rollback e m p i h g =
      let m' = (rollback docker cfg id m).0 in
      let twice = rollback-Has (swapped e.spec) m' (rollback-Has e.spec m (e, p, refl) h) g in
      subst
        (λ (k : String). Has id (record e.spec { id = k }) (rollback docker cfg id m').0.registry)
        (sym i) twice
