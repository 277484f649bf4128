-- ===== src/PointSync/Promotion.antt =====
-- internal/provisioning/fallback.go under the loop of internal/pointsync/loop.go.
use nexus_gateway.Prelude.{ap, sym, subst, true, false, if◌then◌else◌, ◌≡◌, ◌⊎◌, refl, inl, inr}
use nexus_gateway.PointList.{update}
use nexus_gateway.PointSync.{
  Client, Fallback, Loop, Fetched, failed, unchanged, fetched, FetchResult, apply_diff, sync, fetch,
  after_probe,
}

module _ {W : Type 0} (primary secondary : Client W) where
  -- What a result fetched for one loop makes of the list, the resolver and the two revisions.
  abbrev pub Applies : FetchResult → Loop → Loop → Type 0
  Applies r before after =
      (after.entries ≡ (if r.full then r.entries else apply_diff before.entries r))
      × (after.resolver ≡ update after.entries)
      × (after.etag ≡ r.etag)
      × (after.applied_etag ≡ r.etag)

  -- Nothing has been fetched; or the loop is as the last result left it, and Fetch gave that result
  -- when it was called with the ETag of the very loop that the result was applied to.
  unfoldable pub IsConsistent : Loop → Loop → Type 0
  IsConsistent l after =
      (after ≡ l)
      ⊎ ((f : Fallback W) × (before : Loop) × (r : FetchResult) × ((fetch primary secondary
              before.etag f).1
            ≡ fetched r)
          × Applies r before after)

  -- What a fetch comes to, on the answer of the primary's probe.
  unfoldable pub Probed : Fallback W → Loop → W × Fetched → Fallback W × Fetched → Type 0
  Probed f l (w, probe) (f', answer) =
      ((probe ≡ failed) × (f'.promoted ≡ f.promoted) × (answer ≡ (secondary l.etag w).1))
      ⊎ ((f'.promoted ≡ true)
          × ((probe ≡ unchanged)
              ⊎ ((r : FetchResult) × (probe ≡ fetched r)
                  × ((sync answer l).entries ≡ r.entries)
                  × ((sync answer l).etag ≡ r.etag))))

  probed :
      (f : Fallback W) (l : Loop) (q : W × Fetched)
      → Probed f l q (after_probe primary secondary l.etag f q)
  unfolding after_probe sync Probed
  probed f l (w, failed) = inl (refl, refl, refl)
  probed f l (w, unchanged) = inr (refl, inl refl)
  probed f l (w, fetched r) = inr (refl, inr (r, refl, refl, refl))

  -- The tick at which the primary first answers with a result replaces the whole list by the
  -- primary's, whatever flags and deltas the result carries and whatever the secondary had left,
  -- and promotes the primary; while the primary fails, the secondary's answer under the known ETag
  -- is what the loop gets and nothing is promoted.
  pub fetch_promotes :
      (f : Fallback W) (l : Loop)
      → f.promoted ≡ false
      → Probed f l (primary "" f.world) (fetch primary secondary l.etag f)
  unfolding fetch
  fetch_promotes f l h =
      let unpromoted : fetch primary secondary l.etag f
          ≡ after_probe primary secondary l.etag f (primary "" f.world) =
        ap
          (λ b.
            if b
            then (let (w, answer) = primary l.etag f.world in (record f { world = w }, answer))
            else after_probe primary secondary l.etag f (primary "" f.world))
          h in
      subst (Probed f l (primary "" f.world)) (sym unpromoted) (probed f l (primary "" f.world))
