-- ===== src/Web/Laws/Shared.antt =====
-- platform/web-platform.ts: a shared bundle that was loaded is what the later requests answer with.
use nodal_studio.Prelude.{
  [], Option, none, some, or_else, Attempt, thrown, returned, ◌≡◌, refl, ap, Bool-cases, inl, inr,
  agree_refl, string_eq,
}
use nodal_studio.Model.{DatabaseSnapshot, CloudViewBundle, SemanticBundle}
use nodal_studio.Web.Storage.{Browser}
use nodal_studio.Web.Platform.{
  World, Surroundings, Reply, Response, failed, not_ok, body, shared, handle, load_body,
  load_bundle, is_truthy, view_url, load_shared_bundle, get_snapshot, snapshot_found, find_snapshot,
  get_semantics, semantics, semantics_of, list_logical_relationships, relationships,
  shared_relationships,
}

module _ {S Num : Type 0} (browser : Browser S) (around : Surroundings Num) where
  shown : Attempt (Reply Num) → Option (CloudViewBundle Num)
  shown (returned (shared bundle)) = bundle
  shown other = none

  load_body-bundle :
      (response : Response Num) (w : World S Num) (bundle : CloudViewBundle Num)
      → shown (load_body browser around response w).0 ≡ some bundle
      → (load_body browser around response w).1.bundle ≡ some bundle
  unfolding shown
  load_body-bundle (failed m) w bundle h = absurd (cc h)
  load_body-bundle not_ok w bundle h = absurd (cc h)
  load_body-bundle (body (thrown m)) w bundle h = absurd (cc h)
  load_body-bundle (body (returned loaded)) w bundle h = h

  load_bundle-bundle :
      (w : World S Num) (bundle : CloudViewBundle Num)
      → shown (load_bundle browser around w).0 ≡ some bundle
      → (load_bundle browser around w).1.bundle ≡ some bundle
  unfolding load_bundle shown
  load_bundle-bundle w bundle h = elim (Bool-cases (is_truthy around.share_token)) [
    | inr p ↦ absurd (let bad : none ≡ some bundle = rw p at h in cc bad)
    | inl p ↦ elim (Bool-cases (is_truthy around.api_base)) [
      | inr q ↦ absurd (let bad : none ≡ some bundle = rw (p, q) at h in cc bad)
      | inl q ↦
          let response = around.fetch (
            view_url browser around (or_else around.api_base "") (or_else around.share_token "")) in
          rw (p, q) (load_body-bundle response w bundle (rw (p, q) at h))
    ]
  ]

  -- After a shared bundle was loaded, its snapshot is found under its id. The semantics have its annotations, domains,
  -- views, layout and logical relationships, with nothing orphaned or ignored, and the relationships that are listed are
  -- those of the semantics.
  pub shared-handle :
      (w : World S Num) (bundle : CloudViewBundle Num) (snapshot : DatabaseSnapshot)
      → (handle browser around load_shared_bundle w).0 ≡ returned (shared (some bundle))
      → bundle.snapshot ≡ some snapshot
      → let after = (handle browser around load_shared_bundle w).1 in
        ((handle browser around (get_snapshot snapshot.id) after).0
          ≡ returned (snapshot_found snapshot))
        × ((shown : SemanticBundle Num) × ((handle browser around get_semantics after).0
              ≡ returned (semantics shown))
            × ((handle browser around list_logical_relationships after).0
                ≡ returned (relationships shown.logical_relationships))
            × (shown.annotations ≡ bundle.annotations)
            × (shown.domain_groups ≡ bundle.domain_groups)
            × (shown.saved_views ≡ bundle.saved_views)
            × (shown.layout ≡ bundle.layout)
            × (shown.logical_relationships ≡ or_else bundle.logical_relationships [])
            × (shown.orphaned_annotations ≡ [])
            × (shown.ignored_relationship_inferences ≡ []))
  unfolding handle shown find_snapshot semantics_of shared_relationships
  shared-handle w bundle snapshot h k =
      let loaded : (load_bundle browser around w).1.bundle ≡ some bundle =
        load_bundle-bundle w bundle (ap shown h) in
      (
        rw (loaded, k, agree_refl snapshot.id) refl,
        (
          semantics_of (some bundle),
          rw loaded refl,
          rw loaded refl,
          refl,
          refl,
          refl,
          refl,
          refl,
          refl,
          refl,
        ),
      )
