-- ===== src/Store/ManifestGrowth.antt =====
-- `finalize_manifest` lets the store grow only, whether it returns or raises.
use xrp_inteliggence_x.Base.{
  list_order, nat_order, Bool-cases, Option-cases, inl, inr, lookup, Str, DateTime,
}
use xrp_inteliggence_x.Store.Model.{ManifestRow, fail_if}
use xrp_inteliggence_x.Store.Manifests.{
  ManifestPayload, write_manifest, clashes, register_manifest, publish, finalize_manifest,
}
use xrp_inteliggence_x.Store.Extends.{
  Extends-refl, Grows, >>=-Grows, fail_if-Grows, files-Extends, manifests-Extends,
}

module _ (sha256 : Str → Str) (manifest_json : ManifestPayload → Str) where
  write_manifest-Grows :
      (path payload : Str) → Grows (write_manifest sha256 manifest_json path payload)
  unfolding write_manifest
  write_manifest-Grows path payload s = elim (Option-cases (lookup path s.files)) [
    | inr (existing, found) ↦ rw (write_manifest, found) (fail_if-Grows _ _ s)
    | inl fresh ↦ rw (write_manifest, fresh) (files-Extends s path payload fresh)
  ]

  register_manifest-Grows :
      (id : Str) (row : ManifestRow) → Grows (register_manifest sha256 manifest_json id row)
  unfolding register_manifest
  register_manifest-Grows id row s = elim (Option-cases (lookup id s.manifests)) [
    | inr (old, found) ↦ rw (register_manifest, found) (fail_if-Grows _ _ s)
    | inl fresh ↦ elim (Bool-cases (clashes sha256 manifest_json row s)) [
      | inl taken ↦ rw (register_manifest, fresh, taken) (Extends-refl s)
      | inr free ↦ rw (register_manifest, fresh, free) (manifests-Extends s id row fresh)
    ]
  ]

  pub finalize_manifest-Grows :
      (dataset version : Str) (created_at : DateTime)
      → Grows (finalize_manifest sha256 manifest_json dataset version created_at)
  unfolding finalize_manifest publish
  finalize_manifest-Grows dataset version created_at =
      >>=-Grows (fail_if _ _) _ (fail_if-Grows _ _) (λ u.
        >>=-Grows (fail_if _ _) _ (fail_if-Grows _ _) (λ v.
          >>=-Grows _ _ (λ s. Extends-refl s)
            (λ created.
              >>=-Grows _ _ (λ s. Extends-refl s)
                (λ ps. >>=-Grows (fail_if _ _) _ (fail_if-Grows _ _) (λ w.
                  >>=-Grows _ _ (λ s. Extends-refl s)
                    (λ x. >>=-Grows _ _ (write_manifest-Grows _ _) (λ y.
                      >>=-Grows _ _ (register_manifest-Grows _ _) (λ z s. Extends-refl s))))))))
