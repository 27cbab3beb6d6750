-- ===== src/Backfill/Resume.antt =====
-- What a page leaves in the checkpoint, from which a later run goes on.
use xrp_inteliggence_x.Base.{
  ◌≤◌, ◌<◌, leb, leb-false, ltb, ltb-false, ◌≡◌, refl, ◌∙◌, ap, false, none, some, lookup, is_nil,
  Bool-cases, Option-cases, inl, inr, Str, Result, ok, raise, aware, list_order, nat_order,
}
use xrp_inteliggence_x.Contract.Observation.{HistoricalObservation}
use xrp_inteliggence_x.Store.Model.{
  FetchReceipt, CheckpointRow, DurablePartition, Store, ◌>>=◌, continue, return, fail_if, require,
}
use xrp_inteliggence_x.Store.Manifests.{ManifestPayload}
use xrp_inteliggence_x.Store.Durable.{IsDurable}
use xrp_inteliggence_x.Store.Triples.{Ends, Any, record_fetch-Triple, save_checkpoint-Triple}
use xrp_inteliggence_x.Store.PartitionLaws.{persist_partition_then_checkpoint-Triple}
use xrp_inteliggence_x.Store.CrashOrder.{
  checkpoint_of, Saves, save_checkpoint-Saves, IsOrdered,
  persist_partition_then_checkpoint-IsOrdered,
}
use xrp_inteliggence_x.Store.Checkpoints.{record_fetch-KeepsCheckpoints}
use xrp_inteliggence_x.Backfill.Pages.{BackfillWindow, BackfillPage, receive_page}
use xrp_inteliggence_x.Backfill.Run.{
  Adapter, BackfillRunner, Progress, next_cursor, count_empty, advance, job_key, store_page,
  take_page, fetch_next,
}
use xrp_inteliggence_x.Backfill.Saves.{
  checkpoint_at, Resumes, Resumes-of_KeepsCheckpoints, >>=-Resumes, return-Resumes, require-Resumes,
  fail_if-Resumes, fail_if-eq-ok, require-eq-ok, next_cursor-saved,
}

module _ (sha256 : Str → Str) (receipt_json : FetchReceipt → Str)
    (observation_json : HistoricalObservation → Str)
    (canonical_sha256 : HistoricalObservation → Str) (manifest_json : ManifestPayload → Str)
    (material_json : Str → Str → Str → BackfillWindow → Str) where
  Resumes-of_Saves :
      (key : Str) (row : CheckpointRow) (s : Store) (r : Store × Result (Unit {0}))
      → Ends sha256 (Any sha256) r
      → Saves key row s r
      → Resumes sha256 key (λ u t. lookup key t.checkpoints ≡ some row) s r
  Resumes-of_Saves key row s (t, raise e) d k = (d, ap (lookup key) k)
  Resumes-of_Saves key row s (t, ok u) d k = (d.0, k)

  Resumes-of_IsOrdered :
      (key : Str) (row : CheckpointRow) (s : Store) (r : Store × Result DurablePartition)
      → Ends sha256 (Any sha256) r
      → IsOrdered sha256 key row s r
      → Resumes sha256 key
          (λ u t. lookup key t.checkpoints ≡ some row)
          s
          (continue r (λ stored. return tt))
  Resumes-of_IsOrdered key row s (t, raise e) d k = (d, k)
  Resumes-of_IsOrdered key row s (t, ok x) d k = (d.0, k.1)

  store_page-Resumes :
      (dataset key : Str) (page : BackfillPage) (next : Str) (s : Store)
      → IsDurable sha256 s
      → Resumes sha256 key
          (λ u t.
            lookup key t.checkpoints
            ≡ some (checkpoint_of next page.completed (aware page.receipt.fetched_at)))
          s
          (store_page sha256 receipt_json observation_json canonical_sha256 manifest_json
            material_json dataset key page next s)
  unfolding store_page ◌>>=◌
  store_page-Resumes dataset key page next s d = elim (Bool-cases (is_nil page.observations)) [
    | inl bare ↦
        let time = aware page.receipt.fetched_at in
        rw (store_page, bare)
          (Resumes-of_Saves key (checkpoint_of next page.completed time) s _
            (save_checkpoint-Triple sha256 key next page.completed time s d tt)
            (save_checkpoint-Saves key next page.completed time s))
    | inr full ↦ elim (Option-cases page.partition_key) [
      | inl absent ↦ rw (store_page, full, absent) (d, refl)
      | inr (partition, named) ↦
          let time = aware page.receipt.fetched_at in
          rw (store_page, full, named)
            (Resumes-of_IsOrdered key (checkpoint_of next page.completed time) s _
              (persist_partition_then_checkpoint-Triple sha256 receipt_json observation_json
                canonical_sha256 dataset partition page.observations key next page.completed time s
                d tt)
              (persist_partition_then_checkpoint-IsOrdered sha256 receipt_json observation_json
                canonical_sha256 dataset partition page.observations key next page.completed time s
                d))
    ]
  ]

  module _ (runner : BackfillRunner) (a : Adapter) (w : BackfillWindow) where
    -- What a page that has been taken leaves: the progress, and the checkpoint of the next cursor.
    pub record IsTaken (p : Progress) (page : BackfillPage) (q : Progress) (t : Store)
        : Type 0 where
      pub next : Str
      pub progress : next_cursor p page ≡ ok next
      pub few_empty : count_empty p page ≤ runner.max_empty_pages
      pub advanced : q ≡ advance p page next
      pub saved :
          lookup
            (job_key sha256 receipt_json observation_json canonical_sha256 manifest_json
              material_json a w)
            t.checkpoints
          ≡ checkpoint_at none (advance p page next)

    take_page-Resumes :
        (p : Progress) (page : BackfillPage) (s : Store)
        → IsDurable sha256 s
        → Resumes sha256
            (job_key sha256 receipt_json observation_json canonical_sha256 manifest_json
              material_json a w)
            (IsTaken p page)
            s
            (take_page sha256 receipt_json observation_json canonical_sha256 manifest_json
              material_json runner a w p page s)
    unfolding take_page
    take_page-Resumes p page s d =
        >>=-Resumes sha256 key (IsTaken p page) _ _ s
          (Resumes-of_KeepsCheckpoints sha256 key s _
            (record_fetch-Triple sha256 receipt_json observation_json canonical_sha256
              page.raw_payload page.receipt s d tt)
            (record_fetch-KeepsCheckpoints sha256 receipt_json observation_json canonical_sha256
              page.raw_payload page.receipt s))
          (λ blob t dt e.
            >>=-Resumes sha256 key (IsTaken p page)
              (fail_if (ltb runner.max_empty_pages (count_empty p page)) _) _ t
              (fail_if-Resumes sha256 key _ _ t dt)
              (λ u t2 d2 bound.
                >>=-Resumes sha256 key (IsTaken p page) (require (next_cursor p page)) _ t2
                  (require-Resumes sha256 key (next_cursor p page) t2 d2)
                  (λ next t3 d3 found.
                    return-Resumes sha256 key
                      (λ u t.
                        lookup key t.checkpoints
                        ≡ some (checkpoint_of next page.completed (aware page.receipt.fetched_at)))
                      (IsTaken p page) _ (advance p page next) t3
                      (store_page-Resumes a.dataset key page next t3 d3)
                      (taken next (fail_if-eq-ok _ _ _ _ _ bound) (require-eq-ok _ _ _ _ found)))))
      where
        key : Str
        key =
            job_key sha256 receipt_json observation_json canonical_sha256 manifest_json
              material_json a w

        taken :
            (next : Str)
            → ltb runner.max_empty_pages (count_empty p page) ≡ false
            → next_cursor p page ≡ ok next
            → (u : Unit {0}) (t : Store)
            → lookup key t.checkpoints
              ≡ some (checkpoint_of next page.completed (aware page.receipt.fetched_at))
            → IsTaken p page (advance p page next) t
        taken next bound found u t saved = record {
          next = next;
          progress = found;
          few_empty = ltb-false _ _ bound;
          advanced = refl;
          saved =
              saved
              ∙ ap (λ c. some (checkpoint_of c page.completed (aware page.receipt.fetched_at)))
                  (next_cursor-saved p page next found);
        }

    -- A round of the loop that has returned: a page was asked for below the bound on the pages, the
    -- adapter answered a valid page of its dataset to the cursor, and the page has been taken.
    pub record IsFetched (p q : Progress) (t : Store) : Type 0 where
      pub room : p.pages_fetched < runner.max_pages
      pub page : BackfillPage
      pub answered :
          receive_page sha256 a.dataset (a.fetch_page w p.pages_fetched p.cursor) ≡ ok page
      pub taken : IsTaken p page q t

    -- A round of the loop on a durable store leaves a durable store. If it raises, wherever that is,
    -- the checkpoint of the job is as before. If it returns, it has fetched the valid page that the
    -- adapter answers to the cursor, below the bounds on the pages and on the consecutive empty ones,
    -- and the checkpoint holds the cursor, not yet seen, that the next round asks for, or that the
    -- job is completed.
    pub fetch_next-Resumes :
        (p : Progress) (s : Store)
        → IsDurable sha256 s
        → Resumes sha256
            (job_key sha256 receipt_json observation_json canonical_sha256 manifest_json
              material_json a w)
            (IsFetched p)
            s
            (fetch_next sha256 receipt_json observation_json canonical_sha256 manifest_json
              material_json runner a w p s)
    unfolding fetch_next
    fetch_next-Resumes p s d =
        >>=-Resumes sha256 key (IsFetched p) (fail_if (leb runner.max_pages p.pages_fetched) _) _ s
          (fail_if-Resumes sha256 key _ _ s d)
          (λ u t dt room.
            >>=-Resumes sha256 key (IsFetched p) (require answer) _ t
              (require-Resumes sha256 key answer t dt)
              (λ page t2 d2 found.
                widen page (leb-false _ _ (fail_if-eq-ok _ _ _ _ _ room))
                  (require-eq-ok _ _ _ _ found) t2 _ (take_page-Resumes p page t2 d2)))
      where
        key : Str
        key =
            job_key sha256 receipt_json observation_json canonical_sha256 manifest_json
              material_json a w

        answer : Result BackfillPage
        answer = receive_page sha256 a.dataset (a.fetch_page w p.pages_fetched p.cursor)

        widen :
            (page : BackfillPage)
            → p.pages_fetched < runner.max_pages
            → answer ≡ ok page
            → (t : Store) (r : Store × Result Progress) → Resumes sha256 key (IsTaken p page) t r
            → Resumes sha256 key (IsFetched p) t r
        widen page room found t (v, raise e) x = x
        widen page room found t (v, ok q) x =
            (x.0, record { room = room; page = page; answered = found; taken = x.1 })
