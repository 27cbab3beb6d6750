-- ===== src/Backfill/Complete.antt =====
-- What a whole run leaves, whether it returns or raises.
use xrp_inteliggence_x.Base.{
  ℕ, zero, suc, ◌≤◌, ◌≡◌, refl, ◌∙◌, ap, Bool, true, false, Option, none, some, lookup, is_nil,
  same, Bool-cases, Option-cases, inl, inr, Str, Result, ok, raise, aware, list_order, nat_order,
  arith,
}
use xrp_inteliggence_x.Contract.Observation.{HistoricalObservation}
use xrp_inteliggence_x.Store.Model.{
  FetchReceipt, CheckpointRow, Store, ◌>>=◌, continue, fail_if, return, load_checkpoint,
}
use xrp_inteliggence_x.Store.Extends.{
  Extends, Extends-refl, Extends-trans, Grows, >>=-Grows, fail_if-Grows, is_done,
}
use xrp_inteliggence_x.Store.Growth.{record_fetch-Grows, save_checkpoint-Grows}
use xrp_inteliggence_x.Store.PartitionGrowth.{persist_partition_then_checkpoint-Grows}
use xrp_inteliggence_x.Store.Durable.{IsDurable}
use xrp_inteliggence_x.Store.Triples.{Ends}
use xrp_inteliggence_x.Store.Manifests.{ManifestPayload, DurableManifest}
use xrp_inteliggence_x.Store.ManifestLaws.{IsFaithful, finalize_manifest-Triple}
use xrp_inteliggence_x.Store.ManifestGrowth.{finalize_manifest-Grows}
use xrp_inteliggence_x.Backfill.Pages.{BackfillWindow, BackfillPage}
use xrp_inteliggence_x.Backfill.Run.{
  Adapter, BackfillRunner, RunResult, Progress, begin_at, empty_cursor, Run, out_of_fuel, ended,
  job_key, store_page, take_page, fetch_next, go_on, fetch_all, result_of, finish, ended_with,
  then_finish, run_from, run_with, run,
}
use xrp_inteliggence_x.Backfill.Saves.{checkpoint_at, Resumes}
use xrp_inteliggence_x.Backfill.Resume.{IsFetched, fetch_next-Resumes}
use xrp_inteliggence_x.Backfill.Reach.{IsOn, begin_at-IsOn, fetch_next-IsOn}

-- However the run ends, the store is durable and extends `s`, and a result establishes `Q`.
abbrev pub Leaves : {A : Type 0} → (Str → Str) → Store → (A → Store → Type 0) → Run A → Type 0
Leaves sha256 s Q out_of_fuel = Unit
Leaves sha256 s Q (ended t (raise e)) = IsDurable sha256 t × Extends s t
Leaves sha256 s Q (ended t (ok a)) = IsDurable sha256 t × Extends s t × Q a t

module _ (sha256 : Str → Str) (receipt_json : FetchReceipt → Str)
    (observation_json : HistoricalObservation → Str)
    (canonical_sha256 : HistoricalObservation → Str) (manifest_json : ManifestPayload → Str)
    (material_json : Str → Str → Str → BackfillWindow → Str) (runner : BackfillRunner) (a : Adapter)
    (w : BackfillWindow) where
  store_page-Grows :
      (dataset key : Str) (page : BackfillPage) (next : Str)
      → Grows (
          store_page sha256 receipt_json observation_json canonical_sha256 manifest_json
            material_json dataset key page next)
  unfolding store_page
  store_page-Grows dataset key page next s = elim (Bool-cases (is_nil page.observations)) [
    | inl bare ↦ rw (store_page, bare) (save_checkpoint-Grows key next _ _ s)
    | inr full ↦ elim (Option-cases page.partition_key) [
      | inl absent ↦ rw (store_page, full, absent) (Extends-refl s)
      | inr (partition, named) ↦
          rw (store_page, full, named)
            (>>=-Grows _ _
              (persist_partition_then_checkpoint-Grows sha256 receipt_json observation_json
                canonical_sha256 dataset partition page.observations key next _ _)
              (λ x. Extends-refl) s)
    ]
  ]

  fetch_next-Grows :
      (p : Progress)
      → Grows (
          fetch_next sha256 receipt_json observation_json canonical_sha256 manifest_json
            material_json runner a w p)
  unfolding fetch_next take_page
  fetch_next-Grows p = >>=-Grows (fail_if _ _) _ (fail_if-Grows _ _) (λ u.
      >>=-Grows _ _ Extends-refl (λ page.
        >>=-Grows _ _
          (record_fetch-Grows sha256 receipt_json observation_json canonical_sha256 page.raw_payload
            page.receipt)
          (λ blob. >>=-Grows (fail_if _ _) _ (fail_if-Grows _ _) (λ v.
            >>=-Grows _ _ Extends-refl (λ next.
              >>=-Grows _ _ (store_page-Grows a.dataset _ page next) (λ x. Extends-refl))))))

  -- A completed job with the manifest of its dataset.
  pub record IsComplete (r : RunResult) (t : Store) : Type 0 where
    pub completed : r.completed ≡ true
    pub bounded : r.pages_fetched ≤ runner.max_pages
    pub done :
        is_done (
          lookup
            (job_key sha256 receipt_json observation_json canonical_sha256 manifest_json
              material_json a w)
            t.checkpoints)
        ≡ true
    pub faithful : IsFaithful sha256 a.dataset r.manifest t

  -- The loop ends at a completed page.
  abbrev AtEnd : Option CheckpointRow → Progress → Store → Type 0
  AtEnd first q t =
      (q.completed ≡ true)
      × IsOn sha256 receipt_json observation_json canonical_sha256 manifest_json material_json
          runner a w first q t

  abbrev loop : ℕ → Progress → Store → Run Progress
  loop =
      fetch_all sha256 receipt_json observation_json canonical_sha256 manifest_json material_json
        runner a w

  fetch_all-Leaves :
      (first : Option CheckpointRow) (s : Store) (fuel : ℕ) (p : Progress) (t : Store)
      → IsDurable sha256 t
      → Extends s t
      → IsOn sha256 receipt_json observation_json canonical_sha256 manifest_json material_json
          runner a w first p t
      → Leaves sha256 s (AtEnd first) (loop fuel p t)
  unfolding fetch_all
  fetch_all-Leaves first s zero p t d e on = tt
  fetch_all-Leaves first s (suc fuel) p t d e on = elim (Bool-cases p.completed) [
    | inl done ↦ rw (fetch_all, done) (d, e, (done, on))
    | inr more ↦
        rw (fetch_all, more)
          (round _ refl
            (fetch_next-Resumes sha256 receipt_json observation_json canonical_sha256 manifest_json
              material_json runner a w p t d)
            (Extends-trans s t _ e (fetch_next-Grows p t)) more (fetch_all-Leaves first s fuel))
  ]
    where
      round :
          (r : Store × Result Progress)
          → fetch_next sha256 receipt_json observation_json canonical_sha256 manifest_json
              material_json runner a w p t
            ≡ r
          → Resumes sha256
              (job_key sha256 receipt_json observation_json canonical_sha256 manifest_json
                material_json a w)
              (IsFetched sha256 receipt_json observation_json canonical_sha256 manifest_json
                material_json runner a w p)
              t
              r
          → Extends s r.0
          → p.completed ≡ false
          → ((q : Progress) (u : Store)
              → IsDurable sha256 u
              → Extends s u
              → IsOn sha256 receipt_json observation_json canonical_sha256 manifest_json
                  material_json runner a w first q u
              → Leaves sha256 s (AtEnd first) (loop fuel q u))
          → Leaves sha256 s (AtEnd first) (
              go_on sha256 receipt_json observation_json canonical_sha256 manifest_json
                material_json runner a w
                (loop fuel)
                r)
      round (u, raise x) h k grown more later = (k.0, grown)
      round (u, ok q) h k grown more later =
          let (du, now) =
            fetch_next-IsOn sha256 receipt_json observation_json canonical_sha256 manifest_json
              material_json runner a w first p q t u d on more h in
          later q u du grown now

  finish-Leaves :
      (resumed : Bool) (p : Progress) (s t : Store)
      → IsDurable sha256 t
      → Extends s t
      → p.pages_fetched ≤ runner.max_pages
      → ((time : ℕ)
          → p.final_receipt_time ≡ some time
          → is_done (
              lookup
                (job_key sha256 receipt_json observation_json canonical_sha256 manifest_json
                  material_json a w)
                t.checkpoints)
            ≡ true)
      → Leaves sha256 s IsComplete (
          ended_with sha256 receipt_json observation_json canonical_sha256 manifest_json
            material_json runner a w
            (finish sha256 receipt_json observation_json canonical_sha256 manifest_json
              material_json runner a w resumed p t))
  unfolding finish ◌>>=◌
  finish-Leaves resumed p s t d e bounded saved = elim (Option-cases p.final_receipt_time) [
    | inl never ↦ rw (finish, never) (d, e)
    | inr (time, last) ↦
        rw (finish, last)
          (sealed _ (saved time last)
            (finalize_manifest-Triple sha256 manifest_json a.dataset a.schema_version (aware time) t
              d tt)
            (finalize_manifest-Grows sha256 manifest_json a.dataset a.schema_version (aware time)
              t))
  ]
    where
      key : Str
      key =
          job_key sha256 receipt_json observation_json canonical_sha256 manifest_json material_json
            a w

      sealed :
          (r : Store × Result DurableManifest)
          → is_done (lookup key t.checkpoints) ≡ true
          → Ends sha256 (IsFaithful sha256 a.dataset) r
          → Extends t r.0
          → Leaves sha256 s IsComplete (
              ended_with sha256 receipt_json observation_json canonical_sha256 manifest_json
                material_json runner a w
                (continue r (λ m. return (
                  result_of sha256 receipt_json observation_json canonical_sha256 manifest_json
                    material_json runner a w p resumed m))))
      sealed (u, raise x) done k grown = (k, Extends-trans s t u e grown)
      sealed (u, ok m) done k grown =
          let still = grown.done key in
          (
            k.0,
            Extends-trans s t u e grown,
            record { completed = refl; bounded = bounded; done = grind arith; faithful = k.1 },
          )

  AtEnd-done :
      (first : Option CheckpointRow) (q : Progress) (t : Store) (time : ℕ)
      → AtEnd first q t
      → q.final_receipt_time ≡ some time
      → is_done (
          lookup
            (job_key sha256 receipt_json observation_json canonical_sha256 manifest_json
              material_json a w)
            t.checkpoints)
        ≡ true
  AtEnd-done first q t time (done, on) last =
      let e : is_done (checkpoint_at first q) ≡ true = rw (last, done) refl in
      ap is_done on.saved ∙ e

  then_finish-Leaves :
      (resumed : Bool) (first : Option CheckpointRow) (s : Store) (r : Run Progress)
      → Leaves sha256 s (AtEnd first) r
      → Leaves sha256 s IsComplete (
          then_finish sha256 receipt_json observation_json canonical_sha256 manifest_json
            material_json runner a w resumed r)
  then_finish-Leaves resumed first s out_of_fuel h = tt
  then_finish-Leaves resumed first s (ended t (raise e)) h = h
  then_finish-Leaves resumed first s (ended t (ok q)) (d, e, end) =
      finish-Leaves resumed q s t d e (end.1).bounded
        (λ time last. AtEnd-done first q t time end last)

  run_from-Leaves :
      (fuel : ℕ) (resumed : Bool) (cursor : Result Str) (s : Store)
      → IsDurable sha256 s
      → Leaves sha256 s IsComplete (
          run_from sha256 receipt_json observation_json canonical_sha256 manifest_json material_json
            runner a w fuel resumed cursor s)
  unfolding run_from
  run_from-Leaves fuel resumed (raise e) s d = (d, Extends-refl s)
  run_from-Leaves fuel resumed (ok cursor) s d = elim (Bool-cases (same cursor empty_cursor)) [
    | inl blank ↦ rw blank (d, Extends-refl s)
    | inr named ↦ rw named (
        then_finish-Leaves resumed _ s (loop fuel (begin_at cursor) s) (
          fetch_all-Leaves _ s fuel (begin_at cursor) s d (Extends-refl s) (
            begin_at-IsOn sha256 receipt_json observation_json canonical_sha256 manifest_json
              material_json runner a w cursor s)))
  ]

  -- A run on a durable store leaves a durable store that extends it, also when it raises, wherever
  -- that is. If it returns, the job's checkpoint is completed, the bound on the pages was kept, and
  -- the manifest of the result lists all partitions of the dataset, verified.
  pub run-IsComplete :
      (s : Store)
      → IsDurable sha256 s
      → Leaves sha256 s IsComplete (
          run sha256 receipt_json observation_json canonical_sha256 manifest_json material_json
            runner a w s)
  unfolding run load_checkpoint
  run-IsComplete s d = from (lookup key s.checkpoints) refl
    where
      key : Str
      key =
          job_key sha256 receipt_json observation_json canonical_sha256 manifest_json material_json
            a w

      from :
          (row : Option CheckpointRow)
          → lookup key s.checkpoints ≡ row
          → Leaves sha256 s IsComplete (
              run_with sha256 receipt_json observation_json canonical_sha256 manifest_json
                material_json runner a w
                (suc runner.max_pages)
                row
                s)
      from none h = run_from-Leaves (suc runner.max_pages) false (a.initial_cursor w) s d
      from (some row) h = elim (Bool-cases row.completed) [
        | inl done ↦ rw done (
            finish-Leaves true
              (record (begin_at row.cursor_json) { final_receipt_time = some row.updated_at }) s s d
              (Extends-refl s) (omega arith) (λ time last. ap is_done h ∙ done))
        | inr more ↦ rw more (run_from-Leaves (suc runner.max_pages) true (ok row.cursor_json) s d)
      ]
