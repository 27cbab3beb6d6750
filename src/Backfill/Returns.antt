-- ===== src/Backfill/Returns.antt =====
-- The loop of `run` ends: by its test, or by the bound on the pages.
use xrp_inteliggence_x.Base.{
  ℕ, zero, suc, ◌+◌, ◌≤◌, ◌<◌, ◌≡◌, ◌≢◌, refl, Bool, true, false, Option, none, some, leb,
  Bool-cases, inl, inr, Str, Result, ok, raise, Error, list_order, nat_order, same, arith,
}
use xrp_inteliggence_x.Contract.Observation.{HistoricalObservation}
use xrp_inteliggence_x.Store.Model.{
  FetchReceipt, CheckpointRow, Store, Action, ◌>>=◌, ◌>>◌, continue, fail_if, load_checkpoint,
}
use xrp_inteliggence_x.Store.Manifests.{ManifestPayload}
use xrp_inteliggence_x.Backfill.Pages.{BackfillWindow, BackfillPage}
use xrp_inteliggence_x.Backfill.Run.{
  Adapter, BackfillRunner, Progress, begin_at, empty_cursor, Run, out_of_fuel, ended, take_page,
  fetch_next, go_on, fetch_all, then_finish, run_from, run_with, run, job_key,
}

-- The loop has not used its fuel up.
abbrev pub HasEnded : {A : Type 0} → Run A → Type 0
HasEnded r = r ≢ out_of_fuel

-- A page counts: when the loop's body returns, it has fetched one page more, below the bound.
abbrev pub Counts : ℕ → Progress → Store × Result Progress → Type 0
Counts bound p (s, raise e) = Unit
Counts bound p (s, ok q) = (q.pages_fetched ≡ p.pages_fetched + 1) × (p.pages_fetched < bound)

ended-HasEnded : {A : Type 0} (s : Store) (r : Result A) → HasEnded (ended s r)
ended-HasEnded s r e = cc

>>=-Counts :
    {A : Type 0} (bound : ℕ) (p : Progress) (call : Action A) (next : A → Action Progress)
    → ((a : A) (s : Store) → Counts bound p (next a s))
    → (s : Store) → Counts bound p ((call >>= next) s)
unfolding ◌>>=◌
>>=-Counts {A} bound p call next h s = go (call s)
  where
    go : (r : Store × Result A) → Counts bound p (continue r next)
    go (t, raise e) = tt
    go (t, ok a) = h a t

fail_if-Counts :
    (bound : ℕ) (p : Progress) (c : Bool) (e : Error) (next : Action Progress) (s : Store)
    → (c ≡ false → Counts bound p (next s))
    → Counts bound p ((fail_if c e >> next) s)
unfolding ◌>>=◌
fail_if-Counts bound p true e next s h = tt
fail_if-Counts bound p false e next s h = h refl

module _ (sha256 : Str → Str) (receipt_json : FetchReceipt → Str)
    (observation_json : HistoricalObservation → Str)
    (canonical_sha256 : HistoricalObservation → Str) (manifest_json : ManifestPayload → Str)
    (material_json : Str → Str → Str → BackfillWindow → Str) (runner : BackfillRunner) (a : Adapter)
    (w : BackfillWindow) where
  take_page-Counts :
      (p : Progress) (page : BackfillPage) (s : Store)
      → p.pages_fetched < runner.max_pages
      → Counts runner.max_pages p (
          take_page sha256 receipt_json observation_json canonical_sha256 manifest_json
            material_json runner a w p page s)
  unfolding take_page
  take_page-Counts p page s h =
      >>=-Counts _ p _ _
        (λ blob.
          >>=-Counts _ p (fail_if _ _) _
            (λ u. >>=-Counts _ p _ _ (λ next. >>=-Counts _ p _ _ (λ v t. (refl, h)))))
        s

  pub fetch_next-Counts :
      (p : Progress) (s : Store)
      → Counts runner.max_pages p (
          fetch_next sha256 receipt_json observation_json canonical_sha256 manifest_json
            material_json runner a w p s)
  unfolding fetch_next
  fetch_next-Counts p s =
      fail_if-Counts runner.max_pages p (leb runner.max_pages p.pages_fetched) _ _ s (λ room.
        >>=-Counts runner.max_pages p _ _ (λ page t. take_page-Counts p page t (ground arith)) s)

  fetch_all-HasEnded :
      (fuel : ℕ) (p : Progress) (s : Store)
      → runner.max_pages < fuel + p.pages_fetched
      → p.pages_fetched ≤ runner.max_pages
      → HasEnded (
          fetch_all sha256 receipt_json observation_json canonical_sha256 manifest_json
            material_json runner a w fuel p s)
  unfolding fetch_all
  fetch_all-HasEnded zero p s h b = absurd (omega arith)
  fetch_all-HasEnded (suc fuel) p s h b = elim (Bool-cases p.completed) [
    | inl done ↦ rw (fetch_all, done) (ended-HasEnded s (ok p))
    | inr more ↦ rw (fetch_all, more) (go _ (fetch_next-Counts p s) (fetch_all-HasEnded fuel))
  ]
    where
      go :
          (r : Store × Result Progress)
          → Counts runner.max_pages p r
          → ((q : Progress) (t : Store)
              → runner.max_pages < fuel + q.pages_fetched
              → q.pages_fetched ≤ runner.max_pages
              → HasEnded (
                  fetch_all sha256 receipt_json observation_json canonical_sha256 manifest_json
                    material_json runner a w fuel q t))
          → HasEnded (
              go_on sha256 receipt_json observation_json canonical_sha256 manifest_json
                material_json runner a w
                (fetch_all sha256 receipt_json observation_json canonical_sha256 manifest_json
                  material_json runner a w fuel)
                r)
      go (t, raise e) c later = ended-HasEnded t (raise e)
      go (t, ok q) c later = later q t (omega arith) (omega arith)

  then_finish-HasEnded :
      (resumed : Bool) (r : Run Progress)
      → HasEnded r
      → HasEnded (
          then_finish sha256 receipt_json observation_json canonical_sha256 manifest_json
            material_json runner a w resumed r)
  then_finish-HasEnded resumed out_of_fuel h = absurd (h refl)
  then_finish-HasEnded resumed (ended s (raise e)) h = ended-HasEnded s (raise e)
  then_finish-HasEnded resumed (ended s (ok p)) h = ended-HasEnded _ _

  run_from-HasEnded :
      (resumed : Bool) (cursor : Result Str) (s : Store)
      → HasEnded (
          run_from sha256 receipt_json observation_json canonical_sha256 manifest_json material_json
            runner a w
            (suc runner.max_pages)
            resumed
            cursor
            s)
  unfolding run_from
  run_from-HasEnded resumed (raise e) s = ended-HasEnded s (raise e)
  run_from-HasEnded resumed (ok cursor) s = elim (Bool-cases (same cursor empty_cursor)) [
    | inl blank ↦ rw blank (ended-HasEnded s (raise _))
    | inr named ↦ rw named (
        then_finish-HasEnded resumed _ (
          fetch_all-HasEnded (suc runner.max_pages) (begin_at cursor) s (omega arith)
            (omega arith)))
  ]

  -- A run of a backfill ends, in a result or in an exception, whatever the adapter answers: the loop
  -- never needs more rounds than the bound on the pages and one.
  pub run-HasEnded :
      (s : Store)
      → HasEnded (
          run sha256 receipt_json observation_json canonical_sha256 manifest_json material_json
            runner a w s)
  unfolding run
  run-HasEnded s = from (
      load_checkpoint
        (job_key sha256 receipt_json observation_json canonical_sha256 manifest_json material_json a
          w)
        s)
    where
      from :
          (row : Option CheckpointRow)
          → HasEnded (
              run_with sha256 receipt_json observation_json canonical_sha256 manifest_json
                material_json runner a w
                (suc runner.max_pages)
                row
                s)
      from none = run_from-HasEnded false (a.initial_cursor w) s
      from (some row) = elim (Bool-cases row.completed) [
        | inl done ↦ rw done (ended-HasEnded _ _)
        | inr more ↦ rw more (run_from-HasEnded true (ok row.cursor_json) s)
      ]
