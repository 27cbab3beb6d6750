-- ===== src/Backfill/Run.antt =====
-- `BackfillRunnerV2`: the loop that fetches pages, stores them and moves the checkpoint on. The
-- adapter is a parameter; what it answers to a cursor may also depend on how many pages it has
-- answered before. The texts that are hashed are parameters too.
use xrp_inteliggence_x.Base.{
  ℕ, suc, zero, ◌+◌, Bool, true, false, not, ◌||◌, Option, none, some, List, [], ◌∷◌, ◌++◌, leb,
  ltb, is_nil, length, exists, same, list_order, nat_order, ℤ, pos, ltb_ℤ, pos_part, if◌then◌else◌,
  Str, str, Result, ok, raise, value_error, runtime_error, aware,
}
use xrp_inteliggence_x.Contract.Observation.{HistoricalObservation}
use xrp_inteliggence_x.Store.Model.{
  FetchReceipt, CheckpointRow, Store, Action, ◌>>=◌, ◌>>◌, return, require, fail_if, record_fetch,
  save_checkpoint, load_checkpoint,
}
use xrp_inteliggence_x.Store.Partitions.{persist_partition_then_checkpoint}
use xrp_inteliggence_x.Store.Manifests.{ManifestPayload, DurableManifest, finalize_manifest}
use xrp_inteliggence_x.Backfill.Pages.{BackfillWindow, BackfillPage, receive_page}

-- `HistoricalAdapterV2`. Cursors are their canonical JSON texts.
pub record Adapter : Type 0 where
  pub provider : Str
  pub dataset : Str
  pub schema_version : Str
  pub initial_cursor : BackfillWindow → Result Str
  pub fetch_page : BackfillWindow → ℕ → Str → Result BackfillPage

pub record BackfillRunner : Type 0 where
  pub max_pages : ℕ
  pub max_empty_pages : ℕ

-- `BackfillRunnerV2.__init__`
unfoldable pub backfill_runner : ℤ → ℤ → Result BackfillRunner
backfill_runner max_pages max_empty_pages =
    if not (ltb_ℤ (pos 0) max_pages)
    then raise (value_error "max_pages must be positive")
    else if ltb_ℤ max_empty_pages (pos 0)
    then raise (value_error "max_empty_pages cannot be negative")
    else ok (record { max_pages = pos_part max_pages; max_empty_pages = pos_part max_empty_pages })

pub record RunResult : Type 0 where
  pub job_key : Str
  pub dataset : Str
  pub pages_fetched : ℕ
  pub observations_seen : ℕ
  pub completed : Bool
  pub resumed : Bool
  pub manifest : DurableManifest

-- The local variables of the loop.
pub record Progress : Type 0 where
  pub cursor : Str
  pub seen_cursors : List Str
  pub pages_fetched : ℕ
  pub observations_seen : ℕ
  pub empty_pages : ℕ
  pub completed : Bool
  pub final_receipt_time : Option ℕ

abbrev pub begin_at : Str → Progress
begin_at cursor = record {
  cursor = cursor;
  seen_cursors = [];
  pages_fetched = 0;
  observations_seen = 0;
  empty_pages = 0;
  completed = false;
  final_receipt_time = none;
}

abbrev pub empty_cursor : Str
empty_cursor = str "{}"

abbrev pub completed_cursor : Str
completed_cursor = str "{\"completed\":true}"

-- The cursor that is saved after a page: it has to be one that was not fetched.
unfoldable pub next_cursor : Progress → BackfillPage → Result Str
next_cursor p page = if page.completed then ok completed_cursor else elim page.next_cursor [
  | none ↦ raise (runtime_error "validated incomplete page lost next_cursor")
  | some next ↦
      if same next p.cursor || exists (same next) (p.cursor ∷ p.seen_cursors)
      then raise (runtime_error "backfill adapter made no forward cursor progress")
      else ok next
]

abbrev pub count_empty : Progress → BackfillPage → ℕ
count_empty p page = if is_nil page.observations then p.empty_pages + 1 else 0

-- The local variables after a page.
abbrev pub advance : Progress → BackfillPage → Str → Progress
advance p page next = record {
  cursor = if page.completed then p.cursor else next;
  seen_cursors = p.cursor ∷ p.seen_cursors;
  pages_fetched = p.pages_fetched + 1;
  observations_seen = p.observations_seen + length page.observations;
  empty_pages = count_empty p page;
  completed = page.completed;
  final_receipt_time = some page.receipt.fetched_at;
}

-- A loop that has returned or raised, or one that has used its fuel up.
pub data Run (A : Type 0) : Type 0 where
  out_of_fuel : Run A
  ended : Store → Result A → Run A

module _ (sha256 : Str → Str) (receipt_json : FetchReceipt → Str)
    (observation_json : HistoricalObservation → Str)
    (canonical_sha256 : HistoricalObservation → Str) (manifest_json : ManifestPayload → Str)
    (material_json : Str → Str → Str → BackfillWindow → Str) where
  unfoldable pub job_key : Adapter → BackfillWindow → Str
  job_key a w =
      str "backfill:sha256:" ++ sha256 (material_json a.provider a.dataset a.schema_version w)

  -- The partition with the checkpoint after it, or the checkpoint alone for an empty page.
  unfoldable pub store_page : Str → Str → BackfillPage → Str → Action (Unit {0})
  store_page dataset key page next =
      if is_nil page.observations
      then save_checkpoint key next page.completed (aware page.receipt.fetched_at)
      else elim page.partition_key [
        | none ↦ require (raise (runtime_error "validated observation page lost partition_key"))
        | some partition ↦ do
          stored ←
              persist_partition_then_checkpoint sha256 receipt_json observation_json
                canonical_sha256 dataset partition page.observations key next page.completed
                (aware page.receipt.fetched_at)
          return tt
      ]

  module _ (runner : BackfillRunner) (a : Adapter) (w : BackfillWindow) where
    -- The part of the loop's body after the page was fetched and validated.
    unfoldable pub take_page : Progress → BackfillPage → Action Progress
    take_page p page = do
      blob ←
          record_fetch sha256 receipt_json observation_json canonical_sha256 page.raw_payload
            page.receipt
      fail_if (ltb runner.max_empty_pages (count_empty p page))
          (runtime_error "backfill exceeded maximum consecutive empty pages")
      next ← require (next_cursor p page)
      store_page a.dataset (job_key a w) page next
      return (advance p page next)

    -- The loop's body.
    unfoldable pub fetch_next : Progress → Action Progress
    fetch_next p = do
      fail_if (leb runner.max_pages p.pages_fetched)
          (runtime_error "backfill exceeded max_pages before completion")
      page ← require (receive_page sha256 a.dataset (a.fetch_page w p.pages_fetched p.cursor))
      take_page p page

    abbrev pub go_on : (Progress → Store → Run Progress) → Store × Result Progress → Run Progress
    go_on rest (s, raise e) = ended s (raise e)
    go_on rest (s, ok p) = rest p s

    -- `while not completed`
    unfoldable pub fetch_all : ℕ → Progress → Store → Run Progress
    fetch_all zero p s = out_of_fuel
    fetch_all (suc fuel) p s = elim p.completed [
      | true ↦ ended s (ok p)
      | false ↦ go_on (fetch_all fuel) (fetch_next p s)
    ]

    abbrev pub result_of : Progress → Bool → DurableManifest → RunResult
    result_of p resumed manifest = record {
      job_key = job_key a w;
      dataset = a.dataset;
      pages_fetched = p.pages_fetched;
      observations_seen = p.observations_seen;
      completed = true;
      resumed = resumed;
      manifest = manifest;
    }

    -- What follows the loop.
    unfoldable pub finish : Bool → Progress → Action RunResult
    finish resumed p = elim p.final_receipt_time [
      | none ↦ require (raise (runtime_error "completed backfill has no receipt timestamp"))
      | some time ↦ do
        manifest ← finalize_manifest sha256 manifest_json a.dataset a.schema_version (aware time)
        return (result_of p resumed manifest)
    ]

    abbrev pub ended_with : {A : Type 0} → Store × Result A → Run A
    ended_with (s, r) = ended s r

    abbrev pub then_finish : Bool → Run Progress → Run RunResult
    then_finish resumed out_of_fuel = out_of_fuel
    then_finish resumed (ended s (raise e)) = ended s (raise e)
    then_finish resumed (ended s (ok p)) = ended_with (finish resumed p s)

    unfoldable pub run_from : ℕ → Bool → Result Str → Store → Run RunResult
    run_from fuel resumed (raise e) s = ended s (raise e)
    run_from fuel resumed (ok cursor) s =
        if same cursor empty_cursor
        then ended s (raise (value_error "backfill cursor cannot be empty"))
        else then_finish resumed (fetch_all fuel (begin_at cursor) s)

    abbrev pub run_with : ℕ → Option CheckpointRow → Store → Run RunResult
    run_with fuel none s = run_from fuel false (a.initial_cursor w) s
    run_with fuel (some row) s =
        if row.completed
        then ended_with (
            finish true
              (record (begin_at row.cursor_json) { final_receipt_time = some row.updated_at }) s)
        else run_from fuel true (ok row.cursor_json) s

    -- `run`. One more round than `max_pages` is enough.
    unfoldable pub run : Store → Run RunResult
    run s = run_with (suc runner.max_pages) (load_checkpoint (job_key a w) s) s
