-- ===== src/Backfill/Tests.antt =====
-- A window, a page and a backfill of two pages.
use xrp_inteliggence_x.Base.{
  ◌≡◌, ◌↔◌, refl, true, false, none, some, [], ◌∷◌, All, sort_by, lookup, insert, lex_at_most,
  list_order, nat_order, str, strip, is_sha256, ok, raise, value_error, utc, aware, pos, negsuc,
}
use xrp_inteliggence_x.Store.Model.{
  empty, ◌>>=◌, blob_path, write_blob, register_blob, put_raw, insert_receipt, record_fetch,
  validate_receipt, constraint_fails, insert_observation, save_observation, upsert_checkpoint,
  save_checkpoint, load_checkpoint,
}
use xrp_inteliggence_x.Store.Partitions.{
  is_safe_segment, repeats, least, greatest, lines, partition_payload, save_all, partition_path,
  write_part, partition_of, add_members, register_members, register_partition, store_part,
  write_partition, persist_partition_then_checkpoint,
}
use xrp_inteliggence_x.Store.Manifests.{
  list_partitions, count_lines, total_rows, verify_partition, verify_all, manifest_path,
  write_manifest, register_manifest, manifest_of, publish, finalize_manifest,
}
use xrp_inteliggence_x.Store.Durable.{IsDurable, empty-IsDurable}
use xrp_inteliggence_x.Backfill.Pages.{
  backfill_window, backfill_page, validate_observation, validate_all, validate_page, receive_page,
  IsOf, validate_page-IsOf,
}
use xrp_inteliggence_x.Backfill.Run.{
  backfill_runner, begin_at, completed_cursor, next_cursor, job_key, store_page, take_page,
  fetch_next, fetch_all, finish, run_from, run,
}
use xrp_inteliggence_x.Backfill.Returns.{HasEnded, run-HasEnded}
use xrp_inteliggence_x.Backfill.Saves.{Resumes}
use xrp_inteliggence_x.Backfill.Resume.{IsFetched, fetch_next-Resumes}
use xrp_inteliggence_x.Backfill.Reach.{Reached, begins, goes_on, IsOn, Reached-IsOn}
use xrp_inteliggence_x.Backfill.Complete.{Leaves, IsComplete, run-IsComplete}
use xrp_inteliggence_x.Backfill.Samples.{
  receipt, observation, page, digest, receipt_json, observation_json, canonical_digest,
  manifest_json, material_json, hour, adapter, runner, key, outcome, first_run, store_of, short_run,
  second, after_first,
}

program : Unit {0}
unfolding backfill_window backfill_page validate_observation validate_all validate_page receive_page
    backfill_runner next_cursor job_key store_page take_page fetch_next fetch_all finish run_from
    run is_safe_segment repeats least greatest lines partition_payload save_all partition_path
    write_part partition_of add_members register_members register_partition store_part
    write_partition persist_partition_then_checkpoint sort_by list_partitions count_lines total_rows
    verify_partition verify_all manifest_path write_manifest register_manifest manifest_of publish
    finalize_manifest ◌>>=◌ blob_path write_blob register_blob put_raw insert_receipt record_fetch
    validate_receipt constraint_fails insert_observation save_observation upsert_checkpoint
    save_checkpoint load_checkpoint lookup insert lex_at_most strip is_sha256 utc
program = tt

accepted : backfill_page (λ payload. payload) page ≡ ok page
unfolding program
accepted = refl

unfinished :
    backfill_page (λ payload. payload) (record page { completed = false })
    ≡ raise (value_error "incomplete page requires next_cursor")
unfolding program
unfinished = refl

foreign :
    validate_page (str "e") page
    ≡ raise (value_error "adapter page contains observation from another dataset")
unfolding program
foreign = refl

reversed :
    backfill_window (record { start = aware 9; end = aware 9; interval_seconds = pos 60 })
    ≡ raise (value_error "backfill end must be later than start")
unfolding program
reversed = refl

validate_page-IsOf_example :
    (validate_page (str "d") page ≡ ok tt) ↔ All (IsOf (str "d") receipt) (observation ∷ [])
validate_page-IsOf_example = validate_page-IsOf (str "d") page

two_pages :
    outcome first_run
    ≡ some (
      2,
      true,
      false,
      some (record { cursor_json = completed_cursor; completed = true; updated_at = 30 }),
    )
unfolding program
two_pages = refl

resumed :
    outcome (
      run digest receipt_json observation_json canonical_digest manifest_json material_json runner
        adapter hour
        (store_of short_run))
    ≡ some (
      1,
      false,
      true,
      some (record { cursor_json = completed_cursor; completed = true; updated_at = 30 }),
    )
unfolding program
resumed = refl

negative :
    backfill_runner (pos 1) (negsuc 0) ≡ raise (value_error "max_empty_pages cannot be negative")
unfolding program
negative = refl

run-HasEnded_example : HasEnded first_run
run-HasEnded_example =
    run-HasEnded digest receipt_json observation_json canonical_digest manifest_json material_json
      runner adapter hour empty

run-IsComplete_example :
    Leaves digest empty
      (IsComplete digest receipt_json observation_json canonical_digest manifest_json material_json
        runner adapter hour)
      first_run
run-IsComplete_example =
    run-IsComplete digest receipt_json observation_json canonical_digest manifest_json material_json
      runner adapter hour empty (empty-IsDurable digest)

fetch_next-Resumes_example :
    Resumes digest key
      (IsFetched digest receipt_json observation_json canonical_digest manifest_json material_json
        runner adapter hour
        (begin_at (str "{0}")))
      empty
      (fetch_next digest receipt_json observation_json canonical_digest manifest_json material_json
        runner adapter hour
        (begin_at (str "{0}"))
        empty)
unfolding job_key
fetch_next-Resumes_example =
    fetch_next-Resumes digest receipt_json observation_json canonical_digest manifest_json
      material_json runner adapter hour (begin_at (str "{0}")) empty (empty-IsDurable digest)

second-Reached :
    Reached digest receipt_json observation_json canonical_digest manifest_json material_json runner
      adapter hour
      (str "{0}")
      empty
      second
      after_first
unfolding program
second-Reached = goes_on (begin_at (str "{0}")) second empty after_first begins refl refl

Reached-IsOn_example :
    IsDurable digest after_first
    × IsOn digest receipt_json observation_json canonical_digest manifest_json material_json runner
        adapter hour none second after_first
unfolding lookup
Reached-IsOn_example =
    Reached-IsOn digest receipt_json observation_json canonical_digest manifest_json material_json
      runner adapter hour (str "{0}") empty (empty-IsDurable digest) second-Reached
