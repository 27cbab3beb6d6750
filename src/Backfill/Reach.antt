-- ===== src/Backfill/Reach.antt =====
-- The states that the loop of a run comes to.
use xrp_inteliggence_x.Base.{
  ◌≤◌, ◌≡◌, refl, sym, subst, false, Option, List, [], ◌∷◌, All, AllDistinct, exists, same, length,
  lookup, Str, ok, list_order, nat_order, arith,
}
use xrp_inteliggence_x.Contract.Observation.{HistoricalObservation}
use xrp_inteliggence_x.Store.Model.{FetchReceipt, CheckpointRow, Store}
use xrp_inteliggence_x.Store.Manifests.{ManifestPayload}
use xrp_inteliggence_x.Store.Durable.{IsDurable}
use xrp_inteliggence_x.Backfill.Pages.{BackfillWindow, BackfillPage}
use xrp_inteliggence_x.Backfill.Run.{
  Adapter, BackfillRunner, Progress, begin_at, next_cursor, advance, job_key, fetch_next,
}
use xrp_inteliggence_x.Backfill.Saves.{checkpoint_at, Resumes}
use xrp_inteliggence_x.Backfill.Resume.{IsFetched, fetch_next-Resumes}

-- A cursor that is none of the list.
abbrev pub IsNew : Str → List Str → Type 0
IsNew c cs = All (λ d. same c d ≡ false) cs

exists_same-IsNew : (c : Str) (cs : List Str) → exists (same c) cs ≡ false → IsNew c cs
exists_same-IsNew c [] h = tt
exists_same-IsNew c (d ∷ cs) h = (ground arith, exists_same-IsNew c cs (ground arith))

next_cursor-IsNew :
    (p : Progress) (page : BackfillPage) (next : Str)
    → next_cursor p page ≡ ok next
    → page.completed ≡ false
    → IsNew next (p.cursor ∷ p.seen_cursors)
unfolding next_cursor
next_cursor-IsNew p page next h more =
    exists_same-IsNew next (p.cursor ∷ p.seen_cursors) (ground arith)

module _ (sha256 : Str → Str) (receipt_json : FetchReceipt → Str)
    (observation_json : HistoricalObservation → Str)
    (canonical_sha256 : HistoricalObservation → Str) (manifest_json : ManifestPayload → Str)
    (material_json : Str → Str → Str → BackfillWindow → Str) (runner : BackfillRunner) (a : Adapter)
    (w : BackfillWindow) where
  -- The loop comes from the first cursor on the store `s` to these local variables and this store.
  pub data Reached (cursor : Str) (s : Store) : Progress → Store → Type 0 where
    begins : Reached cursor s (begin_at cursor) s
    goes_on :
        (p q : Progress) (t u : Store)
        → Reached cursor s p t
        → p.completed ≡ false
        → fetch_next sha256 receipt_json observation_json canonical_sha256 manifest_json
            material_json runner a w p t
          ≡ (u, ok q)
        → Reached cursor s q u

  -- No cursor was asked for twice, the counters agree and are within their bounds, and the checkpoint
  -- is that of the next cursor.
  pub record IsOn (first : Option CheckpointRow) (p : Progress) (t : Store) : Type 0 where
    pub distinct : AllDistinct p.seen_cursors
    pub next_is_new : p.completed ≡ false → IsNew p.cursor p.seen_cursors
    pub counted : length p.seen_cursors ≡ p.pages_fetched
    pub bounded : p.pages_fetched ≤ runner.max_pages
    pub few_empty : p.empty_pages ≤ runner.max_empty_pages
    pub saved :
        lookup
          (job_key sha256 receipt_json observation_json canonical_sha256 manifest_json material_json
            a w)
          t.checkpoints
        ≡ checkpoint_at first p

  pub begin_at-IsOn :
      (cursor : Str) (s : Store)
      → IsOn
          (lookup
            (job_key sha256 receipt_json observation_json canonical_sha256 manifest_json
              material_json a w)
            s.checkpoints)
          (begin_at cursor)
          s
  begin_at-IsOn cursor s = record {
    distinct = tt;
    next_is_new = λ h. tt;
    counted = refl;
    bounded = omega arith;
    few_empty = omega arith;
    saved = refl;
  }

  IsFetched-IsOn :
      (first : Option CheckpointRow) (p q : Progress) (t u : Store)
      → IsOn first p t
      → p.completed ≡ false
      → IsFetched sha256 receipt_json observation_json canonical_sha256 manifest_json material_json
          runner a w p q u
      → IsOn first q u
  IsFetched-IsOn first p q t u on more f =
      let k = f.taken in
      subst (λ x. IsOn first x u) (sym k.advanced)
        (record {
          distinct = (on.next_is_new more, on.distinct);
          next_is_new = λ left.
              let e : (advance p f.page k.next).cursor ≡ k.next = rw left refl in
              subst (λ c. IsNew c (p.cursor ∷ p.seen_cursors)) (sym e)
                (next_cursor-IsNew p f.page k.next k.progress left);
          counted = let c = on.counted in omega arith;
          bounded = let r = f.room in omega arith;
          few_empty = k.few_empty;
          saved = k.saved;
        })

  pub fetch_next-IsOn :
      (first : Option CheckpointRow) (p q : Progress) (t u : Store)
      → IsDurable sha256 t
      → IsOn first p t
      → p.completed ≡ false
      → fetch_next sha256 receipt_json observation_json canonical_sha256 manifest_json material_json
          runner a w p t
        ≡ (u, ok q)
      → IsDurable sha256 u × IsOn first q u
  fetch_next-IsOn first p q t u d on more h =
      let (du, f) =
        subst
          (Resumes sha256
            (job_key sha256 receipt_json observation_json canonical_sha256 manifest_json
              material_json a w)
            (IsFetched sha256 receipt_json observation_json canonical_sha256 manifest_json
              material_json runner a w p)
            t)
          h
          (fetch_next-Resumes sha256 receipt_json observation_json canonical_sha256 manifest_json
            material_json runner a w p t d) in
      (du, IsFetched-IsOn first p q t u on more f)

  -- From a durable store, at each point that the loop comes to, the store is durable, no cursor has
  -- been asked for twice nor is the next one among them, there are as many cursors as pages, the
  -- pages and the consecutive empty ones are within their bounds, and the checkpoint of the job is
  -- that of the next cursor, or what it was if no page was taken yet.
  pub Reached-IsOn :
      (cursor : Str) (s : Store) {p : Progress} {t : Store}
      → IsDurable sha256 s
      → Reached cursor s p t
      → IsDurable sha256 t
        × IsOn
            (lookup
              (job_key sha256 receipt_json observation_json canonical_sha256 manifest_json
                material_json a w)
              s.checkpoints)
            p
            t
  Reached-IsOn cursor s d begins = (d, begin_at-IsOn cursor s)
  Reached-IsOn cursor s d (goes_on p q t u r more h) =
      let (dt, on) = Reached-IsOn cursor s d r in fetch_next-IsOn _ p q t u dt on more h
