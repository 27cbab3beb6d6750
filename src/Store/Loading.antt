-- ===== src/Store/Loading.antt =====
-- What `load_observations` gives of the rows of the store.
use xrp_inteliggence_x.Base.{
  All, All-map, All-sort_by, All-keep, collect-map, IsAscending-map, mem-map, mem_of_map, aware,
  pos, ℕ, ◌≡◌, ap, ◌∙◌, Bool, true, Option, some, List, map, Memᴰ, values, keep, keep_mem,
  mem_of_keep, same, same_refl, same_eq, list_order, nat_order, sort_by-IsAscending, IsAscending,
  mem-sort_by, mem_of_sort_by, Str, Result, ok, DateTime, ℤ,
}
use xrp_inteliggence_x.Contract.Observation.{HistoricalObservation, RawObservation, post_init}
use xrp_inteliggence_x.Store.Model.{ObservationRow, Store}
use xrp_inteliggence_x.Store.Payload.{Payload, observation_payload}
use xrp_inteliggence_x.Store.RoundTrip.{observation_from_payload-payload}
use xrp_inteliggence_x.Store.Partitions.{is_safe_segment}
use xrp_inteliggence_x.Store.Readers.{loading_order, selected, read_row, load_observations}

-- The observations of a dataset that the store holds, in the order of their columns.
pub record IsLoaded (dataset : Str) (s : Store) (os : List HistoricalObservation) : Type 0 where
  pub ordered : IsAscending loading_order os
  pub stored :
      (o : HistoricalObservation)
      → Memᴰ o os
      → (r : ObservationRow) × Memᴰ r (values s.observations)
        × (o ≡ r.columns)
        × (o.dataset ≡ dataset)
  pub complete :
      (r : ObservationRow)
      → Memᴰ r (values s.observations)
      → r.columns.dataset ≡ dataset
      → Memᴰ r.columns os

selected-IsLoaded :
    (dataset : Str) (s : Store) → IsLoaded dataset s (map (λ r. r.columns) (selected dataset s))
selected-IsLoaded dataset s =
    let order : ObservationRow → List Str = λ r. loading_order r.columns in
    let test : ObservationRow → Bool = λ r. same r.columns.dataset dataset in
    let rows = values s.observations in
    record {
      ordered =
          IsAscending-map loading_order (λ r. r.columns) (selected dataset s)
            (sort_by-IsAscending order (keep test rows));
      stored = λ o m.
          let (r, n, e) = mem_of_map (λ r. r.columns) (selected dataset s) m in
          let (given, own) = mem_of_keep test rows (mem_of_sort_by order (keep test rows) n) in
          (r, given, e, ap (λ z. z.dataset) e ∙ same_eq r.columns.dataset dataset own);
      complete = λ r m own.
          mem-map (λ r. r.columns) (selected dataset s)
            (mem-sort_by order (keep test rows)
              (keep_mem test rows m (rw own (same_refl dataset))));
    }

module _ (isoformat : ℕ → Str) (date_isoformat : ℕ → Str) (str_int : ℕ → Str) (repr : Str → Str)
    (fromisoformat : Str → Result DateTime) (date_fromisoformat : Str → Result ℕ)
    (int : Str → Result ℤ) (loads : Str → Result (Option Payload)) where
  -- A row holds an observation of the constructor, and the text of its payload is read back.
  pub record IsReadable (r : ObservationRow) : Type 0 where
    pub arguments : RawObservation
    pub made : post_init arguments ≡ ok r.columns
    pub reads :
        loads r.payload_json
        ≡ ok (some (observation_payload isoformat date_isoformat str_int repr r.columns))

  module _ (reads_time : (t : ℕ) → fromisoformat (isoformat t) ≡ ok (aware t))
      (reads_date : (d : ℕ) → date_fromisoformat (date_isoformat d) ≡ ok d)
      (reads_int : (n : ℕ) → int (str_int n) ≡ ok (pos n)) where
    read_row-columns :
        (r : ObservationRow)
        → IsReadable r
        → read_row loads fromisoformat date_fromisoformat int r ≡ ok r.columns
    unfolding read_row
    read_row-columns r w = rw w.reads (
        observation_from_payload-payload isoformat date_isoformat str_int repr fromisoformat
          date_fromisoformat int reads_time reads_date reads_int w.arguments w.made)

    -- If the texts of times, dates and integers are read back as what they were written from, and
    -- each row holds an observation of the constructor and a JSON text that is read back as its
    -- payload, then the observations of a dataset of a safe name are loaded without an exception:
    -- exactly those of the rows with that dataset, as they were saved, in the order of their
    -- columns.
    pub load_observations-IsLoaded :
        (dataset : Str) (s : Store)
        → is_safe_segment dataset ≡ true
        → All IsReadable (values s.observations)
        → (os : List HistoricalObservation) × (load_observations loads fromisoformat
              date_fromisoformat int dataset s
            ≡ ok os)
          × IsLoaded dataset s os
    unfolding load_observations
    load_observations-IsLoaded dataset s safe readable =
        let own : ObservationRow → Bool = λ r. same r.columns.dataset dataset in
        let rows = values s.observations in
        let chosen = selected dataset s in
        (
          map (λ r. r.columns) chosen,
          rw safe (
              collect-map (read_row loads fromisoformat date_fromisoformat int) (λ r. r.columns)
                chosen
                (All-map _ _ chosen (λ r h. read_row-columns r h.0)
                  (All-sort_by (λ r. loading_order r.columns) _ (keep own rows)
                    (All-keep IsReadable own rows readable)))),
          selected-IsLoaded dataset s,
        )
