-- ===== src/Store/CrashOrder.antt =====
-- The checkpoint of `persist_partition_then_checkpoint` follows its partition.
use xrp_inteliggence_x.Base.{
  ◌≡◌, refl, ◌∙◌, ap, Bool, not, ◌&&◌, some, List, lookup, lookup-insert, same_refl, list_order, ℕ,
  nat_order, Bool-cases, Option-cases, inl, inr, Str, strip, is_nil, Result, ok, raise, DateTime,
  naive, aware, utc,
}
use xrp_inteliggence_x.Contract.Observation.{HistoricalObservation}
use xrp_inteliggence_x.Store.Model.{
  FetchReceipt, CheckpointRow, DurablePartition, Store, Action, ◌>>=◌, ◌>>◌, continue, return,
  upsert_checkpoint, save_checkpoint,
}
use xrp_inteliggence_x.Store.Partitions.{write_partition, persist_partition_then_checkpoint}
use xrp_inteliggence_x.Store.Extends.{Extends}
use xrp_inteliggence_x.Store.Growth.{save_checkpoint-Grows}
use xrp_inteliggence_x.Store.Durable.{IsDurable, kept}
use xrp_inteliggence_x.Store.Triples.{Ends}
use xrp_inteliggence_x.Store.PartitionLaws.{IsRegistered, write_partition-Triple}
use xrp_inteliggence_x.Store.Checkpoints.{write_partition-KeepsCheckpoints}

abbrev pub instant_of : DateTime → ℕ
instant_of (naive t) = t
instant_of (aware t) = t

abbrev pub checkpoint_of : Str → Bool → DateTime → CheckpointRow
checkpoint_of cursor completed updated = record {
  cursor_json = cursor;
  completed = completed;
  updated_at = instant_of updated;
}

-- What `save_checkpoint` does on each branch.
abbrev pub Saves : Str → CheckpointRow → Store → Store × Result (Unit {0}) → Type 0
Saves job row s (t, raise e) = t.checkpoints ≡ s.checkpoints
Saves job row s (t, ok u) = lookup job t.checkpoints ≡ some row

upsert_checkpoint-Saves :
    (job : Str) (row : CheckpointRow) (s : Store) → Saves job row s (upsert_checkpoint job row s)
unfolding upsert_checkpoint
upsert_checkpoint-Saves job row s = elim (Option-cases (lookup job s.checkpoints)) [
  | inl fresh ↦
      rw (upsert_checkpoint, fresh) (lookup-insert _ _ row s.checkpoints ∙ rw same_refl refl)
  | inr (old, found) ↦ elim (Bool-cases (old.completed && not row.completed)) [
    | inl reopens ↦ rw (upsert_checkpoint, found, reopens) refl
    | inr goes_on ↦
        rw (upsert_checkpoint, found, goes_on)
          (lookup-insert _ _ row s.checkpoints ∙ rw same_refl refl)
  ]
]

pub save_checkpoint-Saves :
    (job cursor : Str) (completed : Bool) (updated : DateTime) (s : Store)
    → Saves job
        (checkpoint_of cursor completed updated)
        s
        (save_checkpoint job cursor completed updated s)
unfolding save_checkpoint ◌>>=◌ utc
save_checkpoint-Saves job cursor completed (naive t) s = elim (Bool-cases (is_nil (strip job))) [
  | inl blank ↦ rw (save_checkpoint, blank) refl
  | inr named ↦ rw (save_checkpoint, named) refl
]
save_checkpoint-Saves job cursor completed (aware t) s = elim (Bool-cases (is_nil (strip job))) [
  | inl blank ↦ rw (save_checkpoint, blank) refl
  | inr named ↦
      rw (save_checkpoint, named)
        (upsert_checkpoint-Saves job (checkpoint_of cursor completed (aware t)) s)
]

IsRegistered-mono :
    (sha256 : Str → Str) (p : DurablePartition) (s t : Store)
    → Extends s t
    → IsRegistered sha256 p s
    → IsRegistered sha256 p t
IsRegistered-mono sha256 p s t e r = record {
  row = r.row;
  found = kept (e.partitions p.partition_id) r.found;
  path = r.path;
  digest = r.digest;
  size = r.size;
  payload = r.payload;
  stored = kept (e.files p.relative_path) r.stored;
  hashed = r.hashed;
}

-- An outcome in which the checkpoint of the job is what it was, if the call raised, or else `row`, with
-- the partition registered.
abbrev pub IsOrdered :
    (Str → Str) → Str → CheckpointRow → Store → Store × Result DurablePartition → Type 0
IsOrdered sha256 job row s (t, raise e) = lookup job t.checkpoints ≡ lookup job s.checkpoints
IsOrdered sha256 job row s (t, ok p) =
    IsRegistered sha256 p t × (lookup job t.checkpoints ≡ some row)

saved-IsOrdered :
    (sha256 : Str → Str) (job : Str) (row : CheckpointRow) (s t : Store) (p : DurablePartition)
    (save : Action (Unit {0}))
    → t.checkpoints ≡ s.checkpoints
    → IsRegistered sha256 p t
    → Extends t (save t).0
    → Saves job row t (save t)
    → IsOrdered sha256 job row s ((save >> return p) t)
unfolding ◌>>=◌
saved-IsOrdered sha256 job row s t p save same_checkpoints r e w = go (save t) e w
  where
    go :
        (o : Store × Result (Unit {0}))
        → Extends t o.0
        → Saves job row t o
        → IsOrdered sha256 job row s (continue o (λ u. return p))
    go (u, raise x) e w = ap (lookup job) (w ∙ same_checkpoints)
    go (u, ok x) e w = (IsRegistered-mono sha256 p t u e r, w)

-- In a durable store, persist_partition_then_checkpoint leaves the checkpoint as it was if it raises,
-- wherever that happens; when it returns, the partition is registered with a file of its digest, and
-- the checkpoint is the new one.
pub persist_partition_then_checkpoint-IsOrdered :
    (sha256 : Str → Str) (receipt_json : FetchReceipt → Str)
    (observation_json : HistoricalObservation → Str)
    (canonical_sha256 : HistoricalObservation → Str) (dataset key : Str)
    (os : List HistoricalObservation) (job cursor : Str) (completed : Bool) (updated : DateTime)
    (s : Store)
    → IsDurable sha256 s
    → IsOrdered sha256 job (checkpoint_of cursor completed updated) s (
        persist_partition_then_checkpoint sha256 receipt_json observation_json canonical_sha256
          dataset key os job cursor completed updated s)
unfolding persist_partition_then_checkpoint ◌>>=◌
persist_partition_then_checkpoint-IsOrdered sha256 receipt_json observation_json canonical_sha256
      dataset key os job cursor completed updated s d =
    go (write_partition sha256 receipt_json observation_json canonical_sha256 dataset key os s)
      (write_partition-KeepsCheckpoints sha256 receipt_json observation_json canonical_sha256
        dataset key os s)
      (write_partition-Triple sha256 receipt_json observation_json canonical_sha256 dataset key os s
        d tt)
  where
    go :
        (r : Store × Result DurablePartition)
        → r.0.checkpoints ≡ s.checkpoints
        → Ends sha256 (IsRegistered sha256) r
        → IsOrdered sha256 job
            (checkpoint_of cursor completed updated)
            s
            (continue r (λ p. save_checkpoint job cursor completed updated >> return p))
    go (t, raise e) k w = ap (lookup job) k
    go (t, ok p) k w =
        saved-IsOrdered sha256 job (checkpoint_of cursor completed updated) s t p
          (save_checkpoint job cursor completed updated) k w.1
          (save_checkpoint-Grows job cursor completed updated t)
          (save_checkpoint-Saves job cursor completed updated t)
