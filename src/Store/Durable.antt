-- ===== src/Store/Durable.antt =====
-- What the tables refer to is there: a blob's file, a receipt's blob and an observation's receipt.
use xrp_inteliggence_x.Base.{
  List, All, All-map, ◌≡◌, refl, sym, subst, Option, none, some, Dict, lookup, insert,
  lookup-insert, length, same, same_eq, list_order, nat_order, Bool-cases, inl, inr, Str, arith,
}
use xrp_inteliggence_x.Store.Model.{
  DurablePartition, Member, BlobRow, ReceiptRow, ObservationRow, CheckpointRow, Store, empty,
}
use xrp_inteliggence_x.Store.Extends.{
  IsKept, observations-Extends, files-Extends, raw_blobs-Extends, fetch_receipts-Extends,
}

-- The file of a blob has the content that its row says.
abbrev pub BlobIsStored : (Str → Str) → Dict Str Str → Str → Option BlobRow → Type 0
BlobIsStored sha256 files digest none = Unit
BlobIsStored sha256 files digest (some row) =
    (payload : Str) × (lookup row.relative_path files ≡ some payload)
    × (sha256 payload ≡ digest)
    × (length payload ≡ row.byte_count)

abbrev pub ReceiptIsBacked : Dict Str BlobRow → Option ReceiptRow → Type 0
ReceiptIsBacked blobs none = Unit
ReceiptIsBacked blobs (some r) = (row : BlobRow) × (lookup r.payload_sha256 blobs ≡ some row)

-- The receipt of an observation agrees with it on payload, source, provider and time.
abbrev pub ObservationIsBacked : Dict Str ReceiptRow → Str → Option ObservationRow → Type 0
ObservationIsBacked receipts id none = Unit
ObservationIsBacked receipts id (some o) =
    (r : ReceiptRow) × (lookup o.columns.fetch_id receipts ≡ some r)
    × (r.payload_sha256 ≡ o.columns.payload_sha256)
    × (r.source_id ≡ o.columns.source_id)
    × (r.provider ≡ o.columns.provider)
    × (r.fetched_at ≡ o.columns.fetched_at)
    × (o.columns.observation_id ≡ id)

-- The file of a partition has the digest that its row says.
abbrev pub PartitionIsStored : (Str → Str) → Dict Str Str → Option DurablePartition → Type 0
PartitionIsStored sha256 files none = Unit
PartitionIsStored sha256 files (some p) =
    (payload : Str) × (lookup p.relative_path files ≡ some payload)
    × (sha256 payload ≡ p.file_sha256)

-- The observations of the members are there.
abbrev pub AreSaved : Dict Str ObservationRow → List Member → Type 0
AreSaved observations ms =
    All (λ m. (o : ObservationRow) × (lookup m.observation_id observations ≡ some o)) ms

pub record IsDurable (sha256 : Str → Str) (s : Store) : Type 0 where
  pub blobs : (digest : Str) → BlobIsStored sha256 s.files digest (lookup digest s.raw_blobs)
  pub receipts : (id : Str) → ReceiptIsBacked s.raw_blobs (lookup id s.fetch_receipts)
  pub observed : (id : Str) → ObservationIsBacked s.fetch_receipts id (lookup id s.observations)
  pub partitions : (id : Str) → PartitionIsStored sha256 s.files (lookup id s.partitions)
  pub members : AreSaved s.observations s.partition_members

pub empty-IsDurable : (sha256 : Str → Str) → IsDurable sha256 empty
unfolding lookup
empty-IsDurable sha256 = record {
  blobs = λ d. tt;
  receipts = λ i. tt;
  observed = λ i. tt;
  partitions = λ i. tt;
  members = tt;
}

pub kept : {A : Type 0} {o p : Option A} {a : A} → IsKept o p → o ≡ some a → p ≡ some a
kept {A} {o} {p} {a} k e = subst (λ x. IsKept x p) e k

BlobIsStored-mono :
    (sha256 : Str → Str) (d e : Dict Str Str) (digest : Str) (o : Option BlobRow)
    → ((k : Str) → IsKept (lookup k d) (lookup k e))
    → BlobIsStored sha256 d digest o
    → BlobIsStored sha256 e digest o
BlobIsStored-mono sha256 d e digest none k h = tt
BlobIsStored-mono sha256 d e digest (some row) k (payload, found, hash, size) =
    (payload, kept (k row.relative_path) found, hash, size)

ReceiptIsBacked-mono :
    (d e : Dict Str BlobRow) (o : Option ReceiptRow)
    → ((k : Str) → IsKept (lookup k d) (lookup k e))
    → ReceiptIsBacked d o
    → ReceiptIsBacked e o
ReceiptIsBacked-mono d e none k h = tt
ReceiptIsBacked-mono d e (some r) k (row, found) = (row, kept (k r.payload_sha256) found)

ObservationIsBacked-mono :
    (d e : Dict Str ReceiptRow) (id : Str) (o : Option ObservationRow)
    → ((k : Str) → IsKept (lookup k d) (lookup k e))
    → ObservationIsBacked d id o
    → ObservationIsBacked e id o
ObservationIsBacked-mono d e id none k h = tt
ObservationIsBacked-mono d e id (some o) k (r, found, a, b, c, e', own) =
    (r, kept (k o.columns.fetch_id) found, a, b, c, e', own)

PartitionIsStored-mono :
    (sha256 : Str → Str) (d e : Dict Str Str) (o : Option DurablePartition)
    → ((k : Str) → IsKept (lookup k d) (lookup k e))
    → PartitionIsStored sha256 d o
    → PartitionIsStored sha256 e o
PartitionIsStored-mono sha256 d e none k h = tt
PartitionIsStored-mono sha256 d e (some p) k (payload, found, hash) =
    (payload, kept (k p.relative_path) found, hash)

AreSaved-mono :
    (d e : Dict Str ObservationRow) (ms : List Member)
    → ((k : Str) → IsKept (lookup k d) (lookup k e))
    → AreSaved d ms
    → AreSaved e ms
AreSaved-mono d e ms k h = All-map _ _ ms (λ m (o, found). (o, kept (k m.observation_id) found)) h

-- A property of the rows holds after an insertion if the new row has it.
insert-each :
    {V : Type 0} (P : Str → Option V → Type 0) (i : Str) (v : V) (d : Dict Str V)
    → P i (some v)
    → ((k : Str) → P k (lookup k d))
    → (k : Str) → P k (lookup k (insert i v d))
insert-each {V} P i v d new old k = elim (Bool-cases (same k i)) [
  | inl e ↦
      let now : lookup k (insert i v d) ≡ some v = ground (arith, lookup-insert i k v d) in
      subst (P k) (sym now) (subst (λ j. P j (some v)) (sym (same_eq k i e)) new)
  | inr e ↦
      let before : lookup k (insert i v d) ≡ lookup k d = ground (arith, lookup-insert i k v d) in
      subst (P k) (sym before) (old k)
]

module _ (sha256 : Str → Str) (s : Store) (h : IsDurable sha256 s) where
  pub files-IsDurable :
      (path payload : Str)
      → lookup path s.files ≡ none
      → IsDurable sha256 (record s { files = insert path payload s.files })
  files-IsDurable path payload fresh = record {
    blobs = λ d.
        BlobIsStored-mono sha256 s.files _ d _ (files-Extends s path payload fresh).files
          (h.blobs d);
    receipts = h.receipts;
    observed = h.observed;
    partitions = λ i.
        PartitionIsStored-mono sha256 s.files _ _ (files-Extends s path payload fresh).files
          (h.partitions i);
    members = h.members;
  }

  pub raw_blobs-IsDurable :
      (digest payload path : Str)
      → lookup digest s.raw_blobs ≡ none
      → lookup path s.files ≡ some payload
      → sha256 payload ≡ digest
      → IsDurable sha256 (record s {
        raw_blobs =
            insert digest
              (record { byte_count = length payload; relative_path = path })
              s.raw_blobs;
      })
  raw_blobs-IsDurable digest payload path fresh found hashes = record {
    blobs =
        insert-each (BlobIsStored sha256 s.files) digest _ s.raw_blobs
          (payload, found, hashes, refl) h.blobs;
    receipts = λ i.
        ReceiptIsBacked-mono s.raw_blobs _ _ (raw_blobs-Extends s digest _ fresh).raw_blobs
          (h.receipts i);
    observed = h.observed;
    partitions = h.partitions;
    members = h.members;
  }

  pub fetch_receipts-IsDurable :
      (id : Str) (r : ReceiptRow) (row : BlobRow)
      → lookup id s.fetch_receipts ≡ none
      → lookup r.payload_sha256 s.raw_blobs ≡ some row
      → IsDurable sha256 (record s { fetch_receipts = insert id r s.fetch_receipts })
  fetch_receipts-IsDurable id r row fresh found = record {
    blobs = h.blobs;
    receipts =
        insert-each (λ k o. ReceiptIsBacked s.raw_blobs o) id r s.fetch_receipts (row, found)
          h.receipts;
    observed = λ i.
        ObservationIsBacked-mono s.fetch_receipts _ i _
          (fetch_receipts-Extends s id r fresh).fetch_receipts (h.observed i);
    partitions = h.partitions;
    members = h.members;
  }

  pub observations-IsDurable :
      (id : Str) (o : ObservationRow)
      → lookup id s.observations ≡ none
      → ObservationIsBacked s.fetch_receipts id (some o)
      → IsDurable sha256 (record s { observations = insert id o s.observations })
  observations-IsDurable id o fresh backed = record {
    blobs = h.blobs;
    receipts = h.receipts;
    observed =
        insert-each (ObservationIsBacked s.fetch_receipts) id o s.observations backed h.observed;
    partitions = h.partitions;
    members =
        AreSaved-mono s.observations _ s.partition_members
          (observations-Extends s id o fresh).observations h.members;
  }

  pub checkpoints-IsDurable :
      (job : Str) (row : CheckpointRow)
      → IsDurable sha256 (record s { checkpoints = insert job row s.checkpoints })
  checkpoints-IsDurable job row = record {
    blobs = h.blobs;
    receipts = h.receipts;
    observed = h.observed;
    partitions = h.partitions;
    members = h.members;
  }

  pub partitions-IsDurable :
      (p : DurablePartition) (payload : Str) (ms : List Member)
      → lookup p.relative_path s.files ≡ some payload
      → sha256 payload ≡ p.file_sha256
      → AreSaved s.observations ms
      → IsDurable sha256
          (record s { partitions = insert p.partition_id p s.partitions; partition_members = ms })
  partitions-IsDurable p payload ms found hashes saved = record {
    blobs = h.blobs;
    receipts = h.receipts;
    observed = h.observed;
    partitions =
        insert-each (λ k o. PartitionIsStored sha256 s.files o) p.partition_id p s.partitions
          (payload, found, hashes) h.partitions;
    members = saved;
  }

  pub members-IsDurable :
      (ms : List Member)
      → AreSaved s.observations ms
      → IsDurable sha256 (record s { partition_members = ms })
  members-IsDurable ms saved = record {
    blobs = h.blobs;
    receipts = h.receipts;
    observed = h.observed;
    partitions = h.partitions;
    members = saved;
  }
