-- ===== src/Store/Extends.antt =====
-- The store only grows: no method changes or drops a file or a row, nor reopens a completed job.
use xrp_inteliggence_x.Base.{
  List, ◌≡◌, refl, ◌∙◌, sym, ap, subst, Bool, true, false, not, ◌&&◌, Option, none, some, Dict,
  lookup, insert, lookup-insert, same, same_eq, list_order, nat_order, Bool-cases, inl, inr, Str,
  Error, Result, ok, raise, arith,
}
use xrp_inteliggence_x.Store.Model.{
  DurablePartition, Member, ManifestRow, BlobRow, ReceiptRow, ObservationRow, CheckpointRow, Store,
  Action, ◌>>=◌, continue, fail_if,
}

-- What is there stays as it is.
abbrev pub IsKept : {A : Type 0} → Option A → Option A → Type 0
IsKept none later = Unit
IsKept (some a) later = later ≡ some a

abbrev pub is_done : Option CheckpointRow → Bool
is_done none = false
is_done (some c) = c.completed

pub record Extends (s t : Store) : Type 0 where
  pub files : (path : Str) → IsKept (lookup path s.files) (lookup path t.files)
  pub raw_blobs : (digest : Str) → IsKept (lookup digest s.raw_blobs) (lookup digest t.raw_blobs)
  pub fetch_receipts : (id : Str) → IsKept (lookup id s.fetch_receipts) (lookup id t.fetch_receipts)
  pub observations : (id : Str) → IsKept (lookup id s.observations) (lookup id t.observations)
  pub partitions : (id : Str) → IsKept (lookup id s.partitions) (lookup id t.partitions)
  pub manifests : (id : Str) → IsKept (lookup id s.manifests) (lookup id t.manifests)
  pub done :
      (job : Str)
      → is_done (lookup job s.checkpoints) && not (is_done (lookup job t.checkpoints)) ≡ false

pub IsKept-refl : {A : Type 0} (o : Option A) → IsKept o o
IsKept-refl none = tt
IsKept-refl (some a) = refl

pub IsKept-trans : {A : Type 0} (o p q : Option A) → IsKept o p → IsKept p q → IsKept o q
IsKept-trans none p q h k = tt
IsKept-trans (some a) p q h k = subst (λ x. IsKept x q) h k

done_refl : (b : Bool) → b && not b ≡ false
done_refl true = refl
done_refl false = refl

pub Extends-refl : (s : Store) → Extends s s
Extends-refl s = record {
  files = λ k. IsKept-refl _;
  raw_blobs = λ k. IsKept-refl _;
  fetch_receipts = λ k. IsKept-refl _;
  observations = λ k. IsKept-refl _;
  partitions = λ k. IsKept-refl _;
  manifests = λ k. IsKept-refl _;
  done = λ k. done_refl _;
}

pub Extends-trans : (s t u : Store) → Extends s t → Extends t u → Extends s u
Extends-trans s t u e f = record {
  files = λ k. IsKept-trans _ (lookup k t.files) _ (e.files k) (f.files k);
  raw_blobs = λ k. IsKept-trans _ (lookup k t.raw_blobs) _ (e.raw_blobs k) (f.raw_blobs k);
  fetch_receipts =
      λ k. IsKept-trans _ (lookup k t.fetch_receipts) _ (e.fetch_receipts k) (f.fetch_receipts k);
  observations =
      λ k. IsKept-trans _ (lookup k t.observations) _ (e.observations k) (f.observations k);
  partitions = λ k. IsKept-trans _ (lookup k t.partitions) _ (e.partitions k) (f.partitions k);
  manifests = λ k. IsKept-trans _ (lookup k t.manifests) _ (e.manifests k) (f.manifests k);
  done = λ k.
      done_trans (is_done (lookup k s.checkpoints)) (is_done (lookup k t.checkpoints))
        (is_done (lookup k u.checkpoints)) (e.done k) (f.done k);
}
  where
    done_trans : (a b c : Bool) → a && not b ≡ false → b && not c ≡ false → a && not c ≡ false
    done_trans a b c h k = ground arith

-- A row under a new key leaves the others.
pub insert-IsKept :
    {V : Type 0} (i : Str) (v : V) (d : Dict Str V)
    → lookup i d ≡ none
    → (k : Str) → IsKept (lookup k d) (lookup k (insert i v d))
insert-IsKept i v d fresh k = elim (Bool-cases (same k i)) [
  | inl e ↦
      let absent : lookup k d ≡ none = ap (λ j. lookup j d) (same_eq k i e) ∙ fresh in
      subst (λ o. IsKept o (lookup k (insert i v d))) (sym absent) tt
  | inr e ↦
      let kept : lookup k (insert i v d) ≡ lookup k d = ground (arith, lookup-insert i k v d) in
      rw kept (IsKept-refl (lookup k d))
]

-- A call on every store.
abbrev pub Grows : {A : Type 0} → Action A → Type 0
Grows call = (s : Store) → Extends s (call s).0

pub >>=-Grows :
    {A B : Type 0} (call : Action A) (next : A → Action B)
    → Grows call
    → ((a : A) → Grows (next a))
    → Grows (call >>= next)
unfolding ◌>>=◌
>>=-Grows {A} {B} call next g h s = go (call s) (g s)
  where
    go : (r : Store × Result A) → Extends s r.0 → Extends s (continue r next).0
    go (t, raise e) x = x
    go (t, ok a) x = Extends-trans s t (next a t).0 x (h a t)

pub fail_if-Grows : (b : Bool) (e : Error) → Grows (fail_if b e)
fail_if-Grows true e s = Extends-refl s
fail_if-Grows false e s = Extends-refl s

-- The write of one table.
pub files-Extends :
    (s : Store) (path payload : Str)
    → lookup path s.files ≡ none
    → Extends s (record s { files = insert path payload s.files })
files-Extends s path payload fresh = record {
  files = insert-IsKept path payload s.files fresh;
  raw_blobs = λ k. IsKept-refl _;
  fetch_receipts = λ k. IsKept-refl _;
  observations = λ k. IsKept-refl _;
  partitions = λ k. IsKept-refl _;
  manifests = λ k. IsKept-refl _;
  done = λ k. done_refl _;
}

pub raw_blobs-Extends :
    (s : Store) (digest : Str) (row : BlobRow)
    → lookup digest s.raw_blobs ≡ none
    → Extends s (record s { raw_blobs = insert digest row s.raw_blobs })
raw_blobs-Extends s digest row fresh = record {
  files = λ k. IsKept-refl _;
  raw_blobs = insert-IsKept digest row s.raw_blobs fresh;
  fetch_receipts = λ k. IsKept-refl _;
  observations = λ k. IsKept-refl _;
  partitions = λ k. IsKept-refl _;
  manifests = λ k. IsKept-refl _;
  done = λ k. done_refl _;
}

pub fetch_receipts-Extends :
    (s : Store) (id : Str) (row : ReceiptRow)
    → lookup id s.fetch_receipts ≡ none
    → Extends s (record s { fetch_receipts = insert id row s.fetch_receipts })
fetch_receipts-Extends s id row fresh = record {
  files = λ k. IsKept-refl _;
  raw_blobs = λ k. IsKept-refl _;
  fetch_receipts = insert-IsKept id row s.fetch_receipts fresh;
  observations = λ k. IsKept-refl _;
  partitions = λ k. IsKept-refl _;
  manifests = λ k. IsKept-refl _;
  done = λ k. done_refl _;
}

pub observations-Extends :
    (s : Store) (id : Str) (row : ObservationRow)
    → lookup id s.observations ≡ none
    → Extends s (record s { observations = insert id row s.observations })
observations-Extends s id row fresh = record {
  files = λ k. IsKept-refl _;
  raw_blobs = λ k. IsKept-refl _;
  fetch_receipts = λ k. IsKept-refl _;
  observations = insert-IsKept id row s.observations fresh;
  partitions = λ k. IsKept-refl _;
  manifests = λ k. IsKept-refl _;
  done = λ k. done_refl _;
}

pub checkpoints-Extends :
    (s : Store) (job : Str) (row : CheckpointRow)
    → is_done (lookup job s.checkpoints) && not row.completed ≡ false
    → Extends s (record s { checkpoints = insert job row s.checkpoints })
checkpoints-Extends s job row still = record {
  files = λ k. IsKept-refl _;
  raw_blobs = λ k. IsKept-refl _;
  fetch_receipts = λ k. IsKept-refl _;
  observations = λ k. IsKept-refl _;
  partitions = λ k. IsKept-refl _;
  manifests = λ k. IsKept-refl _;
  done = λ k. elim (Bool-cases (same k job)) [
    | inl e ↦
        let now : lookup k (insert job row s.checkpoints) ≡ some row =
          ground (arith, lookup-insert job k row s.checkpoints) in
        let key = same_eq k job e in rw (now, key) still
    | inr e ↦
        let kept : lookup k (insert job row s.checkpoints) ≡ lookup k s.checkpoints =
          ground (arith, lookup-insert job k row s.checkpoints) in
        rw kept (done_refl (is_done (lookup k s.checkpoints)))
  ];
}

pub partitions-Extends :
    (s : Store) (p : DurablePartition) (ms : List Member)
    → lookup p.partition_id s.partitions ≡ none
    → Extends s
        (record s { partitions = insert p.partition_id p s.partitions; partition_members = ms })
partitions-Extends s p ms fresh = record {
  files = λ k. IsKept-refl _;
  raw_blobs = λ k. IsKept-refl _;
  fetch_receipts = λ k. IsKept-refl _;
  observations = λ k. IsKept-refl _;
  partitions = insert-IsKept p.partition_id p s.partitions fresh;
  manifests = λ k. IsKept-refl _;
  done = λ k. done_refl _;
}

pub members-Extends :
    (s : Store) (ms : List Member) → Extends s (record s { partition_members = ms })
members-Extends s ms = record {
  files = λ k. IsKept-refl _;
  raw_blobs = λ k. IsKept-refl _;
  fetch_receipts = λ k. IsKept-refl _;
  observations = λ k. IsKept-refl _;
  partitions = λ k. IsKept-refl _;
  manifests = λ k. IsKept-refl _;
  done = λ k. done_refl _;
}

pub manifests-Extends :
    (s : Store) (id : Str) (row : ManifestRow)
    → lookup id s.manifests ≡ none
    → Extends s (record s { manifests = insert id row s.manifests })
manifests-Extends s id row fresh = record {
  files = λ k. IsKept-refl _;
  raw_blobs = λ k. IsKept-refl _;
  fetch_receipts = λ k. IsKept-refl _;
  observations = λ k. IsKept-refl _;
  partitions = λ k. IsKept-refl _;
  manifests = insert-IsKept id row s.manifests fresh;
  done = λ k. done_refl _;
}
