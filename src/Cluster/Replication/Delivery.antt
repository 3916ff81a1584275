-- ===== src/Cluster/Replication/Delivery.antt =====
-- What a replica holds after mutations were delivered late, twice, out of order or not at all.
use fyro_db.Prelude.{
  ℕ, zero, suc, ◌+◌, ◌-◌, ◌≤◌, ◌<◌, ◌≡◌, refl, sym, ap, ◌∙◌, inl, inr, max, true, false, List, [],
  ◌∷◌, arith, leb, ◌==◌, Bool-cases, length, All,
}
use fyro_db.Prelude.Checked.{good, bad}
use fyro_db.Cluster.Replication.{MutationRecord, u64_max, next_u64, ReplicaApplier, apply_record}
use fyro_db.Cluster.Replication.Log.{IsRun}

abbrev pub Replica {ℓ} : Type ℓ → Type ℓ
Replica S = ReplicaApplier × S

-- A record delivered to a replica: the caller of `try_apply` goes on with the old state where it
-- refuses.
unfoldable pub deliver {ℓ} :
    {S : Type ℓ} → (MutationRecord → S → S) → MutationRecord → Replica S → Replica S
unfolding apply_record
deliver apply r replica = elim (apply_record apply r replica) [
  | bad reason ↦ replica
  | good (changed, replica) ↦ replica
]

unfoldable pub deliver_all {ℓ} :
    {S : Type ℓ} → (MutationRecord → S → S) → List MutationRecord → Replica S → Replica S
unfolding deliver
deliver_all apply [] replica = replica
deliver_all apply (r ∷ records) replica = deliver_all apply records (deliver apply r replica)

-- The record that the history has at the record's offset.
abbrev pub Belongs : (ℕ → MutationRecord) → MutationRecord → Type 0
Belongs history r = (r ≡ history r.offset) × (r.offset ≤ u64_max)

module _ {ℓ} {S : Type ℓ} (apply : MutationRecord → S → S) where
  deliver_old :
      (r : MutationRecord) (applier : ReplicaApplier) (store : S)
      → r.offset ≤ applier.applied_offset
      → deliver apply r (applier, store) ≡ (applier, store)
  unfolding deliver
  deliver_old r applier store h =
      let old : leb r.offset applier.applied_offset ≡ true = ground arith in rw (old, deliver) refl

  deliver_next :
      (r : MutationRecord) (applier : ReplicaApplier) (store : S)
      → r.offset ≡ suc applier.applied_offset
      → r.offset ≤ u64_max
      → deliver apply r (applier, store) ≡ (record { applied_offset = r.offset }, apply r store)
  unfolding deliver
  deliver_next r applier store e h =
      let new : leb r.offset applier.applied_offset ≡ false = ground arith in
      let next : (r.offset == next_u64 applier.applied_offset) ≡ true = ground arith in
      rw (new, next, deliver) refl

  deliver_gap :
      (r : MutationRecord) (applier : ReplicaApplier) (store : S)
      → suc applier.applied_offset < r.offset
      → deliver apply r (applier, store) ≡ (applier, store)
  unfolding deliver
  deliver_gap r applier store h =
      let new : leb r.offset applier.applied_offset ≡ false = ground arith in
      let gap : (r.offset == next_u64 applier.applied_offset) ≡ false = ground arith in
      rw (new, gap, deliver) refl

  -- The store after the first `n` mutations of a history, each applied once and in order.
  unfoldable pub replayed : S → (ℕ → MutationRecord) → ℕ → S
  replayed empty history zero = empty
  replayed empty history (suc n) = apply (history (suc n)) (replayed empty history n)

  abbrev pub IsPrefix : S → (ℕ → MutationRecord) → Replica S → Type ℓ
  IsPrefix empty history replica = replica.1 ≡ replayed empty history replica.0.applied_offset

  pub deliver-IsPrefix :
      (empty : S) (history : ℕ → MutationRecord) (r : MutationRecord) (replica : Replica S)
      → Belongs history r
      → IsPrefix empty history replica
      → IsPrefix empty history (deliver apply r replica)
        × (replica.0.applied_offset ≤ (deliver apply r replica).0.applied_offset)
  unfolding replayed
  deliver-IsPrefix empty history r (applier, store) (e, few) h =
      elim (Bool-cases (leb r.offset applier.applied_offset)) [
        | inl old ↦ rw (deliver_old r applier store (ground arith)) (h, omega arith)
        | inr new ↦ elim (Bool-cases (r.offset == suc applier.applied_offset)) [
          | inl next ↦
              let at : r.offset ≡ suc applier.applied_offset = ground arith in
              let same : r ≡ history (suc applier.applied_offset) = e ∙ ap history at in
              let reaches : apply r store ≡ replayed empty history r.offset =
                ap (λ r. apply r store) same
                ∙ ap (apply (history (suc applier.applied_offset))) h
                ∙ ap (replayed empty history) (sym at) in
              rw (deliver_next r applier store at few) (reaches, omega arith)
          | inr gap ↦ rw (deliver_gap r applier store (ground arith)) (h, omega arith)
        ]
      ]

  -- Whatever records of the history reach a replica, in whatever order, with repetitions and with
  -- records missing, its store is the history's first mutations up to the applied offset, each
  -- applied once and in order; and that offset never falls.
  pub deliver_all-IsPrefix :
      (empty : S) (history : ℕ → MutationRecord) (records : List MutationRecord)
      (replica : Replica S)
      → All (Belongs history) records
      → IsPrefix empty history replica
      → IsPrefix empty history (deliver_all apply records replica)
        × (replica.0.applied_offset ≤ (deliver_all apply records replica).0.applied_offset)
  unfolding deliver_all
  deliver_all-IsPrefix empty history [] replica belong h = (h, omega arith)
  deliver_all-IsPrefix empty history (r ∷ records) replica (hr, belong) h =
      let once = deliver-IsPrefix empty history r replica hr h in
      let rest =
        deliver_all-IsPrefix empty history records (deliver apply r replica) belong once.0 in
      (rest.0, omega (arith, once.1, rest.1))

  -- A run of records that starts no later than the next one a replica needs brings the replica to
  -- the end of the run.
  pub deliver_all-IsRun :
      (from : ℕ) (records : List MutationRecord) (replica : Replica S)
      → IsRun from records
      → from ≤ suc replica.0.applied_offset
      → from + length records ≤ suc u64_max
      → (deliver_all apply records replica).0.applied_offset
        ≡ max replica.0.applied_offset (from + length records - 1)
  unfolding deliver_all
  deliver_all-IsRun from [] (applier, store) run soon few = omega arith
  deliver_all-IsRun from (r ∷ records) (applier, store) (hr, run) soon few =
      elim (Bool-cases (leb from applier.applied_offset)) [
        | inl old ↦
            ap (λ s. (deliver_all apply records s).0.applied_offset)
              (deliver_old r applier store (ground arith))
            ∙ deliver_all-IsRun (suc from) records (applier, store) run (ground arith) (omega arith)
            ∙ ground arith
        | inr new ↦
            ap (λ s. (deliver_all apply records s).0.applied_offset)
              (deliver_next r applier store (ground arith) (ground arith))
            ∙ deliver_all-IsRun (suc from) records
                (record { applied_offset = r.offset }, apply r store) run (omega arith)
                (omega arith)
            ∙ ground arith
      ]
