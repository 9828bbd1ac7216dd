-- ===== src/PendingFuture/ModeCount/Records.antt =====
-- EACH_FUTURE_RECORD of src/pending_future/mode_count.rs: for each type of future, the last ten runs
-- of futures of that type and their mean share of the processor.
pub mod Window
pub mod Race
use rs_run.Base.{
  ℕ, List, [], ◌∷◌, ◌++◌, map, foldl, Option, none, some, length, drop, lookup, insert, ltb,
  if◌then◌else◌,
}
use rs_run.Host.{Float}

pub record OneFutureRecord : Type 0 where
  pub total_micro : ℕ  -- u64
  pub cpu_micro : ℕ  -- u64

-- `push_back`, and `pop_front` beyond ten.
unfoldable pub push_bounded : OneFutureRecord → List OneFutureRecord → List OneFutureRecord
push_bounded v records =
    let longer = records ++ v ∷ [] in if ltb 10 (length longer) then drop 1 longer else longer

module _ (f : Float) where
  open f use {F64}

  -- The AtomicF64 and the VecDeque, its front first.
  pub record Entry : Type 0 where
    pub rate : F64
    pub records : List OneFutureRecord

  abbrev pub Registry : Type 0
  Registry = List (ℕ × Entry)

  unfoldable pub share : OneFutureRecord → F64
  share v = f.div (f.of_ℕ v.cpu_micro) (f.of_ℕ v.total_micro)

  unfoldable pub mean : List OneFutureRecord → F64
  unfolding share
  mean records = f.div (foldl f.add f.zero (map share records)) (f.of_ℕ (length records))

  -- The two ends of a run: under the read lock, when the type has an entry, and under the write lock.
  unfoldable pub update_entry : ℕ → OneFutureRecord → Entry → Registry → Registry
  update_entry type_id v entry registry =
      let records = push_bounded v entry.records in
      insert type_id (record { rate = mean records; records = records }) registry

  unfoldable pub insert_entry : ℕ → OneFutureRecord → Registry → Registry
  insert_entry type_id v registry =
      insert type_id (record { rate = share v; records = v ∷ [] }) registry

  unfoldable pub finish : ℕ → OneFutureRecord → Registry → Registry
  unfolding update_entry insert_entry
  finish type_id v registry = elim (lookup type_id registry) [
    | some entry ↦ update_entry type_id v entry registry
    | none ↦ insert_entry type_id v registry
  ]
