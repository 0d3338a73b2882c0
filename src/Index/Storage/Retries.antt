-- ===== src/Index/Storage/Retries.antt =====
-- The retry loops of a rename and of the write lock, on every outcome of the attempts.
use markdown_vdb.Base.{
  ℕ, zero, suc, ◌+◌, ◌-◌, ◌≤◌, ◌<◌, false, List, [], ◌∷◌, Option, none, some, Text, length, take,
  ltb, ◌≡◌, refl, arith, inl, inr, ◌⊎◌, if◌then◌else◌, ◌==◌, lt→ltb, Bool-cases, Option-cases,
}
use markdown_vdb.Base.Result.{Result, ok, err}
use markdown_vdb.Index.{Error, index_busy, io_error}
use markdown_vdb.Index.Storage.{
  rename_backoff_ms, rename_loop, rename_with_retry, TryLock, locked, would_block, lock_error,
  lock_loop, acquire_write_lock,
}

-- Attempts from `m` up to `n` that failed.
abbrev pub Failed : (ℕ → Option ℕ) → ℕ → ℕ → Type 0
Failed op m n = (k : ℕ) → m ≤ k → k < n → (e : ℕ) × (op k ≡ some e)

abbrev pub Blocked : (ℕ → TryLock) → ℕ → ℕ → Type 0
Blocked try_lock m n = (k : ℕ) → m ≤ k → k < n → try_lock k ≡ would_block

-- How the loop ends from an attempt on.
abbrev pub RenamesFrom :
    Text → (ℕ → Option ℕ) → ℕ → List ℕ → Result Error (Unit {0}) × List ℕ → Type 0
RenamesFrom dest op attempt backoff out =
    ((n : ℕ) × (attempt ≤ n)
      × (n < 5)
      × Failed op attempt n
      × (op n ≡ none)
      × (out.0 ≡ ok tt)
      × (out.1 ≡ take (n - attempt) backoff))
    ⊎ (Failed op attempt 5 × (out.0 ≡ err (index_busy dest)) × (out.1 ≡ take (4 - attempt) backoff))

Failed-suc : (op : ℕ → Option ℕ) (m n e : ℕ) → op m ≡ some e → Failed op (m + 1) n → Failed op m n
Failed-suc op m n e now later k low high = elim (Bool-cases (m == k)) [
  | inl same ↦ let same_k : m ≡ k = ground arith in (e, rw (← same_k) now)
  | inr other ↦ later k (ground arith) high
]

take-suc :
    (n m ms : ℕ) (backoff : List ℕ)
    → m < n
    → ms ∷ take (n - (m + 1)) backoff ≡ take (n - m) (ms ∷ backoff)
take-suc n m ms backoff h = let e : n - m ≡ suc (n - (m + 1)) = omega arith in rw e refl

rename_loop-RenamesFrom :
    (dest : Text) (op : ℕ → Option ℕ) (attempt : ℕ) (backoff : List ℕ)
    → attempt + length backoff ≡ 5
    → RenamesFrom dest op attempt backoff (rename_loop dest op attempt backoff)
unfolding rename_loop
rename_loop-RenamesFrom dest op attempt [] h =
    let last : 4 - attempt ≡ 0 = omega arith in
    inr (λ k a b. absurd (omega arith), refl, rw last refl)
rename_loop-RenamesFrom dest op attempt (ms ∷ backoff) h = elim (Option-cases (op attempt)) [
  | inl renamed ↦
      let none_slept : attempt - attempt ≡ 0 = omega arith in
      rw (renamed, rename_loop)
        (inl (
          attempt,
          omega arith,
          omega arith,
          λ k a b. absurd (omega arith),
          renamed,
          refl,
          rw none_slept refl,
        ))
  | inr (e, failed) ↦
      rw (failed, rename_loop)
        (elim (rename_loop-RenamesFrom dest op (attempt + 1) backoff (omega arith)) [
          | inl (n, low, high, before, renamed, result, slept) ↦ inl (
            n,
            omega arith,
            high,
            Failed-suc op attempt n e failed before,
            renamed,
            result,
            rw (lt→ltb (attempt + 1) 5 (omega arith), slept)
                (take-suc n attempt ms backoff (omega arith)),
          )
          | inr (all, result, slept) ↦ inr (
            Failed-suc op attempt 5 e failed all,
            result,
            elim (Bool-cases (ltb (attempt + 1) 5)) [
              | inl more ↦ rw (more, slept) (take-suc 4 attempt ms backoff (ground arith))
              | inr last ↦ last_sleep attempt ms backoff (ground arith) h last slept
            ],
          )
        ])
]
  where
    last_sleep :
        (attempt ms : ℕ) (backoff : List ℕ)
        → 4 ≤ attempt
        → attempt + length (ms ∷ backoff) ≡ 5
        → ltb (attempt + 1) 5 ≡ false
        → (rename_loop dest op (attempt + 1) backoff).1 ≡ take (4 - (attempt + 1)) backoff
        → (if ltb (attempt + 1) 5
            then ms ∷ (rename_loop dest op (attempt + 1) backoff).1
            else (rename_loop dest op (attempt + 1) backoff).1)
          ≡ take (4 - attempt) (ms ∷ backoff)
    last_sleep attempt ms backoff low total last slept =
        let now : 4 - attempt ≡ 0 = omega arith in
        let later : 4 - (attempt + 1) ≡ 0 = omega arith in rw (last, slept, now, later) refl

-- The rename is tried at most five times and stops at the first attempt that succeeds; before each
-- further attempt it has slept for the next of the times of the schedule, and not after the last.
-- If all five fail, the index is busy.
pub rename_with_retry-RenamesFrom :
    (dest : Text) (op : ℕ → Option ℕ)
    → RenamesFrom dest op 0 rename_backoff_ms (rename_with_retry dest op)
unfolding rename_with_retry
rename_with_retry-RenamesFrom dest op = rename_loop-RenamesFrom dest op 0 rename_backoff_ms refl

-- How an attempt ends that is neither a wait nor a success.
abbrev pub LocksFrom : Text → (ℕ → TryLock) → ℕ → Result Error (Unit {0}) × ℕ → Type 0
LocksFrom path try_lock attempt out =
    ((n : ℕ) × (attempt ≤ n)
      × (n < 10)
      × Blocked try_lock attempt n
      × (out.1 ≡ n - attempt)
      × (((try_lock n ≡ locked) × (out.0 ≡ ok tt))
          ⊎ ((e : ℕ) × (try_lock n ≡ lock_error e) × (out.0 ≡ err (io_error e)))))
    ⊎ (Blocked try_lock attempt 10 × (out.0 ≡ err (index_busy path)) × (out.1 ≡ 9 - attempt))

TryLock-cases : (t : TryLock) → (t ≡ would_block) ⊎ ((t ≡ locked) ⊎ ((e : ℕ) × (t ≡ lock_error e)))
TryLock-cases locked = inr (inl refl)
TryLock-cases would_block = inl refl
TryLock-cases (lock_error e) = inr (inr (e, refl))

Blocked-suc :
    (try_lock : ℕ → TryLock) (m n : ℕ)
    → try_lock m ≡ would_block
    → Blocked try_lock (m + 1) n
    → Blocked try_lock m n
Blocked-suc try_lock m n now later k low high = elim (Bool-cases (m == k)) [
  | inl same ↦ let same_k : m ≡ k = ground arith in rw (← same_k) now
  | inr other ↦ later k (ground arith) high
]

lock_loop-LocksFrom :
    (path : Text) (try_lock : ℕ → TryLock) (attempt left : ℕ)
    → attempt + left ≡ 10
    → LocksFrom path try_lock attempt (lock_loop path try_lock attempt left)
unfolding lock_loop
lock_loop-LocksFrom path try_lock attempt zero h =
    inr (λ k a b. absurd (omega arith), refl, omega arith)
lock_loop-LocksFrom path try_lock attempt (suc left) h = elim (TryLock-cases (try_lock attempt)) [
  | inr (inl free) ↦
      rw (free, lock_loop)
        (inl (
          attempt,
          omega arith,
          omega arith,
          λ k a b. absurd (omega arith),
          omega arith,
          inl (free, refl),
        ))
  | inr (inr (e, failed)) ↦
      rw (failed, lock_loop)
        (inl (
          attempt,
          omega arith,
          omega arith,
          λ k a b. absurd (omega arith),
          omega arith,
          inr (e, failed, refl),
        ))
  | inl blocked ↦
      rw (blocked, lock_loop)
        (elim (lock_loop-LocksFrom path try_lock (attempt + 1) left (omega arith)) [
          | inl (n, low, high, before, slept, result) ↦ inl (
            n,
            omega arith,
            high,
            Blocked-suc try_lock attempt n blocked before,
            ground (arith, slept, low, high),
            result,
          )
          | inr (all, result, slept) ↦
              inr (Blocked-suc try_lock attempt 10 blocked all, result, ground (arith, slept, h))
        ])
]

-- The write lock is tried at most ten times and the loop stops at the first attempt that is not
-- blocked, with the lock or with the error of that attempt; it has then slept once for each
-- attempt before. If all ten are blocked, the index is busy, after nine sleeps.
pub acquire_write_lock-LocksFrom :
    (path : Text) (try_lock : ℕ → TryLock)
    → LocksFrom path try_lock 0 (acquire_write_lock path none try_lock)
unfolding acquire_write_lock
acquire_write_lock-LocksFrom path try_lock = lock_loop-LocksFrom path try_lock 0 10 refl
