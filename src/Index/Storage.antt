-- ===== src/Index/Storage.antt =====
-- src/index/storage.rs: the file of an index, and the retry loops of `save`. Bytes are numbers, and
-- `usize` has 64 bits. What rkyv, zstd, usearch and the file system do are arguments.
pub mod Bytes
pub mod RoundTrip
pub mod Loaded
pub mod Retries
use package.markdown_vdb.Base.{
  ℕ, zero, suc, ◌+◌, ◌*◌, ◌-◌, ◌/◌, ◌%◌, Bool, true, false, ◌&&◌, ◌||◌, not, List, [], ◌∷◌, ◌++◌,
  Option, none, some, Text, text_eq, length, take, drop, ltb, ◌==◌, if◌then◌else◌,
}
use package.markdown_vdb.Base.Strings.{codes, decimal}
use package.markdown_vdb.Base.Result.{Result, ok, err}
use package.markdown_vdb.Index.{
  Error, serialization, index_corrupted, index_not_found, index_busy, version_mismatch, io_error,
  panicked, Outside, IndexMetadata,
}

abbrev pub Bytes : Type 0
Bytes = List ℕ

pub data VectorQuantization : Type 0 where
  f16 f32 : VectorQuantization

pub record WriteOptions : Type 0 where
  pub quantization : VectorQuantization
  pub compress_metadata : Bool

-- The formats of the two regions: rkyv, zstd, and usearch, with `options` what an index was
-- created with.
pub record Formats (o : Outside) : Type 0 where
  pub to_bytes : IndexMetadata o → Result Text Bytes
  pub from_bytes : Bytes → Option (IndexMetadata o)
  pub compress : Bytes → Result Text Bytes
  pub decompress : Bytes → ℕ → Result Text Bytes
  pub options : o.Hnsw → ℕ × VectorQuantization
  pub new_index : ℕ → VectorQuantization → Result Text o.Hnsw
  pub serialized_length : o.Hnsw → ℕ
  pub save_to_buffer : o.Hnsw → ℕ → Result Text Bytes
  pub load_from_buffer : Bytes → o.Hnsw → Result Text o.Hnsw

-- The file of the index, as a reader finds it.
pub data Disk : Type 0 where
  missing : Disk
  unreadable : ℕ → Disk
  holds : Bytes → Disk

-- `MAGIC`, and the fixed numbers of the header.
abbrev magic : Bytes
magic = codes "MDVDB" ++ 0 ∷ []

abbrev pub version : ℕ
version = 1

abbrev pub header_size : ℕ
header_size = 64

-- `usize::MAX + 1`, and `u32::MAX + 1`.
abbrev pub two64 : ℕ
two64 = 18446744073709551616

abbrev pub two32 : ℕ
two32 = 4294967296

-- `to_le_bytes` of a number with this many bytes, and `from_le_bytes`.
unfoldable pub to_le_bytes : ℕ → ℕ → Bytes
to_le_bytes zero x = []
to_le_bytes (suc n) x = x % 256 ∷ to_le_bytes n (x / 256)

unfoldable pub from_le_bytes : Bytes → ℕ
from_le_bytes [] = 0
from_le_bytes (b ∷ bs) = b + 256 * from_le_bytes bs

-- `header[at..at + bytes.len()].copy_from_slice(bytes)`.
abbrev pub copy_at : ℕ → Bytes → Bytes → Bytes
copy_at at bytes header = take at header ++ (bytes ++ drop (at + length bytes) header)

abbrev zeros : ℕ → Bytes
zeros zero = []
zeros (suc n) = 0 ∷ zeros n

abbrev pub quantization_byte : VectorQuantization → ℕ
quantization_byte f32 = 0
quantization_byte f16 = 1

abbrev pub compression_byte : Bool → ℕ
compression_byte true = 1
compression_byte false = 0

-- The header of a file whose regions have these sizes.
pub header : WriteOptions → ℕ → ℕ → ℕ → Bytes
unfolding to_le_bytes
header options uncompressed meta_size hnsw_size = copy_at 44 (to_le_bytes 4 uncompressed) (
    copy_at 43 (compression_byte options.compress_metadata ∷ []) (
      copy_at 42 (quantization_byte options.quantization ∷ []) (
        copy_at 34 (to_le_bytes 8 hnsw_size) (
          copy_at 26 (to_le_bytes 8 (header_size + meta_size)) (
            copy_at 18 (to_le_bytes 8 meta_size) (
              copy_at 10 (to_le_bytes 8 header_size)
                (copy_at 6 (to_le_bytes 4 version) (copy_at 0 magic (zeros header_size)))))))))

abbrev pub field : ℕ → ℕ → Bytes → ℕ
field from size bytes = from_le_bytes (take size (drop from bytes))

-- `&bytes[from..to]`.
pub slice : ℕ → ℕ → Bytes → Result Error Bytes
slice from to bytes =
    if ltb to from || ltb (length bytes) to
    then err panicked
    else ok (take (to - from) (drop from bytes))

-- A read of the bytes before `to`, which panics where there are fewer.
unfoldable pub reading : {A : Type 0} → ℕ → Bytes → Result Error A → Result Error A
reading to bytes rest = if ltb (length bytes) to then err panicked else rest

abbrev pub scalar_kind : ℕ → Result Error VectorQuantization
scalar_kind byte =
    if byte == 0
    then ok f32
    else if byte == 1
    then ok f16
    else err (index_corrupted (codes "unknown quantization type: " ++ decimal byte))

-- `RENAME_BACKOFF_MS`.
abbrev pub rename_backoff_ms : List ℕ
rename_backoff_ms = 50 ∷ 100 ∷ 200 ∷ 400 ∷ 800 ∷ []

-- The loop of `rename_with_retry`: `op` gives the error of an attempt, if it fails. The second
-- result is the time slept after each attempt that is followed by another.
unfoldable pub rename_loop : Text → (ℕ → Option ℕ) → ℕ → List ℕ → Result Error (Unit {0}) × List ℕ
rename_loop dest op attempt [] = (err (index_busy dest), [])
rename_loop dest op attempt (ms ∷ backoff) =
    let rest = rename_loop dest op (attempt + 1) backoff in
    let slept = if ltb (attempt + 1) (length rename_backoff_ms) then ms ∷ rest.1 else rest.1 in
    elim (op attempt) [ none ↦ (ok tt, []) | some e ↦ (rest.0, slept) ]

unfoldable pub rename_with_retry : Text → (ℕ → Option ℕ) → Result Error (Unit {0}) × List ℕ
unfolding rename_loop
rename_with_retry dest op = rename_loop dest op 0 rename_backoff_ms

-- What `try_lock` gives.
pub data TryLock : Type 0 where
  locked would_block : TryLock
  lock_error : ℕ → TryLock

-- The loop of `acquire_write_lock`, for so many attempts; the second result counts the sleeps.
unfoldable pub lock_loop : Text → (ℕ → TryLock) → ℕ → ℕ → Result Error (Unit {0}) × ℕ
lock_loop path try_lock attempt zero = (err (index_busy path), 0)
lock_loop path try_lock attempt (suc left) =
    let rest = lock_loop path try_lock (attempt + 1) left in
    let slept = if ltb (attempt + 1) 10 then suc rest.1 else rest.1 in
    elim (try_lock attempt) [
      | locked ↦ (ok tt, 0)
      | would_block ↦ (rest.0, slept)
      | lock_error e ↦ (err (io_error e), 0)
    ]

-- `open_lock` is the error of opening the lock file, if there is one.
unfoldable pub acquire_write_lock : Text → Option ℕ → (ℕ → TryLock) → Result Error (Unit {0}) × ℕ
unfolding lock_loop
acquire_write_lock path open_lock try_lock = elim open_lock [
  | some e ↦ (err (io_error e), 0)
  | none ↦ lock_loop path try_lock 0 10
]

module _ (o : Outside) (formats : Formats o) where
  -- The metadata region, with the size before compression.
  unfoldable pub metadata_region : WriteOptions → IndexMetadata o → Result Error (Bytes × ℕ)
  metadata_region options metadata = elim (formats.to_bytes metadata) [
    | err e ↦ err (serialization e)
    | ok raw ↦
        let compressed : Result Error (Bytes × ℕ) = elim (formats.compress raw) [
          | err e ↦ err (serialization (codes "zstd compress: " ++ e))
          | ok meta ↦ ok (meta, length raw % two32)
        ] in
        if options.compress_metadata then compressed else ok (raw, length raw % two32)
  ]

  -- The bytes of the file.
  pub file_bytes : WriteOptions → IndexMetadata o → o.Hnsw → Result Error Bytes
  unfolding metadata_region header
  file_bytes options metadata hnsw = elim (metadata_region options metadata) [
    | err e ↦ err e
    | ok (meta, uncompressed) ↦
        elim (formats.save_to_buffer hnsw (formats.serialized_length hnsw)) [
          | err e ↦ err (serialization (codes "usearch save_to_buffer: " ++ e))
          | ok graph ↦
              ok (header options uncompressed (length meta) (length graph) ++ (meta ++ graph))
        ]
  ]

  -- `temp_file` is the error of creating, writing and syncing the temporary file, if there is one,
  -- and `persist` that of an attempt to rename it.
  unfoldable pub write_index :
      Text
      → WriteOptions
      → IndexMetadata o
      → o.Hnsw
      → Option ℕ
      → (ℕ → Option ℕ)
      → Disk
      → Result Error (Unit {0}) × Disk
  unfolding file_bytes rename_with_retry
  write_index path options metadata hnsw temp_file persist disk =
      elim (file_bytes options metadata hnsw) [
        | err e ↦ (err e, disk)
        | ok bytes ↦ elim temp_file [
          | some e ↦ (err (io_error e), disk)
          | none ↦ elim (rename_with_retry path persist).0 [
            | err e ↦ (err e, disk)
            | ok done ↦ (ok tt, holds bytes)
          ]
        ]
      ]

  -- The metadata region as it was before compression; bit 0 of the flags says whether it is
  -- compressed.
  pub decompressed : Bytes → ℕ → ℕ → Result Error Bytes
  decompressed raw flags uncompressed =
      let unpacked : Result Error Bytes = elim (formats.decompress raw uncompressed) [
        | err e ↦ err (serialization (codes "zstd decompress: " ++ e))
        | ok meta ↦ ok meta
      ] in
      if flags % 2 == 1 then unpacked else ok raw

  -- The vector index of a region.
  pub load_hnsw : ℕ → VectorQuantization → Bytes → Result Error o.Hnsw
  load_hnsw dimensions kind graph = elim (formats.new_index dimensions kind) [
    | err e ↦ err (serialization (codes "usearch create: " ++ e))
    | ok h ↦ elim (formats.load_from_buffer graph h) [
      | err e ↦ err (serialization (codes "usearch load: " ++ e))
      | ok g ↦ ok g
    ]
  ]

  -- From the reading of the extension fields on.
  pub load_regions : Bytes → Result Error (IndexMetadata o × o.Hnsw)
  unfolding from_le_bytes slice reading decompressed load_hnsw
  load_regions mmap =
      let meta_offset = field 10 8 mmap in
      let hnsw_offset = field 26 8 mmap in
      let loaded : Result Error (IndexMetadata o × o.Hnsw) = elim (scalar_kind (field 42 1 mmap)) [
        | err e ↦ err e
        | ok kind ↦ elim (slice meta_offset ((meta_offset + field 18 8 mmap) % two64) mmap) [
          | err e ↦ err e
          | ok raw ↦ elim (decompressed raw (field 43 1 mmap) (field 44 4 mmap)) [
            | err e ↦ err e
            | ok meta ↦ elim (formats.from_bytes meta) [
              | none ↦ err (
                  index_corrupted (
                    codes
                      "index format is incompatible or corrupted — run an unscoped `mdvdb ingest` to rebuild it (never delete `.markdownvdb/config.yaml`)"))
              | some metadata ↦
                  elim (slice hnsw_offset ((hnsw_offset + field 34 8 mmap) % two64) mmap) [
                    | err e ↦ err e
                    | ok graph ↦ elim (load_hnsw metadata.embedding_config.dimensions kind graph) [
                      | err e ↦ err e
                      | ok hnsw ↦ ok (metadata, hnsw)
                    ]
                  ]
            ]
          ]
        ]
      ] in
      reading 48 mmap loaded

  -- The checks before: `usize` wraps in the sums of the offsets.
  pub load_mapped : Bytes → Result Error (IndexMetadata o × o.Hnsw)
  unfolding load_regions reading from_le_bytes text_eq
  load_mapped mmap =
      let found = field 6 4 mmap in
      let offsets : Result Error (IndexMetadata o × o.Hnsw) =
        if ltb (length mmap) ((field 10 8 mmap + field 18 8 mmap) % two64)
          || ltb (length mmap) ((field 26 8 mmap + field 34 8 mmap) % two64)
        then err (index_corrupted (codes "truncated file"))
        else load_regions mmap in
      let versioned : Result Error (IndexMetadata o × o.Hnsw) =
        if ltb found version
        then err (version_mismatch found)
        else if not (found == version)
        then err (index_corrupted (codes "unsupported version: " ++ decimal found))
        else reading 42 mmap offsets in
      let started : Result Error (IndexMetadata o × o.Hnsw) =
        if not (text_eq (take 6 mmap) magic)
        then err (index_corrupted (codes "invalid magic bytes"))
        else reading 10 mmap versioned in
      if ltb (length mmap) header_size
      then err (index_corrupted (codes "file too small for header"))
      else reading 6 mmap started

  unfoldable pub load_index : Text → Disk → Result Error (IndexMetadata o × o.Hnsw)
  unfolding load_mapped
  load_index path missing = err (index_not_found path)
  load_index path (unreadable e) = err (io_error e)
  load_index path (holds mmap) = load_mapped mmap
