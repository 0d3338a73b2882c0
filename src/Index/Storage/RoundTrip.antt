-- ===== src/Index/Storage/RoundTrip.antt =====
-- A written index is loaded again, and a failed write leaves the file as it was.
use markdown_vdb.Base.{
  ℕ, ◌+◌, ◌%◌, ◌≤◌, ◌<◌, true, false, [], ◌++◌, Option, some, Text, text_eq, length, take, ltb, ◌≡◌,
  refl, sym, ◌∙◌, ap, arith, inl, inr, ◌⊎◌, Bool-cases, Option-cases, le→ltb, append-nil,
  append_assoc, length-append,
}
use markdown_vdb.Base.Result.{Result, ok, err, Result-cases}
use markdown_vdb.Index.{Error, io_error, Outside, IndexMetadata}
use markdown_vdb.Index.Storage.{
  Bytes, Formats, Disk, to_le_bytes, from_le_bytes, field, slice, header, reading, two64, two32,
  version, magic, header_size, scalar_kind, metadata_region, file_bytes, write_index,
  rename_with_retry, decompressed, load_hnsw, load_regions, load_mapped, load_index,
  VectorQuantization, f16, f32, WriteOptions, quantization_byte, compression_byte,
}
use markdown_vdb.Index.Storage.Loaded.{header_read}
use markdown_vdb.Index.Storage.Bytes.{from_le_bytes-to_le_bytes, slice-region}

-- What the formats promise: what was serialized or compressed is read back.
pub record FormatLaws (o : Outside) (formats : Formats o) : Type 0 where
  pub from_to :
      (m : IndexMetadata o) (b : Bytes) → formats.to_bytes m ≡ ok b → formats.from_bytes b ≡ some m
  pub decompress_compress :
      (b c : Bytes) (n : ℕ)
      → formats.compress b ≡ ok c
      → length b ≤ n
      → formats.decompress c n ≡ ok b
  pub load_saved :
      (d : ℕ) (q : VectorQuantization) (h g : o.Hnsw) (b : Bytes)
      → formats.options h ≡ (d, q)
      → formats.new_index d q ≡ ok g
      → formats.save_to_buffer h (formats.serialized_length h) ≡ ok b
      → formats.load_from_buffer b g ≡ ok h

-- The fields of the header of a file, whatever follows it.
record HasFields (options : WriteOptions) (n m k : ℕ) (file : Bytes) : Type 0 where
  starts : text_eq (take 6 file) magic ≡ true
  version_field : field 6 4 file ≡ version
  meta_offset : field 10 8 file ≡ header_size
  meta_size : field 18 8 file ≡ m
  hnsw_offset : field 26 8 file ≡ header_size + m
  hnsw_size : field 34 8 file ≡ k
  quantization_field : field 42 1 file ≡ quantization_byte options.quantization
  compression_field : field 43 1 file ≡ compression_byte options.compress_metadata
  uncompressed_size : field 44 4 file ≡ n

header-HasFields :
    (options : WriteOptions) (n m k : ℕ) (rest : Bytes)
    → n < two32
    → header_size + m + k < two64
    → HasFields options n m k (header options n m k ++ rest)
unfolding header from_le_bytes to_le_bytes text_eq
header-HasFields options n m k rest small fits = record {
  starts = refl;
  version_field = refl;
  meta_offset = refl;
  meta_size = from_le_bytes-to_le_bytes 8 m (omega arith);
  hnsw_offset = from_le_bytes-to_le_bytes 8 (header_size + m) (omega arith);
  hnsw_size = from_le_bytes-to_le_bytes 8 k (omega arith);
  quantization_field = omega arith;
  compression_field = omega arith;
  uncompressed_size = from_le_bytes-to_le_bytes 4 n (omega arith);
}

length-header : (options : WriteOptions) (n m k : ℕ) → length (header options n m k) ≡ 64
unfolding header to_le_bytes
length-header options n m k = refl

scalar_kind-quantization_byte : (q : VectorQuantization) → scalar_kind (quantization_byte q) ≡ ok q
scalar_kind-quantization_byte f16 = refl
scalar_kind-quantization_byte f32 = refl

written_pair :
    (a b : Bytes) (n m : ℕ)
    → ◌≡◌ {A = Result Error (Bytes × ℕ)} (ok (a, n)) (ok (b, m))
    → (a ≡ b) × (n ≡ m)
written_pair a b n m q = (cc q, cc q)

module _ (o : Outside) (formats : Formats o) (laws : FormatLaws o formats) (options : WriteOptions)
    (metadata : IndexMetadata o) (hnsw : o.Hnsw) where
  -- The archive and the file fit the widths of the header's fields, and the vector index is one of
  -- the kind that the metadata and the options say.
  pub record Fits : Type 0 where
    pub archive : (b : Bytes) → formats.to_bytes metadata ≡ ok b → length b < two32
    pub file :
        (meta graph : Bytes) (n : ℕ)
        → metadata_region o formats options metadata ≡ ok (meta, n)
        → formats.save_to_buffer hnsw (formats.serialized_length hnsw) ≡ ok graph
        → header_size + length meta + length graph < two64
    pub kind : formats.options hnsw ≡ (metadata.embedding_config.dimensions, options.quantization)
    pub creates :
        (g : o.Hnsw) × (formats.new_index metadata.embedding_config.dimensions options.quantization
          ≡ ok g)

  -- The metadata region is unpacked to an archive of the metadata.
  unpacked :
      (fits : Fits) (meta : Bytes) (n : ℕ)
      → metadata_region o formats options metadata ≡ ok (meta, n)
      → (n < two32)
        × (raw : Bytes) × (decompressed o formats meta
              (compression_byte options.compress_metadata)
              n
            ≡ ok raw)
        × (formats.from_bytes raw ≡ some metadata)
  unfolding metadata_region decompressed
  unpacked fits meta n region = elim (Result-cases (formats.to_bytes metadata)) [
    | inr (e, failed) ↦ absurd (cc (rw (failed, metadata_region) at region))
    | inl (raw, archived) ↦
        let small : length raw % two32 ≡ length raw = omega (arith, fits.archive raw archived) in
        let read = laws.from_to metadata raw archived in
        elim (Bool-cases options.compress_metadata) [
          | inr plain ↦
              let q = rw (archived, plain, small, metadata_region) at region in
              let (same, size) = written_pair raw meta (length raw) n q in
              (
                omega (arith, fits.archive raw archived),
                raw,
                rw (plain, decompressed, ← same) refl,
                read,
              )
          | inl packed ↦ elim (Result-cases (formats.compress raw)) [
            | inr (e, failed) ↦
                absurd (cc (rw (archived, packed, failed, metadata_region) at region))
            | inl (c, compressed) ↦
                let q = rw (archived, packed, compressed, small, metadata_region) at region in
                let (same, size) = written_pair c meta (length raw) n q in
                let unpacks = laws.decompress_compress raw c n compressed (omega arith) in
                (
                  omega (arith, fits.archive raw archived),
                  raw,
                  rw (packed, decompressed, ← same, unpacks) refl,
                  read,
                )
          ]
        ]
  ]

  loaded_hnsw :
      (fits : Fits) (graph : Bytes)
      → formats.save_to_buffer hnsw (formats.serialized_length hnsw) ≡ ok graph
      → load_hnsw o formats metadata.embedding_config.dimensions options.quantization graph
        ≡ ok hnsw
  unfolding load_hnsw
  loaded_hnsw fits graph saved =
      let (g, made) = fits.creates in
      let loads =
        laws.load_saved metadata.embedding_config.dimensions options.quantization hnsw g graph
          fits.kind made saved in
      rw (made, loads, load_hnsw) refl

  module _ (fits : Fits) (meta graph : Bytes) (n : ℕ)
      (region : metadata_region o formats options metadata ≡ ok (meta, n))
      (saved : formats.save_to_buffer hnsw (formats.serialized_length hnsw) ≡ ok graph) where
    abbrev head : Bytes
    head = header options n (length meta) (length graph)

    abbrev file : Bytes
    file = head ++ (meta ++ graph)

    fields : HasFields options n (length meta) (length graph) file
    fields =
        header-HasFields options n (length meta) (length graph) (meta ++ graph)
          (unpacked fits meta n region).0 (fits.file meta graph n region saved)

    sizes : length file ≡ header_size + (length meta + length graph)
    sizes =
        length-append head (meta ++ graph)
        ∙ ap (λ k. k + length (meta ++ graph))
            (length-header options n (length meta) (length graph))
        ∙ ap (λ k. header_size + k) (length-append meta graph)

    first_region : slice header_size ((header_size + length meta) % two64) file ≡ ok meta
    first_region =
        let small = fits.file meta graph n region saved in
        slice-region head meta graph header_size ((header_size + length meta) % two64)
          (sym (length-header options n (length meta) (length graph))) (omega arith)

    second_region :
        slice (header_size + length meta) ((header_size + length meta + length graph) % two64) file
        ≡ ok graph
    second_region =
        let small = fits.file meta graph n region saved in
        let before = head ++ meta in
        let total : header_size + length meta ≡ length before =
          ap (λ k. k + length meta) (sym (length-header options n (length meta) (length graph)))
          ∙ sym (length-append head meta) in
        let whole : file ≡ before ++ (graph ++ []) =
          sym (append_assoc head meta graph) ∙ ap (λ g. before ++ g) (sym (append-nil graph)) in
        rw whole (
          slice-region before graph [] (header_size + length meta)
            ((header_size + length meta + length graph) % two64) total (omega arith))

    regions : load_regions o formats file ≡ ok (metadata, hnsw)
    unfolding load_regions reading
    regions =
        let (small, raw, unpacks, reads) = unpacked fits meta n region in
        let long : header_size ≤ length file = omega (arith, sizes) in
        rw
          (
            header_read file 48 long (omega arith),
            fields.quantization_field,
            scalar_kind-quantization_byte options.quantization,
            fields.meta_offset,
            fields.meta_size,
            first_region,
            fields.compression_field,
            fields.uncompressed_size,
            unpacks,
            reads,
            fields.hnsw_offset,
            fields.hnsw_size,
            second_region,
            loaded_hnsw fits graph saved,
            load_regions,
          )
          refl

    mapped : load_mapped o formats file ≡ ok (metadata, hnsw)
    unfolding load_mapped reading
    mapped =
        let small = fits.file meta graph n region saved in
        let long : header_size ≤ length file = omega (arith, sizes) in
        let meta_in : ltb (length file) ((header_size + length meta) % two64) ≡ false =
          le→ltb (length file) ((header_size + length meta) % two64) (omega (arith, sizes)) in
        let graph_in : ltb (length file) ((header_size + length meta + length graph) % two64)
            ≡ false =
          le→ltb (length file) ((header_size + length meta + length graph) % two64)
            (omega (arith, sizes)) in
        rw
          (
            header_read file 64 long (omega arith),
            header_read file 6 long (omega arith),
            fields.starts,
            header_read file 10 long (omega arith),
            fields.version_field,
            header_read file 42 long (omega arith),
            fields.meta_offset,
            fields.meta_size,
            fields.hnsw_offset,
            fields.hnsw_size,
            meta_in,
            graph_in,
            load_mapped,
          )
          regions

  -- The new file is there and is loaded as what was written, or the old one is.
  abbrev pub Replaced : Text → Disk → Result Error (Unit {0}) × Disk → Type 0
  Replaced path disk out =
      ((out.0 ≡ ok tt) × (load_index o formats path out.1 ≡ ok (metadata, hnsw)))
      ⊎ ((e : Error) × (out.0 ≡ err e) × (out.1 ≡ disk))

  written_bytes :
      (fits : Fits) (bytes : Bytes)
      → file_bytes o formats options metadata hnsw ≡ ok bytes
      → load_mapped o formats bytes ≡ ok (metadata, hnsw)
  unfolding file_bytes
  written_bytes fits bytes made = elim (Result-cases (metadata_region o formats options metadata)) [
    | inr (e, failed) ↦ absurd (cc (rw (failed, file_bytes) at made))
    | inl ((meta, n), region) ↦
        elim (Result-cases (formats.save_to_buffer hnsw (formats.serialized_length hnsw))) [
          | inr (e, failed) ↦ absurd (cc (rw (region, failed, file_bytes) at made))
          | inl (graph, saved) ↦
              let q = rw (region, saved, file_bytes) at made in
              let same : file fits meta graph n region saved ≡ bytes = cc q in
              rw (← same) (mapped fits meta graph n region saved)
        ]
  ]

  -- Writing an index is atomic, and what it writes can be read: if it succeeds, then loading the
  -- file gives the metadata and the vector index that were written; if it fails, at whichever step,
  -- then the file is as it was before. The archive of the metadata must be smaller than 2^32 bytes
  -- and the file smaller than 2^64, the vector index must be of the dimension in the metadata and
  -- of the quantization in the options, and one of that kind can be created; the formats read back
  -- what they wrote.
  pub write_index-Replaced :
      (fits : Fits) (path : Text) (temp_file : Option ℕ) (persist : ℕ → Option ℕ) (disk : Disk)
      → Replaced path disk (write_index o formats path options metadata hnsw temp_file persist disk)
  unfolding write_index load_index
  write_index-Replaced fits path temp_file persist disk =
      elim (Result-cases (file_bytes o formats options metadata hnsw)) [
        | inr (e, failed) ↦ rw (failed, write_index) (inr (e, refl, refl))
        | inl (bytes, made) ↦ elim (Option-cases temp_file) [
          | inr (e, failed) ↦ rw (made, failed, write_index) (inr (io_error e, refl, refl))
          | inl stored ↦ elim (Result-cases (rename_with_retry path persist).0) [
            | inr (e, failed) ↦ rw (made, stored, failed, write_index) (inr (e, refl, refl))
            | inl (done, renamed) ↦
                rw (made, stored, renamed, write_index) (inl (refl, written_bytes fits bytes made))
          ]
        ]
      ]
