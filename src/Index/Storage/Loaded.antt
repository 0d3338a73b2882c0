-- ===== src/Index/Storage/Loaded.antt =====
-- Loading a file of any content, where the sums of its header do not wrap.
use markdown_vdb.Base.{
  ℕ, ◌+◌, ◌-◌, ◌%◌, ◌≤◌, ◌<◌, false, text_eq, length, take, drop, ltb, ◌==◌, ◌≡◌, ◌≢◌, refl, arith,
  inl, inr, Bool-cases, Option-cases, le→ltb, ltb→le,
}
use markdown_vdb.Base.Result.{Result, ok, err, Result-cases}
use markdown_vdb.Index.{Error, panicked, Outside}
use markdown_vdb.Index.Storage.{
  Bytes, Formats, field, slice, two64, version, magic, header_size, scalar_kind, decompressed,
  load_hnsw, load_regions, load_mapped, reading, VectorQuantization,
}

-- No panic: a value, or an error that the program reports.
abbrev pub Returns : {A : Type 0} → Result Error A → Type 0
Returns r = r ≢ err panicked

slice_ok :
    (from to : ℕ) (bytes : Bytes)
    → from ≤ to
    → to ≤ length bytes
    → slice from to bytes ≡ ok (take (to - from) (drop from bytes))
unfolding slice
slice_ok from to bytes h k = rw (le→ltb to from h, le→ltb (length bytes) to k) refl

scalar_kind-Returns : (byte : ℕ) → Returns (scalar_kind byte)
scalar_kind-Returns byte p = elim (Bool-cases (byte == 0)) [
  | inl zero_byte ↦ absurd (cc (rw zero_byte at p))
  | inr other ↦ elim (Bool-cases (byte == 1)) [
    | inl one ↦ absurd (cc (rw (other, one) at p))
    | inr unknown ↦ absurd (cc (rw (other, unknown) at p))
  ]
]

-- A file of the length of the header has all bytes of it.
pub header_read :
    (mmap : Bytes) (to : ℕ) → header_size ≤ length mmap → to ≤ 64 → ltb (length mmap) to ≡ false
header_read mmap to h k = le→ltb (length mmap) to (omega arith)

module _ (o : Outside) (formats : Formats o) where
  decompressed-Returns : (raw : Bytes) (flags n : ℕ) → Returns (decompressed o formats raw flags n)
  unfolding decompressed
  decompressed-Returns raw flags n p = elim (Bool-cases (flags % 2 == 1)) [
    | inr plain ↦ absurd (cc (rw (plain, decompressed) at p))
    | inl packed ↦ elim (Result-cases (formats.decompress raw n)) [
      | inl (b, fine) ↦ absurd (cc (rw (packed, fine, decompressed) at p))
      | inr (e, failed) ↦ absurd (cc (rw (packed, failed, decompressed) at p))
    ]
  ]

  load_hnsw-Returns :
      (dims : ℕ) (kind : VectorQuantization) (graph : Bytes)
      → Returns (load_hnsw o formats dims kind graph)
  unfolding load_hnsw
  load_hnsw-Returns dims kind graph p = elim (Result-cases (formats.new_index dims kind)) [
    | inr (e, failed) ↦ absurd (cc (rw (failed, load_hnsw) at p))
    | inl (h, made) ↦ elim (Result-cases (formats.load_from_buffer graph h)) [
      | inr (e, failed) ↦ absurd (cc (rw (made, failed, load_hnsw) at p))
      | inl (g, loaded) ↦ absurd (cc (rw (made, loaded, load_hnsw) at p))
    ]
  ]

  -- The header and both regions of a file lie in it, and the ends that its header gives do not wrap.
  pub record HasRegions (mmap : Bytes) : Type 0 where
    pub has_header : header_size ≤ length mmap
    pub meta_in : field 10 8 mmap + field 18 8 mmap ≤ length mmap
    pub hnsw_in : field 26 8 mmap + field 34 8 mmap ≤ length mmap
    pub meta_fits : field 10 8 mmap + field 18 8 mmap < two64
    pub hnsw_fits : field 26 8 mmap + field 34 8 mmap < two64

  region_ok :
      (from size : ℕ) (mmap : Bytes)
      → from + size ≤ length mmap
      → from + size < two64
      → (b : Bytes) × (slice from ((from + size) % two64) mmap ≡ ok b)
  region_ok from size mmap inside fits =
      let e : (from + size) % two64 ≡ from + size = omega arith in
      rw e (_, slice_ok from (from + size) mmap (omega arith) inside)

  load_regions-Returns : (mmap : Bytes) → HasRegions mmap → Returns (load_regions o formats mmap)
  unfolding load_regions reading
  load_regions-Returns mmap h p =
      let r48 = header_read mmap 48 h.has_header (omega arith) in
      let (raw, meta) = region_ok (field 10 8 mmap) (field 18 8 mmap) mmap h.meta_in h.meta_fits in
      let (graph, vectors) =
        region_ok (field 26 8 mmap) (field 34 8 mmap) mmap h.hnsw_in h.hnsw_fits in
      elim (Result-cases (scalar_kind (field 42 1 mmap))) [
        | inr (e, unknown) ↦
            let q = rw (r48, unknown, load_regions) at p in
            scalar_kind-Returns (field 42 1 mmap) (cc (unknown, q))
        | inl (kind, known) ↦
            elim (Result-cases (decompressed o formats raw (field 43 1 mmap) (field 44 4 mmap))) [
              | inr (e, failed) ↦
                  let q = rw (r48, known, meta, failed, load_regions) at p in
                  decompressed-Returns raw (field 43 1 mmap) (field 44 4 mmap) (cc (failed, q))
              | inl (bytes, unpacked) ↦ elim (Option-cases (formats.from_bytes bytes)) [
                | inl other_format ↦
                    absurd (cc (rw (r48, known, meta, unpacked, other_format, load_regions) at p))
                | inr (m, read) ↦
                    elim (Result-cases
                      (load_hnsw o formats m.embedding_config.dimensions kind graph)) [
                        | inl (g, loaded) ↦ absurd (
                            cc (
                              rw (r48, known, meta, unpacked, read, vectors, loaded, load_regions)
                                at p))
                        | inr (e, failed) ↦
                            let q =
                              rw (r48, known, meta, unpacked, read, vectors, failed, load_regions)
                                at p in
                            load_hnsw-Returns m.embedding_config.dimensions kind graph
                              (cc (failed, q))
                      ]
              ]
            ]
      ]

  -- The ends of the regions that the header gives do not wrap.
  abbrev pub HasEnds : Bytes → Type 0
  HasEnds mmap =
      (field 10 8 mmap + field 18 8 mmap < two64) × (field 26 8 mmap + field 34 8 mmap < two64)

  -- A file of any content, of whatever length, is loaded without a panic if neither of the ends of
  -- the two regions that its header gives reaches 2^64: either its regions lie in the file, and
  -- what is read from them decides, or an error is reported.
  pub load_mapped-Returns : (mmap : Bytes) → HasEnds mmap → Returns (load_mapped o formats mmap)
  unfolding load_mapped reading
  load_mapped-Returns mmap (meta_fits, hnsw_fits) p =
      let meta : (field 10 8 mmap + field 18 8 mmap) % two64 ≡ field 10 8 mmap + field 18 8 mmap =
        omega arith in
      let hnsw : (field 26 8 mmap + field 34 8 mmap) % two64 ≡ field 26 8 mmap + field 34 8 mmap =
        omega arith in
      elim (Bool-cases (ltb (length mmap) header_size)) [
        | inl short ↦ absurd (cc (rw (short, load_mapped) at p))
        | inr long ↦
            let enough : header_size ≤ length mmap = ltb→le (length mmap) header_size long in
            let r6 = header_read mmap 6 enough (omega arith) in
            let r10 = header_read mmap 10 enough (omega arith) in
            let r42 = header_read mmap 42 enough (omega arith) in
            elim (Bool-cases (text_eq (take 6 mmap) magic)) [
              | inr other ↦ absurd (cc (rw (long, r6, other, load_mapped) at p))
              | inl ours ↦ elim (Bool-cases (ltb (field 6 4 mmap) version)) [
                | inl old ↦ absurd (cc (rw (long, r6, ours, r10, old, load_mapped) at p))
                | inr recent ↦ elim (Bool-cases (field 6 4 mmap == version)) [
                  | inr later ↦
                      absurd (cc (rw (long, r6, ours, r10, recent, later, load_mapped) at p))
                  | inl current ↦
                      elim (Bool-cases (ltb (length mmap) (field 10 8 mmap + field 18 8 mmap))) [
                        | inl truncated ↦ absurd (
                            cc (
                              rw
                                (
                                  long, r6, ours, r10, recent, current, r42, meta, truncated,
                                  load_mapped,
                                )
                                at p))
                        | inr meta_in ↦
                            elim (Bool-cases
                              (ltb (length mmap) (field 26 8 mmap + field 34 8 mmap))) [
                                | inl truncated ↦ absurd (
                                    cc (
                                      rw
                                        (
                                          long, r6, ours, r10, recent, current, r42, meta, meta_in,
                                          hnsw, truncated, load_mapped,
                                        )
                                        at p))
                                | inr hnsw_in ↦
                                    load_regions-Returns mmap (regions enough meta_in hnsw_in) (
                                      rw
                                        (
                                          long, r6, ours, r10, recent, current, r42, meta, meta_in,
                                          hnsw, hnsw_in, load_mapped,
                                        )
                                        at p)
                              ]
                      ]
                ]
              ]
            ]
      ]
    where
      regions :
          header_size ≤ length mmap
          → ltb (length mmap) (field 10 8 mmap + field 18 8 mmap) ≡ false
          → ltb (length mmap) (field 26 8 mmap + field 34 8 mmap) ≡ false
          → HasRegions mmap
      regions enough a b = record {
        has_header = enough;
        meta_in = ltb→le (length mmap) (field 10 8 mmap + field 18 8 mmap) a;
        hnsw_in = ltb→le (length mmap) (field 26 8 mmap + field 34 8 mmap) b;
        meta_fits = meta_fits;
        hnsw_fits = hnsw_fits;
      }
