-- ===== src/Index/Tests/Storage.antt =====
-- Formats of the simplest kind, and the file of an index in them.
use markdown_vdb.Base.{
  ℕ, zero, suc, ◌-◌, Bool, true, false, ◌&&◌, List, [], ◌∷◌, ◌++◌, Option, none, some, Text,
  text_key, text_eq, text_eq_iff, is_empty, length, ltb, ◌==◌, ◌≡◌, refl, sym, ap, arith, inl, inr,
  if◌then◌else◌, Bool-cases, le→ltb,
}
use markdown_vdb.Base.Strings.{codes}
use markdown_vdb.Base.Result.{Result, ok, err}
use markdown_vdb.Index.{Error, panicked, IndexMetadata}
use markdown_vdb.Index.Metadata.{empty_metadata}
use markdown_vdb.Index.Storage.{
  Bytes, Formats, f16, WriteOptions, missing, holds, write_index, load_index, load_mapped, two64,
  from_le_bytes, to_le_bytes, rename_with_retry, acquire_write_lock, TryLock, locked, would_block,
  rename_backoff_ms, metadata_region,
}
use markdown_vdb.Index.Storage.RoundTrip.{FormatLaws, Fits, Replaced, write_index-Replaced}
use markdown_vdb.Index.Storage.Loaded.{Returns, load_mapped-Returns}
use markdown_vdb.Index.Storage.Retries.{
  RenamesFrom, rename_with_retry-RenamesFrom, LocksFrom, acquire_write_lock-LocksFrom,
}
use markdown_vdb.Index.Tests.{number_same_iff, Graph, outside, config}

abbrev empty : IndexMetadata outside
empty = empty_metadata outside 0 config

abbrev is_none : {A : Type 0} → Option A → Bool
is_none none = true
is_none (some a) = false

abbrev has_no_times : Option (List (Text × ℕ)) → Bool
has_no_times none = false
has_no_times (some m) = is_empty m

-- Whether metadata are the empty ones.
abbrev is_known : IndexMetadata outside → Bool
is_known m =
    is_empty m.chunks
    && (is_empty m.files
        && (m.last_updated == 0
            && (is_none m.schema
                && (is_none m.cluster_state
                    && (is_none m.link_graph
                        && (is_none m.scoped_schemas
                            && (is_none m.custom_cluster_state
                                && (has_no_times m.file_mtimes
                                    && (text_eq m.embedding_config.provider config.provider
                                        && (text_eq m.embedding_config.model config.model
                                            && m.embedding_config.dimensions == 1))))))))))

both : (a b : Bool) → (a && b) ≡ true → (a ≡ true) × (b ≡ true)
both a b h = (ground arith, ground arith)

nothing : {A : Type 0} (x : Option A) → is_none x ≡ true → x ≡ none
nothing none h = refl
nothing (some a) h = cc

no_items : {A : Type 0} (xs : List A) → is_empty xs ≡ true → xs ≡ []
no_items [] h = refl
no_items (x ∷ xs) h = cc

no_times : (x : Option (List (Text × ℕ))) → has_no_times x ≡ true → x ≡ some []
no_times none h = cc
no_times (some []) h = refl
no_times (some (x ∷ xs)) h = cc

known : (m : IndexMetadata outside) → is_known m ≡ true → m ≡ empty
known m h =
    let (a, h1) = both _ _ h in
    let (b, h2) = both _ _ h1 in
    let (c, h3) = both _ _ h2 in
    let (d, h4) = both _ _ h3 in
    let (e, h5) = both _ _ h4 in
    let (f, h6) = both _ _ h5 in
    let (g, h7) = both _ _ h6 in
    let (k, h8) = both _ _ h7 in
    let (l, h9) = both _ _ h8 in
    let (p, h10) = both _ _ h9 in
    let (q, r) = both _ _ h10 in
    let pa = no_items m.chunks a in
    let pb = no_items m.files b in
    let pc = (number_same_iff m.last_updated 0).0 c in
    let pd = nothing m.schema d in
    let pe = nothing m.cluster_state e in
    let pf = nothing m.link_graph f in
    let pg = nothing m.scoped_schemas g in
    let pk = nothing m.custom_cluster_state k in
    let pl = no_times m.file_mtimes l in
    let pp = (text_eq_iff m.embedding_config.provider config.provider).0 p in
    let pq = (text_eq_iff m.embedding_config.model config.model).0 q in
    let pr = (number_same_iff m.embedding_config.dimensions 1).0 r in
    λ i. record {
      chunks = pa i;
      files = pb i;
      embedding_config = record { provider = pp i; model = pq i; dimensions = pr i };
      last_updated = pc i;
      schema = pd i;
      cluster_state = pe i;
      link_graph = pf i;
      file_mtimes = pl i;
      scoped_schemas = pg i;
      custom_cluster_state = pk i;
    }

abbrev pairs_of : List (ℕ × ℕ) → Bytes
pairs_of [] = []
pairs_of ((k, v) ∷ ps) = k ∷ v ∷ pairs_of ps

abbrev of_pairs : Bytes → List (ℕ × ℕ)
of_pairs [] = []
of_pairs (k ∷ []) = []
of_pairs (k ∷ v ∷ bs) = (k, v) ∷ of_pairs bs

of_pairs-pairs_of : (ps : List (ℕ × ℕ)) → of_pairs (pairs_of ps) ≡ ps
of_pairs-pairs_of [] = refl
of_pairs-pairs_of ((k, v) ∷ ps) = ap (λ qs. (k, v) ∷ qs) (of_pairs-pairs_of ps)

abbrev graph_of : Bytes → Result Text Graph
graph_of [] = err (codes "short")
graph_of (room ∷ bs) = ok (record { room = room; vectors = of_pairs bs })

abbrev unpack : Bytes → ℕ → Result Text Bytes
unpack [] n = err (codes "short")
unpack (b ∷ bs) n = if ltb n (length bs) then err (codes "long") else ok bs

-- An archive is made of the empty metadata alone.
abbrev formats : Formats outside
formats = record {
  to_bytes = λ m. if is_known m then ok (1 ∷ 2 ∷ 3 ∷ []) else err (codes "other");
  from_bytes = λ b. some empty;
  compress = λ b. ok (0 ∷ b);
  decompress = unpack;
  options = λ g. (1, f16);
  new_index = λ d q. ok (record { room = 0; vectors = [] });
  serialized_length = λ g. 1;
  save_to_buffer = λ g n. ok (g.room ∷ pairs_of g.vectors);
  load_from_buffer = λ b g. graph_of b;
}

same_bytes : (b c : Bytes) → ◌≡◌ {A = Result Text Bytes} (ok b) (ok c) → b ≡ c
same_bytes b c e = cc e

formats-Laws : FormatLaws outside formats
formats-Laws = record {
  from_to = λ m b e. elim (Bool-cases (is_known m)) [
    | inl k ↦ ap some (sym (known m k))
    | inr other ↦ absurd (cc (rw other at e))
  ];
  decompress_compress = λ b c n e le. rw (← same_bytes (0 ∷ b) c e, le→ltb n (length b) le) refl;
  load_saved = λ d q h g b same made saved.
      rw (← same_bytes (h.room ∷ pairs_of h.vectors) b saved, of_pairs-pairs_of h.vectors) refl;
}

abbrev options : WriteOptions
options = record { quantization = f16; compress_metadata = true }

abbrev graph : Graph
graph = record { room = 4; vectors = (0, 10) ∷ (1, 20) ∷ [] }

written_first :
    (a b : Bytes) (n m : ℕ) → ◌≡◌ {A = Result Error (Bytes × ℕ)} (ok (a, n)) (ok (b, m)) → a ≡ b
written_first a b n m e = cc e

fits : Fits outside formats formats-Laws options empty graph
unfolding metadata_region text_eq
fits = record {
  archive = λ b e. rw (← same_bytes (1 ∷ 2 ∷ 3 ∷ []) b e) (omega arith);
  file = λ meta g n made saved.
      rw
        (
          ← written_first (0 ∷ 1 ∷ 2 ∷ 3 ∷ []) meta 3 n made,
          ← same_bytes (4 ∷ 0 ∷ 10 ∷ 1 ∷ 20 ∷ []) g saved,
        )
        (omega arith);
  kind = refl;
  creates = (record { room = 0; vectors = [] }, refl);
}

-- The first rename fails, and the second succeeds.
abbrev persist : ℕ → Option ℕ
persist zero = some 5
persist (suc n) = none

write_index-Replaced_example :
    Replaced outside formats formats-Laws options empty graph
      (codes "index")
      missing
      (write_index outside formats (codes "index") options empty graph none persist missing)
write_index-Replaced_example =
    write_index-Replaced outside formats formats-Laws options empty graph fits (codes "index") none
      persist missing

rename_with_retry-RenamesFrom_example :
    RenamesFrom
      (codes "index")
      persist
      0
      rename_backoff_ms
      (rename_with_retry (codes "index") persist)
rename_with_retry-RenamesFrom_example = rename_with_retry-RenamesFrom (codes "index") persist

rename_run : (rename_with_retry (codes "index") persist).1 ≡ 50 ∷ []
unfolding rename_with_retry
rename_run = refl

abbrev free_lock : ℕ → TryLock
free_lock zero = would_block
free_lock (suc n) = locked

acquire_write_lock-LocksFrom_example :
    LocksFrom
      (codes "index.lock")
      free_lock
      0
      (acquire_write_lock (codes "index.lock") none free_lock)
acquire_write_lock-LocksFrom_example = acquire_write_lock-LocksFrom (codes "index.lock") free_lock

abbrev zeros : ℕ → Bytes
zeros zero = []
zeros (suc n) = 0 ∷ zeros n

-- A file that is a header alone: its metadata start at the given offset, with the given size.
abbrev header_only : ℕ → ℕ → Bytes
header_only offset size =
    codes "MDVDB"
    ++ (0 ∷ 1 ∷ 0 ∷ 0 ∷ 0 ∷ (to_le_bytes 8 offset ++ (to_le_bytes 8 size ++ zeros 38)))

load_mapped-Returns_example : Returns (load_mapped outside formats (header_only 60 100))
unfolding to_le_bytes from_le_bytes
load_mapped-Returns_example =
    load_mapped-Returns outside formats (header_only 60 100) (omega arith, omega arith)

-- The end of the metadata wraps to 36, so the checks pass and the slice panics.
wrapped_run :
    load_index outside formats (codes "index") (holds (header_only (two64 - 64) 100)) ≡ err panicked
unfolding load_index to_le_bytes from_le_bytes text_eq
wrapped_run = refl
