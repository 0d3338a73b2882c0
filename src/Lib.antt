-- ===== src/Lib.antt =====
-- markdown_vdb: a verification library for the retrieval engine of this repository.
--
-- The engine reads a collection of Markdown files, cuts each into chunks, embeds the chunks through
-- a remote provider, and keeps an index with a graph of the links between the files. The library
-- models the parts that decide something by themselves; what they ask of third parties are
-- parameters.
--
-- Base holds what the parts share: Boolean tests, lists with native lengths, decided equality as an
-- interface (Base/Equality), what is used of `str` (Base/Strings), `HashMap` and `HashSet` as
-- association lists and lists (Base/Map), stable sorting (Base/Sort) and `Result` (Base/Result). A
-- text is the list of its code points. The order of an association list stands for the iteration
-- order of the map, which the program leaves open.
--
-- PathUtil is src/path_util.rs. Paths is what is used of `std::path` on Unix, with `normalize_path`
-- of src/links.rs. Parser has the data types of src/parser.rs. Relations is the resolution of
-- relation targets in src/relations.rs, with `resolve_link` of src/links.rs, which it shares; the
-- answers that come from the schema overlay are fields of `RelationContext`. Relations/LinkShape is
-- `parse_link_shaped`. Links is the link graph of src/links.rs: the entries of a file, the graph
-- and its updates, backlinks and queries. The system clock is an argument, and a mutation returns
-- the new graph.
--
-- Links/Neighborhood has the trees of links around a file, with the set of files on the branch
-- passed in and out and the depth held between 1 and 3. Links/Neighbors has the breadth-first
-- search, with fuel for each seed and each end of a link: a file is queued once.
--
-- Chunker is src/chunker.rs: Chunker/Sections cuts the lines of a body at its headings, Chunker
-- itself cuts a long section into windows of tokens, and Chunker/Document composes them. The
-- tokenizer is a record of two functions, and the two floating-point line ratios are parameters.
-- The loop over windows has fuel of one round for each token and one more: a round moves on by at
-- least one token.
--
-- Tree is src/tree.rs: the states of the files on disk and in the index, the tree built from their
-- paths, and Tree/Filter, its subtrees. The file discovery, the reading of a file and the content
-- hash are parameters; a vector of nodes is one data type, whose constructor has a node's fields
-- and the rest of the vector.
--
-- Batch is src/embedding/batch.rs. The provider is a record: its answer may depend on how many
-- requests came before. The loop has fuel of two rounds for each text, and the queue's cost, which
-- bounds the requests that it can still cause, shows that this is enough. The process-wide cache of
-- batch sizes is passed in and out.
--
-- Index is src/index/types.rs and the errors of src/error.rs that its operations give. `Outside` is
-- what the index asks of third parties: the vector index of usearch, serde_json, a hash, and the
-- types of values that are stored but never looked into. Index/Vectors has the operations of
-- src/index/state.rs that change vectors, Index/Save the save with its compaction of keys and the
-- opening, Index/Metadata the operations on metadata alone, Index/Search the search over chunks,
-- where scores and their order are parameters, and Index/Storage is src/index/storage.rs with the
-- write lock. The state behind the lock is passed on, also where an operation fails half way, with
-- the value or the error that the operation returns. `Index.Vectors.View.Laws` is the documented
-- behaviour of usearch: a vector is found under its key, quantized, until it is removed, and an
-- added key must be free and have room. `get` is the vector that is stored under a key, and `get_into`
-- the call `hnsw.get(key, &mut buf)`: the laws say what it gives for a key that has a vector, and
-- leave open what it gives for another, so the theorems on saving ask that each key has a vector. Keys are
-- unbounded: one is taken for each vector added, and 2^64 additions are not reached. The clock,
-- the outcome of writing and of each attempt to rename or lock, and the content of the file are
-- arguments. In Index/Storage a byte is a number, `usize` has 64 bits and wraps, as in a release
-- build, and `FormatLaws` says that rkyv, zstd and usearch read back what they wrote.
--
-- Shards is src/shards.rs: the checks of definitions, their hierarchy, and Shards/Store, the
-- changes of the mapping of definitions. The mapping is the list of its entries; its removal of a
-- key, which may reorder the other entries, is an argument, as is the state of the file system before
-- and after a change. The YAML around the mapping is left out.
--
-- Not modelled: the searches over edges and in batches and the counts of the index, the drawing of
-- a tree (`render_tree`), the extraction of links from Markdown, poisoned locks, log output,
-- Windows path prefixes, and the other components of the program.
pub mod Base
pub mod PathUtil
pub mod Batch
pub mod Parser
pub mod Paths
pub mod Relations
pub mod Links
pub mod Chunker
pub mod Tree
pub mod Index
pub mod Shards
