-- ===== src/Chunker/Document.antt =====
-- `chunk_document` of src/chunker.rs.
pub mod Total
use package.markdown_vdb.Base.{ℕ, List, Option}
use package.markdown_vdb.Parser.{MarkdownFile}
use package.markdown_vdb.Chunker.{Chunk, Tokenizer, LineRatio, chunks_of_sections}
use package.markdown_vdb.Chunker.Sections.{sections_of}

unfoldable pub chunk_document :
    {Token : Type 0} → Tokenizer Token → LineRatio → MarkdownFile → ℕ → ℕ → Option (List Chunk)
unfolding sections_of chunks_of_sections
chunk_document tokenizer ratio file max_tokens overlap_tokens =
    chunks_of_sections tokenizer ratio file max_tokens overlap_tokens
      (sections_of file.body file.headings) 0
