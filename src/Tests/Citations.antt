-- ===== src/Tests/Citations.antt =====
-- A document with a heading, a paragraph and a page break.
use contract_change_intel.Prelude.{codes, List, [], ◌∷◌, some, ◌≡◌, refl, arith, All, slice, length}
use mathlib.Core.List.{Memᴰ}
use contract_change_intel.Parsing.{
  Entry, ParsedBlock, build, heading, paragraph, build_loop, build_step,
}
use contract_change_intel.Parsing.Offsets.{Ordered, last_end, build-slices, build-Ordered}
use contract_change_intel.Chunking.{split_range, chunk_document, max_chunk_chars, overlap_chars}
use contract_change_intel.Chunking.Windows.{Cover, split_range-Cover}
use contract_change_intel.Chunking.Chunks.{
  IsCitation, Holds, chunk_document-citations, chunk_document_complete,
}

abbrev entries : List Entry
entries =
    record { kind = heading; text = codes "1. Fee"; page = some 1 }
    ∷ record { kind = paragraph; text = codes "Ten."; page = some 2 }
    ∷ []

abbrev first_block : ParsedBlock
first_block = record { kind = heading; text = codes "1. Fee"; start = 0; end = 6; page = some 1 }

build-slices_example :
    All (λ b. slice (build entries).text b.start b.end ≡ b.text) (build entries).blocks
build-slices_example = build-slices entries

build-Ordered_example :
    Ordered 0 (build entries).blocks
    × (last_end 0 (build entries).blocks ≡ length (build entries).text)
build-Ordered_example = build-Ordered entries

split_range-Cover_example :
    Cover max_chunk_chars overlap_chars 0 9 (split_range (codes "some text") 0 9 [])
split_range-Cover_example = split_range-Cover (codes "some text") 0 9 [] (omega arith) (omega arith)

chunk_document-citations_example :
    All (IsCitation (build entries).text) (chunk_document (build entries))
chunk_document-citations_example = chunk_document-citations entries

chunk_document_complete_example : Holds 3 (chunk_document (build entries))
unfolding build build_loop build_step
chunk_document_complete_example =
    chunk_document_complete entries first_block 3 (Memᴰ.head refl) (omega arith) (omega arith)
