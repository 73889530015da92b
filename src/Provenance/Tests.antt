-- ===== src/Provenance/Tests.antt =====
-- A buffer of 8 bytes, read by two instructions.
use ghidra_unicorn.Prelude.{nat_eq, ◌≡◌, true, [], ◌∷◌, ltb, not, ◌&&◌}
use ghidra_unicorn.Timeline.{has}
use ghidra_unicorn.Provenance.{
  InputProvenance, on_read, ranges, offsets_read, read_ranges, unread_ranges, reads_at, first_read,
}
use ghidra_unicorn.Provenance.Ranges.{covered, covered-ranges, covered-unread_ranges}
use ghidra_unicorn.Provenance.Reads.{touched, only, has-offsets_read, reads_at-only}

abbrev input : InputProvenance
input = record { base = 100; length = 8; accesses = []; recording = true }

abbrev twice : InputProvenance
twice = on_read 20 105 1 (on_read 16 100 4 input)

covered-ranges_example : covered 2 (ranges (3 ∷ 1 ∷ 2 ∷ 7 ∷ [])) ≡ has 2 (3 ∷ 1 ∷ 2 ∷ 7 ∷ [])
covered-ranges_example = covered-ranges 2 (3 ∷ 1 ∷ 2 ∷ 7 ∷ [])

covered-unread_ranges_example :
    covered 4 (unread_ranges twice) ≡ (ltb 4 twice.length && not (covered 4 (read_ranges twice)))
covered-unread_ranges_example = covered-unread_ranges 4 twice

has-offsets_read_example :
    has 3 (offsets_read twice) ≡ (ltb 3 twice.length && touched (first_read twice 3))
has-offsets_read_example = has-offsets_read 3 twice

reads_at-only_example :
    reads_at twice 16 ≡ offsets_read (record twice { accesses = only 16 twice.accesses })
reads_at-only_example = reads_at-only twice 16
