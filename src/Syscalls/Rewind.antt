-- ===== src/Syscalls/Rewind.antt =====
-- `_snapshot` and `_restore`: the files of a snapshot are shared with the kernel, their offsets are not.
use ghidra_unicorn.Prelude.{
  nat_eq, nat_beq_iff, ℕ, ◌≡◌, refl, sym, ◌∙◌, ap, Bool, true, false, Option, none, some, [], ◌∷◌,
  arith, ◌==◌, if◌then◌else◌, Dict, lookup, lookup-insert, Unique, Option-cases, inl, inr,
}
use ghidra_unicorn.Syscalls.{
  OpenFile, Kernel, offsets_of, snapshot, set_offset, set_offsets, restore,
}

-- A file, wherever its reader stands.
abbrev pub rewound : Option OpenFile → Option OpenFile
rewound none = none
rewound (some f) = some (record f { offset = 0 })

-- Two tables with the same files at the same descriptors, the offsets aside.
abbrev pub SameFiles : Dict ℕ OpenFile → Dict ℕ OpenFile → Type 0
SameFiles a b = (fd : ℕ) → rewound (lookup fd a) ≡ rewound (lookup fd b)

-- A file with an offset, if one is given.
abbrev at_offset : Option ℕ → Option OpenFile → Option OpenFile
at_offset o none = none
at_offset none (some f) = some f
at_offset (some n) (some f) = some (record f { offset = n })

at_none : (f : Option OpenFile) → at_offset none f ≡ f
at_none none = refl
at_none (some f) = refl

at_offset_step :
    (c : Bool) (o : Option ℕ) (n : ℕ) (f : Option OpenFile)
    → (c ≡ true → o ≡ none)
    → at_offset o (if c then at_offset (some n) f else f) ≡ at_offset (if c then some n else o) f
at_offset_step true o n f h = rw (h refl) (at_none (at_offset (some n) f))
at_offset_step false o n f h = refl

same_key : (i j : ℕ) → (i == j) ≡ true → i ≡ j
same_key i j p = ground (arith, nat_beq_iff i j)

lookup-set_offset :
    (fd n i : ℕ) (files : Dict ℕ OpenFile)
    → lookup i (set_offset fd n files)
      ≡ (if fd == i then at_offset (some n) (lookup i files) else lookup i files)
unfolding set_offset
lookup-set_offset fd n i files = elim (Option-cases (lookup fd files)) [
  | inl p ↦ ground (arith, nat_beq_iff fd i)
  | inr (f, p) ↦
      ground (arith, nat_beq_iff fd i, lookup-insert fd i (record f { offset = n }) files)
]

lookup-set_offsets :
    (i : ℕ) (offsets : Dict ℕ ℕ) (files : Dict ℕ OpenFile)
    → Unique offsets
    → lookup i (set_offsets offsets files) ≡ at_offset (lookup i offsets) (lookup i files)
unfolding set_offsets lookup
lookup-set_offsets i [] files u = sym (at_none (lookup i files))
lookup-set_offsets i ((fd, n) ∷ offsets) files u =
    lookup-set_offsets i offsets (set_offset fd n files) u.1
    ∙ ap (at_offset (lookup i offsets)) (lookup-set_offset fd n i files)
    ∙ at_offset_step (fd == i) (lookup i offsets) n (lookup i files)
        (λ p. ap (λ j. lookup j offsets) (sym (same_key fd i p)) ∙ u.0)

lookup-offsets_of :
    (i : ℕ) (files : Dict ℕ OpenFile)
    → lookup i (offsets_of files) ≡ elim (lookup i files) [ none ↦ none | some f ↦ some f.offset ]
unfolding offsets_of lookup
lookup-offsets_of i [] = refl
lookup-offsets_of i ((fd, f) ∷ files) = ground (arith, lookup-offsets_of i files)

offsets_of-Unique : (files : Dict ℕ OpenFile) → Unique files → Unique (offsets_of files)
unfolding offsets_of
offsets_of-Unique [] u = tt
offsets_of-Unique ((fd, f) ∷ files) u =
    (ground (arith, lookup-offsets_of fd files, u.0), offsets_of-Unique files u.1)

same_at_offset :
    (a b : Option OpenFile)
    → rewound a ≡ rewound b
    → at_offset (elim b [ none ↦ none | some f ↦ some f.offset ]) a ≡ b
same_at_offset none none p = refl
same_at_offset none (some f) p = absurd (cc)
same_at_offset (some f) none p = absurd (cc)
same_at_offset (some f) (some f') p =
    ap (λ o. elim o [ none ↦ none | some x ↦ some (record x { offset = f'.offset }) ]) p

-- A snapshot's table of files is the kernel's own, in which the readers have moved on since. Restoring it
-- brings every descriptor back to its file at the offset of the snapshot, with the next descriptor, the
-- program break and the next mapping of then.
pub restore-snapshot :
    (k k' : Kernel) (moved : Dict ℕ OpenFile) (fd : ℕ)
    → Unique k.files
    → SameFiles moved k.files
    → let back = restore (record (snapshot k) { files = moved }) k' in
      (lookup fd back.files ≡ lookup fd k.files)
      × (back.next_fd ≡ k.next_fd)
      × (back.brk_current ≡ k.brk_current)
      × (back.brk_mapped ≡ k.brk_mapped)
      × (back.mmap_next ≡ k.mmap_next)
unfolding restore snapshot
restore-snapshot k k' moved fd u s = (
  lookup-set_offsets fd (offsets_of k.files) moved (offsets_of-Unique k.files u)
      ∙ ap (λ o. at_offset o (lookup fd moved)) (lookup-offsets_of fd k.files)
      ∙ same_at_offset (lookup fd moved) (lookup fd k.files) (s fd),
  refl,
  refl,
  refl,
  refl,
)
