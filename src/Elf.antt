-- ===== src/Elf.antt =====
-- shared/elf/src/lib.rs: the header of an ELF64 image and the segments to load. An image is its length
-- with its bytes, and `none` stands for a read outside of it through a pointer. `usize` has 64 bits.
pub mod Header
pub mod Table
pub mod Stream
mod Examples
use seraph.Prelude.{
  ℕ, zero, suc, ◌+◌, ◌-◌, ◌*◌, ◌%◌, ◌^◌, Bool, true, false, not, ◌&&◌, Option, none, some, List, [],
  ◌∷◌, ◌==◌, ltb, leb, if◌then◌else◌, bit_and,
}

pub record Data : Type 0 where
  pub len : ℕ
  pub byte : ℕ → ℕ

pub data ElfError : Type 0 where
  too_small bad_magic not_64bit not_little_endian bad_version not_executable wrong_machine
        bad_phentsize no_segments phdr_table_overflow segment_overflow :
      ElfError

pub data Result {ℓ} (A : Type ℓ) : Type ℓ where
  ok : A → Result A
  err : ElfError → Result A

-- The fields that the code reads.
pub record Elf64Ehdr : Type 0 where
  pub e_ident : ℕ → ℕ
  pub e_type : ℕ
  pub e_machine : ℕ
  pub e_entry : ℕ
  pub e_phoff : ℕ
  pub e_phentsize : ℕ
  pub e_phnum : ℕ

pub record Elf64Phdr : Type 0 where
  pub p_type : ℕ
  pub p_flags : ℕ
  pub p_offset : ℕ
  pub p_vaddr : ℕ
  pub p_filesz : ℕ
  pub p_memsz : ℕ

pub record LoadSegment : Type 0 where
  pub vaddr : ℕ
  pub offset : ℕ
  pub filesz : ℕ
  pub memsz : ℕ
  pub writable : Bool
  pub executable : Bool

abbrev pub ehdr_size : ℕ
ehdr_size = 64

abbrev pub phdr_size : ℕ
phdr_size = 56

-- The little-endian number of the `n` bytes from `off` on.
pub le : Data → ℕ → ℕ → ℕ
le d off zero = 0
le d off (suc n) = d.byte off + 256 * le d (off + 1) n

-- The header at the start of the image, in the layout of `repr(C)`.
abbrev pub ehdr : Data → Elf64Ehdr
ehdr d = record {
  e_ident = λ i. if ltb i 16 then d.byte i else 0;
  e_type = le d 16 2;
  e_machine = le d 18 2;
  e_entry = le d 24 8;
  e_phoff = le d 32 8;
  e_phentsize = le d 54 2;
  e_phnum = le d 56 2;
}

abbrev pub phdr : Data → ℕ → Elf64Phdr
phdr d at = record {
  p_type = le d at 4;
  p_flags = le d (at + 4) 4;
  p_offset = le d (at + 8) 8;
  p_vaddr = le d (at + 16) 8;
  p_filesz = le d (at + 32) 8;
  p_memsz = le d (at + 40) 8;
}

abbrev pub read_ehdr : Data → Option Elf64Ehdr
read_ehdr d = if leb ehdr_size d.len then some (ehdr d) else none

abbrev pub read_phdr : Data → ℕ → Option Elf64Phdr
read_phdr d at = if leb (at + phdr_size) d.len then some (phdr d at) else none

abbrev pub checked_add : ℕ → ℕ → Option ℕ
checked_add a b = if ltb (a + b) (2 ^ 64) then some (a + b) else none

-- The end of the program header table is in the image.
abbrev pub table_fits : Elf64Ehdr → ℕ → Bool
table_fits h len = elim (checked_add h.e_phoff (h.e_phnum * phdr_size % 2 ^ 64)) [
  | none ↦ false
  | some phdr_end ↦ leb phdr_end len
]

-- The checks of `validate` on the header, in their order.
pub check_ehdr : Elf64Ehdr → ℕ → ℕ → Result Elf64Ehdr
check_ehdr h len expected_machine =
    if not (h.e_ident 0 == 127 && h.e_ident 1 == 69 && h.e_ident 2 == 76 && h.e_ident 3 == 70)
    then err bad_magic
    else if not (h.e_ident 4 == 2)
    then err not_64bit
    else if not (h.e_ident 5 == 1)
    then err not_little_endian
    else if not (h.e_ident 6 == 1)
    then err bad_version
    else if not (h.e_type == 2)
    then err not_executable
    else if not (h.e_machine == expected_machine)
    then err wrong_machine
    else if not (h.e_phentsize == phdr_size)
    then err bad_phentsize
    else if h.e_phnum == 0
    then err no_segments
    else if not (table_fits h len)
    then err phdr_table_overflow
    else ok h

pub validate : Data → ℕ → Option (Result Elf64Ehdr)
validate d expected_machine =
    if ltb d.len ehdr_size
    then some (err too_small)
    else elim (read_ehdr d) [ none ↦ none | some h ↦ some (check_ehdr h d.len expected_machine) ]

abbrev pub entry_point : Elf64Ehdr → ℕ
entry_point h = h.e_entry

-- A program header of a segment to load.
abbrev pub segment : Elf64Phdr → LoadSegment
segment p = record {
  vaddr = p.p_vaddr;
  offset = p.p_offset;
  filesz = p.p_filesz;
  memsz = p.p_memsz;
  writable = not (bit_and p.p_flags 2 == 0);
  executable = not (bit_and p.p_flags 1 == 0);
}

-- The segment, if its data end in a file of this size.
abbrev pub checked_segment : Elf64Phdr → ℕ → Result LoadSegment
checked_segment p file_size = elim (checked_add p.p_offset p.p_filesz) [
  | none ↦ err segment_overflow
  | some end ↦ if leb end file_size then ok (segment p) else err segment_overflow
]

-- The loop of `next`, with `n` headers left from `index` on: what it yields, and the index it leaves.
pub next_load : Data → ℕ → ℕ → ℕ → ℕ → Option (Option (Result LoadSegment) × ℕ)
next_load d file_size phdr_base index zero = some (none, index)
next_load d file_size phdr_base index (suc n) =
    let rest = next_load d file_size phdr_base (index + 1) n in
    elim (read_phdr d ((phdr_base + index * phdr_size) % 2 ^ 64)) [
      | none ↦ none
      | some p ↦
          if not (p.p_type == 1) then rest else some (some (checked_segment p file_size), index + 1)
    ]

pub record LoadSegmentIter : Type 0 where
  pub bytes : Data
  pub phdr_base : ℕ
  pub phdr_count : ℕ
  pub index : ℕ

pub record LoadSegmentMetaIter : Type 0 where
  pub header_data : Data
  pub file_size : ℕ
  pub phdr_base : ℕ
  pub phdr_count : ℕ
  pub index : ℕ

pub next : LoadSegmentIter → Option (Option (Result LoadSegment) × LoadSegmentIter)
next it = elim (next_load it.bytes it.bytes.len it.phdr_base it.index (it.phdr_count - it.index)) [
  | none ↦ none
  | some (item, index) ↦ some (item, record it { index = index })
]

pub next_meta : LoadSegmentMetaIter → Option (Option (Result LoadSegment) × LoadSegmentMetaIter)
next_meta it =
    elim (next_load it.header_data it.file_size it.phdr_base it.index (it.phdr_count - it.index)) [
      | none ↦ none
      | some (item, index) ↦ some (item, record it { index = index })
    ]

abbrev pub load_segments : Elf64Ehdr → Data → LoadSegmentIter
load_segments h d = record { bytes = d; phdr_base = h.e_phoff; phdr_count = h.e_phnum; index = 0 }

abbrev pub load_segments_metadata : Elf64Ehdr → Data → ℕ → LoadSegmentMetaIter
load_segments_metadata h header_data file_size = record {
  header_data = header_data;
  file_size = file_size;
  phdr_base = h.e_phoff;
  phdr_count = h.e_phnum;
  index = 0;
}
