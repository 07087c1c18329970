-- ===== src/Elf/Examples.antt =====
-- A small image: the theorems applied.
use seraph.Prelude.{
  ℕ, suc, ◌≤◌, ◌<◌, ◌≡◌, ◌⊎◌, inl, inr, refl, sym, subst, some, List, [], ◌∷◌, All, arith, ◌==◌,
  if◌then◌else◌, if-true, if-false, Bool-cases, true, false,
}
use seraph.Elf.{
  Data, ElfError, Result, ok, err, LoadSegment, le, ehdr, check_ehdr, validate, next, next_meta,
  load_segments, load_segments_metadata, next_load,
}
use seraph.Elf.Header.{IsBytes, Accepts, validate-Accepts}
use seraph.Elf.Table.{drain, segments, InFile, load_segments-segments}
use seraph.Elf.Stream.{load_segments_metadata-same}

abbrev entry : List (ℕ × ℕ) → ℕ → ℕ
entry [] i = 0
entry ((k, v) ∷ es) i = let rest = entry es i in if i == k then v else rest

entry-lt : (es : List (ℕ × ℕ)) → All (λ e. e.1 < 256) es → (i : ℕ) → entry es i < 256
entry-lt [] a i = omega arith
entry-lt ((k, v) ∷ es) a i = elim (Bool-cases (i == k)) [
  | inl e ↦ subst (λ n. n < 256) (sym (if-true v (entry es i) (i == k) e)) a.0
  | inr e ↦ subst (λ n. n < 256) (sym (if-false v (entry es i) (i == k) e)) (entry-lt es a.1 i)
]

-- A header, one program header behind it, and 8 bytes to load and execute.
abbrev bytes : List (ℕ × ℕ)
bytes =
    (0, 127)
    ∷ (1, 69)
    ∷ (2, 76)
    ∷ (3, 70)
    ∷ (4, 2)
    ∷ (5, 1)
    ∷ (6, 1)
    ∷ (16, 2)
    ∷ (18, 62)
    ∷ (32, 64)
    ∷ (54, 56)
    ∷ (56, 1)
    ∷ (64, 1)
    ∷ (68, 5)
    ∷ (72, 120)
    ∷ (96, 8)
    ∷ (104, 16)
    ∷ []

abbrev image : Data
image = record { len = 128; byte = entry bytes }

-- Its first part, without what is loaded.
abbrev page : Data
page = record { len = 120; byte = entry bytes }

image-IsBytes : IsBytes image
image-IsBytes i =
    entry-lt bytes
      (
        omega arith,
        (
          omega arith,
          (
            omega arith,
            (
              omega arith,
              (
                omega arith,
                (
                  omega arith,
                  (
                    omega arith,
                    (
                      omega arith,
                      (
                        omega arith,
                        (
                          omega arith,
                          (
                            omega arith,
                            (
                              omega arith,
                              (
                                omega arith,
                                (omega arith, (omega arith, (omega arith, (omega arith, tt)))),
                              ),
                            ),
                          ),
                        ),
                      ),
                    ),
                  ),
                ),
              ),
            ),
          ),
        ),
      )
      i

accepts_image : validate image 62 ≡ some (ok (ehdr image))
unfolding validate check_ehdr le
accepts_image = refl

accepts_page : validate page 62 ≡ some (ok (ehdr page))
unfolding validate check_ehdr le
accepts_page = refl

run_segments :
    drain 2 next (load_segments (ehdr image) image)
    ≡ some (
        ok (record {
          vaddr = 0;
          offset = 120;
          filesz = 8;
          memsz = 16;
          writable = false;
          executable = true;
        })
        ∷ [])
unfolding next next_load le drain
run_segments = refl

validate_example :
    ((validate image 62 ≡ some (ok (ehdr image))) × (64 ≤ 128) × Accepts (ehdr image) 128 62)
    ⊎ ((e : ElfError) × (validate image 62 ≡ some (err e))
        × ((64 ≤ 128) × Accepts (ehdr image) 128 62 → ⊥))
validate_example = validate-Accepts image 62 image-IsBytes (omega arith)

load_segments_example :
    (drain (suc (ehdr image).e_phnum) next (load_segments (ehdr image) image)
      ≡ some (segments image 128 (ehdr image).e_phoff 0 (ehdr image).e_phnum))
    × All (InFile 128) (segments image 128 (ehdr image).e_phoff 0 (ehdr image).e_phnum)
load_segments_example =
    load_segments-segments image 62 (ehdr image) image-IsBytes (omega arith) accepts_image

metadata_example :
    (validate image 62 ≡ some (ok (ehdr page)))
    × (rs : List (Result LoadSegment)) × (drain
          (suc (ehdr page).e_phnum)
          next_meta
          (load_segments_metadata (ehdr page) page 128)
        ≡ some rs)
    × (drain (suc (ehdr page).e_phnum) next (load_segments (ehdr page) image) ≡ some rs)
metadata_example =
    load_segments_metadata-same page image 62 (ehdr page)
      (record { shorter = omega arith; same = λ i h. refl }) image-IsBytes image-IsBytes
      (omega arith) accepts_page
