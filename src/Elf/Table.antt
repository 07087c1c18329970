-- ===== src/Elf/Table.antt =====
-- The iterator over the segments to load.
use seraph.Prelude.{
  ℕ, zero, suc, ◌+◌, ◌-◌, ◌*◌, ◌%◌, ◌^◌, ◌≤◌, ◌<◌, ◌≡◌, ◌⊎◌, inl, inr, refl, sym, ◌∙◌, ap, subst,
  true, not, Option, none, some, List, [], ◌∷◌, All, arith, ◌==◌, ltb, leb, if◌then◌else◌, if-true,
  if-false, Bool-cases,
}
use seraph.Elf.{
  Data, ElfError, Result, ok, err, segment_overflow, Elf64Ehdr, Elf64Phdr, LoadSegment, ehdr, phdr,
  read_phdr, segment, checked_segment, next_load, next, load_segments, validate,
}
use seraph.Elf.Header.{IsBytes, Accepts, validate-Accepts}

-- What a `for` loop over an iterator with this `next` gets, in order.
unfoldable pub drain {ℓ} :
    {S : Type ℓ}
    → ℕ
    → (S → Option (Option (Result LoadSegment) × S))
    → S
    → Option (List (Result LoadSegment))
drain zero step s = none
drain (suc fuel) step s = elim (step s) [
  | none ↦ none
  | some (none, s) ↦ some []
  | some (some r, s) ↦ elim (drain fuel step s) [ none ↦ none | some rs ↦ some (r ∷ rs) ]
]

-- The `n` headers from `index` on, those to load, each with its check.
abbrev pub segments : Data → ℕ → ℕ → ℕ → ℕ → List (Result LoadSegment)
segments d file_size base index zero = []
segments d file_size base index (suc n) =
    let p = phdr d (base + index * 56) in
    let rest = segments d file_size base (index + 1) n in
    if p.p_type == 1 then checked_segment p file_size ∷ rest else rest

-- A segment that is yielded has its data in the file.
abbrev pub InFile : ℕ → Result LoadSegment → Type 0
InFile file_size (ok s) = s.offset + s.filesz ≤ file_size
InFile file_size (err e) = e ≡ segment_overflow

checked-InFile : (p : Elf64Phdr) (file_size : ℕ) → InFile file_size (checked_segment p file_size)
checked-InFile p file_size = elim (Bool-cases (ltb (p.p_offset + p.p_filesz) (2 ^ 64))) [
  | inr e ↦
      subst (InFile file_size) (sym (ap test (if-false (some (p.p_offset + p.p_filesz)) none _ e)))
        refl
  | inl e ↦ elim (Bool-cases (leb (p.p_offset + p.p_filesz) file_size)) [
    | inl f ↦
        subst (InFile file_size)
          (sym (
            ap test (if-true (some (p.p_offset + p.p_filesz)) none _ e)
            ∙ if-true (ok (segment p)) (err segment_overflow) _ f))
          (within (p.p_offset + p.p_filesz) file_size f)
    | inr f ↦
        subst (InFile file_size)
          (sym (
            ap test (if-true (some (p.p_offset + p.p_filesz)) none _ e)
            ∙ if-false (ok (segment p)) (err segment_overflow) _ f))
          refl
  ]
]
  where
    test : Option ℕ → Result LoadSegment
    test o = elim o [
      | none ↦ err segment_overflow
      | some end ↦ if leb end file_size then ok (segment p) else err segment_overflow
    ]

    within : (a b : ℕ) → leb a b ≡ true → a ≤ b
    within a b e = ground arith

pub segments-InFile :
    (d : Data) (file_size base index n : ℕ)
    → All (InFile file_size) (segments d file_size base index n)
segments-InFile d file_size base index zero = tt
segments-InFile d file_size base index (suc n) =
    choose (phdr d (base + index * 56)) (segments d file_size base (index + 1) n)
      (segments-InFile d file_size base (index + 1) n)
  where
    choose :
        (p : Elf64Phdr) (rest : List (Result LoadSegment))
        → All (InFile file_size) rest
        → All
            (InFile file_size)
            (if p.p_type == 1 then checked_segment p file_size ∷ rest else rest)
    choose p rest a = elim (Bool-cases (p.p_type == 1)) [
      | inl e ↦
          subst (All (InFile file_size)) (sym (if-true _ _ (p.p_type == 1) e))
            (checked-InFile p file_size, a)
      | inr e ↦ subst (All (InFile file_size)) (sym (if-false _ _ (p.p_type == 1) e)) a
    ]

module _ (d : Data) (file_size base count : ℕ) (table : base + count * 56 ≤ d.len)
    (short : d.len < 2 ^ 64) where
  -- Where the loop stands afterwards: at the end, or behind a header that it yields.
  abbrev Stands : ℕ → ℕ → Option (Option (Result LoadSegment) × ℕ) → Type 0
  Stands index n o =
      ((j : ℕ) × (o ≡ some (none, j)) × (segments d file_size base index n ≡ []))
      ⊎ ((r : Result LoadSegment) × (k : ℕ) × (k < n)
          × (o ≡ some (some r, index + (n - k)))
          × (segments d file_size base index n ≡ r ∷ segments d file_size base (index + (n - k)) k))

  read-there :
      (index : ℕ)
      → index < count
      → read_phdr d ((base + index * 56) % 2 ^ 64) ≡ some (phdr d (base + index * 56))
  read-there index h =
      ap (read_phdr d) (exact (base + index * 56) (omega (arith, h, table, short)))
      ∙ if-true _ _ (leb (base + index * 56 + 56) d.len)
          (fits (base + index * 56 + 56) d.len (omega (arith, h, table)))
    where
      exact : (a : ℕ) → a < 2 ^ 64 → a % 2 ^ 64 ≡ a
      exact a h = omega arith

      fits : (a b : ℕ) → a ≤ b → leb a b ≡ true
      fits a b h = ground arith

  next_load-step :
      (index n : ℕ)
      → index < count
      → next_load d file_size base index (suc n) ≡ (
          if not ((phdr d (base + index * 56)).p_type == 1)
          then next_load d file_size base (index + 1) n
          else some (some (checked_segment (phdr d (base + index * 56)) file_size), index + 1))
  unfolding next_load
  next_load-step index n h =
      ap
        (λ (o : Option Elf64Phdr). elim o [
          | none ↦ none
          | some p ↦
              if not (p.p_type == 1)
              then next_load d file_size base (index + 1) n
              else some (some (checked_segment p file_size), index + 1)
        ])
        (read-there index h)

  next_load-Stands :
      (n index : ℕ) → index + n ≡ count → Stands index n (next_load d file_size base index n)
  unfolding next_load
  next_load-Stands zero index e = inl (index, refl, refl)
  next_load-Stands (suc n) index e =
      let p = phdr d (base + index * 56) in
      let step = next_load-step index n (omega arith) in
      elim (Bool-cases (p.p_type == 1)) [
        | inl t ↦ inr (
          checked_segment p file_size,
          n,
          omega arith,
          step
              ∙ if-false _ _ (not (p.p_type == 1)) (ap not t)
              ∙ ap (λ j. some (some (checked_segment p file_size), j)) (one n index),
          if-true _ _ (p.p_type == 1) t
              ∙ ap (λ j. checked_segment p file_size ∷ segments d file_size base j n) (one n index),
        )
        | inr t ↦
            let run = step ∙ if-true _ _ (not (p.p_type == 1)) (ap not t) in
            let same =
              if-false (checked_segment p file_size ∷ segments d file_size base (index + 1) n)
                (segments d file_size base (index + 1) n) (p.p_type == 1) t in
            elim (next_load-Stands n (index + 1) (omega arith)) [
              | inl (j, o, s) ↦ inl (j, run ∙ o, same ∙ s)
              | inr (r, k, less, o, s) ↦
                  let j : index + 1 + (n - k) ≡ index + (suc n - k) = omega arith in
                  inr (
                    r,
                    k,
                    omega arith,
                    run ∙ o ∙ ap (λ j. some (some r, j)) j,
                    same ∙ s ∙ ap (λ j. r ∷ segments d file_size base j k) j,
                  )
            ]
      ]
    where
      one : (n index : ℕ) → index + 1 ≡ index + (suc n - n)
      one n index = omega arith

  -- An iterator that goes by the loop.
  module _ {S : Type 0} (step : S → Option (Option (Result LoadSegment) × S)) (at : ℕ → S)
      (goes : (i : ℕ)
        → step (at i) ≡ elim (next_load d file_size base i (count - i)) [
          | none ↦ none
          | some (item, j) ↦ some (item, at j)
        ]) where
    pub drain-segments :
        (fuel index n : ℕ)
        → n < fuel
        → index + n ≡ count
        → drain fuel step (at index) ≡ some (segments d file_size base index n)
    unfolding drain
    drain-segments zero index n less e = absurd (omega arith)
    drain-segments (suc fuel) index n less e =
        let left : count - index ≡ n = omega arith in
        let move =
          goes index
          ∙ ap
              (λ n. elim (next_load d file_size base index n) [
                | none ↦ none
                | some (item, j) ↦ some (item, at j)
              ])
              left in
        elim (next_load-Stands n index e) [
          | inl (j, o, s) ↦ ap after (move ∙ ap onward o) ∙ ap some (sym s)
          | inr (r, k, less', o, s) ↦
              ap after (move ∙ ap onward o)
              ∙ ap
                  (λ (l : Option (List (Result LoadSegment))). elim l [
                    | none ↦ none
                    | some rs ↦ some (r ∷ rs)
                  ])
                  (drain-segments fuel (index + (n - k)) k (omega arith) (omega arith))
              ∙ ap some (sym s)
        ]
      where
        onward : Option (Option (Result LoadSegment) × ℕ) → Option (Option (Result LoadSegment) × S)
        onward o = elim o [ none ↦ none | some (item, j) ↦ some (item, at j) ]

        after : Option (Option (Result LoadSegment) × S) → Option (List (Result LoadSegment))
        after o = elim o [
          | none ↦ none
          | some (none, s) ↦ some []
          | some (some r, s) ↦ elim (drain fuel step s) [ none ↦ none | some rs ↦ some (r ∷ rs) ]
        ]

-- What an accepted image has.
pub accepted :
    (d : Data) (machine : ℕ) (h : Elf64Ehdr)
    → IsBytes d
    → d.len < 2 ^ 64
    → validate d machine ≡ some (ok h)
    → (h ≡ ehdr d) × (64 ≤ d.len) × Accepts (ehdr d) d.len machine
accepted d machine h b short e = elim (validate-Accepts d machine b short) [
  | inl (run, long, a) ↦ (injective (sym e ∙ run), long, a)
  | inr (f, run, _) ↦ absurd (not_err f (sym e ∙ run))
]
  where
    injective :
        {g : Elf64Ehdr} → ◌≡◌ {A = Option (Result Elf64Ehdr)} (some (ok h)) (some (ok g)) → h ≡ g
    injective e = cc

    not_err : (f : ElfError) → ◌≡◌ {A = Option (Result Elf64Ehdr)} (some (ok h)) (some (err f)) → ⊥
    not_err f e = cc

-- The segments of an image that `validate` accepts: a loop over `load_segments` ends, never reads
-- outside of the image, and gets the loadable program headers in their order, each a segment or an
-- error; and every segment has its data in the image.
pub load_segments-segments :
    (d : Data) (machine : ℕ) (h : Elf64Ehdr)
    → IsBytes d
    → d.len < 2 ^ 64
    → validate d machine ≡ some (ok h)
    → (drain (suc h.e_phnum) next (load_segments h d)
        ≡ some (segments d d.len h.e_phoff 0 h.e_phnum))
      × All (InFile d.len) (segments d d.len h.e_phoff 0 h.e_phnum)
unfolding next
load_segments-segments d machine h b short e =
    let (same, _, a) = accepted d machine h b short e in
    let fits = subst (λ (h : Elf64Ehdr). h.e_phoff + h.e_phnum * 56 ≤ d.len) (sym same) a.table in
    (
      drain-segments d d.len h.e_phoff h.e_phnum fits short next
          (λ i. record { bytes = d; phdr_base = h.e_phoff; phdr_count = h.e_phnum; index = i })
          (λ i. refl) (suc h.e_phnum) 0 h.e_phnum (omega arith) (omega arith),
      segments-InFile d d.len h.e_phoff 0 h.e_phnum,
    )
