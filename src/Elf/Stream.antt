-- ===== src/Elf/Stream.antt =====
-- The iterator that needs only the first part of a file.
use seraph.Prelude.{
  ℕ, zero, suc, ◌+◌, ◌*◌, ◌^◌, ◌≤◌, ◌<◌, ◌≡◌, inl, inr, refl, sym, ◌∙◌, ap, ap₂, subst, fun_ext,
  true, some, List, ◌∷◌, arith, ◌==◌, ltb, if◌then◌else◌, if-true, if-false, Bool-cases,
}
use seraph.Elf.{
  Data, Result, ok, Elf64Ehdr, Elf64Phdr, LoadSegment, le, ehdr, phdr, checked_segment, validate,
  next, next_meta, load_segments, load_segments_metadata,
}
use seraph.Elf.Header.{IsBytes, Accepts, validate-Accepts}
use seraph.Elf.Table.{drain, drain-segments, segments, accepted}

-- The file starts with these bytes.
pub record Starts (p d : Data) : Type 0 where
  pub shorter : p.len ≤ d.len
  pub same : (i : ℕ) → i < p.len → p.byte i ≡ d.byte i

module _ (p d : Data) (s : Starts p d) where
  le-agree : (off n : ℕ) → off + n ≤ p.len → le p off n ≡ le d off n
  unfolding le
  le-agree off zero h = refl
  le-agree off (suc n) h =
      ap₂ (λ x y. x + 256 * y) (s.same off (omega arith)) (le-agree (off + 1) n (omega arith))

  phdr-agree : (at : ℕ) → at + 56 ≤ p.len → phdr p at ≡ phdr d at
  phdr-agree at h =
      rw
        (
          le-agree at 4 (omega arith),
          le-agree (at + 4) 4 (omega arith),
          le-agree (at + 8) 8 (omega arith),
          le-agree (at + 16) 8 (omega arith),
          le-agree (at + 32) 8 (omega arith),
          le-agree (at + 40) 8 (omega arith),
        )
        refl

  ident-agree : 64 ≤ p.len → (i : ℕ) → (ehdr p).e_ident i ≡ (ehdr d).e_ident i
  ident-agree h i = elim (Bool-cases (ltb i 16)) [
    | inl e ↦
        if-true (p.byte i) 0 (ltb i 16) e
        ∙ s.same i (below i e)
        ∙ sym (if-true (d.byte i) 0 (ltb i 16) e)
    | inr e ↦ if-false (p.byte i) 0 (ltb i 16) e ∙ sym (if-false (d.byte i) 0 (ltb i 16) e)
  ]
    where
      below : (i : ℕ) → ltb i 16 ≡ true → i < p.len
      below i e = ground arith

  ehdr-agree : 64 ≤ p.len → ehdr p ≡ ehdr d
  ehdr-agree h =
      ap (λ f. record (ehdr p) { e_ident = f }) (fun_ext (ident-agree h))
      ∙ rw
          (
            le-agree 16 2 (omega arith),
            le-agree 18 2 (omega arith),
            le-agree 24 8 (omega arith),
            le-agree 32 8 (omega arith),
            le-agree 54 2 (omega arith),
            le-agree 56 2 (omega arith),
          )
          refl

  segments-agree :
      (file_size base n index : ℕ)
      → base + (index + n) * 56 ≤ p.len
      → segments p file_size base index n ≡ segments d file_size base index n
  segments-agree file_size base zero index h = refl
  segments-agree file_size base (suc n) index h =
      ap₂
        (λ (q : Elf64Phdr) rest. if q.p_type == 1 then checked_segment q file_size ∷ rest else rest)
        (phdr-agree (base + index * 56) (omega arith))
        (segments-agree file_size base n (index + 1) (omega arith))

-- Of a file, of which the first part is at hand and is accepted by `validate`: the whole file is accepted
-- with the same header, and a loop over `load_segments_metadata` with the size of the file, which reads
-- only the first part, gets the same segments and errors as one over `load_segments` of the whole file.
pub load_segments_metadata-same :
    (p d : Data) (machine : ℕ) (h : Elf64Ehdr)
    → Starts p d
    → IsBytes p
    → IsBytes d
    → d.len < 2 ^ 64
    → validate p machine ≡ some (ok h)
    → (validate d machine ≡ some (ok h))
      × (rs : List (Result LoadSegment)) × (drain
            (suc h.e_phnum)
            next_meta
            (load_segments_metadata h p d.len)
          ≡ some rs)
      × (drain (suc h.e_phnum) next (load_segments h d) ≡ some rs)
unfolding next next_meta
load_segments_metadata-same p d machine h s bp bd short e =
    let (same, long, a) = accepted p machine h bp (omega (arith, s.shorter, short)) e in
    let agree = ehdr-agree p d s long in
    let table = subst (λ (h : Elf64Ehdr). h.e_phoff + h.e_phnum * 56 ≤ p.len) (sym same) a.table in
    (
      whole same long a agree,
      segments d d.len h.e_phoff 0 h.e_phnum,
      drain-segments p d.len h.e_phoff h.e_phnum table (omega (arith, s.shorter, short)) next_meta
            (λ i. record {
              header_data = p;
              file_size = d.len;
              phdr_base = h.e_phoff;
              phdr_count = h.e_phnum;
              index = i;
            })
            (λ i. refl) (suc h.e_phnum) 0 h.e_phnum (omega arith) (omega arith)
          ∙ ap some (segments-agree p d s d.len h.e_phoff h.e_phnum 0 (omega (arith, table))),
      drain-segments d d.len h.e_phoff h.e_phnum (omega (arith, table, s.shorter)) short next
          (λ i. record { bytes = d; phdr_base = h.e_phoff; phdr_count = h.e_phnum; index = i })
          (λ i. refl) (suc h.e_phnum) 0 h.e_phnum (omega arith) (omega arith),
    )
  where
    longer : (g : Elf64Ehdr) (m n : ℕ) → m ≤ n → Accepts g m machine → Accepts g n machine
    longer g m n le a = record {
      magic0 = a.magic0;
      magic1 = a.magic1;
      magic2 = a.magic2;
      magic3 = a.magic3;
      class_64 = a.class_64;
      lsb = a.lsb;
      current = a.current;
      executable = a.executable;
      machine_fits = a.machine_fits;
      entry_size = a.entry_size;
      some_headers = a.some_headers;
      table = omega (arith, a.table, le);
    }

    whole :
        h ≡ ehdr p
        → 64 ≤ p.len
        → Accepts (ehdr p) p.len machine
        → ehdr p ≡ ehdr d
        → validate d machine ≡ some (ok h)
    whole same long a agree = elim (validate-Accepts d machine bd short) [
      | inl (run, _, _) ↦ run ∙ ap (λ g. some (ok g)) (sym (same ∙ agree))
      | inr (f, _, bad) ↦ absurd (
          bad (
            omega (arith, long, s.shorter),
            subst (λ g. Accepts g d.len machine) agree (longer (ehdr p) p.len d.len s.shorter a),
          ))
    ]
