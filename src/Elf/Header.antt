-- ===== src/Elf/Header.antt =====
-- `validate`.
use native.Mathlib.Decide.{dec_lt}
use seraph.Prelude.{
  ℕ, zero, suc, ◌+◌, ◌*◌, ◌%◌, ◌^◌, ◌≤◌, ◌<◌, ◌≡◌, ◌⊎◌, inl, inr, refl, sym, ◌∙◌, ap, Bool, true,
  false, false≢true, not, ◌&&◌, Option, none, some, arith, ◌==◌, ltb, leb, if◌then◌else◌, if-true,
  if-false, Bool-cases, ==_iff, ==_ne, lt→ltb,
}
use seraph.Elf.{
  Data, ElfError, bad_magic, not_64bit, not_little_endian, bad_version, not_executable,
  wrong_machine, bad_phentsize, no_segments, phdr_table_overflow, Result, ok, err, Elf64Ehdr,
  too_small, le, ehdr, checked_add, table_fits, check_ehdr, validate,
}

-- Every byte has 8 bits.
abbrev pub IsBytes : Data → Type 0
IsBytes d = (i : ℕ) → d.byte i < 256

pub le_two-lt : (d : Data) (off : ℕ) → IsBytes d → le d off 2 < 65536
unfolding le
le_two-lt d off b = omega (arith, b off, b (off + 1))

-- What is accepted: a 64-bit little-endian static executable of the current version for the machine,
-- with program headers of the right size, all of which are in the image.
pub record Accepts (h : Elf64Ehdr) (len machine : ℕ) : Type 0 where
  pub magic0 : h.e_ident 0 ≡ 127
  pub magic1 : h.e_ident 1 ≡ 69
  pub magic2 : h.e_ident 2 ≡ 76
  pub magic3 : h.e_ident 3 ≡ 70
  pub class_64 : h.e_ident 4 ≡ 2
  pub lsb : h.e_ident 5 ≡ 1
  pub current : h.e_ident 6 ≡ 1
  pub executable : h.e_type ≡ 2
  pub machine_fits : h.e_machine ≡ machine
  pub entry_size : h.e_phentsize ≡ 56
  pub some_headers : 0 < h.e_phnum
  pub table : h.e_phoff + h.e_phnum * 56 ≤ len

-- A result is that of a test of `P`.
abbrev Verdict {κ} : Type κ → Result Elf64Ehdr → Elf64Ehdr → Type κ
Verdict P r h = ((r ≡ ok h) × P) ⊎ ((e : ElfError) × (r ≡ err e) × (P → ⊥))

abbrev Decides : Bool → Type 0 → Type 0
Decides b P = (b ≡ true → P) × (P → b ≡ true)

guard :
    (b : Bool) (e : ElfError) (rest : Result Elf64Ehdr) (h : Elf64Ehdr) (P Q : Type 0)
    → Decides b P
    → Verdict Q rest h
    → Verdict (P × Q) (if not b then err e else rest) h
guard false e rest h P Q d v = inr (e, refl, λ pq. false≢true (d.1 pq.0))
guard true e rest h P Q d v = elim v [
  | inl (r, q) ↦ inl (r, (d.0 refl, q))
  | inr (e', r, n) ↦ inr (e', r, λ pq. n pq.1)
]

guard_not :
    (b : Bool) (e : ElfError) (rest : Result Elf64Ehdr) (h : Elf64Ehdr) (P Q : Type 0)
    → ((b ≡ false → P) × (P → b ≡ false))
    → Verdict Q rest h
    → Verdict (P × Q) (if b then err e else rest) h
guard_not true e rest h P Q d v = inr (e, refl, λ pq. false≢true (sym (d.1 pq.0)))
guard_not false e rest h P Q d v = elim v [
  | inl (r, q) ↦ inl (r, (d.0 refl, q))
  | inr (e', r, n) ↦ inr (e', r, λ pq. n pq.1)
]

equal : (a b : ℕ) → Decides (a == b) (a ≡ b)
equal a b = ((==_iff a b).0, (==_iff a b).1)

both : (b c : Bool) (P Q : Type 0) → Decides b P → Decides c Q → Decides (b && c) (P × Q)
both false c P Q d f = ((λ e. absurd (false≢true e)), λ pq. d.1 pq.0)
both true c P Q d f = ((λ e. (d.0 refl, f.0 e)), λ pq. f.1 pq.1)

module _ (h : Elf64Ehdr) (len machine : ℕ) (small : h.e_phnum < 65536) (short : len < 2 ^ 64) where
  abbrev Table : Type 0
  Table = h.e_phoff + h.e_phnum * 56 ≤ len

  table : Decides (table_fits h len) Table
  table = decide (h.e_phnum * 56) (h.e_phnum * 56 % 2 ^ 64) (omega arith)
    where
      within : (a b c : ℕ) → leb a b ≡ true → a ≡ c → c ≤ b
      within a b c e q = ground arith

      fits : (a b : ℕ) → a ≤ b → leb a b ≡ true
      fits a b h = ground arith

      not_below : (a : ℕ) → ltb a (2 ^ 64) ≡ false → a < 2 ^ 64 → ⊥
      not_below a e h = ground arith

      decide :
          (x y : ℕ)
          → y ≡ x
          → Decides
              (elim (checked_add h.e_phoff y) [ none ↦ false | some e ↦ leb e len ])
              (h.e_phoff + x ≤ len)
      decide x y e = elim (Bool-cases (ltb (h.e_phoff + y) (2 ^ 64))) [
        | inl b ↦
            let w =
              ap (λ (o : Option ℕ). elim o [ none ↦ false | some e ↦ leb e len ])
                (if-true (some (h.e_phoff + y)) none _ b) in
            (
              (λ q. within (h.e_phoff + y) len (h.e_phoff + x) (sym w ∙ q) (omega arith)),
              λ q. w ∙ fits (h.e_phoff + y) len (omega (arith, e, q)),
            )
        | inr b ↦
            let w =
              ap (λ (o : Option ℕ). elim o [ none ↦ false | some e ↦ leb e len ])
                (if-false (some (h.e_phoff + y)) none _ b) in
            (
              (λ q. absurd (false≢true (sym w ∙ q))),
              λ q. absurd (not_below (h.e_phoff + y) b (omega (arith, e, q, short))),
            )
      ]

  headers : ((h.e_phnum == 0) ≡ false → 0 < h.e_phnum) × (0 < h.e_phnum → (h.e_phnum == 0) ≡ false)
  headers = (positive h.e_phnum, λ p. ==_ne h.e_phnum 0 (λ e. omega (arith, e, p)))
    where
      positive : (n : ℕ) → (n == 0) ≡ false → 0 < n
      positive zero e = absurd (false≢true (sym e))
      positive (suc n) e = omega arith

  verdict :
      Verdict
        (((((h.e_ident 0 ≡ 127) × (h.e_ident 1 ≡ 69)) × (h.e_ident 2 ≡ 76)) × (h.e_ident 3 ≡ 70))
          × ((h.e_ident 4 ≡ 2)
              × ((h.e_ident 5 ≡ 1)
                  × ((h.e_ident 6 ≡ 1)
                      × ((h.e_type ≡ 2)
                          × ((h.e_machine ≡ machine)
                              × ((h.e_phentsize ≡ 56)
                                  × ((0 < h.e_phnum) × (Table × Unit {0})))))))))
        (check_ehdr h len machine)
        h
  unfolding check_ehdr
  verdict =
      guard _ bad_magic _ h _ _
        (both _ _ _ _ (both _ _ _ _ (both _ _ _ _ (equal _ 127) (equal _ 69)) (equal _ 76))
          (equal _ 70))
        (guard _ not_64bit _ h _ _ (equal _ 2) (
          guard _ not_little_endian _ h _ _ (equal _ 1) (
            guard _ bad_version _ h _ _ (equal _ 1) (
              guard _ not_executable _ h _ _ (equal _ 2) (
                guard _ wrong_machine _ h _ _ (equal _ machine) (
                  guard _ bad_phentsize _ h _ _ (equal _ 56) (
                    guard_not _ no_segments _ h _ _ headers
                      (guard _ phdr_table_overflow _ h _ _ table (inl (refl, tt))))))))))

  check_ehdr-Accepts :
      ((check_ehdr h len machine ≡ ok h) × Accepts h len machine)
      ⊎ ((e : ElfError) × (check_ehdr h len machine ≡ err e) × (Accepts h len machine → ⊥))
  check_ehdr-Accepts = elim verdict [
    | inl (e, ((((m0, m1), m2), m3), (c, (l, (v, (x, (m, (s, (n, (t, _)))))))))) ↦ inl (
      e,
      record {
        magic0 = m0;
        magic1 = m1;
        magic2 = m2;
        magic3 = m3;
        class_64 = c;
        lsb = l;
        current = v;
        executable = x;
        machine_fits = m;
        entry_size = s;
        some_headers = n;
        table = t;
      },
    )
    | inr (e, r, bad) ↦ inr (
      e,
      r,
      λ a. bad (
        (((a.magic0, a.magic1), a.magic2), a.magic3),
        (
          a.class_64,
          (
            a.lsb,
            (
              a.current,
              (a.executable, (a.machine_fits, (a.entry_size, (a.some_headers, (a.table, tt))))),
            ),
          ),
        ),
      ),
    )
  ]

-- `validate` of an image, for any bytes: it never reads outside of the image, and it accepts it just if
-- the image has a header that meets every condition, among them that the whole table of program headers
-- is in the image. Otherwise it gives an error.
pub validate-Accepts :
    (d : Data) (machine : ℕ)
    → IsBytes d
    → d.len < 2 ^ 64
    → ((validate d machine ≡ some (ok (ehdr d))) × (64 ≤ d.len) × Accepts (ehdr d) d.len machine)
      ⊎ ((e : ElfError) × (validate d machine ≡ some (err e))
          × ((64 ≤ d.len) × Accepts (ehdr d) d.len machine → ⊥))
unfolding validate
validate-Accepts d machine b short = elim (dec_lt d.len 64) [
  | yes h ↦
      inr (too_small, if-true _ _ (ltb d.len 64) (lt→ltb d.len 64 h), λ a. omega (arith, h, a.0))
  | no h ↦
      let long : 64 ≤ d.len = omega arith in
      let run =
        if-false (some (err too_small))
          (elim (if leb 64 d.len then some (ehdr d) else none) [
            | none ↦ none
            | some h ↦ some (check_ehdr h d.len machine)
          ])
          (ltb d.len 64) (not_less d.len 64 long)
        ∙ ap
            (λ (o : Option Elf64Ehdr). elim o [
              | none ↦ none
              | some h ↦ some (check_ehdr h d.len machine)
            ])
            (if-true (some (ehdr d)) none (leb 64 d.len) (fits 64 d.len long)) in
      elim (check_ehdr-Accepts (ehdr d) d.len machine (le_two-lt d 56 b) short) [
        | inl (e, a) ↦ inl (run ∙ ap some e, long, a)
        | inr (e, r, bad) ↦ inr (e, run ∙ ap some r, λ a. bad a.1)
      ]
]
  where
    not_less : (a b : ℕ) → b ≤ a → ltb a b ≡ false
    not_less a b h = ground arith

    fits : (a b : ℕ) → a ≤ b → leb a b ≡ true
    fits a b h = ground arith
