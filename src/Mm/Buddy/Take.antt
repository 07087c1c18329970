-- ===== src/Mm/Buddy/Take.antt =====
-- `pop_block`, and what it means that a slot leaves the list of its order.
use native.Mathlib.Decide.{ℕ_discrete}
use seraph.Prelude.{
  ℕ, ◌+◌, ◌-◌, ◌%◌, ◌^◌, ◌<◌, ◌≤◌, ◌≡◌, ◌≢◌, inl, inr, refl, sym, ◌∙◌, ap, subst, subst₂, fun_ext,
  true, none, some, List, [], ◌∷◌, map, arith, ◌==◌, ==_refl, ==_ne, Bool-cases, update, length,
  erase, has, All-erase, length-erase,
}
use seraph.Prelude.Sum.{total-ge}
use seraph.Prelude.Chain.{Chain, before}
use seraph.Mm.Buddy.{Buddy, order_count, pool_size, pop_block, unlink}
use seraph.Mm.Buddy.Places.{Lists, Lists-heads, move-Lists, bypass, new_head}
use seraph.Mm.Buddy.Blocks.{
  Free, Holds, Refines, blocks, heads, heads-order, length-map, blocks-drop, pages-drop, blocks-le,
  pages-le, All-move,
}

pub length-le-blocks : (f : Free) (o : ℕ) → o < order_count → length (f o) ≤ blocks f
length-le-blocks f o h = total-ge (λ o. length (f o)) o order_count h

-- A list replaced by itself.
pub Holds-same :
    (b : Buddy) (f : Free) (o : ℕ) {l : List ℕ} → Holds b f → l ≡ f o → Holds b (update f o l)
Holds-same b f o {l} v e = subst (Holds b) (fun_ext λ k. same k (ℕ_discrete k o)) v
  where
    same : (k : ℕ) → Dec (k ≡ o) → f k ≡ update f o l k
    same k (yes q) = rw (q, ==_refl o) (sym e)
    same k (no n) = rw (==_ne k o n)

map-eq-nil : (g : ℕ → ℕ) (xs : List ℕ) → map g xs ≡ [] → xs ≡ []
map-eq-nil g [] e = refl
map-eq-nil g (x ∷ xs) e = cc

map-eq-cons :
    (g : ℕ → ℕ) (x a : ℕ) (xs rest : List ℕ)
    → map g (x ∷ xs) ≡ a ∷ rest
    → (g x ≡ a) × (map g xs ≡ rest)
map-eq-cons g x a xs rest e = (cc, cc)

pub free_lists-nil :
    (b : Buddy) (f : Free) (o : ℕ) → Refines b f → o < order_count → f o ≡ [] → b.free_lists o ≡ 0
free_lists-nil b f o (inr v) h e = v.no_list o
free_lists-nil b f o (inl v) h e = rw (heads-order b o h) at (
    subst (Chain b.nexts (heads b o)) (map-eq-nil b.addrs (v.slots o) (v.contents o h ∙ e))
      (v.lists.chain o (omega arith)))

pub free_lists-cons :
    (b : Buddy) (f : Free) (o a : ℕ) (rest : List ℕ)
    → Refines b f
    → o < order_count
    → f o ≡ a ∷ rest
    → b.free_lists o ≢ 0
free_lists-cons b f o a rest (inr v) h e z = cc (v.empty o)
free_lists-cons b f o a rest (inl v) h e z =
    go (v.slots o) (v.lists.chain o (omega arith)) (v.contents o h)
  where
    go : (l : List ℕ) → Chain b.nexts (heads b o) l → map b.addrs l ≡ f o → ⊥
    go [] c m = cc
    go (x ∷ l) c m = omega (arith, c.0, c.1, heads-order b o h, z)

module _ (b : Buddy) (f : Free) (v : Holds b f) (o x : ℕ) (h : o < order_count)
    (here : has x (v.slots o) ≡ true) where
  heads-unlink :
      (k : ℕ)
      → heads (unlink b o (before 0 (v.slots o) x) x) k
        ≡ update (update (heads b) o (new_head b.nexts (heads b o) (v.slots o) x)) order_count x k
  unfolding unlink
  heads-unlink k = elim (Bool-cases (before 0 (v.slots o) x == 0)) [
    | inl z ↦
        rw z (elim (ℕ_discrete k order_count) [ yes e ↦ rw e | no n ↦ rw (==_ne k order_count n) ])
    | inr z ↦ rw z (elim (ℕ_discrete k order_count) [
      | yes e ↦ rw e
      | no n ↦ rw (==_ne k order_count n) (elim (ℕ_discrete k o) [
        | yes e ↦ rw (e, ==_refl o, ==_ne o order_count (λ q. omega (arith, q)))
        | no m ↦ rw (==_ne k o m)
      ])
    ])
  ]

  nexts-unlink :
      (unlink b o (before 0 (v.slots o) x) x).nexts
      ≡ update (bypass b.nexts (v.slots o) x) x (heads b order_count)
  unfolding unlink
  nexts-unlink = elim (Bool-cases (before 0 (v.slots o) x == 0)) [ inl z ↦ rw z | inr z ↦ rw z ]

  rest_length : length (map b.addrs (erase x (v.slots o))) + 1 ≡ length (f o)
  rest_length = omega (
    arith,
    length-map b.addrs (erase x (v.slots o)),
    length-erase x (v.slots o) here,
    length-map b.addrs (v.slots o),
    ap length (v.contents o h),
  )

  pub fields-unlink :
      let b' = unlink b o (before 0 (v.slots o) x) x in
      (b'.addrs ≡ b.addrs)
      × (b'.pool_init ≡ b.pool_init)
      × (b'.free_pages ≡ (b.free_pages + 2 ^ 64 - 2 ^ o) % 2 ^ 64)
      × (b'.total_pages ≡ b.total_pages)
  unfolding unlink
  fields-unlink = elim (Bool-cases (before 0 (v.slots o) x == 0)) [
    | inl z ↦ rw z (refl, refl, refl, refl)
    | inr z ↦ rw z (refl, refl, refl, refl)
  ]

  contents-unlink :
      (k : ℕ)
      → k < order_count
      → map b.addrs
          (update (update v.slots o (erase x (v.slots o))) order_count (x ∷ v.slots order_count) k)
        ≡ update f o (map b.addrs (erase x (v.slots o))) k
  contents-unlink k hk = rw (==_ne k order_count (λ z. omega (arith, z))) (elim (ℕ_discrete k o) [
    | yes e ↦ rw (e, ==_refl o)
    | no n ↦ rw (==_ne k o n) (v.contents k hk)
  ])

  -- Taking out a slot takes its block off the list of the order, and makes the slot ready for use.
  pub unlink-Holds :
      Holds (unlink b o (before 0 (v.slots o) x) x) (update f o (map b.addrs (erase x (v.slots o))))
  unlink-Holds =
      let (addrs, init, free, same) = fields-unlink in
      let drop_blocks = blocks-drop f o (map b.addrs (erase x (v.slots o))) h rest_length in
      let drop_pages = pages-drop f o (map b.addrs (erase x (v.slots o))) h rest_length in
      record {
        init = init ∙ v.init;
        slots =
            update (update v.slots o (erase x (v.slots o))) order_count (x ∷ v.slots order_count);
        lists =
            Lists-heads _ _ _ _ _ (λ k _. heads-unlink k)
              (subst
                (λ n.
                  Lists (order_count + 1)
                    (update (update (heads b) o (new_head b.nexts (heads b o) (v.slots o) x))
                      order_count x)
                    n
                    (update (update v.slots o (erase x (v.slots o))) order_count
                      (x ∷ v.slots order_count)))
                (sym nexts-unlink)
                (move-Lists (order_count + 1) (heads b) b.nexts v.slots v.lists o order_count x
                  (omega arith) (omega arith) (λ z. omega (arith, z)) here));
        contents = λ k hk. rw addrs (contents-unlink k hk);
        in_pool =
            All-move (λ s. s ≤ pool_size) v.slots o order_count x (erase x (v.slots o)) v.in_pool
              (omega arith) (omega arith) here
              (All-erase (λ s. s ≤ pool_size) x (v.slots o) (v.in_pool o (omega arith)));
        room = omega (arith, v.room, drop_blocks);
        counted = omega (arith, free, v.counted, drop_pages, pages-le f, blocks-le v);
      }

-- `pop_block` gives nothing if the list is empty, and the first block otherwise.
pub pop_block-nil :
    (b : Buddy) (f : Free) (o : ℕ) → Refines b f → o < order_count → f o ≡ [] → pop_block b o ≡ none
unfolding pop_block
pop_block-nil b f o r h e = rw (free_lists-nil b f o r h e)

-- The first block of a list is the one that `unlink` takes out with nothing in front of it.
pop_block-unlink :
    (b : Buddy) (o x : ℕ)
    → b.free_lists o ≡ x
    → 0 < x
    → pop_block b o ≡ some (b.addrs x, unlink b o 0 x)
unfolding pop_block unlink
pop_block-unlink b o x e pos = rw (e, ==_ne x 0 (λ z. omega (arith, z)))

pub pop_block-Holds :
    (b : Buddy) (f : Free) (o a : ℕ) (rest : List ℕ)
    → Holds b f
    → o < order_count
    → f o ≡ a ∷ rest
    → (b' : Buddy) × (pop_block b o ≡ some (a, b'))
      × Holds b' (update f o rest)
      × (b'.total_pages ≡ b.total_pages)
pop_block-Holds b f o a rest v h e = go (v.slots o) refl
  where
    go :
        (l : List ℕ)
        → v.slots o ≡ l
        → (b' : Buddy) × (pop_block b o ≡ some (a, b'))
          × Holds b' (update f o rest)
          × (b'.total_pages ≡ b.total_pages)
    go [] q = cc (v.contents o h, ap (map b.addrs) q)
    go (x ∷ xs) q =
        let here : has x (v.slots o) ≡ true = rw (q, ==_refl x) in
        let c = subst (Chain b.nexts (heads b o)) q (v.lists.chain o (omega arith)) in
        let (first, others) =
          map-eq-cons b.addrs x a xs rest (ap (map b.addrs) (sym q) ∙ v.contents o h ∙ e) in
        let front : before 0 (v.slots o) x ≡ 0 = ap (λ l. before 0 l x) q ∙ rw (==_refl x) in
        let left : erase x (v.slots o) ≡ xs = ap (erase x) q ∙ rw (==_refl x) in
        (
          unlink b o 0 x,
          pop_block-unlink b o x (sym (heads-order b o h) ∙ c.0) c.1
              ∙ ap (λ k. some (k, unlink b o 0 x)) first,
          subst₂ (λ p l. Holds (unlink b o p x) (update f o l)) front
              (ap (map b.addrs) left ∙ others) (unlink-Holds b f v o x h here),
          subst (λ p. (unlink b o p x).total_pages ≡ b.total_pages) front
              (fields-unlink b f v o x h here).3,
        )
