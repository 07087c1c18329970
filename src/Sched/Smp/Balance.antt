-- ===== src/Sched/Smp/Balance.antt =====
-- `select_target_cpu` chooses a CPU with the least load.
use seraph.Prelude.{
  ℕ, zero, suc, ◌-◌, ◌^◌, ◌<◌, ◌≤◌, ◌≡◌, ◌≢◌, refl, ap, ◌⊎◌, arith, inl, inr, Bool-cases, ltb,
  ltb→lt, ==_ne,
}
use native.Mathlib.Decide.{ℕ_discrete}
use seraph.Sched.Smp.{Machine, affinity_any, least_load, load_of, select_target_cpu}

least_load-le :
    (load : ℕ → ℕ) (n : ℕ)
    → ((i : ℕ) → i < n → load i < 2 ^ 32)
    → ((i : ℕ) → i < n → (least_load load n).0 ≤ load i) × ((least_load load n).0 < 2 ^ 32)
unfolding least_load
least_load-le load zero small = (λ i h. absurd (omega arith), omega arith)
least_load-le load (suc n) small =
    let (all, bound) = least_load-le load n (λ i h. small i (omega arith)) in
    elim (Bool-cases (ltb (load n) (least_load load n).0)) [
      | inl e ↦ rw e (
        λ i h. elim (ℕ_discrete i n) [
          | yes q ↦ omega (arith, ap load q)
          | no q ↦ omega (arith, all i (omega arith), ltb→lt (load n) (least_load load n).0 e)
        ],
        small n (omega arith),
      )
      | inr e ↦ rw e (
        λ i h. elim (ℕ_discrete i n) [
          | yes q ↦ ground (arith, ap load q)
          | no q ↦ all i (omega arith)
        ],
        bound,
      )
    ]

least_load-found :
    (load : ℕ → ℕ) (n : ℕ)
    → ((least_load load n).1 ≡ 0) × ((least_load load n).0 ≡ 2 ^ 32 - 1)
      ⊎ ((least_load load n).1 < n) × (load (least_load load n).1 ≡ (least_load load n).0)
unfolding least_load
least_load-found load zero = inl (refl, refl)
least_load-found load (suc n) = elim (Bool-cases (ltb (load n) (least_load load n).0)) [
  | inl e ↦ inr (rw e (omega arith, refl))
  | inr e ↦ elim (least_load-found load n) [
    | inl old ↦ inl (rw e old)
    | inr (lt, at) ↦ inr (rw e (omega (arith, lt), at))
  ]
]

least_load-least :
    (load : ℕ → ℕ) (n : ℕ)
    → 0 < n
    → ((i : ℕ) → i < n → load i < 2 ^ 32)
    → ((least_load load n).1 < n) × ((i : ℕ) → i < n → load (least_load load n).1 ≤ load i)
least_load-least load n online small =
    let (all, bound) = least_load-le load n small in
    elim (least_load-found load n) [
      | inl (first, top) ↦
          (omega (arith, first), λ i h. omega (arith, all i h, top, small 0 online, ap load first))
      | inr (lt, at) ↦ (lt, λ i h. omega (arith, all i h, at))
    ]

-- A thread with an affinity goes to that CPU. Any other goes to a CPU that is online, and no CPU
-- that is online has a lower load; the loads are words of 32 bits and a CPU is online.
pub select_target_cpu-least :
    (m : Machine) (tcb : ℕ)
    → 0 < m.cpu_count
    → ((i : ℕ) → i < m.cpu_count → load_of m i < 2 ^ 32)
    → ((m.threads tcb).cpu_affinity ≢ affinity_any)
        × (select_target_cpu m tcb ≡ (m.threads tcb).cpu_affinity)
      ⊎ ((m.threads tcb).cpu_affinity ≡ affinity_any)
        × (select_target_cpu m tcb < m.cpu_count)
        × ((i : ℕ) → i < m.cpu_count → load_of m (select_target_cpu m tcb) ≤ load_of m i)
unfolding select_target_cpu
select_target_cpu-least m tcb online small =
    elim (ℕ_discrete (m.threads tcb).cpu_affinity affinity_any) [
      | no ne ↦ inl (ne, rw (==_ne (m.threads tcb).cpu_affinity affinity_any ne))
      | yes e ↦
          let (lt, least) = least_load-least (load_of m) m.cpu_count online small in
          inr (e, rw e lt, rw e least)
    ]
