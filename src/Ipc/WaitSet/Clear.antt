-- ===== src/Ipc/WaitSet/Clear.antt =====
-- The loop of `wait_set_drop` over the members.
use native.Mathlib.Decide.{ℕ_discrete}
use seraph.Prelude.{
  ℕ, zero, suc, ◌<◌, ◌≡◌, refl, sym, ◌∙◌, ap, Option, none, some, arith, subst, update, update_self,
  update_ne,
}
use seraph.Ipc.World.{
  WaitSetMember, WaitSetSourceTag, World, EndpointState, EventQueueState, SignalState,
}
use seraph.Ipc.WaitSet.{clear_source_backpointer, clear_members}

-- The wait set that a source notifies.
abbrev pub back_pointer : World → ℕ → WaitSetSourceTag → ℕ
back_pointer w s WaitSetSourceTag.endpoint = (w.endpoints s).wait_set
back_pointer w s WaitSetSourceTag.signal = (w.signals s).wait_set
back_pointer w s WaitSetSourceTag.event_queue = (w.event_queues s).wait_set

update-zero :
    {A : Type 0}
    → (f : A → ℕ) (m : ℕ → A) (k : ℕ) (v : A) (j : ℕ) → f v ≡ 0
    → f (m j) ≡ 0
    → f (update m k v j) ≡ 0
update-zero f m k v j z h = elim (ℕ_discrete j k) [
  | yes e ↦ ap (λ i. f (update m k v i)) e ∙ ap f (update_self m k v) ∙ z
  | no n ↦ ap f (update_ne m k v j n) ∙ h
]

clear_self :
    (w : World) (s : ℕ) (tag : WaitSetSourceTag)
    → back_pointer (clear_source_backpointer w s tag) s tag ≡ 0
unfolding clear_source_backpointer
clear_self w s WaitSetSourceTag.endpoint =
    ap (λ (x : EndpointState). x.wait_set) (update_self w.endpoints s _)
clear_self w s WaitSetSourceTag.signal =
    ap (λ (x : SignalState). x.wait_set) (update_self w.signals s _)
clear_self w s WaitSetSourceTag.event_queue =
    ap (λ (x : EventQueueState). x.wait_set) (update_self w.event_queues s _)

clear-keeps :
    (w : World) (s j : ℕ) (tag other : WaitSetSourceTag)
    → back_pointer w j other ≡ 0
    → back_pointer (clear_source_backpointer w s tag) j other ≡ 0
unfolding clear_source_backpointer
clear-keeps w s j WaitSetSourceTag.endpoint WaitSetSourceTag.endpoint h =
    update-zero (λ (x : EndpointState). x.wait_set) w.endpoints s _ j refl h
clear-keeps w s j WaitSetSourceTag.endpoint WaitSetSourceTag.signal h = h
clear-keeps w s j WaitSetSourceTag.endpoint WaitSetSourceTag.event_queue h = h
clear-keeps w s j WaitSetSourceTag.signal WaitSetSourceTag.endpoint h = h
clear-keeps w s j WaitSetSourceTag.signal WaitSetSourceTag.signal h =
    update-zero (λ (x : SignalState). x.wait_set) w.signals s _ j refl h
clear-keeps w s j WaitSetSourceTag.signal WaitSetSourceTag.event_queue h = h
clear-keeps w s j WaitSetSourceTag.event_queue WaitSetSourceTag.endpoint h = h
clear-keeps w s j WaitSetSourceTag.event_queue WaitSetSourceTag.signal h = h
clear-keeps w s j WaitSetSourceTag.event_queue WaitSetSourceTag.event_queue h =
    update-zero (λ (x : EventQueueState). x.wait_set) w.event_queues s _ j refl h

clear-frame :
    (w : World) (s : ℕ) (tag : WaitSetSourceTag)
    → ((clear_source_backpointer w s tag).wait_sets ≡ w.wait_sets)
      × ((clear_source_backpointer w s tag).machine ≡ w.machine)
unfolding clear_source_backpointer
clear-frame w s WaitSetSourceTag.endpoint = (refl, refl)
clear-frame w s WaitSetSourceTag.signal = (refl, refl)
clear-frame w s WaitSetSourceTag.event_queue = (refl, refl)

-- The body of the loop.
abbrev clear_one : World → Option WaitSetMember → World
clear_one w none = w
clear_one w (some m) = clear_source_backpointer w m.source_ptr m.source_tag

clear_one-frame :
    (w : World) (o : Option WaitSetMember)
    → ((clear_one w o).wait_sets ≡ w.wait_sets) × ((clear_one w o).machine ≡ w.machine)
clear_one-frame w none = (refl, refl)
clear_one-frame w (some m) = clear-frame w m.source_ptr m.source_tag

clear_one-keeps :
    (w : World) (o : Option WaitSetMember) (j : ℕ) (tag : WaitSetSourceTag)
    → back_pointer w j tag ≡ 0
    → back_pointer (clear_one w o) j tag ≡ 0
clear_one-keeps w none j tag h = h
clear_one-keeps w (some m) j tag h = clear-keeps w m.source_ptr j m.source_tag tag h

clear_members-suc :
    (w : World) (members : ℕ → Option WaitSetMember) (n : ℕ)
    → clear_members w members (suc n) ≡ clear_one (clear_members w members n) (members n)
unfolding clear_members
clear_members-suc w members n = step (members n)
  where
    step :
        (o : Option WaitSetMember)
        → elim o [
          | none ↦ clear_members w members n
          | some m ↦ clear_source_backpointer (clear_members w members n) m.source_ptr m.source_tag
        ]
          ≡ clear_one (clear_members w members n) o
    step none = refl
    step (some m) = refl

pub clear_members-frame :
    (w : World) (members : ℕ → Option WaitSetMember) (n : ℕ)
    → ((clear_members w members n).wait_sets ≡ w.wait_sets)
      × ((clear_members w members n).machine ≡ w.machine)
unfolding clear_members
clear_members-frame w members zero = (refl, refl)
clear_members-frame w members (suc n) =
    let (sets, machine) = clear_members-frame w members n in
    let (sets', machine') = clear_one-frame (clear_members w members n) (members n) in
    let last = clear_members-suc w members n in
    (
      ap (λ (x : World). x.wait_sets) last ∙ sets' ∙ sets,
      ap (λ (x : World). x.machine) last ∙ machine' ∙ machine,
    )

pub clear_members-all :
    (w : World) (members : ℕ → Option WaitSetMember) (n i : ℕ) (m : WaitSetMember)
    → i < n
    → members i ≡ some m
    → back_pointer (clear_members w members n) m.source_ptr m.source_tag ≡ 0
clear_members-all w members zero i m h e = absurd (omega arith)
clear_members-all w members (suc n) i m h e =
    let before = clear_members w members n in
    ap (λ x. back_pointer x m.source_ptr m.source_tag) (clear_members-suc w members n)
    ∙ elim (ℕ_discrete i n) [
      | yes q ↦
          subst (λ o. back_pointer (clear_one before o) m.source_ptr m.source_tag ≡ 0)
            (sym (ap members (sym q) ∙ e)) (clear_self before m.source_ptr m.source_tag)
      | no q ↦
          clear_one-keeps before (members n) m.source_ptr m.source_tag
            (clear_members-all w members n i m (omega (arith, h, q)) e)
    ]
