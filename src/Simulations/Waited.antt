-- ===== src/Simulations/Waited.antt =====
-- What WaitForSimulation and WaitForMultiSimulation return.
use brainapi_go_sdk.Prelude.{
  length-append, some, inr, inl, subst, false, Option, pos_part, codes, if_elim, arith, ◌&&◌, ◌⊎◌,
  ◌+◌, ◌++◌, ◌≡◌, Text, length, Bool, List, ℕ, [], ◌∷◌, none, true, refl, zero, suc,
}
use brainapi_go_sdk.World.Monad.{M, continue_rule, Outcome, ok, err, diverged}
use brainapi_go_sdk.Simulations.Wait.{
  stop_if, or_first, wait_children, after_child, wait_for_multi_simulation, poll_sleep,
  get_simulation_raw, is_final, Resolved, wait_loop, wait_for_simulation,
}
use brainapi_go_sdk.Types.{Simulation}
use brainapi_go_sdk.Client.{require_non_empty, Setup}
use brainapi_go_sdk.World.{World}
use brainapi_go_sdk.Alphas.Submit.{pause}
use brainapi_go_sdk.Errors.{Error}

-- A simulation that is waited for is final.
abbrev pub Waits : Outcome Simulation × World → Type 0
Waits (ok s, w) = is_final s ≡ true
Waits (err e, w) = Unit {0}
Waits (diverged, w) = Unit {0}

wait_loop-Waits : (c : Setup) (id : Text) (n : ℕ) (w : World) → Waits (wait_loop c id n w)
unfolding wait_loop
wait_loop-Waits c id zero w = tt
wait_loop-Waits c id (suc n) w =
    continue_rule Waits (get_simulation_raw c id w) _ (λ _ _. tt) (λ _. tt)
      λ s v _.
        if_elim (λ (m : M Simulation). Waits (m v)) (is_final s.0) _ _ (λ b. b)
          λ _.
            continue_rule Waits (pause c (poll_sleep s.1) v) _ (λ _ _. tt) (λ _. tt)
              (λ _ u _. wait_loop-Waits c id n u)

pub wait_for_simulation-Waits :
    (c : Setup) (id : Text) (w : World) → Waits (wait_for_simulation c id w)
unfolding wait_for_simulation
wait_for_simulation-Waits c id w =
    continue_rule Waits (require_non_empty id (codes "simulation id") w) _ (λ _ _. tt) (λ _. tt)
      (λ _ v _. wait_loop-Waits c id (pos_part c.max_long_polls) v)

abbrev pub all_final : List Simulation → Bool
all_final [] = true
all_final (s ∷ ss) = is_final s && all_final ss

abbrev pub is_reported : Option Error → Bool
is_reported none = false
is_reported (some e) = true

-- The children are final, and unless an error is reported they are as many as the parent has.
pub record Complete (n : ℕ) (r : Resolved) : Type 0 where
  pub final : all_final r.0 ≡ true
  pub counted : (is_reported r.1 ≡ true) ⊎ (length r.0 ≡ n)

abbrev Completes : ℕ → Outcome Resolved × World → Type 0
Completes n (ok r, w) = Complete n r
Completes n (err e, w) = Unit {0}
Completes n (diverged, w) = Unit {0}

final-append :
    (ss : List Simulation) (s : Simulation)
    → all_final ss ≡ true
    → is_final s ≡ true
    → all_final (ss ++ (s ∷ [])) ≡ true
final-append [] s h k = ground arith
final-append (x ∷ ss) s h k = ground (arith, final-append ss s)

module _ (c : Setup) (n : ℕ) where
  -- The same with m children to go.
  record Progress (m : ℕ) (r : Resolved) : Type 0 where
    done : all_final r.0 ≡ true
    open_ : (is_reported r.1 ≡ true) ⊎ (length r.0 + m ≡ n)

  added :
      (m : ℕ) (r : Resolved) (s : Simulation)
      → is_final s ≡ true
      → Progress (suc m) r
      → Progress m (r.0 ++ (s ∷ []), r.1)
  added m r s f p = record {
    done = final-append r.0 s p.done f;
    open_ = elim p.open_ [
      | inl x ↦ inl x
      | inr x ↦ inr (omega (arith, length-append r.0 (s ∷ []), x))
    ];
  }

  failed :
      (m : ℕ) (r : Resolved) (e : Error) → Progress (suc m) r → Progress m (r.0, or_first r.1 e)
  failed m (ss, none) e p = record { done = p.done; open_ = inl refl }
  failed m (ss, some x) e p = record { done = p.done; open_ = inl refl }

  stopped :
      (m : ℕ) (o : Option Error) (r : Resolved) (e : Error) (again : M Resolved) (w : World)
      → Progress (suc m) r
      → Completes n (again w)
      → Completes n (stop_if o (r.0, or_first r.1 e) again w)
  stopped m none r e again w p h = h
  stopped m (some x) (ss, none) e again w p h = record { final = p.done; counted = inl refl }
  stopped m (some x) (ss, some y) e again w p h = record { final = p.done; counted = inl refl }

  child-Completes :
      (m : ℕ) (r : Resolved) (again : Resolved → M Resolved) (o : Outcome Simulation × World)
      → Waits o
      → Progress (suc m) r
      → ((t : Resolved) (w : World) → Progress m t → Completes n (again t w))
      → Completes n (after_child c r again o)
  unfolding after_child
  child-Completes m r again (ok s, w) f p h = h _ w (added m r s f p)
  child-Completes m r again (err e, w) f p h =
      stopped m (c.ctx_err w.tick) r e _ w p (h _ w (failed m r e p))
  child-Completes m r again (diverged, w) f p h = tt

  children-Completes :
      (ids : List Text) (r : Resolved) (w : World)
      → Progress (length ids) r
      → Completes n (wait_children c ids r w)
  unfolding wait_children
  children-Completes [] r w p = record {
    final = p.done;
    counted = elim p.open_ [ inl x ↦ inl x | inr x ↦ inr (omega (arith, x)) ];
  }
  children-Completes (id ∷ ids) r w p =
      child-Completes (length ids) r (wait_children c ids) (wait_for_simulation c id w)
        (wait_for_simulation-Waits c id w) p (children-Completes ids)

-- A parent that is final, and its children.
abbrev pub Gathers : Outcome (Simulation × Resolved) × World → Type 0
Gathers (ok (parent, r), w) = (is_final parent ≡ true) × Complete (length parent.children) r
Gathers (err e, w) = Unit {0}
Gathers (diverged, w) = Unit {0}

-- What WaitForMultiSimulation returns is a parent that is final and children that are all final,
-- and unless it reports an error they are as many as the parent names.
pub wait_for_multi_simulation-Gathers :
    (c : Setup) (id : Text) (w : World) → Gathers (wait_for_multi_simulation c id w)
unfolding wait_for_multi_simulation
wait_for_multi_simulation-Gathers c id w =
    continue_rule Gathers (require_non_empty id (codes "parent simulation id") w) _ (λ _ _. tt)
      (λ _. tt)
      λ _ v _.
        continue_rule Gathers (wait_for_simulation c id v) _ (λ _ _. tt) (λ _. tt)
          λ parent u e.
            continue_rule Gathers (wait_children c parent.children ([], none) u) _ (λ _ _. tt)
              (λ _. tt)
              λ r t k. (
                subst Waits e (wait_for_simulation-Waits c id v),
                subst (Completes (length parent.children)) k (
                    children-Completes c (length parent.children) parent.children ([], none) u
                      (record { done = refl; open_ = inr (omega arith) })),
              )
