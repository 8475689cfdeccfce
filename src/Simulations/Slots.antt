-- ===== src/Simulations/Slots.antt =====
-- pkg/brainapi/client.go: the channel simSem behind reserveSimSlot, with the callers of the create
-- functions interleaved in any order. A caller holds its slot until the deferred release.
use brainapi_go_sdk.Prelude.{
  update, ℕ, zero, suc, ◌+◌, ◌-◌, ◌<◌, ◌≤◌, ◌≡◌, refl, Bool, true, false, ◌==◌, ==_iff, Bool-cases,
  inl, inr, ap, sym, ◌∙◌, arith, ltb, ltb→lt,
}

pub data Caller : Type 0 where
  outside : Caller  -- before reserveSimSlot, or behind the call
  queued : Caller  -- at the select
  holding : Caller  -- between the select and the release

-- The number of tokens in the channel, each caller, and whether its context is done.
pub record Slots : Type 0 where
  pub held : ℕ
  pub caller : ℕ → Caller
  pub is_done : ℕ → Bool

-- A step of one of n callers with room for `cap` tokens.
pub data Step (cap n : ℕ) (s : Slots) : Slots → Type 0 where
  arrive :
      (i : ℕ)
      → i < n
      → s.caller i ≡ outside
      → Step cap n s (record s { caller = update s.caller i queued })
  acquire :
      (i : ℕ)
      → i < n
      → s.caller i ≡ queued
      → s.held < cap
      → Step cap n s (record s { held = s.held + 1; caller = update s.caller i holding })
  give_up :
      (i : ℕ)
      → i < n
      → s.caller i ≡ queued
      → s.is_done i ≡ true
      → Step cap n s (record s { caller = update s.caller i outside })
  release :
      (i : ℕ)
      → i < n
      → s.caller i ≡ holding
      → Step cap n s (record s { held = s.held - 1; caller = update s.caller i outside })
  expire : (i : ℕ) → Step cap n s (record s { is_done = update s.is_done i true })

abbrev pub empty : Slots
empty = record { held = 0; caller = λ _. outside; is_done = λ _. false }

pub data Run (cap n : ℕ) (s : Slots) : Slots → Type 0 where
  here : Run cap n s s
  then_step : {t u : Slots} → Run cap n s t → Step cap n t u → Run cap n s u

abbrev one : Caller → ℕ
one holding = 1
one _ = 0

-- The callers below n that hold a slot.
abbrev pub holders : ℕ → (ℕ → Caller) → ℕ
holders zero f = 0
holders (suc n) f = one (f n) + holders n f

update_at : (i j : ℕ) (f : ℕ → Caller) (p : Caller) → (j == i) ≡ true → update f i p j ≡ p
update_at i j f p e = rw e refl

update_off : (i j : ℕ) (f : ℕ → Caller) (p : Caller) → (j == i) ≡ false → update f i p j ≡ f j
update_off i j f p e = rw e refl

update_out :
    (n i : ℕ) (f : ℕ → Caller) (p : Caller) → n ≤ i → holders n (update f i p) ≡ holders n f
update_out zero i f p h = refl
update_out (suc n) i f p h =
    let off : (n == i) ≡ false = ground arith in
    omega (arith, ap one (update_off i n f p off), update_out n i f p (omega arith))

holders-update :
    (n i : ℕ) (f : ℕ → Caller) (p : Caller)
    → i < n
    → holders n (update f i p) + one (f i) ≡ holders n f + one p
holders-update zero i f p h = absurd (omega arith)
holders-update (suc n) i f p h = elim (Bool-cases (n == i)) [
  | inl e ↦
      let same = (==_iff n i).0 e in
      omega (
        arith,
        ap one (update_at i n f p e),
        ap (λ j. one (f j)) same,
        update_out n i f p (omega (arith, same)),
      )
  | inr e ↦
      let below : i < n = ground arith in
      omega (arith, ap one (update_off i n f p e), holders-update n i f p below)
]

-- A caller of a slot, when one is held.
some_holder : (n : ℕ) (f : ℕ → Caller) → 0 < holders n f → (i : ℕ) × (i < n) × (f i ≡ holding)
some_holder zero f h = absurd (omega arith)
some_holder (suc n) f h = by_last (f n) refl (some_holder n f)
  where
    later : (i : ℕ) × (i < n) × (f i ≡ holding) → (i : ℕ) × (i < suc n) × (f i ≡ holding)
    later (i, l, e) = (i, omega arith, e)

    by_last :
        (c : Caller)
        → f n ≡ c
        → (0 < holders n f → (i : ℕ) × (i < n) × (f i ≡ holding))
        → (i : ℕ) × (i < suc n) × (f i ≡ holding)
    by_last holding e ih = (n, omega arith, e)
    by_last outside e ih = later (ih (omega (arith, ap one e)))
    by_last queued e ih = later (ih (omega (arith, ap one e)))

-- The channel holds a token for each caller with a slot, and has room for them.
pub record IsCounted (cap n : ℕ) (s : Slots) : Type 0 where
  pub counted : holders n s.caller ≡ s.held
  pub room : s.held ≤ cap

Step-IsCounted : (cap n : ℕ) (s t : Slots) → Step cap n s t → IsCounted cap n s → IsCounted cap n t
Step-IsCounted cap n s t (arrive i l e) c = record {
  counted = omega (arith, c.counted, ap one e, holders-update n i s.caller queued l);
  room = c.room;
}
Step-IsCounted cap n s t (acquire i l e r) c = record {
  counted = omega (arith, c.counted, ap one e, holders-update n i s.caller holding l);
  room = omega arith;
}
Step-IsCounted cap n s t (give_up i l e d) c = record {
  counted = omega (arith, c.counted, ap one e, holders-update n i s.caller outside l);
  room = c.room;
}
Step-IsCounted cap n s t (release i l e) c = record {
  counted = omega (arith, c.counted, ap one e, holders-update n i s.caller outside l);
  room = omega (arith, c.room);
}
Step-IsCounted cap n s t (expire i) c = record { counted = c.counted; room = c.room }

holders-none : (n : ℕ) → holders n (λ _. outside) ≡ 0
holders-none zero = refl
holders-none (suc n) = omega (arith, holders-none n)

Run-IsCounted : (cap n : ℕ) {s : Slots} → Run cap n empty s → IsCounted cap n s
Run-IsCounted cap n here = record { counted = holders-none n; room = omega arith }
Run-IsCounted cap n (then_step {t} {u} r d) = Step-IsCounted cap n t u d (Run-IsCounted cap n r)

-- In every interleaving of callers of the create functions from an empty channel, no more callers
-- hold a slot than the channel has room for, and the channel holds one token for each of them.
pub holders_le :
    (cap n : ℕ) {s : Slots}
    → Run cap n empty s
    → (holders n s.caller ≤ cap) × (s.held ≡ holders n s.caller)
holders_le cap n r =
    let c = Run-IsCounted cap n r in (omega (arith, c.counted, c.room), sym c.counted)

not_itself : (f : ℕ → Caller) (i j : ℕ) → f i ≡ queued → f j ≡ holding → (i == j) ≡ false
not_itself f i j e d = elim (Bool-cases (i == j)) [
  | inl t ↦ absurd (clash (sym e ∙ ap f ((==_iff i j).0 t) ∙ d))
  | inr t ↦ t
]
  where
    clash : queued ≡ holding → ⊥
    clash h = cc

taken :
    (cap n i : ℕ) (s : Slots)
    → i < n
    → s.caller i ≡ queued
    → s.held < cap
    → (t : Slots) × Step cap n s t × (t.caller i ≡ holding)
taken cap n i s l e f = (
  record s { held = s.held + 1; caller = update s.caller i holding },
  acquire i l e f,
  update_at i i s.caller holding (ground arith),
)

-- With room for at least one token, a caller that waits for a slot can get one: from every state
-- that the callers can reach some run takes it into the section that the slot guards, over the
-- release of another caller where the channel is full.
pub queued-Proceeds :
    (cap n i : ℕ) {s : Slots}
    → 0 < cap
    → Run cap n empty s
    → i < n
    → s.caller i ≡ queued
    → (t : Slots) × Run cap n s t × (t.caller i ≡ holding)
queued-Proceeds cap n i {s} p r l e = elim (Bool-cases (ltb s.held cap)) [
  | inl f ↦ let (t, d, h) = taken cap n i s l e (ltb→lt s.held cap f) in (t, then_step here d, h)
  | inr f ↦
      let c = Run-IsCounted cap n r in
      let full : cap ≤ s.held = ground arith in
      let (j, jl, je) = some_holder n s.caller (omega (arith, c.counted)) in
      let freed : Slots = record s { held = s.held - 1; caller = update s.caller j outside } in
      let (t, d, h) =
        taken cap n i freed l (update_off j i s.caller outside (not_itself s.caller i j e je) ∙ e)
          (omega (arith, c.room)) in
      (t, then_step (then_step here (release j jl je)) d, h)
]
