-- ===== src/Iterators/Served.antt =====
-- paginateAll over a server that pages through a list.
use mathlib.Core.List.{append-nil}
use brainapi_go_sdk.Prelude.{
  length-drop, take-append-drop, ◌++◌, length-take, Bool-cases, leb, pos, ◌^◌, ◌<◌, sym, ℤ, ap,
  arith, ◌+◌, take, ◌≡◌, ◌≤◌, length, drop, List, Option, ℕ, [], ◌∷◌, none, zero, suc, refl, inl,
  inr, ◌∙◌, false,
}
use brainapi_go_sdk.Iterators.{
  paginate_all, prepend, is_nil, finished, walk, Stream, PageOf, next_offset, send_items,
}
use brainapi_go_sdk.Errors.{Error}
use brainapi_go_sdk.World.Monad.{ok, M}
use brainapi_go_sdk.World.{World}

next_offset_lem : (n k : ℕ) → n + k < 2 ^ 63 → next_offset (pos n) k ≡ pos (n + k)
unfolding next_offset
next_offset_lem n k h = ground arith

module _ {T : Type 0} where
  all_sent :
      (choice : ℕ → Option Error)
      → ((i : ℕ) → choice i ≡ none)
      → (k : ℕ) (xs : List T) → send_items choice k xs ≡ (xs, none)
  unfolding send_items
  all_sent choice h k [] = refl
  all_sent choice h k (x ∷ xs) = rw (h k, all_sent choice h (suc k) xs) refl

  take_all : (n : ℕ) (xs : List T) → length xs ≤ n → take n xs ≡ xs
  take_all zero [] h = refl
  take_all zero (x ∷ xs) h = absurd (omega arith)
  take_all (suc n) [] h = refl
  take_all (suc n) (x ∷ xs) h = ap (◌∷◌ x) (take_all n xs (omega arith))

  drop_nil : (m : ℕ) → drop {A = T} m [] ≡ []
  drop_nil zero = refl
  drop_nil (suc m) = refl

  drop-drop : (m n : ℕ) (xs : List T) → drop m (drop n xs) ≡ drop (n + m) xs
  drop-drop m zero xs = let e : m ≡ 0 + m = omega arith in ap (λ i. drop i xs) e
  drop-drop m (suc n) [] =
      let e : suc n + m ≡ suc (n + m) = omega arith in
      drop_nil m ∙ ap (λ i. drop {A = T} i []) (sym e)
  drop-drop m (suc n) (x ∷ xs) =
      let e : suc n + m ≡ suc (n + m) = omega arith in
      drop-drop m n xs ∙ ap (λ i. drop i (x ∷ xs)) (sym e)

  some_left : (xs : List T) → 0 < length xs → is_nil xs ≡ false
  some_left [] h = absurd (omega arith)
  some_left (x ∷ xs) h = refl

  -- The server pages through `all`: a page at an offset has the next items, one at least unless none
  -- is left, and it is called the last exactly when none is left behind it.
  abbrev pub Pages : List T → (ℤ → M (PageOf T)) → Type 0
  Pages all fetch =
      (n : ℕ) (w : World)
      → (k : ℕ) × (v : World) × (fetch (pos n) w
          ≡ (ok (take (suc k) (drop n all), leb (length all) (n + suc k)), v))

  module _ (all : List T) (fetch : ℤ → M (PageOf T)) (choice : ℕ → Option Error)
      (serve : Pages all fetch) (room : length all < 2 ^ 63)
      (open_ : (i : ℕ) → choice i ≡ none) where
    abbrev Whole : ℕ → Stream T × World → Type 0
    Whole n f = (f.0.items ≡ drop n all) × (f.0.ending ≡ finished)

    last_page :
        (n j : ℕ)
        → length all ≤ n + suc j
        → (take (suc j) (drop n all) ++ [] ≡ drop n all) × (finished ≡ finished)
    last_page n j h = (
      append-nil (take (suc j) (drop n all))
          ∙ take_all (suc j) (drop n all) (omega (arith, length-drop n all)),
      refl,
    )

    page_length : (n j : ℕ) → n + suc j < length all → length (take (suc j) (drop n all)) ≡ suc j
    page_length n j h = omega (arith, length-take (suc j) (drop n all), length-drop n all)

    not_nil : (n j : ℕ) → n + suc j < length all → is_nil (take (suc j) (drop n all)) ≡ false
    not_nil n j h = some_left (take (suc j) (drop n all)) (omega (arith, page_length n j h))

    more_pages :
        (n j : ℕ) (f : Stream T × World)
        → Whole (n + suc j) f
        → Whole n (prepend (take (suc j) (drop n all)) f)
    more_pages n j (s, w) h = (
      ap (λ t. take (suc j) (drop n all) ++ t) (h.0 ∙ sym (drop-drop (suc j) n all))
          ∙ take-append-drop (suc j) (drop n all),
      h.1,
    )

    walk-Whole :
        (fuel n k : ℕ) (w : World)
        → length all < n + fuel
        → n ≤ length all
        → Whole n (walk fetch choice fuel (pos n) k w)
    unfolding walk
    walk-Whole zero n k w h l = absurd (omega arith)
    walk-Whole (suc fuel) n k w h l =
        let (j, v, e) = serve n w in
        rw (e, all_sent choice open_ k (take (suc j) (drop n all)))
          (elim (Bool-cases (leb (length all) (n + suc j))) [
            | inl d ↦ rw d (last_page n j (ground arith))
            | inr d ↦
                rw
                  (
                    d,
                    not_nil n j (ground arith),
                    page_length n j (ground arith),
                    next_offset_lem n (suc j) (ground arith),
                  )
                  (more_pages n j (walk fetch choice fuel (pos (n + suc j)) (k + suc j) v)
                    (walk-Whole fuel (n + suc j) (k + suc j) v (omega arith) (ground arith)))
          ])

    -- Over a server that pages through a list of fewer than 2^63 items, and calls a page the last
    -- exactly when no item is left behind it, paginateAll from an offset in the list sends all
    -- items from that offset on, in order, and ends without an error, where no send is refused;
    -- fuel for more pages than there are items left is enough.
    pub paginate_all-Whole :
        (fuel n : ℕ) (w : World)
        → length all < n + fuel
        → n ≤ length all
        → ((paginate_all fetch choice fuel (pos n) w).0.items ≡ drop n all)
          × ((paginate_all fetch choice fuel (pos n) w).0.ending ≡ finished)
    unfolding paginate_all
    paginate_all-Whole fuel n w = walk-Whole fuel n 0 w
