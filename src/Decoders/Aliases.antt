-- ===== src/Decoders/Aliases.antt =====
-- The aliases of a key.
use brainapi_go_sdk.Prelude.{◌≡◌, refl, Option, none, some, List, [], ◌∷◌, ◌++◌, Text, ap}
use brainapi_go_sdk.Decoders.{get_key, first_ptr, bind_option, or_else}

module _ {A : Type 0} (decode : Text → Option A) (m : List (Text × Text)) where
  -- What a key gives.
  abbrev pub value_of : Text → Option A
  value_of k = bind_option (get_key m k) decode

  -- None of the keys gives a value.
  abbrev pub AllFail : List Text → Type 0
  AllFail [] = Unit {0}
  AllFail (k ∷ ks) = (value_of k ≡ none) × AllFail ks

  -- The value of the first key that gives one.
  abbrev pub IsFirst : List Text → Option A → Type 0
  IsFirst ks none = AllFail ks
  IsFirst ks (some a) =
      (before : List Text) × (k : Text) × (after : List Text) × (ks ≡ before ++ (k ∷ after))
      × AllFail before
      × (value_of k ≡ some a)

  skipped :
      (k : Text) (ks : List Text) (o : Option A)
      → value_of k ≡ none
      → IsFirst ks o
      → IsFirst (k ∷ ks) o
  skipped k ks none e h = (e, h)
  skipped k ks (some a) e (before, k', after, split, fails, v) =
      (k ∷ before, k', after, ap (λ l. k ∷ l) split, (e, fails), v)

  -- firstFloatPtr and firstIntPtr give the value of the first key of the list that is present and
  -- decodes, and nothing exactly when no key is present and decodes.
  pub first_ptr-IsFirst : (ks : List Text) → IsFirst ks (first_ptr decode m ks)
  unfolding first_ptr
  first_ptr-IsFirst [] = tt
  first_ptr-IsFirst (k ∷ ks) = by_value (value_of k) refl (first_ptr-IsFirst ks)
    where
      by_value :
          (o : Option A)
          → value_of k ≡ o
          → IsFirst ks (first_ptr decode m ks)
          → IsFirst (k ∷ ks) (or_else o (first_ptr decode m ks))
      by_value none e h = skipped k ks (first_ptr decode m ks) e h
      by_value (some a) e h = ([], k, ks, refl, tt, e)
