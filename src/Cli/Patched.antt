-- ===== src/Cli/Patched.antt =====
-- The body of the PATCH that `alphas set-properties` sends, against the flags that were passed.
use brainapi_go_sdk.Prelude.{
  ◌↔◌, none, refl, [], sym, ◌≢◌, inr, ◌⊎◌, inl, ◌∷◌, codes, ◌++◌, some, Option, ◌≡◌, List, Text,
}
use brainapi_go_sdk.Cli.Alphas.{leg, tag_list, properties_of, PropertyFlags}
use brainapi_go_sdk.Alphas.Properties.{leg_member, text_member, texts_member, wire_members}
use brainapi_go_sdk.Types.{texts_of, text_of, leg_of, Member}
use brainapi_go_sdk.Cli.{split_tags}

-- The member of the body that each flag stands for.
pub data IsSent (f : PropertyFlags) : Text → Member → Type 0 where
  description_sent :
      (d : Text) → f.description ≡ some d → IsSent f (codes "regular") (leg_of (some d))
  combo_sent :
      (d : Text) → f.combo_description ≡ some d → IsSent f (codes "combo") (leg_of (some d))
  selection_sent :
      (d : Text) → f.selection_description ≡ some d → IsSent f (codes "selection") (leg_of (some d))
  name_sent : (t : Text) → f.name ≡ some t → IsSent f (codes "name") (text_of t)
  color_sent : (t : Text) → f.color ≡ some t → IsSent f (codes "color") (text_of t)
  category_sent : (t : Text) → f.category ≡ some t → IsSent f (codes "category") (text_of t)
  tags_sent :
      (raw : Text)
      → f.tags ≡ some raw
      → split_tags raw ≢ []
      → IsSent f (codes "tags") (texts_of (split_tags raw))

abbrev pub Has : Text → Member → List (Text × Member) → Type 0
Has k m [] = ⊥
Has k m ((k', m') ∷ rest) = ((k ≡ k') × (m ≡ m')) ⊎ Has k m rest

module _ (k : Text) (m : Member) where
  Has-left : (xs ys : List (Text × Member)) → Has k m xs → Has k m (xs ++ ys)
  Has-left [] ys h = absurd h
  Has-left (x ∷ xs) ys (inl e) = inl e
  Has-left (x ∷ xs) ys (inr h) = inr (Has-left xs ys h)

  Has-right : (xs ys : List (Text × Member)) → Has k m ys → Has k m (xs ++ ys)
  Has-right [] ys h = h
  Has-right (x ∷ xs) ys h = inr (Has-right xs ys h)

  -- Where a member of two lists stands.
  Has-either :
      {G : Type 0} (xs ys : List (Text × Member))
      → (Has k m xs → G)
      → (Has k m ys → G)
      → Has k m (xs ++ ys)
      → G
  Has-either [] ys l r h = r h
  Has-either (x ∷ xs) ys l r (inl e) = l (inl e)
  Has-either (x ∷ xs) ys l r (inr h) = Has-either xs ys (λ g. l (inr g)) r h

module _ (f : PropertyFlags) (k : Text) (m : Member) where
  abbrev Goal : Type 0
  Goal = IsSent f k m

  from_leg :
      (key : Text) (o : Option Text)
      → ((d : Text) → o ≡ some d → IsSent f key (leg_of (some d)))
      → Has k m (leg_member key (leg o))
      → Goal
  from_leg key none sent h = absurd h
  from_leg key (some d) sent (inl (e, q)) = rw e (rw q (sent d refl))
  from_leg key (some d) sent (inr h) = absurd h

  from_text :
      (key : Text) (o : Option Text)
      → ((t : Text) → o ≡ some t → IsSent f key (text_of t))
      → Has k m (text_member key o)
      → Goal
  from_text key none sent h = absurd h
  from_text key (some t) sent (inl (e, q)) = rw e (rw q (sent t refl))
  from_text key (some t) sent (inr h) = absurd h

  from_tags :
      (o : Option Text) → f.tags ≡ o → Has k m (texts_member (codes "tags") (tag_list o)) → Goal
  from_tags none e h = absurd h
  from_tags (some raw) e h = split (split_tags raw) refl h
    where
      split :
          (ts : List Text) → split_tags raw ≡ ts → Has k m (texts_member (codes "tags") ts) → Goal
      split [] q h = absurd h
      split (t ∷ ts) q (inl (a, b)) = rw a (rw b (rw (sym q) (tags_sent raw e (λ n. cc))))
      split (t ∷ ts) q (inr h) = absurd h

  wire_members-IsSent : Has k m (wire_members (properties_of f)) → Goal
  unfolding wire_members properties_of
  wire_members-IsSent = Has-either k m _ _ (from_leg _ f.description description_sent) (
      Has-either k m _ _ (from_leg _ f.combo_description combo_sent) (
        Has-either k m _ _ (from_leg _ f.selection_description selection_sent) (
          Has-either k m _ _ (from_text _ f.name name_sent) (
            Has-either k m _ _ (from_text _ f.color color_sent) (
              Has-either k m _ _ (from_text _ f.category category_sent) (from_tags f.tags refl))))))

leg-Has :
    (key : Text) (o : Option Text) (d : Text)
    → o ≡ some d
    → Has key (leg_of (some d)) (leg_member key (leg o))
leg-Has key none d e = absurd_none d e
  where
    absurd_none : {X : Type 0} (d : Text) → none ≡ some d → X
    absurd_none d e = cc
leg-Has key (some x) d e = inl (refl, rw e refl)

text-Has :
    (key : Text) (o : Option Text) (t : Text) → o ≡ some t → Has key (text_of t) (text_member key o)
text-Has key none t e = cc
text-Has key (some x) t e = inl (refl, cc)

texts_member-Has :
    (ts : List Text) → ts ≢ [] → Has (codes "tags") (texts_of ts) (texts_member (codes "tags") ts)
texts_member-Has [] h = absurd (h refl)
texts_member-Has (t ∷ ts) h = inl (refl, refl)

tags-Has :
    (o : Option Text) (raw : Text)
    → o ≡ some raw
    → split_tags raw ≢ []
    → Has (codes "tags") (texts_of (split_tags raw)) (texts_member (codes "tags") (tag_list o))
tags-Has o raw e h = rw e (texts_member-Has (split_tags raw) h)

module _ (f : PropertyFlags) where
  abbrev regular_part : List (Text × Member)
  regular_part = leg_member (codes "regular") (leg f.description)

  abbrev combo_part : List (Text × Member)
  combo_part = leg_member (codes "combo") (leg f.combo_description)

  abbrev selection_part : List (Text × Member)
  selection_part = leg_member (codes "selection") (leg f.selection_description)

  abbrev name_part : List (Text × Member)
  name_part = text_member (codes "name") f.name

  abbrev color_part : List (Text × Member)
  color_part = text_member (codes "color") f.color

  abbrev category_part : List (Text × Member)
  category_part = text_member (codes "category") f.category

  Has-wire_members :
      (k : Text) (m : Member) → IsSent f k m → Has k m (wire_members (properties_of f))
  unfolding wire_members properties_of
  Has-wire_members k m (description_sent d e) =
      Has-left k m regular_part _ (leg-Has k f.description d e)
  Has-wire_members k m (combo_sent d e) =
      Has-right k m regular_part _ (Has-left k m combo_part _ (leg-Has k f.combo_description d e))
  Has-wire_members k m (selection_sent d e) = Has-right k m regular_part _ (
      Has-right k m combo_part _
        (Has-left k m selection_part _ (leg-Has k f.selection_description d e)))
  Has-wire_members k m (name_sent t e) = Has-right k m regular_part _ (
      Has-right k m combo_part _
        (Has-right k m selection_part _ (Has-left k m name_part _ (text-Has k f.name t e))))
  Has-wire_members k m (color_sent t e) = Has-right k m regular_part _ (
      Has-right k m combo_part _ (
        Has-right k m selection_part _
          (Has-right k m name_part _ (Has-left k m color_part _ (text-Has k f.color t e)))))
  Has-wire_members k m (category_sent t e) = Has-right k m regular_part _ (
      Has-right k m combo_part _ (
        Has-right k m selection_part _ (
          Has-right k m name_part _ (
            Has-right k m color_part _
              (Has-left k m category_part _ (text-Has k f.category t e))))))
  Has-wire_members k m (tags_sent raw e h) = Has-right k m regular_part _ (
      Has-right k m combo_part _ (
        Has-right k m selection_part _ (
          Has-right k m name_part _ (
            Has-right k m color_part _ (Has-right k m category_part _ (tags-Has f.tags raw e h))))))

-- The members that encoding/json makes of the properties are those of the flags.
pub properties_of-IsSent :
    (f : PropertyFlags) (k : Text) (m : Member)
    → Has k m (wire_members (properties_of f)) ↔ IsSent f k m
properties_of-IsSent f k m = (wire_members-IsSent f k m, Has-wire_members f k m)
