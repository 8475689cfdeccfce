-- ===== src/Alphas/Properties.antt =====
-- pkg/brainapi/alphas.go: the members of the PATCH body that encoding/json makes of AlphaProperties. The
-- tag of every field has omitempty, which leaves out a nil pointer and an empty slice.
use brainapi_go_sdk.Prelude.{none, ◌++◌, some, codes, [], ◌∷◌, List, Text, Option}
use brainapi_go_sdk.Types.{text_of, texts_of, leg_of, Member, AlphaProperties}

abbrev pub leg_member : Text → Option (Option Text) → List (Text × Member)
leg_member key none = []
leg_member key (some d) = (key, leg_of d) ∷ []

abbrev pub text_member : Text → Option Text → List (Text × Member)
text_member key none = []
text_member key (some t) = (key, text_of t) ∷ []

abbrev pub texts_member : Text → List Text → List (Text × Member)
texts_member key [] = []
texts_member key (t ∷ ts) = (key, texts_of (t ∷ ts)) ∷ []

-- AlphaProperties
unfoldable pub wire_members : AlphaProperties → List (Text × Member)
wire_members p =
    leg_member (codes "regular") p.regular
    ++ (leg_member (codes "combo") p.combo
        ++ (leg_member (codes "selection") p.selection
            ++ (text_member (codes "name") p.name
                ++ (text_member (codes "color") p.color
                    ++ (text_member (codes "category") p.category
                        ++ texts_member (codes "tags") p.tags)))))
