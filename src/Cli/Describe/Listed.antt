-- ===== src/Cli/Describe/Listed.antt =====
-- The commands that `brainapi describe` lists, against the commands that cobra's tree leads to.
use brainapi_go_sdk.Prelude.{
  codes, text_eq, arith, Bool, ap, sym, [], true, inr, ◌↔◌, ◌≡◌, inl, ◌⊎◌, ◌∷◌, ◌++◌, if◌then◌else◌,
  false, ◌∙◌, refl, Text, List,
}
use mathlib.Core.List.{append_assoc}
use brainapi_go_sdk.Cli.Describe.{
  command, next, end, spec_of, walk_command, is_listed, Command, CommandSpec, Header, walk_commands,
  Commands,
}

pub data Among : Command → Commands → Type 0 where
  first : (c : Command) (cs : Commands) → Among c (next c cs)
  later : (c d : Command) (cs : Commands) → Among c cs → Among c (next d cs)

-- What a command needs to be listed, with its group.
abbrev pub IsListed : Header → Type 0
IsListed h =
    (h.hidden ≡ false)
    × (text_eq h.name (codes "help") ≡ false)
    × (text_eq h.name (codes "completion") ≡ false)

shown : (h : Header) → is_listed h ≡ true → IsListed h
unfolding is_listed
shown h e = ground arith

IsListed-shown : (h : Header) → IsListed h → is_listed h ≡ true
unfolding is_listed
IsListed-shown h (v, n, c) = rw v (rw n (rw c refl))

-- A command leads by a path of names, each of a command that is listed, to one that has no
-- subcommands.
pub data Leads : Command → List Text → Header → Type 0 where
  leaf : (h : Header) → IsListed h → Leads (command h end) (h.name ∷ []) h
  below :
      (h d : Header) (b c : Command) (cs : Commands) (path : List Text)
      → IsListed h
      → Among c (next b cs)
      → Leads c path d
      → Leads (command h (next b cs)) (h.name ∷ path) d

abbrev pub HasRow : CommandSpec → List CommandSpec → Type 0
HasRow s [] = ⊥
HasRow s (x ∷ xs) = (s ≡ x) ⊎ HasRow s xs

-- A row is that of a command that `c` leads to.
abbrev pub IsRowOf : Command → List Text → CommandSpec → Type 0
IsRowOf c prefix s =
    (path : List Text) × (h : Header) × Leads c path h × (s ≡ spec_of h (prefix ++ path))

abbrev pub IsRow : Commands → List Text → CommandSpec → Type 0
IsRow cs prefix s = (c : Command) × Among c cs × IsRowOf c prefix s

HasRow-left : (s : CommandSpec) (xs ys : List CommandSpec) → HasRow s xs → HasRow s (xs ++ ys)
HasRow-left s [] ys h = absurd h
HasRow-left s (x ∷ xs) ys (inl e) = inl e
HasRow-left s (x ∷ xs) ys (inr h) = inr (HasRow-left s xs ys h)

HasRow-right : (s : CommandSpec) (xs ys : List CommandSpec) → HasRow s ys → HasRow s (xs ++ ys)
HasRow-right s [] ys h = h
HasRow-right s (x ∷ xs) ys h = inr (HasRow-right s xs ys h)

HasRow-either :
    (s : CommandSpec) (xs ys : List CommandSpec) → HasRow s (xs ++ ys) → HasRow s xs ⊎ HasRow s ys
HasRow-either s [] ys h = inr h
HasRow-either s (x ∷ xs) ys (inl e) = inl (inl e)
HasRow-either s (x ∷ xs) ys (inr h) = elim (HasRow-either s xs ys h) [
  | inl a ↦ inl (inr a)
  | inr b ↦ inr b
]

step_path :
    (h d : Header) (prefix path : List Text)
    → spec_of d ((prefix ++ (h.name ∷ [])) ++ path) ≡ spec_of d (prefix ++ (h.name ∷ path))
step_path h d prefix path = ap (spec_of d) (append_assoc prefix (h.name ∷ []) path)

leaf_row :
    (h : Header) (prefix : List Text) (s : CommandSpec) (b : Bool)
    → is_listed h ≡ b
    → HasRow s (if b then spec_of h (prefix ++ (h.name ∷ [])) ∷ [] else [])
    → IsRowOf (command h end) prefix s
leaf_row h prefix s true e (inl q) = (h.name ∷ [], h, leaf h (shown h e), q)
leaf_row h prefix s true e (inr q) = absurd q
leaf_row h prefix s false e q = absurd q

group_row :
    (h : Header) (c : Command) (cs : Commands) (prefix : List Text) (s : CommandSpec)
    (rows : List CommandSpec) (b : Bool)
    → is_listed h ≡ b
    → (HasRow s rows → IsRow (next c cs) (prefix ++ (h.name ∷ [])) s)
    → HasRow s (if b then rows else [])
    → IsRowOf (command h (next c cs)) prefix s
group_row h c cs prefix s rows true e rows_of q =
    let (d, among, (path, l, leads, row)) = rows_of q in
    (
      h.name ∷ path,
      l,
      below h l c d cs path (shown h e) among leads,
      row ∙ step_path h l prefix path,
    )
group_row h c cs prefix s rows false e rows_of q = absurd q

-- A row of the list is one of the tree.
mutual
  unfolding walk_commands

  sound_at :
      (c : Command) (prefix : List Text) (s : CommandSpec)
      → HasRow s (walk_command c prefix)
      → IsRowOf c prefix s
  sound_at (command h end) prefix s q = leaf_row h prefix s (is_listed h) refl q
  sound_at (command h (next c cs)) prefix s q =
      group_row h c cs prefix s (walk_commands (next c cs) (prefix ++ (h.name ∷ []))) (is_listed h)
        refl (sound_of (next c cs) (prefix ++ (h.name ∷ [])) s) q

  sound_of :
      (cs : Commands) (prefix : List Text) (s : CommandSpec)
      → HasRow s (walk_commands cs prefix)
      → IsRow cs prefix s
  sound_of end prefix s q = absurd q
  sound_of (next c cs) prefix s q =
      elim (HasRow-either s (walk_command c prefix) (walk_commands cs prefix) q) [
        | inl a ↦ (c, first c cs, sound_at c prefix s a)
        | inr b ↦ let (d, among, row) = sound_of cs prefix s b in (d, later d c cs among, row)
      ]

-- A row of the tree is one of the list.
spread :
    (c : Command) (cs : Commands)
    → Among c cs
    → (prefix : List Text) (s : CommandSpec) → HasRow s (walk_command c prefix)
    → HasRow s (walk_commands cs prefix)
unfolding walk_commands
spread c cs (first d ds) prefix s q =
    HasRow-left s (walk_command d prefix) (walk_commands ds prefix) q
spread c cs (later a d ds among) prefix s q =
    HasRow-right s (walk_command d prefix) (walk_commands ds prefix) (spread a ds among prefix s q)

complete_at :
    (c : Command) (path : List Text) (h : Header)
    → Leads c path h
    → (prefix : List Text) → HasRow (spec_of h (prefix ++ path)) (walk_command c prefix)
unfolding walk_commands
complete_at c path h (leaf g e) prefix = rw (IsListed-shown g e) (inl refl)
complete_at c path h (below g d b a cs rest e among leads) prefix =
    let inner = prefix ++ (g.name ∷ []) in
    rw (IsListed-shown g e) (
      rw (sym (step_path g d prefix rest)) (
        spread a (next b cs) among inner (spec_of d (inner ++ rest))
          (complete_at a rest d leads inner)))

-- walkCommands gives a row exactly for each command that a path of subcommands leads to and that
-- has no subcommands itself, where every command on the path, the last one too, is not hidden and
-- is named neither help nor completion; the path of the row is the prefix and the names on the
-- path, and its arguments, flags and long-poll mark are those of that command at that path.
pub walk_commands-IsRow :
    (cs : Commands) (prefix : List Text) (s : CommandSpec)
    → HasRow s (walk_commands cs prefix) ↔ IsRow cs prefix s
walk_commands-IsRow cs prefix s = (
  sound_of cs prefix s,
  λ (c, among, (path, h, leads, row)).
      rw row
        (spread c cs among prefix (spec_of h (prefix ++ path)) (complete_at c path h leads prefix)),
)
